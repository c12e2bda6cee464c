-- ===== src/Task/Watchers.antt =====
-- task/watchers.go: the index that routes a table to the tasks watching it, and the fan-out.
pub mod Keys
pub mod Routing
pub mod Index
pub mod FanOut
use Prim.Native.Char.{code}
use Prim.Native.String.{◌++◌ as str_append}
use cdc_trigger.Prelude.{
  ℕ, String, Bool, true, false, ◌||◌, Option, none, some, List, [], ◌∷◌, ◌++◌, length, get_elem?,
  set, replicate, snoc, lookup, insert, str_eq, ◌==◌, if◌then◌else◌,
}
use cdc_trigger.Errors.{
  Value, str, time, GoError, errorf, wrapf, Result, ok, err, ◌>>=◌, errors_join,
}
use cdc_trigger.Task.{Table, ITask}

pub record Watcher : Type 0 where
  pub task : ITask
  pub table : Table
  pub main : Bool

-- `watchers`, a map from db.table to a slice
abbrev pub Watchers : Type 0
Watchers = List (String × List Watcher)

-- `strings.Contains(s, ".")`
unfoldable pub contains_dot : String → Bool
contains_dot String.[] = false
contains_dot (String.◌∷◌ c s) = code c == b'.' || contains_dot s

unfoldable pub table_key_of : String → String → String
table_key_of database table = str_append database (str_append "." table)

unfoldable pub validate_table : Table → Bool → Option GoError
validate_table t main =
    if str_eq t.database "" || str_eq t.name ""
    then some (errorf "a table needs a database and a name, got %q.%q" names)
    else if contains_dot t.database || contains_dot t.name
    then some (
        errorf
          "neither the database %q nor the table %q can hold a dot: a table is addressed as db.table"
          names)
    else if main
    then (if str_eq t.primary_key ""
        then some (
            errorf
              "the main table %s.%s needs a primary key: the column holding the value the tasks are run by"
              names)
        else none)
    else if str_eq t.ref_column ""
    then some (
        errorf
          "the sub table %s.%s needs a ref_column: the column holding the primary key of the main table"
          names)
    else none
  where
    names : List Value
    names = str t.database ∷ str t.name ∷ []

-- A missing key of a map of slices is the nil slice.
unfoldable pub of : Watchers → String → List Watcher
of ws key = elim (lookup key ws) [ none ↦ [] | some watching ↦ watching ]

unfoldable pub add : Watchers → Table → Watcher → Watchers
unfolding of
add ws t w = let key = table_key_of t.database t.name in insert key (snoc (of ws key) w) ws

-- `declared[key]` of a map of Booleans: a missing key is false.
unfoldable pub is_declared : List (String × Bool) → String → Bool
is_declared declared key = elim (lookup key declared) [ none ↦ false | some b ↦ b ]

abbrev pub key_of : Table → String
key_of t = table_key_of t.database t.name

abbrev pub main_watcher : ITask → Watcher
main_watcher t = record { task = t; table = t.main_table; main = true }

abbrev pub sub_watcher : ITask → Table → Watcher
sub_watcher t sub = record { task = t; table = sub; main = false }

abbrev in_task : ITask → GoError → GoError
in_task t e = wrapf "in %T: %w" (str t.type_name ∷ []) e

-- The inner loop of `indexTasks`, over the sub tables of one task.
unfoldable pub index_subs : ITask → List Table → List (String × Bool) → Watchers → Result Watchers
index_subs t [] declared index = ok index
index_subs t (sub ∷ subs) declared index =
    let rest =
      index_subs t subs (insert (key_of sub) true declared) (add index sub (sub_watcher t sub)) in
    elim (validate_table sub false) [
      | some e ↦ err (in_task t e)
      | none ↦
          if is_declared declared (key_of sub)
          then err (
              errorf
                "in %T: the table %s is declared twice, so one of its changes would be run twice"
                (str t.type_name ∷ str (key_of sub) ∷ []))
          else rest
    ]

-- The body of the outer loop, for one task.
unfoldable pub index_task : ITask → Watchers → Result Watchers
unfolding index_subs
index_task t index = elim (validate_table t.main_table true) [
  | some e ↦ err (in_task t e)
  | none ↦
      index_subs t t.sub_tables ((key_of t.main_table, true) ∷ [])
        (add index t.main_table (main_watcher t))
]

-- The outer loop, over the tasks.
unfoldable pub index_from : List ITask → Watchers → Result Watchers
unfolding index_task
index_from [] index = ok index
index_from (t ∷ tasks) index = do index' ← index_task t index; index_from tasks index'

unfoldable pub index_tasks : List ITask → Result Watchers
unfolding index_from
index_tasks tasks = index_from tasks []

unfoldable pub named : Watchers → String → Result (List Watcher)
named ws table =
    if contains_dot table
    then (elim (of ws table) [
      | [] ↦ err (errorf "no task watches the table %s" (str table ∷ []))
      | w ∷ watching ↦ ok (w ∷ watching)
    ])
    else err (errorf "the table %q has to be written as db.table" (str table ∷ []))

unfoldable pub key_column : Watcher → String
key_column w = if w.main then w.table.primary_key else w.table.ref_column

unfoldable pub key_role : Watcher → String
key_role w = if w.main then "primary key" else "ref_column"

-- A call of a task that a run makes.
pub data Call : Type 0 where
  by_primary_key : ITask → Table → Value → Call
  by_time_range : ITask → Table → ℕ → ℕ → Call

-- What one goroutine does: the calls it makes, and the error it reports.
pub record Outcome : Type 0 where
  pub calls : List Call
  pub error : Option GoError

unfoldable pub run_task : Watcher → String → Value → Outcome
run_task w table_key main_pk_val = record {
  calls = by_primary_key w.task w.table main_pk_val ∷ [];
  error = elim (w.task.run_by_primary_key w.table main_pk_val) [
    | none ↦ none
    | some e ↦ some (
        wrapf "%T failed for the row %v of %s: %w"
          (str w.task.type_name ∷ main_pk_val ∷ str table_key ∷ []) e)
  ];
}

unfoldable pub run_task_range : Watcher → String → ℕ → ℕ → Outcome
run_task_range w table_key start end = record {
  calls = by_time_range w.task w.table start end ∷ [];
  error = elim (w.task.run_by_time_range w.table start end) [
    | none ↦ none
    | some e ↦ some (
        wrapf "%T failed for %s to %s of %s: %w"
          (str w.task.type_name ∷ time start ∷ time end ∷ str table_key ∷ []) e)
  ];
}

-- What the goroutines of one run share: the calls made so far, and the slice `errs`.
pub record Shared : Type 0 where
  pub calls : List Call
  pub errs : List (Option GoError)

-- The goroutine of index `i` runs: it calls `fn` and writes `errs[i]`.
unfoldable pub complete : List Watcher → (Watcher → Outcome) → ℕ → Shared → Shared
complete ws fn i s = elim (get_elem? ws i) [
  | none ↦ s
  | some w ↦ record { calls = s.calls ++ (fn w).calls; errs = set s.errs i (fn w).error }
]

-- `order` is the order in which the goroutines run, which the scheduler chooses.
unfoldable pub complete_all : List Watcher → (Watcher → Outcome) → List ℕ → Shared → Shared
unfolding complete
complete_all ws fn [] s = s
complete_all ws fn (i ∷ order) s = complete_all ws fn order (complete ws fn i s)

-- `ctx_err` is what `ctx.Err()` answers at the start.
unfoldable pub run_each : Option GoError → List Watcher → (Watcher → Outcome) → List ℕ → Outcome
unfolding complete_all
run_each (some e) ws fn order = record { calls = []; error = some e }
run_each none ws fn order =
    let s = complete_all ws fn order (record { calls = []; errs = replicate (length ws) none }) in
    record { calls = s.calls; error = errors_join s.errs }
