-- ===== src/Task/Runner/Routes.antt =====
-- What the runs of task/runner.go do, in the terms of the tables that the tasks declare.
use Prim.Native.Char.{Char}
use Prim.Native.String.{◌++◌ as str_append, ◌∷◌}
use text.Mathlib.TextLemmas.{nil-append, cons-append}
use mathlib.Core.List.{Perm}
use mathlib.Core.List.Perm
use cdc_trigger.Prelude.{
  ℕ, String, ◌≡◌, ◌↔◌, refl, sym, ◌∙◌, ◌⊎◌, inl, inr, true, false, Option, none, some, List, [],
  ◌∷◌, map, arith, All, length, Bool-cases, eq_iff, if◌then◌else◌,
}
use cdc_trigger.Errors.{◌>>=◌, GoError, Result, ok, err, errors_join, present}
use cdc_trigger.Types.{EventData}
use cdc_trigger.Task.{ITask, Table}
use cdc_trigger.Task.Watchers.{
  by_primary_key, Watcher, Watchers, of, index_tasks, contains_dot, table_key_of, key_of, Call,
  run_task,
}
use cdc_trigger.Task.Watchers.Routing.{routed, routed_subs}
use cdc_trigger.Task.Watchers.Index.{of-index_tasks}
use cdc_trigger.Task.Watchers.FanOut.{IsSchedule, calls_of, run_each-schedule}
use cdc_trigger.Task.Runner.{Runner, IConsumer, new_runner, main_pk_val, handle_watcher, handle}

-- The key of the table that a change is of.
abbrev pub event_key : EventData → String
event_key event = table_key_of event.row.database event.row.table

pub of-new_runner :
    (c : Option IConsumer) (tasks : List ITask) (r : Runner)
    → new_runner c tasks ≡ ok r
    → (key : String) → of r.watched key ≡ routed tasks key
unfolding new_runner
of-new_runner c tasks r h key = go (index_tasks tasks) refl h
  where
    go :
        (x : Result Watchers)
        → index_tasks tasks ≡ x
        → (x >>= λ watched. ok (record { consumer = c; watched = watched; consuming = false }))
          ≡ ok r
        → of r.watched key ≡ routed tasks key
    go (ok idx) e f = ground (arith, of-index_tasks tasks idx e key)
    go (err x) e f = cc

handle-run_each :
    (r : Runner) (event : EventData) (order : List ℕ) (ws : List Watcher)
    → of r.watched (event_key event) ≡ ws
    → IsSchedule order (length ws)
    → ((handle r none event order).error
        ≡ errors_join (map (λ w. (handle_watcher event (event_key event) w).error) ws))
      × Perm
          (handle r none event order).calls
          (calls_of ws (handle_watcher event (event_key event)))
unfolding handle
handle-run_each r event order [] e p =
    rw (e, handle) (unfold errors_join present in refl, Perm.refl [])
handle-run_each r event order (w ∷ ws) e p =
    rw (e, handle) (run_each-schedule (w ∷ ws) (handle_watcher event (event_key event)) order p)

pub errors_join-none :
    (es : List (Option GoError)) → (errors_join es ≡ none) ↔ All (λ e. e ≡ none) es
unfolding errors_join present
errors_join-none [] = (λ h. tt, λ h. refl)
errors_join-none (none ∷ es) = let ih = errors_join-none es in (λ h. (refl, ih.0 h), λ h. ih.1 h.1)
errors_join-none (some e ∷ es) = (λ h. cc, λ h. ground (arith, h.0))

-- The watcher has nothing to do for the change, or its task reports no error.
abbrev pub Settles : EventData → Watcher → Type 0
Settles event w =
    ((main_pk_val w event).1 ≡ false)
    ⊎ (w.task.run_by_primary_key w.table (main_pk_val w event).0 ≡ none)

handle_watcher-none :
    (event : EventData) (key : String) (w : Watcher)
    → ((handle_watcher event key w).error ≡ none) ↔ Settles event w
unfolding handle_watcher run_task
handle_watcher-none event key w = (λ h. ground arith, λ h. ground arith)

All-errors-none :
    (event : EventData) (key : String) (ws : List Watcher)
    → All (λ e. e ≡ none) (map (λ w. (handle_watcher event key w).error) ws)
      ↔ All (Settles event) ws
All-errors-none event key [] = (λ h. tt, λ h. tt)
All-errors-none event key (w ∷ ws) =
    let here = handle_watcher-none event key w in
    let ih = All-errors-none event key ws in
    (λ h. (here.0 h.0, ih.0 h.1), λ h. (here.1 h.0, ih.1 h.1))

-- A change is accepted, under a live context and whatever the schedule, exactly when every task
-- watching its table either finds no key of a main row in it or reports no error for that row.
pub handle_accepts_iff :
    (c : Option IConsumer) (tasks : List ITask) (r : Runner) (event : EventData) (order : List ℕ)
    → new_runner c tasks ≡ ok r
    → IsSchedule order (length (routed tasks (event_key event)))
    → ((handle r none event order).error ≡ none)
      ↔ All (Settles event) (routed tasks (event_key event))
handle_accepts_iff c tasks r event order built p =
    let key = event_key event in
    let ws = routed tasks key in
    let (e, _) = handle-run_each r event order ws (of-new_runner c tasks r built key) p in
    let joins = errors_join-none (map (λ w. (handle_watcher event key w).error) ws) in
    let each = All-errors-none event key ws in
    (λ h. each.0 (joins.0 (sym e ∙ h)), λ h. e ∙ joins.1 (each.1 h))

-- One run by primary key for each watcher whose column the change carries.
abbrev pub wanted_calls : EventData → List Watcher → List Call
wanted_calls event [] = []
wanted_calls event (w ∷ ws) =
    if (main_pk_val w event).1
    then by_primary_key w.task w.table (main_pk_val w event).0 ∷ wanted_calls event ws
    else wanted_calls event ws

calls_of-wanted :
    (event : EventData) (key : String) (ws : List Watcher)
    → calls_of ws (handle_watcher event key) ≡ wanted_calls event ws
unfolding handle_watcher run_task
calls_of-wanted event key [] = refl
calls_of-wanted event key (w ∷ ws) = elim (Bool-cases (main_pk_val w event).1) [
  | inl found ↦ ground (arith, found, calls_of-wanted event key ws)
  | inr missing ↦ ground (arith, missing, calls_of-wanted event key ws)
]

pub handle_calls :
    (c : Option IConsumer) (tasks : List ITask) (r : Runner) (event : EventData) (order : List ℕ)
    → new_runner c tasks ≡ ok r
    → IsSchedule order (length (routed tasks (event_key event)))
    → Perm (handle r none event order).calls (wanted_calls event (routed tasks (event_key event)))
handle_calls c tasks r event order built p =
    let key = event_key event in
    let (_, calls) = handle-run_each r event order _ (of-new_runner c tasks r built key) p in
    rw (← calls_of-wanted event key (routed tasks key)) calls

abbrev dot : Char
dot = "."

pub contains_dot-append : (s t : String) → contains_dot (str_append s (str_append "." t)) ≡ true
unfolding contains_dot
contains_dot-append String.[] t = rw (nil-append, cons-append dot "" t)
contains_dot-append (String.◌∷◌ c s) t =
    rw (cons-append c s (str_append "." t)) (ground (arith, contains_dot-append s t))

-- A table that some task watches is written with a dot.
routed_subs-dot :
    (t : ITask) (subs : List Table) (table : String)
    → contains_dot table ≡ false
    → routed_subs t subs table ≡ []
unfolding table_key_of
routed_subs-dot t [] table h = refl
routed_subs-dot t (sub ∷ subs) table h = ground (
  arith,
  eq_iff (key_of sub) table,
  contains_dot-append sub.database sub.name,
  routed_subs-dot t subs table h,
)

pub routed-dot :
    (tasks : List ITask) (table : String) → contains_dot table ≡ false → routed tasks table ≡ []
unfolding table_key_of
routed-dot [] table h = refl
routed-dot (t ∷ tasks) table h = ground (
  arith,
  eq_iff (key_of t.main_table) table,
  contains_dot-append t.main_table.database t.main_table.name,
  routed_subs-dot t t.sub_tables table h,
  routed-dot tasks table h,
)
