-- ===== src/Task/Runner.antt =====
-- task/runner.go: the runner that routes a change, a row or a range to the tasks watching a table.
pub mod Routes
pub mod Requests
pub mod Exclusion
use cdc_trigger.Prelude.{
  ℕ, String, Bool, true, false, not, ◌&&◌, ◌||◌, Option, none, some, List, [], ◌∷◌, lookup, str_eq,
  ltb, if◌then◌else◌,
}
use cdc_trigger.Errors.{
  Value, null, str, bytes, int64, float64, boolean, time, other, GoError, errorf, Result, ok, err,
  ◌>>=◌,
}
use cdc_trigger.Types.{EventData}
use cdc_trigger.Task.{ITask}
use cdc_trigger.Task.Watchers.{
  Watcher, Watchers, of, index_tasks, named, key_column, table_key_of, Outcome, run_task,
  run_task_range, run_each,
}

-- The interface of a consumer, as the runner uses it: `consume` is what `Consume` reports, given
-- the handler, and `close` what `Close` reports.
pub record IConsumer : Type 0 where
  pub consume : (EventData → Option GoError) → Option GoError
  pub close : Option GoError

-- `Runner`, with the flag that `mu` guards.
pub record Runner : Type 0 where
  pub consumer : Option IConsumer
  pub watched : Watchers
  pub consuming : Bool

unfoldable pub new_runner : Option IConsumer → List ITask → Result Runner
new_runner c tasks = do
  watched ← index_tasks tasks
  ok (record { consumer = c; watched = watched; consuming = false })

-- `v == nil || v == ""` for a value of type `any`
unfoldable pub is_empty : Value → Bool
is_empty null = true
is_empty (str s) = str_eq s ""
is_empty v = false

-- `w.mainPkVal(event)`: the value, and whether the change names a row with it.
unfoldable pub main_pk_val : Watcher → EventData → Value × Bool
unfolding is_empty
main_pk_val w event = elim (lookup (key_column w) event.row.data_map) [
  | none ↦ (null, false)
  | some value ↦ (value, not (is_empty value))
]

-- The function that `handle` hands to `runEach`; a change without a key is logged and left behind.
unfoldable pub handle_watcher : EventData → String → Watcher → Outcome
handle_watcher event key w =
    let (value, found) = main_pk_val w event in
    if found then run_task w key value else record { calls = []; error = none }

-- `handle`, with what `ctx.Err()` answers and the order that the goroutines run in.
unfoldable pub handle : Runner → Option GoError → EventData → List ℕ → Outcome
handle r ctx_err event order =
    let key = table_key_of event.row.database event.row.table in
    elim (of r.watched key) [
      | [] ↦ record { calls = []; error = none }
      | w ∷ watching ↦ run_each ctx_err (w ∷ watching) (handle_watcher event key) order
    ]

unfoldable pub run_by_primary_key : Runner → Option GoError → String → Value → List ℕ → Outcome
unfolding is_empty
run_by_primary_key r ctx_err table value order =
    if is_empty value
    then record {
      calls = [];
      error =
          some (
            errorf "the run of %s needs the value of the main table's primary key"
              (str table ∷ []));
    }
    else (elim (named r.watched table) [
      | err e ↦ record { calls = []; error = some e }
      | ok watching ↦ run_each ctx_err watching (λ w. run_task w table value) order
    ])

-- `start.Before(end)` is `<` on the instants.
unfoldable pub run_by_time_range : Runner → Option GoError → String → ℕ → ℕ → List ℕ → Outcome
run_by_time_range r ctx_err table start end order =
    if not (ltb start end)
    then record {
      calls = [];
      error = some (
          errorf "the range %s to %s of %s is empty: it ends before it starts"
            (time start ∷ time end ∷ str table ∷ []));
    }
    else (elim (named r.watched table) [
      | err e ↦ record { calls = []; error = some e }
      | ok watching ↦ run_each ctx_err watching (λ w. run_task_range w table start end) order
    ])

-- The part of `Run` under the lock: it refuses, or takes the consumer and sets the flag.
unfoldable pub run_begin : Runner → Result (IConsumer × Runner)
run_begin r =
    if r.consuming then err (errorf "the runner is already consuming" []) else (elim r.consumer [
      | none ↦ err (errorf "the runner has no consumer to read the events from" [])
      | some c ↦ ok (c, record r { consuming = true })
    ])

-- The deferred part of `Run`.
unfoldable pub run_end : Runner → Runner
run_end r = record r { consuming = false }

-- `Run` from its start to its end, with nothing else running: the handler ignores the calls, and
-- each event of the consumption is handled under the context and the schedule given for it.
unfoldable pub run :
    Runner → (EventData → Option GoError) → (EventData → List ℕ) → Option GoError × Runner
unfolding run_begin run_end
run r ctx_err order = elim (run_begin r) [
  | err e ↦ (some e, r)
  | ok (c, started) ↦ (
    c.consume (λ event. (handle started (ctx_err event) event (order event)).error),
    run_end started,
  )
]

unfoldable pub close : Runner → Option GoError
close r = elim r.consumer [ none ↦ none | some c ↦ c.close ]
