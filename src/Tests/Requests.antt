-- ===== src/Tests/Requests.antt =====
-- The runs of task/runner.go that a caller asks for, run on two tasks.
use cdc_trigger.Prelude.{◌≡◌, ◌≢◌, refl, inl, true, false, none, some, [], ◌∷◌, lookup, insert}
use cdc_trigger.Errors.{ok, int64, pos}
use cdc_trigger.Task.Watchers.{
  of, add, contains_dot, table_key_of, validate_table, is_declared, index_subs, index_task,
  index_from, index_tasks, key_column,
}
use cdc_trigger.Task.Watchers.Routing.{routed}
use cdc_trigger.Task.Runner.{
  IConsumer, Runner, new_runner, is_empty, main_pk_val, handle, run_by_primary_key, run_begin,
}
use cdc_trigger.Task.Runner.Routes.{event_key}
use cdc_trigger.Task.Runner.Requests.{handle-run_by_primary_key}
use cdc_trigger.Task.Runner.Exclusion.{
  Running, begin, RunReach, here, next, IsExclusive, RunReach-IsExclusive,
}
use cdc_trigger.Tests.Samples.{tasks, index, user_changed}

abbrev runner : Runner
runner = record { consumer = none; watched = index; consuming = false }

built : new_runner none tasks ≡ ok runner
unfolding new_runner index_tasks index_from index_task index_subs add of table_key_of validate_table
    contains_dot is_declared lookup insert
built = refl

users_watched : routed tasks "shop.users" ≢ []
unfolding table_key_of
users_watched = λ e. cc

handle-run_by_primary_key_example :
    handle runner none user_changed (0 ∷ 1 ∷ [])
    ≡ run_by_primary_key runner none (event_key user_changed) (int64 (pos 5)) (0 ∷ 1 ∷ [])
unfolding of lookup table_key_of is_empty main_pk_val key_column
handle-run_by_primary_key_example =
    handle-run_by_primary_key runner none user_changed (int64 (pos 5)) (0 ∷ 1 ∷ []) (λ e. cc) refl
      (refl, (refl, tt))

abbrev idle_consumer : IConsumer
idle_consumer = record { consume = λ _. none; close = none }

abbrev idle : Running
idle = record {
  runner = record { consumer = some idle_consumer; watched = index; consuming = false };
  active = 0;
}

abbrev busy : Running
busy = record {
  runner = record { consumer = some idle_consumer; watched = index; consuming = true };
  active = 1;
}

consuming : RunReach idle busy
unfolding run_begin
consuming = next here (begin idle idle_consumer busy.runner refl)

RunReach-IsExclusive_example : IsExclusive busy
RunReach-IsExclusive_example =
    RunReach-IsExclusive (record { flagged = inl (refl, refl) }) consuming
