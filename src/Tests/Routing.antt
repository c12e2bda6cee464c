-- ===== src/Tests/Routing.antt =====
-- The routing and the fan-out of task/watchers.go and task/runner.go, run on two tasks.
use mathlib.Core.List.{Perm, Permᴰ}
use cdc_trigger.Prelude.{◌≡◌, ◌↔◌, refl, false, none, [], ◌∷◌, map, All, lookup, insert}
use cdc_trigger.Errors.{errors_join, ok, null}
use cdc_trigger.Task.{Table}
use cdc_trigger.Task.Watchers.{
  Watchers, of, add, contains_dot, table_key_of, validate_table, is_declared, index_subs,
  index_task, index_from, index_tasks, run_task, run_each,
}
use cdc_trigger.Task.Watchers.Routing.{routed, IsWellDeclared}
use cdc_trigger.Task.Watchers.Index.{of-index_tasks, index_tasks_accepts_iff}
use cdc_trigger.Task.Watchers.FanOut.{run_each-schedule, calls_of}
use cdc_trigger.Task.Runner.{Runner, new_runner, handle}
use cdc_trigger.Task.Runner.Routes.{handle_accepts_iff, Settles, event_key}
use cdc_trigger.Tests.Samples.{tasks, sync_users, audit_users, index, user_changed}

abbrev pub runner : Runner
runner = record { consumer = none; watched = index; consuming = false }

-- The same table, as a sub table of another task.
abbrev owned : Table
owned = record { database = "shop"; name = "users"; primary_key = ""; ref_column = "owner" }

indexed : index_tasks tasks ≡ ok index
unfolding index_tasks index_from index_task index_subs add of table_key_of validate_table
    contains_dot is_declared lookup insert
indexed = refl

pub built : new_runner none tasks ≡ ok runner
unfolding new_runner index_tasks index_from index_task index_subs add of table_key_of validate_table
    contains_dot is_declared lookup insert
built = refl

of-index_tasks_example : of index "shop.users" ≡ routed tasks "shop.users"
of-index_tasks_example = of-index_tasks tasks index indexed "shop.users"

index_tasks_accepts_iff_example :
    ((idx : Watchers) × (index_tasks tasks ≡ ok idx)) ↔ All IsWellDeclared tasks
index_tasks_accepts_iff_example = index_tasks_accepts_iff tasks

-- The second goroutine runs first.
run_each-schedule_example :
    let ws = sync_users ∷ audit_users ∷ [] in
    ((run_each none ws (λ w. run_task w "shop.users" null) (1 ∷ 0 ∷ [])).error
      ≡ errors_join (map (λ w. (run_task w "shop.users" null).error) ws))
    × Perm
        (run_each none ws (λ w. run_task w "shop.users" null) (1 ∷ 0 ∷ [])).calls
        (calls_of ws (λ w. run_task w "shop.users" null))
run_each-schedule_example =
    run_each-schedule (sync_users ∷ audit_users ∷ []) (λ w. run_task w "shop.users" null)
      (1 ∷ 0 ∷ []) (Permᴰ.swap refl refl)

handle_accepts_iff_example :
    ((handle runner none user_changed (1 ∷ 0 ∷ [])).error ≡ none)
    ↔ All (Settles user_changed) (routed tasks (event_key user_changed))
unfolding table_key_of
handle_accepts_iff_example =
    handle_accepts_iff none tasks runner user_changed (1 ∷ 0 ∷ []) built (Permᴰ.swap refl refl)
