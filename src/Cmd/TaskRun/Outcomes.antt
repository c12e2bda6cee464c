-- ===== src/Cmd/TaskRun/Outcomes.antt =====
-- When the commands of cmd/taskrun.go succeed, and what they release.
use cdc_trigger.Prelude.{
  ℕ, String, ◌≡◌, ◌≢◌, ◌↔◌, refl, ◌∙◌, ◌⊎◌, inl, inr, true, false, Option, none, List, [], ◌∷◌, map,
  arith, All, All-append, length, str_eq, Bool-cases,
}
use cdc_trigger.Errors.{Value, str, GoError, Result, ok, err}
use cdc_trigger.Types.{EventData}
use cdc_trigger.Task.{ITask, LogTask, log_task, Table}
use cdc_trigger.Task.Watchers.{Watchers, index_tasks, Watcher, key_of, run_task}
use cdc_trigger.Task.Watchers.Routing.{routed, routed_task, routed_subs, IsWellDeclared}
use cdc_trigger.Task.Watchers.Index.{index_tasks_accepts_iff}
use cdc_trigger.Task.Watchers.FanOut.{IsSchedule, run_each-schedule}
use cdc_trigger.Task.Runner.{Runner, IConsumer, new_runner, run_by_primary_key, is_empty}
use cdc_trigger.Task.Runner.Routes.{errors_join-none}
use cdc_trigger.Task.Runner.Requests.{named_iff, run_by_primary_key_refuses}
use cdc_trigger.Cmd.TaskRun.{build_tasks, task_run, task_run_by_primary_key}

-- The task of the watcher only logs, so it reports no error.
abbrev Logs : Value → Watcher → Type 0
Logs v w = w.task.run_by_primary_key w.table v ≡ none

routed_subs-Logs :
    (v : Value) (t : LogTask) (subs : List Table) (key : String)
    → All (Logs v) (routed_subs (log_task t) subs key)
unfolding log_task
routed_subs-Logs v t [] key = tt
routed_subs-Logs v t (sub ∷ subs) key = elim (Bool-cases (str_eq (key_of sub) key)) [
  | inl same ↦ rw same (refl, routed_subs-Logs v t subs key)
  | inr other ↦ rw other (routed_subs-Logs v t subs key)
]

routed_task-Logs :
    (v : Value) (t : LogTask) (key : String) → All (Logs v) (routed_task (log_task t) key)
unfolding log_task
routed_task-Logs v t key =
    let subs = routed_subs-Logs v t t.sub key in
    elim (Bool-cases (str_eq (key_of t.main) key)) [
      | inl same ↦ rw same (refl, subs)
      | inr other ↦ rw other subs
    ]

routed-Logs :
    (v : Value) (tasks : List LogTask) (key : String)
    → All (Logs v) (routed (build_tasks tasks) key)
unfolding build_tasks
routed-Logs v [] key = tt
routed-Logs v (t ∷ tasks) key =
    All-append (Logs v) (routed_task (log_task t) key) _ (routed_task-Logs v t key)
      (routed-Logs v tasks key)

Logs-no_errors :
    (v : Value) (key : String) (ws : List Watcher)
    → All (Logs v) ws
    → All (λ e. e ≡ none) (map (λ w. (run_task w key v).error) ws)
unfolding run_task
Logs-no_errors v key [] h = tt
Logs-no_errors v key (w ∷ ws) h = (ground (arith, h.0), Logs-no_errors v key ws h.1)

module _ (tasks : List LogTask) (table value : String) (order : List ℕ)
    (scheduled : IsSchedule order (length (routed (build_tasks tasks) table))) where
  runner_succeeds :
      (r : Runner)
      → new_runner none (build_tasks tasks) ≡ ok r
      → str_eq value "" ≡ false
      → routed (build_tasks tasks) table ≢ []
      → (run_by_primary_key r none table (str value) order).error ≡ none
  unfolding run_by_primary_key is_empty
  runner_succeeds r built usable watched =
      let ws = routed (build_tasks tasks) table in
      let found = (named_iff none (build_tasks tasks) r built table ws).1 (refl, watched) in
      let (e, _) = run_each-schedule ws (λ w. run_task w table (str value)) order scheduled in
      rw usable (
        rw (found, run_by_primary_key)
          (e
            ∙ (errors_join-none _).1
                (Logs-no_errors (str value) table ws (routed-Logs (str value) tasks table))))

new_runner_iff :
    (tasks : List ITask)
    → ((r : Runner) × (new_runner none tasks ≡ ok r)) ↔ All IsWellDeclared tasks
unfolding new_runner
new_runner_iff tasks = (
  λ (r, h). (index_tasks_accepts_iff tasks).0 (indexed r h (index_tasks tasks) refl),
  λ h.
      let (idx, e) = (index_tasks_accepts_iff tasks).1 h in
      (record { consumer = none; watched = idx; consuming = false }, rw e),
)
  where
    indexed :
        (r : Runner)
        → new_runner none tasks ≡ ok r
        → (x : Result Watchers) → index_tasks tasks ≡ x
        → (idx : Watchers) × (index_tasks tasks ≡ ok idx)
    indexed r h (ok idx) e = (idx, e)
    indexed r h (err x) e = absurd (ground (arith, e, h))

-- Under a live context and whatever the schedule, `TaskRunByPrimaryKey` succeeds exactly when every task of the configuration is well declared, the value
-- is not empty and some task watches the table.
pub task_run_by_primary_key_iff :
    (tasks : List LogTask) (table value : String) (order : List ℕ)
    → IsSchedule order (length (routed (build_tasks tasks) table))
    → ((task_run_by_primary_key tasks none table value order).error ≡ none) ↔ (
        All IsWellDeclared (build_tasks tasks)
        × (str_eq value "" ≡ false)
        × (routed (build_tasks tasks) table ≢ []))
unfolding task_run_by_primary_key is_empty
task_run_by_primary_key_iff tasks table value order scheduled = (
  λ h. forward (new_runner none (build_tasks tasks)) refl h,
  λ (well, usable, watched).
      let (r, built) = (new_runner_iff (build_tasks tasks)).1 well in
      rw (built, task_run_by_primary_key)
        (runner_succeeds tasks table value order scheduled r built usable watched),
)
  where
    forward :
        (x : Result Runner)
        → new_runner none (build_tasks tasks) ≡ x
        → (task_run_by_primary_key tasks none table value order).error ≡ none
        → All IsWellDeclared (build_tasks tasks)
          × (str_eq value "" ≡ false)
          × (routed (build_tasks tasks) table ≢ [])
    forward (err x) e h = absurd (ground (arith, e, h))
    forward (ok r) e h =
        let refused =
          λ (why : (is_empty (str value) ≡ true)
              ⊎ (routed (build_tasks tasks) table ≡ [])
              ⊎ (◌≢◌ {A = Option GoError} none none)).
            (run_by_primary_key_refuses none (build_tasks tasks) r e none table (str value) order
              why).1 in
        let reported : (run_by_primary_key r none table (str value) order).error ≡ none =
          rw (e, task_run_by_primary_key) at h in
        (
          (new_runner_iff (build_tasks tasks)).0 (r, e),
          elim (Bool-cases (str_eq value "")) [
            | inl empty ↦ absurd (refused (inl empty) reported)
            | inr usable ↦ usable
          ],
          λ unwatched. refused (inr (inl unwatched)) reported,
        )

-- Whatever happens, `TaskRun` closes the consumer exactly as often as it created one.
pub consumer_closes-task_run :
    (new_consumer : Result IConsumer) (tasks : List LogTask) (ctx_err : EventData → Option GoError)
    (order : EventData → List ℕ)
    → (task_run new_consumer tasks ctx_err order).consumer_closes
      ≡ elim new_consumer [ err e ↦ 0 | ok c ↦ 1 ]
unfolding task_run new_runner
consumer_closes-task_run (err e) tasks ctx_err order = refl
consumer_closes-task_run (ok c) tasks ctx_err order = ground (arith, build_tasks tasks)
