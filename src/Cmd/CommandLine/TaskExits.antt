-- ===== src/Cmd/CommandLine/TaskExits.antt =====
-- When cmd/cdc-trigger-task/main.go exits with 0.
use cdc_trigger.Prelude.{
  ℕ, zero, suc, String, ◌≡◌, ◌↔◌, sym, ap, ◌∙◌, inl, inr, Option, none, some, List, arith, length,
  get_elem?,
}
use cdc_trigger.Errors.{GoError, Result, ok, Result-cases}
use cdc_trigger.Types.{EventData}
use cdc_trigger.Task.{LogTask}
use cdc_trigger.Task.Runner.{IConsumer}
use cdc_trigger.Task.Watchers.Routing.{routed}
use cdc_trigger.Task.Watchers.FanOut.{IsSchedule}
use cdc_trigger.Queue.Consumer.{ConsumerType}
use cdc_trigger.Cmd.TaskRun.{build_tasks}
use cdc_trigger.Cmd.TaskRun.Actions.{
  TaskConfig, load_task_config, task_run_command, task_run_by_primary_key_command,
  task_run_by_time_range_command, CanRun, task_run_by_primary_key_command_iff,
}
use cdc_trigger.Cmd.CommandLine.{
  Context, background, Input, Action, flag_task_config, task_before, TaskWorld, run_command,
  run_by_pk_command, run_by_range_command, task_app, actions, exit_code, dispatch,
}
use cdc_trigger.Cmd.CommandLine.ExitCodes.{
  exit_code-zero, after_before, after_before-none, dispatch-after_before,
}

-- The file at a path loads.
abbrev pub Loads : (String → Result TaskConfig) → String → Type 0
Loads load_file path = (cfg : TaskConfig) × (load_file path ≡ ok cfg)

module _ (load_file : String → Result TaskConfig) (ctx : Context) (root : Input) where
  task_before-ok :
      (cfg : TaskConfig)
      → load_file (root.string flag_task_config) ≡ ok cfg
      → task_before load_file ctx root ≡ (record ctx { task_config = some cfg }, none)
  unfolding task_before load_task_config
  task_before-ok cfg h = ground (arith, h)

  task_before-Loads :
      (task_before load_file ctx root).1 ≡ none → Loads load_file (root.string flag_task_config)
  unfolding task_before load_task_config
  task_before-Loads n = elim (Result-cases (load_file (root.string flag_task_config))) [
    | inl (e, bad) ↦ absurd (ground (arith, bad, n))
    | inr found ↦ found
  ]

-- A command whose file does not load reports an error.
run-Loads :
    (load_file : String → Result TaskConfig) (creators : ConsumerType → Result IConsumer)
    (path : String) (ctx_err : EventData → Option GoError) (order : EventData → List ℕ)
    → (task_run_command load_file creators path ctx_err order).result ≡ none
    → Loads load_file path
unfolding task_run_command load_task_config
run-Loads load_file creators path ctx_err order h = elim (Result-cases (load_file path)) [
  | inl (e, bad) ↦ absurd (ground (arith, bad, h))
  | inr found ↦ found
]

run_by_pk-Loads :
    (load_file : String → Result TaskConfig) (path : String) (args : List String)
    (ctx_err : Option GoError) (order : List LogTask → String → List ℕ)
    → (task_run_by_primary_key_command load_file path args ctx_err order).error ≡ none
    → Loads load_file path
unfolding task_run_by_primary_key_command load_task_config
run_by_pk-Loads load_file path args ctx_err order h = elim (Result-cases (load_file path)) [
  | inl (e, bad) ↦ absurd (ground (arith, bad, h))
  | inr found ↦ found
]

run_by_range-Loads :
    (load_file : String → Result TaskConfig) (parse : String → Result ℕ) (path : String)
    (args : List String) (ctx_err : Option GoError) (order : List LogTask → String → List ℕ)
    → (task_run_by_time_range_command load_file parse path args ctx_err order).error ≡ none
    → Loads load_file path
unfolding task_run_by_time_range_command load_task_config
run_by_range-Loads load_file parse path args ctx_err order h =
    elim (Result-cases (load_file path)) [
      | inl (e, bad) ↦ absurd (ground (arith, bad, h))
      | inr found ↦ found
    ]

same_report :
    (a b : Action) (ctx : Context) (given : Input)
    → ◌≡◌ {A = Option Action} (some a) (some b)
    → a ctx given ≡ b ctx given
same_report a b ctx given h = let same : a ≡ b = cc in ap (λ (f : Action). f ctx given) same

-- Whichever action it is, it succeeds only if its file loads.
action-Loads :
    (w : TaskWorld) (n : ℕ) (action : Action) (ctx : Context) (given : Input)
    → get_elem? (actions (task_app w)) n ≡ some action
    → action ctx given ≡ none
    → Loads w.load_file (given.string flag_task_config)
unfolding task_app run_command run_by_pk_command run_by_range_command
action-Loads w zero action ctx given chosen h =
    run-Loads w.load_file w.new_consumers (given.string flag_task_config) w.event_err w.event_order
      (same_report (run_command w).action action ctx given chosen ∙ h)
action-Loads w (suc zero) action ctx given chosen h =
    run-Loads w.load_file w.new_consumers (given.string flag_task_config) w.event_err w.event_order
      (same_report (run_command w).action action ctx given chosen ∙ h)
action-Loads w (suc (suc zero)) action ctx given chosen h =
    run_by_pk-Loads w.load_file (given.string flag_task_config) given.args w.ctx_err w.order
      (same_report (run_by_pk_command w).action action ctx given chosen ∙ h)
action-Loads w (suc (suc (suc zero))) action ctx given chosen h =
    run_by_range-Loads w.load_file w.parse (given.string flag_task_config) given.args w.ctx_err
      w.order (same_report (run_by_range_command w).action action ctx given chosen ∙ h)
action-Loads w (suc (suc (suc (suc n)))) action ctx given chosen h = cc

module _ (w : TaskWorld) (runs : List String → Option GoError) (args : List String)
    (root given : Input) where
  abbrev Dispatched : Action → Type 0
  Dispatched action = runs args ≡ dispatch (task_app w) action root given

  runs-after_before :
      (action : Action)
      → Dispatched action
      → runs args ≡ after_before action given (task_before w.load_file background root)
  unfolding task_app
  runs-after_before action ran = ran ∙ dispatch-after_before (task_app w) action root given

  root-Loads :
      (action : Action)
      → Dispatched action
      → runs args ≡ none
      → Loads w.load_file (root.string flag_task_config)
  root-Loads action ran h = task_before-Loads w.load_file background root (
      after_before-none action given (task_before w.load_file background root)
        (sym (runs-after_before action ran) ∙ h))

  runs-action :
      (action : Action) (cfg : TaskConfig)
      → Dispatched action
      → w.load_file (root.string flag_task_config) ≡ ok cfg
      → runs args ≡ action (record background { task_config = some cfg }) given
  runs-action action cfg ran good =
      runs-after_before action ran
      ∙ ap (after_before action given) (task_before-ok w.load_file background root cfg good)

-- Where the command line library runs `TaskBefore` on the root's input and then the action of the
-- command on its own: whichever of its actions the command line of `cdc-trigger-task` selects, it
-- exits with 0 only if two files load, the one that the flag `task-config` of the root names or
-- defaults to, and the one that the flag names for the command.
pub task_app_needs_both :
    (w : TaskWorld) (runs : List String → Option GoError) (args : List String) (n : ℕ)
    (action : Action) (root given : Input)
    → get_elem? (actions (task_app w)) n ≡ some action
    → runs args ≡ dispatch (task_app w) action root given
    → exit_code (runs args) ≡ 0
    → Loads w.load_file (root.string flag_task_config)
      × Loads w.load_file (given.string flag_task_config)
task_app_needs_both w runs args n action root given chosen ran h =
    let fine = (exit_code-zero (runs args)).0 h in
    let (cfg, good) = root-Loads w runs args root given action ran fine in
    (
      (cfg, good),
      action-Loads w n action (record background { task_config = some cfg }) given chosen
          (sym (runs-action w runs args root given action cfg ran good) ∙ fine),
    )

-- Under the same reading of the command line library, a live context, and whatever the schedules:
-- `run-by-pk` exits with 0 exactly when the root's file loads, and the command's file loads, there
-- are two arguments at least, every task of the command's file is well declared, the value is not
-- empty, and some task watches the table.
pub run_by_pk_exits :
    (w : TaskWorld) (runs : List String → Option GoError) (args : List String) (root given : Input)
    → runs args ≡ dispatch (task_app w) (run_by_pk_command w).action root given
    → w.ctx_err ≡ none
    → ((tasks : List LogTask) (table : String)
        → IsSchedule (w.order tasks table) (length (routed (build_tasks tasks) table)))
    → (exit_code (runs args) ≡ 0) ↔ (
        Loads w.load_file (root.string flag_task_config)
        × CanRun w.load_file (given.string flag_task_config) given.args)
unfolding run_by_pk_command
run_by_pk_exits w runs args root given ran live scheduled =
    let action = (run_by_pk_command w).action in
    let path = given.string flag_task_config in
    let iff = task_run_by_primary_key_command_iff w.load_file path given.args w.order scheduled in
    let same =
      ap (λ e. (task_run_by_primary_key_command w.load_file path given.args e w.order).error)
        live in
    let zero_iff = exit_code-zero (runs args) in
    (
      λ h.
          let (cfg, good) = root-Loads w runs args root given action ran (zero_iff.0 h) in
          (
            (cfg, good),
            iff.0 (
                sym same
                ∙ sym (runs-action w runs args root given action cfg ran good)
                ∙ zero_iff.0 h),
          ),
      λ ((cfg, good), can).
          zero_iff.1 (runs-action w runs args root given action cfg ran good ∙ same ∙ iff.1 can),
    )
