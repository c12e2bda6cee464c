-- ===== src/Cmd/TaskRun/Actions.antt =====
-- The actions of the commands in cmd/taskrun.go: the file of tasks, the arguments, and the run.
use cdc_trigger.Prelude.{
  ℕ, String, ◌≡◌, ◌≢◌, ◌↔◌, refl, inl, inr, false, Option, none, some, List, [], ◌∷◌, arith, All,
  length, str_eq,
}
use cdc_trigger.Errors.{str, GoError, errorf, wrapf, Result, ok, err, Result-cases}
use cdc_trigger.Types.{EventData}
use cdc_trigger.Task.{LogTask}
use cdc_trigger.Task.Watchers.{Outcome}
use cdc_trigger.Task.Watchers.Routing.{routed, IsWellDeclared}
use cdc_trigger.Task.Watchers.FanOut.{IsSchedule}
use cdc_trigger.Task.Runner.{IConsumer}
use cdc_trigger.Queue.Consumer.{ConsumerType, new_consumer}
use cdc_trigger.Cmd.TaskRun.{
  build_tasks, TaskRunEnd, task_run, task_run_by_primary_key, task_run_by_time_range, failed,
}
use cdc_trigger.Cmd.TaskRun.Outcomes.{task_run_by_primary_key_iff}

-- `TaskConfig`, of whose consumer only the type is read here.
pub record TaskConfig : Type 0 where
  pub consumer : ConsumerType
  pub tasks : List LogTask

-- `loadTaskConfig`, over what the reader makes of the file at a path.
unfoldable pub load_task_config : (String → Result TaskConfig) → String → Result TaskConfig
load_task_config load_file path = elim (load_file path) [
  | err e ↦ err (wrapf "failed to load task configuration from %s: %w" (str path ∷ []) e)
  | ok cfg ↦ ok cfg
]

-- The action of `run`, over the constructors that are registered.
unfoldable pub task_run_command :
    (String → Result TaskConfig)
    → (ConsumerType → Result IConsumer)
    → String
    → (EventData → Option GoError)
    → (EventData → List ℕ)
    → TaskRunEnd
unfolding load_task_config new_consumer task_run
task_run_command load_file creators path ctx_err order = elim (load_task_config load_file path) [
  | err e ↦ record { result = some e; consumer_closes = 0 }
  | ok cfg ↦ task_run (new_consumer creators cfg.consumer) cfg.tasks ctx_err order
]

-- The action of `run-by-pk`; the schedule may depend on the tasks and the table.
unfoldable pub task_run_by_primary_key_command :
    (String → Result TaskConfig)
    → String
    → List String
    → Option GoError
    → (List LogTask → String → List ℕ)
    → Outcome
unfolding load_task_config task_run_by_primary_key
task_run_by_primary_key_command load_file path args ctx_err order =
    elim (load_task_config load_file path) [
      | err e ↦ failed e
      | ok cfg ↦ elim args [
        | [] ↦ failed (errorf "usage: run-by-pk <db.table> <primary-key-value>" [])
        | table ∷ values ↦ elim values [
          | [] ↦ failed (errorf "usage: run-by-pk <db.table> <primary-key-value>" [])
          | value ∷ more ↦
              task_run_by_primary_key cfg.tasks ctx_err table value (order cfg.tasks table)
        ]
      ]
    ]

abbrev range_usage : GoError
range_usage =
    errorf "usage: run-by-range <db.table> <start> <end>  (time format: 2006-01-02 15:04:05)" []

-- The action of `run-by-range`.
unfoldable pub task_run_by_time_range_command :
    (String → Result TaskConfig)
    → (String → Result ℕ)
    → String
    → List String
    → Option GoError
    → (List LogTask → String → List ℕ)
    → Outcome
unfolding load_task_config task_run_by_time_range
task_run_by_time_range_command load_file parse path args ctx_err order =
    elim (load_task_config load_file path) [
      | err e ↦ failed e
      | ok cfg ↦ elim args [
        | [] ↦ failed range_usage
        | table ∷ times ↦ elim times [
          | [] ↦ failed range_usage
          | start ∷ later ↦ elim later [
            | [] ↦ failed range_usage
            | end ∷ more ↦
                task_run_by_time_range parse cfg.tasks ctx_err table start end
                  (order cfg.tasks table)
          ]
        ]
      ]
    ]

-- What `run-by-pk` needs of its file and its arguments to succeed.
abbrev pub CanRun : (String → Result TaskConfig) → String → List String → Type 0
CanRun load_file path args =
    (cfg : TaskConfig) × (table : String) × (value : String) × (more : List String) × (load_file
        path
      ≡ ok cfg)
    × (args ≡ table ∷ value ∷ more)
    × All IsWellDeclared (build_tasks cfg.tasks)
    × (str_eq value "" ≡ false)
    × (routed (build_tasks cfg.tasks) table ≢ [])

-- Under a live context and whatever the schedule, the command `run-by-pk` succeeds exactly when its
-- file loads, there are two arguments at least, every task of the file is well declared, the value is
-- not empty, and some task watches the table.
pub task_run_by_primary_key_command_iff :
    (load_file : String → Result TaskConfig) (path : String) (args : List String)
    (order : List LogTask → String → List ℕ)
    → ((tasks : List LogTask) (table : String)
        → IsSchedule (order tasks table) (length (routed (build_tasks tasks) table)))
    → ((task_run_by_primary_key_command load_file path args none order).error ≡ none)
      ↔ CanRun load_file path args
unfolding task_run_by_primary_key_command load_task_config
task_run_by_primary_key_command_iff load_file path args order scheduled =
    elim (Result-cases (load_file path)) [
      | inl (e, bad) ↦ (
        λ h. absurd (ground (arith, bad, h)),
        λ (cfg, t, v, m, good, shape, well, usable, watched). absurd (ground (arith, bad, good)),
      )
      | inr (cfg, good) ↦ by_args cfg good args
    ]
  where
    by_args :
        (cfg : TaskConfig)
        → load_file path ≡ ok cfg
        → (given : List String)
        → ((task_run_by_primary_key_command load_file path given none order).error ≡ none)
          ↔ CanRun load_file path given
    by_args cfg good [] = (
      λ h. absurd (ground (arith, good, h)),
      λ (c, t, v, m, g, shape, well, usable, watched). absurd (ground (arith, shape)),
    )
    by_args cfg good (t ∷ []) = (
      λ h. absurd (ground (arith, good, h)),
      λ (c, u, v, m, g, shape, well, usable, watched). absurd (ground (arith, shape)),
    )
    by_args cfg good (t ∷ v ∷ m) =
        let iff =
          task_run_by_primary_key_iff cfg.tasks t v (order cfg.tasks t) (scheduled cfg.tasks t) in
        (
          λ h.
              let (well, usable, watched) =
                iff.0 (rw (good, task_run_by_primary_key_command) at h) in
              (cfg, t, v, m, good, refl, well, usable, watched),
          λ (c, u, w, n, g, shape, well, usable, watched).
              let file : c ≡ cfg = ground (arith, g, good) in
              let table : u ≡ t = ground (arith, shape) in
              let value : w ≡ v = ground (arith, shape) in
              rw (good, task_run_by_primary_key_command)
                (iff.1 (rw file at well, rw value at usable, rw (file, table) at watched)),
        )
