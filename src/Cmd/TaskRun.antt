-- ===== src/Cmd/TaskRun.antt =====
-- cmd/taskrun.go: the commands that build a runner from the configuration and use it.
pub mod Outcomes
pub mod Actions
use cdc_trigger.Prelude.{ℕ, String, Bool, true, false, Option, none, some, List, [], ◌∷◌, map}
use cdc_trigger.Errors.{Value, str, GoError, errorf, wrapf, Result, ok, err}
use cdc_trigger.Types.{EventData}
use cdc_trigger.Task.{ITask, LogTask, log_task}
use cdc_trigger.Task.Watchers.{Outcome}
use cdc_trigger.Task.Runner.{
  IConsumer, Runner, new_runner, run, close, run_by_primary_key, run_by_time_range,
}

unfoldable pub build_tasks : List LogTask → List ITask
build_tasks tasks = map log_task tasks

-- What `TaskRun` returns, and how often it closed the consumer.
pub record TaskRunEnd : Type 0 where
  pub result : Option GoError
  pub consumer_closes : ℕ

-- `TaskRun`, over what `consumer.NewConsumer` reports; the signals are part of `ctx_err`.
unfoldable pub task_run :
    Result IConsumer
    → List LogTask
    → (EventData → Option GoError)
    → (EventData → List ℕ)
    → TaskRunEnd
task_run (err e) tasks ctx_err order = record {
  result = some (wrapf "failed to create consumer: %w" [] e);
  consumer_closes = 0;
}
task_run (ok c) tasks ctx_err order = elim (new_runner (some c) (build_tasks tasks)) [
  | err e ↦ record { result = some (wrapf "failed to create runner: %w" [] e); consumer_closes = 1 }
  | ok runner ↦ record {
    result = (run runner ctx_err order).0;
    consumer_closes = elim runner.consumer [ none ↦ 0 | some c' ↦ 1 ];
  }
]

abbrev pub failed : GoError → Outcome
failed e = record { calls = []; error = some e }

unfoldable pub task_run_by_primary_key :
    List LogTask → Option GoError → String → String → List ℕ → Outcome
task_run_by_primary_key tasks ctx_err table value order =
    elim (new_runner none (build_tasks tasks)) [
      | err e ↦ failed (wrapf "failed to create runner: %w" [] e)
      | ok runner ↦ run_by_primary_key runner ctx_err table (str value) order
    ]

abbrev layout : String
layout = "2006-01-02 15:04:05"

-- `parse` is `time.Parse` with the layout of the command.
unfoldable pub task_run_by_time_range :
    (String → Result ℕ)
    → List LogTask
    → Option GoError
    → String
    → String
    → String
    → List ℕ
    → Outcome
task_run_by_time_range parse tasks ctx_err table start_str end_str order = elim (parse start_str) [
  | err e ↦
      failed (
        wrapf "invalid start time %q: %w (expected format: %s)" (str start_str ∷ str layout ∷ []) e)
  | ok start ↦ elim (parse end_str) [
    | err e ↦
        failed
          (wrapf "invalid end time %q: %w (expected format: %s)" (str end_str ∷ str layout ∷ []) e)
    | ok end ↦ elim (new_runner none (build_tasks tasks)) [
      | err e ↦ failed (wrapf "failed to create runner: %w" [] e)
      | ok runner ↦ run_by_time_range runner ctx_err table start end order
    ]
  ]
]
