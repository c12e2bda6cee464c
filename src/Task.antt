-- ===== src/Task.antt =====
-- task/task.go and task/log_task.go: what a task declares, and the task that only logs.
pub mod Watchers
pub mod Runner
use cdc_trigger.Prelude.{ℕ, String, Option, none, List}
use cdc_trigger.Errors.{Value, GoError}

pub record Table : Type 0 where
  pub database : String
  pub name : String
  pub primary_key : String
  pub ref_column : String

-- `ITask` with its type's name, which the messages print. The two runs are what the task reports
-- for a row and for a range, by arguments: the work behind them is the task's own.
pub record ITask : Type 0 where
  pub type_name : String
  pub main_table : Table
  pub sub_tables : List Table
  pub run_by_primary_key : Table → Value → Option GoError
  pub run_by_time_range : Table → ℕ → ℕ → Option GoError

pub record LogTask : Type 0 where
  pub main : Table
  pub sub : List Table

-- The methods of `*LogTask`; the log lines are not modelled.
unfoldable pub log_task : LogTask → ITask
log_task t = record {
  type_name = "*task.LogTask";
  main_table = t.main;
  sub_tables = t.sub;
  run_by_primary_key = λ _ _. none;
  run_by_time_range = λ _ _ _. none;
}
