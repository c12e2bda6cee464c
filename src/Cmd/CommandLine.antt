-- ===== src/Cmd/CommandLine.antt =====
-- The two programs, cmd/cdc-trigger/main.go and cmd/cdc-trigger-task/main.go, with the flags, the
-- hooks and the actions that cmd/flags.go, cmd/before.go, cmd/clisten.go and cmd/taskrun.go give them.
pub mod ExitCodes
pub mod TaskExits
use cdc_trigger.Prelude.{ℕ, String, Option, none, some, List, [], ◌∷◌, map}
use cdc_trigger.Errors.{GoError, errorf, Result, ok, err}
use cdc_trigger.Types.{EventData}
use cdc_trigger.Task.{LogTask}
use cdc_trigger.Task.Runner.{IConsumer}
use cdc_trigger.Store.{StoreType, new_store}
use cdc_trigger.Source.Lifecycle.{MySqlSource, new_source, with_store}
use cdc_trigger.Queue.Producer.{IProducer, ProducerCreators, new_producer}
use cdc_trigger.Queue.Consumer.{ConsumerType}
use cdc_trigger.Config.{Config, load}
use cdc_trigger.Cmd.Setup.{Component, SetUp, setup_components, close_setup_components}
use cdc_trigger.Cmd.TaskRun.Actions.{
  TaskConfig, load_task_config, task_run_command, task_run_by_primary_key_command,
  task_run_by_time_range_command,
}

-- The values that the context carries, under `ContextValueConfig` and `ContextValueTaskConfig`.
pub record Context : Type 0 where
  pub config : Option Config
  pub task_config : Option TaskConfig

abbrev pub background : Context
background = record { config = none; task_config = none }

-- `cli.StringFlag`
pub record Flag : Type 0 where
  pub name : String
  pub aliases : List String
  pub usage : String
  pub value : String

-- `*cli.Input`: `in.String` and `in.Args`.
pub record Input : Type 0 where
  pub string : String → String
  pub args : List String

abbrev pub Action : Type 0
Action = Context → Input → Option GoError

pub record Command : Type 0 where
  pub name : String
  pub usage : String
  pub args_usage : String
  pub flags : List Flag
  pub action : Action

-- The root command.
pub record App : Type 0 where
  pub name : String
  pub usage : String
  pub flags : List Flag
  pub before : Context → Input → Context × Option GoError
  pub subcommands : List Command
  pub action : Action

abbrev pub flag_config : String
flag_config = "config"

abbrev pub flag_task_config : String
flag_task_config = "task-config"

abbrev pub flags : List Flag
flags =
    record {
      name = flag_config;
      aliases = "c" ∷ [];
      usage = "Load configuration from `FILE`";
      value = "config.yml";
    }
    ∷ []

abbrev pub task_flags : List Flag
task_flags =
    record {
      name = flag_task_config;
      aliases = "c" ∷ [];
      usage = "Load task configuration from `FILE`";
      value = "config.task.yml";
    }
    ∷ []

-- `Before`
unfoldable pub before : (String → Result Config) → Context → Input → Context × Option GoError
unfolding load
before load_file ctx input = elim (load load_file (input.string flag_config)) [
  | err e ↦ (ctx, some e)
  | ok conf ↦ (record ctx { config = some conf }, none)
]

-- `TaskBefore`
unfoldable pub task_before :
    (String → Result TaskConfig) → Context → Input → Context × Option GoError
unfolding load_task_config
task_before load_file ctx input =
    elim (load_task_config load_file (input.string flag_task_config)) [
      | err e ↦ (ctx, some e)
      | ok cfg ↦ (record ctx { task_config = some cfg }, none)
    ]

-- What the constructors report that `SetupComponents` selects from; `A` is the type of a store.
pub record World (A : Type 0) : Type 0 where
  pub new_file_store : Config → Result A
  pub new_redis_store : Config → Result A
  pub new_canal : Config → Option GoError
  pub producers : Config → ProducerCreators

unfoldable pub setup : {A : Type 0} → World A → Config → SetUp A MySqlSource IProducer
unfolding setup_components new_store new_source new_producer
setup w cfg =
    setup_components (λ store s. with_store s)
      (new_store (w.new_file_store cfg) (w.new_redis_store cfg) cfg.store)
      (new_source cfg.source cfg.mysql (w.new_canal cfg))
      (new_producer (w.producers cfg) cfg.producer)

-- What `Listen` returns, and the components that it or `SetupComponents` closed, where `finished`
-- is what its goroutines come to.
pub record Listened : Type 0 where
  pub result : Option GoError
  pub closed : List Component

unfoldable pub listen : {A : Type 0} → World A → Option GoError → Config → Listened
unfolding setup
listen w finished cfg = elim (setup w cfg).result [
  | err e ↦ record { result = some e; closed = (setup w cfg).closed }
  | ok components ↦ record { result = finished; closed = close_setup_components }
]

-- The action of `listen`.
unfoldable pub listen_action : (Config → Option GoError) → Action
listen_action listens ctx input = elim ctx.config [
  | none ↦ some (errorf "config not found in context" [])
  | some cfg ↦ listens cfg
]

abbrev pub listen_command : (Config → Option GoError) → Command
listen_command listens = record {
  name = "listen";
  usage = "Listen to CDC events without sending them to any producer";
  args_usage = "";
  flags = [];
  action = listen_action listens;
}

-- `main` of cmd/cdc-trigger up to `app.Run`.
unfoldable pub listen_app : (String → Result Config) → (Config → Option GoError) → App
listen_app load_file listens = record {
  name = "cdc-trigger";
  usage =
      "a Go CDC tool that real-time captures, processes database changes and sends them to downstream";
  flags = flags;
  before = before load_file;
  subcommands = listen_command listens ∷ [];
  action = (listen_command listens).action;
}

-- What the commands of `cdc-trigger-task` meet: the file reader, the constructors of consumers,
-- `time.Parse`, the context, and the schedules of the goroutines.
pub record TaskWorld : Type 0 where
  pub load_file : String → Result TaskConfig
  pub new_consumers : ConsumerType → Result IConsumer
  pub parse : String → Result ℕ
  pub event_err : EventData → Option GoError
  pub ctx_err : Option GoError
  pub event_order : EventData → List ℕ
  pub order : List LogTask → String → List ℕ

unfoldable pub run_command : TaskWorld → Command
unfolding task_run_command
run_command w = record {
  name = "run";
  usage = "Consume CDC events from the middleware and execute the tasks watching each change";
  args_usage = "";
  flags = task_flags;
  action = λ ctx input.
      (task_run_command w.load_file w.new_consumers (input.string flag_task_config) w.event_err
        w.event_order).result;
}

unfoldable pub run_by_pk_command : TaskWorld → Command
unfolding task_run_by_primary_key_command
run_by_pk_command w = record {
  name = "run-by-pk";
  usage = "Execute the tasks watching a table for one row of their main table";
  args_usage = "<db.table> <primary-key-value>";
  flags = task_flags;
  action = λ ctx input.
      (task_run_by_primary_key_command w.load_file (input.string flag_task_config) input.args
        w.ctx_err w.order).error;
}

unfoldable pub run_by_range_command : TaskWorld → Command
unfolding task_run_by_time_range_command
run_by_range_command w = record {
  name = "run-by-range";
  usage = "Execute the tasks watching a table for the rows whose time falls in a range";
  args_usage = "<db.table> <start> <end>";
  flags = task_flags;
  action = λ ctx input.
      (task_run_by_time_range_command w.load_file w.parse (input.string flag_task_config) input.args
        w.ctx_err w.order).error;
}

-- `main` of cmd/cdc-trigger-task up to `app.Run`.
unfoldable pub task_app : TaskWorld → App
unfolding task_before run_command
task_app w = record {
  name = "cdc-trigger-task";
  usage = "a Go CDC task runner that consumes events from middleware and executes tasks";
  flags = task_flags;
  before = task_before w.load_file;
  subcommands = run_command w ∷ run_by_pk_command w ∷ run_by_range_command w ∷ [];
  action = (run_command w).action;
}

abbrev pub action_of : Command → Action
action_of c = c.action

-- The actions that a command line can select: the default one, and those of the subcommands.
abbrev pub actions : App → List Action
actions app = app.action ∷ map action_of app.subcommands

-- The exit code, given what `app.Run` reports.
unfoldable pub exit_code : Option GoError → ℕ
exit_code none = 0
exit_code (some e) = 1

-- `app.Run` of the command line library: the hook on the root's input, and then the action of the
-- command, on its own input and in the context that the hook gave.
abbrev pub dispatch : App → Action → Input → Input → Option GoError
dispatch app action root given =
    let (ctx, failed) = app.before background root in
    elim failed [ some e ↦ some e | none ↦ action ctx given ]
