-- ===== src/Tests/CommandLines.antt =====
-- The two programs of cmd/, run on small command lines.
use cdc_trigger.Prelude.{
  true, false, ℕ, String, ◌≡◌, ◌↔◌, refl, Option, none, some, List, [], ◌∷◌, length, if◌then◌else◌,
  str_eq,
}
use cdc_trigger.Errors.{GoError, Result, external, ok, err}
use cdc_trigger.Store.{StoreType}
use cdc_trigger.Source.Lifecycle.{SourceType}
use cdc_trigger.Queue.Producer.{ProducerType, IProducer}
use cdc_trigger.Task.Watchers.Keys.{validate_table_iff}
use cdc_trigger.Task.Watchers.Routing.{routed, IsWellDeclared}
use cdc_trigger.Task.{log_task}
use cdc_trigger.Task.Watchers.{validate_table, table_key_of, contains_dot}
use cdc_trigger.Tests.Samples.{text_ne, users, orders}
use cdc_trigger.Config.{Config}
use cdc_trigger.Cmd.TaskRun.{build_tasks}
use cdc_trigger.Cmd.TaskRun.Actions.{CanRun}
use cdc_trigger.Cmd.CommandLine.{
  Input, World, TaskWorld, flag_config, flag_task_config, listen, listen_action, listen_app,
  run_by_pk_command, task_app, exit_code, dispatch,
}
use cdc_trigger.Cmd.CommandLine.ExitCodes.{Buildable, listen_app_exits}
use cdc_trigger.Cmd.CommandLine.TaskExits.{Loads, task_app_needs_both, run_by_pk_exits}
use cdc_trigger.Tests.Commands.{through, went_through, file, in_start_order, in_order}

abbrev console : IProducer
console = record { send = λ event. none; close = none }

abbrev broken : Result IProducer
broken = err (external 3)

abbrev world : World ℕ
world = record {
  new_file_store = λ cfg. ok 1;
  new_redis_store = λ cfg. err (external 2);
  new_canal = λ cfg. none;
  producers = λ cfg. record {
    new_stdout = ok console;
    new_redis = broken;
    new_kafka = broken;
    new_rabbitmq = broken;
    new_rocketmq = broken;
    new_pulsar = broken;
  };
}

abbrev configured : Config
configured = record {
  store = StoreType.file;
  source = SourceType.mysql;
  mysql = record {
    addr = "127.0.0.1:3306";
    user = "root";
    password = "";
    exclude_table_regex = [];
    include_table_regex = [];
  };
  producer = ProducerType.stdout;
}

abbrev only_default : String → Result Config
only_default path = if str_eq path "config.yml" then ok configured else err (external 4)

-- No flag is given, and no subcommand.
abbrev plain : Input
plain = record {
  string = λ name. if str_eq name flag_config then "config.yml" else "config.task.yml";
  args = [];
}

abbrev listens : Config → Option GoError
listens cfg = (listen world none cfg).result

listen_app_exits_example :
    (exit_code (dispatch (listen_app only_default listens) (listen_action listens) plain plain) ≡ 0)
    ↔ ((cfg : Config) × (only_default (plain.string flag_config) ≡ ok cfg)
        × Buildable world cfg
        × (through.source_result ≡ some none))
unfolding listen_app
listen_app_exits_example =
    listen_app_exits world only_default through none
      (λ args. dispatch (listen_app only_default listens) (listen_action listens) plain plain) [] 0
      (listen_action listens) plain plain refl refl went_through refl

abbrev task_world : TaskWorld
task_world = record {
  load_file = file;
  new_consumers = λ type. err (external 5);
  parse = λ text. err (external 6);
  event_err = λ event. none;
  ctx_err = none;
  event_order = λ event. [];
  order = in_start_order;
}

-- `run-by-pk -c other.yml shop.orders 5`
abbrev command_line : List String
command_line = "run-by-pk" ∷ "-c" ∷ "other.yml" ∷ "shop.orders" ∷ "5" ∷ []

abbrev named : Input
named = record { string = λ name. "other.yml"; args = "shop.orders" ∷ "5" ∷ [] }

abbrev runs : List String → Option GoError
runs args = dispatch (task_app task_world) (run_by_pk_command task_world).action plain named

well_declared : IsWellDeclared (log_task (record { main = users; sub = orders ∷ [] }))
unfolding log_task validate_table table_key_of contains_dot
well_declared = record {
  main_valid = (validate_table_iff users true).0 refl;
  subs_valid = ((validate_table_iff orders false).0 refl, tt);
  distinct = ((text_ne "shop.users" "shop.orders" refl, tt), (tt, tt));
}

can_run : CanRun file (named.string flag_task_config) named.args
unfolding build_tasks log_task table_key_of
can_run = (_, "shop.orders", "5", [], refl, refl, (well_declared, tt), refl, λ h. cc)

task_app_needs_both_example :
    Loads file (plain.string flag_task_config) × Loads file (named.string flag_task_config)
unfolding task_app
task_app_needs_both_example =
    task_app_needs_both task_world runs command_line 2 (run_by_pk_command task_world).action plain
      named refl refl
      ((run_by_pk_exits task_world runs command_line plain named refl refl
          (λ tasks table. in_order 0 (length (routed (build_tasks tasks) table)))).1
        ((_, refl), can_run))

run_by_pk_exits_example : (exit_code (runs command_line) ≡ 0) ↔ (
    Loads file (plain.string flag_task_config)
    × CanRun file (named.string flag_task_config) named.args)
run_by_pk_exits_example =
    run_by_pk_exits task_world runs command_line plain named refl refl
      (λ tasks table. in_order 0 (length (routed (build_tasks tasks) table)))
