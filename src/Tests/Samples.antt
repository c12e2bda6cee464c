-- ===== src/Tests/Samples.antt =====
-- Sample tables, tasks and changes: two tasks whose main table is `shop.users`.
use cdc_trigger.Prelude.{
  String, true, ◌≡◌, ◌≢◌, none, some, List, [], ◌∷◌, arith, false, str_eq, eq_iff,
}
use cdc_trigger.Errors.{int64, pos, external}
use cdc_trigger.Types.{EventData, update_event_row_type}
use cdc_trigger.Queue.Amqp.{Topology}
use cdc_trigger.Task.{Table, ITask}
use cdc_trigger.Task.Watchers.{Watcher, Watchers}

pub text_ne : (s t : String) → str_eq s t ≡ false → s ≢ t
text_ne s t h e = ground (arith, eq_iff s t, h, e)

abbrev pub users : Table
users = record { database = "shop"; name = "users"; primary_key = "id"; ref_column = "" }

abbrev pub orders : Table
orders = record { database = "shop"; name = "orders"; primary_key = ""; ref_column = "user_id" }

abbrev pub sync_task : ITask
sync_task = record {
  type_name = "*task.SyncTask";
  main_table = users;
  sub_tables = orders ∷ [];
  run_by_primary_key = λ _ _. none;
  run_by_time_range = λ _ _ _. none;
}

abbrev pub audit_task : ITask
audit_task = record {
  type_name = "*task.AuditTask";
  main_table = users;
  sub_tables = [];
  run_by_primary_key = λ _ _. some (external 7);
  run_by_time_range = λ _ _ _. none;
}

abbrev pub tasks : List ITask
tasks = sync_task ∷ audit_task ∷ []

abbrev pub sync_users : Watcher
sync_users = record { task = sync_task; table = users; main = true }

abbrev pub audit_users : Watcher
audit_users = record { task = audit_task; table = users; main = true }

abbrev pub sync_orders : Watcher
sync_orders = record { task = sync_task; table = orders; main = false }

abbrev pub index : Watchers
index = ("shop.users", sync_users ∷ audit_users ∷ []) ∷ ("shop.orders", sync_orders ∷ []) ∷ []

-- Row 5 of `shop.users` was changed.
abbrev pub user_changed : EventData
user_changed = record {
  time = 9;
  server_id = pos 1;
  pos = pos 400;
  row = record {
    time = pos 8;
    database = "shop";
    table = "users";
    type = update_event_row_type;
    data_map = ("id", int64 (pos 5)) ∷ [];
    old = ("id", int64 (pos 5)) ∷ [];
  };
}

abbrev pub topology : Topology
topology = record {
  url = "amqp://127.0.0.1:5672/";
  exchange = "cdc-trigger-exchange";
  exchange_type = "direct";
  routing_key = "";
  queue = "cdc";
  durable = true;
  auto_delete = false;
  exclusive = false;
  no_wait = false;
}
