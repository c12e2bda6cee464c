-- ===== src/Tests/Sources.antt =====
-- The rows and the lifecycle of source/mysql.go, run on a table of two columns.
use cdc_trigger.Prelude.{
  zero, suc, ◌≡◌, ◌≢◌, refl, true, false, none, some, List, [], ◌∷◌, lookup, insert,
}
use cdc_trigger.Errors.{Value, bytes, int64, pos, external, ok}
use cdc_trigger.Source.Rows.{
  Column, type_number, type_string, Decoders, row_to_map, RowsEvent, update_action, delete_action,
  Turns, on_row, parse_digits, parse_uint, parse_int, number_cell, cell, column_value, fill_map,
}
use cdc_trigger.Source.Rows.Kinds.Columns.{FromColumn, row_to_map-Fits}
use cdc_trigger.Source.Rows.Batches.{Update, update_events, IsCut, on_row-updates}
use cdc_trigger.Source.Lifecycle.{
  event_data_chan, canal, MysqlConfig, MySqlSource, complete_config, new_mysql_source, with_store,
  run_begin, run_end, stop, canal_done, default_mysql_exclude_table_regex,
}
use cdc_trigger.Source.Lifecycle.Channel.{
  configure, start, ends, SourceReach, here, next, IsOrderly, SourceReach-IsOrderly,
  run_begin-run_end,
}

abbrev pub decoders : Decoders
decoders = record { text = λ b. ""; parse_float = λ b. none; parse_time = λ b. none }

abbrev id_column : Column
id_column = record { name = "id"; type = type_number }

abbrev name_column : Column
name_column = record { name = "name"; type = type_string }

abbrev columns : List Column
columns = id_column ∷ name_column ∷ []

-- The digits of 42, and no name.
abbrev row : List Value
row = bytes (b'4' ∷ b'2' ∷ []) ∷ []

parsed : lookup "id" (row_to_map decoders row columns) ≡ some (int64 (pos 42))
unfolding row_to_map fill_map column_value cell number_cell parse_int parse_uint parse_digits insert
    lookup
parsed = refl

row_to_map-Fits_example : FromColumn columns row "id" (int64 (pos 42))
row_to_map-Fits_example = row_to_map-Fits decoders row columns "id" (int64 (pos 42)) parsed

abbrev pub update : RowsEvent
update = record {
  action = update_action;
  schema = "shop";
  name = "users";
  columns = columns;
  rows = row ∷ [] ∷ row ∷ row ∷ [];
  timestamp = 8;
  log_pos = 400;
  server_id = 1;
}

abbrev deletion : RowsEvent
deletion = record update { action = delete_action }

-- The context is done at the second turn.
abbrev cut_short : Turns
cut_short = record {
  now = λ k. k;
  cancelled = λ k. elim k [ zero ↦ none | suc n ↦ some (external 6) ];
}

abbrev updates : List Update
updates = (row, []) ∷ (row, row) ∷ []

on_row-updates_example :
    IsCut cut_short
      (update_events decoders cut_short update 0 updates)
      (on_row decoders cut_short update)
on_row-updates_example = on_row-updates decoders cut_short update updates refl refl

abbrev config : MysqlConfig
config = record {
  addr = "127.0.0.1:3306";
  user = "root";
  password = "";
  exclude_table_regex = [];
  include_table_regex = [];
}

abbrev fresh : MySqlSource
fresh = record {
  cfg = record config { exclude_table_regex = default_mysql_exclude_table_regex };
  has_store = false;
  running = false;
  chan_closed = false;
  releases = [];
}

abbrev ready : MySqlSource
ready = record fresh { has_store = true }

abbrev running : MySqlSource
running = record ready { running = true }

abbrev ended : MySqlSource
ended = record ready { chan_closed = true; releases = event_data_chan ∷ canal ∷ [] }

lived : SourceReach fresh ended
unfolding with_store run_begin run_end stop
lived =
    next (next (next here (configure fresh)) (start ready running refl))
      (ends running (canal_done none))

SourceReach-IsOrderly_example : IsOrderly ended
unfolding new_mysql_source complete_config
SourceReach-IsOrderly_example = SourceReach-IsOrderly config fresh ended refl lived

run_begin-run_end_example :
    ((u : MySqlSource) → run_begin running ≢ ok u)
    × ((run_end (canal_done none) running).1.running ≡ false)
    × ((run_end (canal_done none) running).1.chan_closed ≡ true)
    × (run_begin (run_end (canal_done none) running).1
        ≡ ok (record (run_end (canal_done none) running).1 { running = true }))
unfolding run_begin
run_begin-run_end_example = run_begin-run_end ready running (canal_done none) refl
