-- ===== src/Source/Lifecycle.antt =====
-- The lifecycle of `MySQLSource` (source/mysql.go): `WithStore`, the locked sections of `Run`,
-- `stop` and `Close`, and the selection of the tables in `NewMySQLSource`.
pub mod Channel
use cdc_trigger.Prelude.{
  ℕ, suc, ◌+◌, String, Bool, true, false, Option, none, some, List, [], ◌∷◌, if◌then◌else◌,
}
use cdc_trigger.Errors.{GoError, errorf, wrapf, Result, ok, err, str}

pub record MysqlConfig : Type 0 where
  pub addr : String
  pub user : String
  pub password : String
  pub exclude_table_regex : List String
  pub include_table_regex : List String

abbrev pub default_mysql_exclude_table_regex : List String
default_mysql_exclude_table_regex =
    "mysql.*" ∷ "information_schema.*" ∷ "performance_schema.*" ∷ "sys.*" ∷ []

abbrev or_default : List String → List String
or_default [] = default_mysql_exclude_table_regex
or_default (r ∷ rs) = r ∷ rs

-- The configuration as `NewMySQLSource` completes it.
unfoldable pub complete_config : MysqlConfig → MysqlConfig
complete_config cfg = record cfg { exclude_table_regex = or_default cfg.exclude_table_regex }

-- What a source closes.
pub data Release : Type 0 where
  canal event_data_chan : Release

-- The fields that the lock guards, and what was closed, the newest first. Closing a channel twice
-- would panic, and so does a send on a closed one.
pub record MySqlSource : Type 0 where
  pub cfg : MysqlConfig
  pub has_store : Bool
  pub running : Bool
  pub chan_closed : Bool
  pub releases : List Release

-- `NewMySQLSource`, with what `canal.NewCanal` reports.
unfoldable pub new_mysql_source : MysqlConfig → Option GoError → Result MySqlSource
unfolding complete_config
new_mysql_source cfg (some e) = err e
new_mysql_source cfg none = ok (record {
  cfg = complete_config cfg;
  has_store = false;
  running = false;
  chan_closed = false;
  releases = [];
})

pub data SourceType : Type 0 where
  mysql : SourceType
  unknown : String → SourceType

-- `NewSource`
unfoldable pub new_source : SourceType → MysqlConfig → Option GoError → Result MySqlSource
unfolding new_mysql_source
new_source mysql cfg reported = new_mysql_source cfg reported
new_source (unknown name) cfg reported = err (errorf "unsupported source type: %s" (str name ∷ []))

unfoldable pub with_store : MySqlSource → MySqlSource
with_store s = record s { has_store = true }

-- `Run` up to the start of the canal.
unfoldable pub run_begin : MySqlSource → Result MySqlSource
run_begin s =
    if s.has_store
    then (if s.running
        then err (errorf "it is already running" [])
        else ok (record s { running = true }))
    else err (errorf "store is not initialized, cannot run MySQLSource" [])

abbrev close_channel : MySqlSource → MySqlSource
close_channel s =
    if s.chan_closed
    then s
    else record s { releases = event_data_chan ∷ s.releases; chan_closed = true }

unfoldable pub stop : MySqlSource → MySqlSource
stop s =
    if s.running
    then close_channel (record s { running = false; releases = canal ∷ s.releases })
    else s

-- `Close`
unfoldable pub close : MySqlSource → Option GoError × MySqlSource
unfolding stop
close s = (none, stop s)

-- How the select of `Run` ends: the context's error, or what the canal returned.
pub data RunEnd : Type 0 where
  context_done : GoError → RunEnd
  canal_done : Option GoError → RunEnd

-- `Run` from the select to its end.
unfoldable pub run_end : RunEnd → MySqlSource → Option GoError × MySqlSource
unfolding stop
run_end (context_done e) s = (some e, stop s)
run_end (canal_done none) s = (none, stop s)
run_end (canal_done (some e)) s = (some (wrapf "canal operation error: %w" [] e), stop s)
