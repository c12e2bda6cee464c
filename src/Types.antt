-- ===== src/Types.antt =====
-- types/event.go: the event that the source makes and the queues carry.
use cdc_trigger.Prelude.{ℕ, String, List}
use cdc_trigger.Errors.{Value, ℤ}

pub data EventRowType : Type 0 where
  insert_event_row_type update_event_row_type delete_event_row_type : EventRowType
  -- the conversion of any other action of the binlog reader
  other_event_row_type : String → EventRowType

-- `map[string]any`
abbrev pub RowMap : Type 0
RowMap = List (String × Value)

-- `old` is the empty map for a nil map: `omitempty` leaves both out.
pub record EventRowData : Type 0 where
  pub time : ℤ
  pub database : String
  pub table : String
  pub type : EventRowType
  pub data_map : RowMap
  pub old : RowMap

-- `time` is the instant of `time.Now()`.
pub record EventData : Type 0 where
  pub time : ℕ
  pub server_id : ℤ
  pub pos : ℤ
  pub row : EventRowData
