-- ===== src/Source/Rows.antt =====
-- `OnRow` and `rowToMap` of source/mysql.go: a rows event of the binlog becomes change events.
pub mod Cells
pub mod Batches
pub mod Kinds
pub mod Entries
use cdc_trigger.Prelude.{
  ℕ, zero, suc, ◌+◌, ◌-◌, ◌*◌, ◌^◌, String, Bool, true, false, not, ◌&&◌, Option, none, some, List,
  [], ◌∷◌, insert, ltb, leb, ◌==◌, if◌then◌else◌,
}
use cdc_trigger.Errors.{
  ℤ, pos, negsuc, Value, null, str, bytes, int64, float64, boolean, time, other, GoError,
}
use cdc_trigger.Types.{
  EventRowType, insert_event_row_type, update_event_row_type, delete_event_row_type,
  other_event_row_type, RowMap, EventData,
}

-- The column types of the binlog reader's schema package that `rowToMap` names, and the rest.
pub data ColumnType : Type 0 where
  type_number type_medium_int type_float type_decimal type_bit : ColumnType
  type_datetime type_timestamp type_date type_time : ColumnType
  type_string type_enum type_set type_json type_binary type_point : ColumnType
  type_other : ℕ → ColumnType

pub record Column : Type 0 where
  pub name : String
  pub type : ColumnType

-- What the standard library reads from bytes: `string`, `strconv.ParseFloat` and `time.Parse`.
pub record Decoders : Type 0 where
  pub text : List ℕ → String
  pub parse_float : List ℕ → Option ℕ
  pub parse_time : List ℕ → Option ℕ

-- The decimal digits from `n` on.
unfoldable pub parse_digits : ℕ → List ℕ → Option ℕ
parse_digits n [] = some n
parse_digits n (c ∷ cs) =
    if leb b'0' c && leb c b'9' then parse_digits (n * 10 + (c - b'0')) cs else none

unfoldable pub parse_uint : List ℕ → Option ℕ
unfolding parse_digits
parse_uint [] = none
parse_uint (c ∷ cs) = parse_digits 0 (c ∷ cs)

abbrev pub int_in_range : Bool → Option ℕ → Option ℤ
int_in_range negative none = none
int_in_range false (some n) = if ltb n (2 ^ 63) then some (pos n) else none
int_in_range true (some zero) = some (pos 0)
int_in_range true (some (suc n)) = if ltb n (2 ^ 63) then some (negsuc n) else none

-- `strconv.ParseInt(s, 10, 64)`, whose errors are all taken alike
unfoldable pub parse_int : List ℕ → Option ℤ
unfolding parse_uint
parse_int [] = none
parse_int (c ∷ cs) =
    if c == b'-'
    then int_in_range true (parse_uint cs)
    else if c == b'+'
    then int_in_range false (parse_uint cs)
    else int_in_range false (parse_uint (c ∷ cs))

unfoldable pub number_cell : Value → Value
unfolding parse_int
number_cell (bytes v) = elim (parse_int v) [ none ↦ bytes v | some n ↦ int64 n ]
number_cell raw = raw

unfoldable pub float_cell : Decoders → Value → Value
float_cell dec (bytes v) = elim (dec.parse_float v) [ none ↦ bytes v | some x ↦ float64 x ]
float_cell dec raw = raw

-- `v[0] != 0`
unfoldable pub bit_cell : Value → Value
bit_cell (bytes []) = boolean false
bit_cell (bytes (b ∷ bs)) = boolean (not (b == 0))
bit_cell raw = raw

unfoldable pub time_cell : Decoders → Value → Value
time_cell dec (bytes v) = elim (dec.parse_time v) [ none ↦ str (dec.text v) | some t ↦ time t ]
time_cell dec raw = raw

unfoldable pub text_cell : Decoders → Value → Value
text_cell dec (bytes v) = str (dec.text v)
text_cell dec raw = raw

-- The switch on the type of a column, for a value that is not nil.
unfoldable pub cell : Decoders → ColumnType → Value → Value
unfolding number_cell float_cell bit_cell time_cell text_cell
cell dec type_number raw = number_cell raw
cell dec type_medium_int raw = number_cell raw
cell dec type_float raw = float_cell dec raw
cell dec type_decimal raw = float_cell dec raw
cell dec type_bit raw = bit_cell raw
cell dec type_datetime raw = time_cell dec raw
cell dec type_timestamp raw = time_cell dec raw
cell dec type_date raw = time_cell dec raw
cell dec type_time raw = time_cell dec raw
cell dec type_string raw = text_cell dec raw
cell dec type_enum raw = text_cell dec raw
cell dec type_set raw = text_cell dec raw
cell dec type_json raw = text_cell dec raw
cell dec type_binary raw = text_cell dec raw
cell dec type_point raw = text_cell dec raw
cell dec (type_other n) raw = raw

-- One column of the loop: nil stays nil.
unfoldable pub column_value : Decoders → ColumnType → Value → Value
unfolding cell
column_value dec type null = null
column_value dec type raw = cell dec type raw

-- The loop of `rowToMap` over the columns, the row beside them; a row that is too short leaves
-- the columns behind its end nil.
unfoldable pub fill_map : Decoders → List Column → List Value → RowMap → RowMap
unfolding column_value
fill_map dec [] row m = m
fill_map dec (col ∷ cols) [] m = fill_map dec cols [] (insert col.name null m)
fill_map dec (col ∷ cols) (raw ∷ row) m =
    fill_map dec cols row (insert col.name (column_value dec col.type raw) m)

unfoldable pub row_to_map : Decoders → List Value → List Column → RowMap
unfolding fill_map
row_to_map dec row columns = fill_map dec columns row []

-- `rowsEvent.Action`
pub data Action : Type 0 where
  insert_action update_action delete_action : Action
  other_action : String → Action

-- `canal.RowsEvent`, with the fields of its header and of its table.
pub record RowsEvent : Type 0 where
  pub action : Action
  pub schema : String
  pub name : String
  pub columns : List Column
  pub rows : List (List Value)
  pub timestamp : ℕ
  pub log_pos : ℕ
  pub server_id : ℕ

unfoldable pub event_row_type : Action → EventRowType
event_row_type insert_action = insert_event_row_type
event_row_type update_action = update_event_row_type
event_row_type delete_action = delete_event_row_type
event_row_type (other_action a) = other_event_row_type a

-- The event that one turn of the loop fills in.
unfoldable pub make_event : RowsEvent → ℕ → RowMap → RowMap → EventData
unfolding event_row_type
make_event e now data_map old = record {
  time = now;
  server_id = pos e.server_id;
  pos = pos e.log_pos;
  row = record {
    time = pos e.timestamp;
    database = e.schema;
    table = e.name;
    type = event_row_type e.action;
    data_map = data_map;
    old = old;
  };
}

-- What the loop meets at its turn `k`: the clock, and the context's error if the select takes
-- `runCtx.Done()` and not the send.
pub record Turns : Type 0 where
  pub now : ℕ → ℕ
  pub cancelled : ℕ → Option GoError

-- What was sent to the channel, and what `OnRow` returns.
pub record Emitted : Type 0 where
  pub sent : List EventData
  pub result : Option GoError

-- The select at the end of turn `k`.
abbrev pub send_or_stop : Turns → ℕ → EventData → Emitted → Emitted
send_or_stop turns k event rest = elim (turns.cancelled k) [
  | some c ↦ record { sent = []; result = some c }
  | none ↦ record { sent = event ∷ rest.sent; result = rest.result }
]

-- The loop of `OnRow` from its turn `k` on; an update takes the row before and the row after.
unfoldable pub on_row_from : Decoders → Turns → RowsEvent → Action → ℕ → List (List Value) → Emitted
unfolding row_to_map make_event
on_row_from dec turns e update_action k (before ∷ after ∷ rows) =
    let rest = on_row_from dec turns e update_action (suc k) rows in
    send_or_stop turns k
      (make_event e (turns.now k) (row_to_map dec after e.columns)
        (row_to_map dec before e.columns))
      rest
on_row_from dec turns e a k [] = record { sent = []; result = none }
on_row_from dec turns e a k (row ∷ rows) =
    let rest = on_row_from dec turns e a (suc k) rows in
    send_or_stop turns k (make_event e (turns.now k) (row_to_map dec row e.columns) []) rest

unfoldable pub on_row : Decoders → Turns → RowsEvent → Emitted
unfolding on_row_from
on_row dec turns e = on_row_from dec turns e e.action 0 e.rows
