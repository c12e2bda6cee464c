-- ===== src/Source/Rows/Kinds.antt =====
-- `rowToMap` of source/mysql.go: the dynamic types that its values may have.
pub mod Conversions
pub mod Columns
use mathlib.Core.Path.{subst}
use cdc_trigger.Prelude.{
  ℕ, zero, suc, ◌^◌, ◌<◌, String, ◌≡◌, refl, sym, ◌∙◌, ◌⊎◌, inl, inr, Bool, true, false, not,
  Option, none, some, List, [], ◌∷◌, arith, Option-cases, Bool-cases, get_elem?, lookup, insert,
  lookup-insert, eq_iff, str_eq, ltb, ltb→lt, ◌==◌, if◌then◌else◌,
}
use cdc_trigger.Errors.{
  ℤ, pos, negsuc, Value, null, str, bytes, int64, float64, boolean, time, other,
}
use cdc_trigger.Types.{RowMap}
use cdc_trigger.Source.Rows.{
  ColumnType, type_number, type_medium_int, type_float, type_decimal, type_bit, type_datetime,
  type_timestamp, type_date, type_time, type_string, type_enum, type_set, type_json, type_binary,
  type_point, type_other, Column, Decoders, int_in_range, parse_int, parse_uint, number_cell,
  float_cell, bit_cell, time_cell, text_cell, cell, column_value, fill_map, row_to_map,
}

-- What a column holds, as the program reads it.
pub data Kind : Type 0 where
  integer real flag moment text plain : Kind

abbrev pub kind_of : ColumnType → Kind
kind_of type_number = integer
kind_of type_medium_int = integer
kind_of type_float = real
kind_of type_decimal = real
kind_of type_bit = flag
kind_of type_datetime = moment
kind_of type_timestamp = moment
kind_of type_date = moment
kind_of type_time = moment
kind_of type_string = text
kind_of type_enum = text
kind_of type_set = text
kind_of type_json = text
kind_of type_binary = text
kind_of type_point = text
kind_of (type_other n) = plain

-- The range of `int64`.
abbrev pub InInt64 : ℤ → Type 0
InInt64 (pos n) = n < 2 ^ 63
InInt64 (negsuc n) = n < 2 ^ 63

-- What bytes become in a column of this kind.
abbrev pub FitsBytes : Kind → List ℕ → Value → Type 0
FitsBytes integer b v = ((n : ℤ) × (v ≡ int64 n) × InInt64 n) ⊎ (v ≡ bytes b)
FitsBytes real b v = ((x : ℕ) × (v ≡ float64 x)) ⊎ (v ≡ bytes b)
FitsBytes flag b v = (x : Bool) × (v ≡ boolean x)
FitsBytes moment b v = ((t : ℕ) × (v ≡ time t)) ⊎ ((s : String) × (v ≡ str s))
FitsBytes text b v = (s : String) × (v ≡ str s)
FitsBytes plain b v = v ≡ bytes b

-- Only bytes are converted; a missing value is nil.
abbrev pub Fits : Kind → Option Value → Value → Type 0
Fits k none v = v ≡ null
Fits k (some null) v = v ≡ null
Fits k (some (bytes b)) v = FitsBytes k b v
Fits k (some (str s)) v = v ≡ str s
Fits k (some (int64 n)) v = v ≡ int64 n
Fits k (some (float64 x)) v = v ≡ float64 x
Fits k (some (boolean x)) v = v ≡ boolean x
Fits k (some (time t)) v = v ≡ time t
Fits k (some (other n)) v = v ≡ other n
