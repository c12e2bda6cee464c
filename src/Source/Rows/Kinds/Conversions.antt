-- ===== src/Source/Rows/Kinds/Conversions.antt =====
-- The switch of `rowToMap` in source/mysql.go, which converts one value.
use mathlib.Core.Path.{subst}
use cdc_trigger.Prelude.{
  ℕ, zero, suc, ◌^◌, ◌≡◌, refl, inl, inr, Bool, true, false, not, Option, none, some, List, [], ◌∷◌,
  arith, Option-cases, Bool-cases, ltb, ltb→lt, ◌==◌, if◌then◌else◌,
}
use cdc_trigger.Errors.{
  ℤ, pos, negsuc, Value, null, str, bytes, int64, float64, boolean, time, other,
}
use cdc_trigger.Source.Rows.{
  ColumnType, type_number, type_medium_int, type_float, type_decimal, type_bit, type_datetime,
  type_timestamp, type_date, type_time, type_string, type_enum, type_set, type_json, type_binary,
  type_point, type_other, Decoders, int_in_range, parse_int, parse_uint, number_cell, float_cell,
  bit_cell, time_cell, text_cell, cell, column_value,
}
use cdc_trigger.Source.Rows.Kinds.{
  integer, real, flag, moment, text, kind_of, InInt64, FitsBytes, Fits,
}

at_some : (x n : ℤ) → InInt64 x → some x ≡ some n → InInt64 n
at_some x n h e = let same : x ≡ n = cc in subst InInt64 same h

limited :
    (b : Bool) (x n : ℤ)
    → (b ≡ true → InInt64 x)
    → (if b then some x else none) ≡ some n
    → InInt64 n
limited true x n h e = at_some x n (h refl) e
limited false x n h e = absurd (ground (arith, e))

int_in_range-InInt64 :
    (negative : Bool) (o : Option ℕ) (n : ℤ) → int_in_range negative o ≡ some n → InInt64 n
int_in_range-InInt64 negative none n h = absurd (ground (arith, h))
int_in_range-InInt64 false (some m) n h = limited (ltb m (2 ^ 63)) (pos m) n (ltb→lt m (2 ^ 63)) h
int_in_range-InInt64 true (some zero) n h = at_some (pos 0) n (omega arith) h
int_in_range-InInt64 true (some (suc m)) n h =
    limited (ltb m (2 ^ 63)) (negsuc m) n (ltb→lt m (2 ^ 63)) h

-- What `strconv.ParseInt` gives is an int64.
parse_int-InInt64 : (b : List ℕ) (n : ℤ) → parse_int b ≡ some n → InInt64 n
unfolding parse_int
parse_int-InInt64 [] n h = absurd (ground (arith, h))
parse_int-InInt64 (c ∷ cs) n h = elim (Bool-cases (c == b'-')) [
  | inl minus ↦ int_in_range-InInt64 true (parse_uint cs) n (rw (minus, parse_int) at h)
  | inr other_sign ↦ elim (Bool-cases (c == b'+')) [
    | inl plus ↦
        int_in_range-InInt64 false (parse_uint cs) n (rw (other_sign, plus, parse_int) at h)
    | inr digit ↦
        int_in_range-InInt64 false (parse_uint (c ∷ cs)) n (rw (other_sign, digit, parse_int) at h)
  ]
]

number_cell-FitsBytes : (b : List ℕ) → FitsBytes integer b (number_cell (bytes b))
unfolding number_cell
number_cell-FitsBytes b = elim (Option-cases (parse_int b)) [
  | inl failed ↦ inr (rw (failed, number_cell) refl)
  | inr (n, parsed) ↦ inl (n, rw (parsed, number_cell) refl, parse_int-InInt64 b n parsed)
]

module _ (dec : Decoders) where
  float_cell-FitsBytes : (b : List ℕ) → FitsBytes real b (float_cell dec (bytes b))
  unfolding float_cell
  float_cell-FitsBytes b = elim (Option-cases (dec.parse_float b)) [
    | inl failed ↦ inr (rw (failed, float_cell) refl)
    | inr (x, parsed) ↦ inl (x, rw (parsed, float_cell) refl)
  ]

  time_cell-FitsBytes : (b : List ℕ) → FitsBytes moment b (time_cell dec (bytes b))
  unfolding time_cell
  time_cell-FitsBytes b = elim (Option-cases (dec.parse_time b)) [
    | inl failed ↦ inr (dec.text b, rw (failed, time_cell) refl)
    | inr (t, parsed) ↦ inl (t, rw (parsed, time_cell) refl)
  ]

  bit_cell-FitsBytes : (b : List ℕ) → FitsBytes flag b (bit_cell (bytes b))
  unfolding bit_cell
  bit_cell-FitsBytes [] = (false, refl)
  bit_cell-FitsBytes (x ∷ xs) = (not (x == 0), refl)

  text_cell-FitsBytes : (b : List ℕ) → FitsBytes text b (text_cell dec (bytes b))
  unfolding text_cell
  text_cell-FitsBytes b = (dec.text b, refl)

  cell-FitsBytes : (t : ColumnType) (b : List ℕ) → FitsBytes (kind_of t) b (cell dec t (bytes b))
  unfolding cell
  cell-FitsBytes type_number b = number_cell-FitsBytes b
  cell-FitsBytes type_medium_int b = number_cell-FitsBytes b
  cell-FitsBytes type_float b = float_cell-FitsBytes b
  cell-FitsBytes type_decimal b = float_cell-FitsBytes b
  cell-FitsBytes type_bit b = bit_cell-FitsBytes b
  cell-FitsBytes type_datetime b = time_cell-FitsBytes b
  cell-FitsBytes type_timestamp b = time_cell-FitsBytes b
  cell-FitsBytes type_date b = time_cell-FitsBytes b
  cell-FitsBytes type_time b = time_cell-FitsBytes b
  cell-FitsBytes type_string b = text_cell-FitsBytes b
  cell-FitsBytes type_enum b = text_cell-FitsBytes b
  cell-FitsBytes type_set b = text_cell-FitsBytes b
  cell-FitsBytes type_json b = text_cell-FitsBytes b
  cell-FitsBytes type_binary b = text_cell-FitsBytes b
  cell-FitsBytes type_point b = text_cell-FitsBytes b
  cell-FitsBytes (type_other n) b = refl

  -- A value that arrives with a type of its own, not as bytes.
  abbrev Own : Value → Type 0
  Own (bytes b) = ⊥
  Own raw = Unit

  number_cell-Own : (raw : Value) → Own raw → number_cell raw ≡ raw
  unfolding number_cell
  number_cell-Own (bytes b) h = elim h [ ]
  number_cell-Own null h = refl
  number_cell-Own raw h = refl

  float_cell-Own : (raw : Value) → Own raw → float_cell dec raw ≡ raw
  unfolding float_cell
  float_cell-Own (bytes b) h = elim h [ ]
  float_cell-Own null h = refl
  float_cell-Own raw h = refl

  bit_cell-Own : (raw : Value) → Own raw → bit_cell raw ≡ raw
  unfolding bit_cell
  bit_cell-Own (bytes b) h = elim h [ ]
  bit_cell-Own null h = refl
  bit_cell-Own raw h = refl

  time_cell-Own : (raw : Value) → Own raw → time_cell dec raw ≡ raw
  unfolding time_cell
  time_cell-Own (bytes b) h = elim h [ ]
  time_cell-Own null h = refl
  time_cell-Own raw h = refl

  text_cell-Own : (raw : Value) → Own raw → text_cell dec raw ≡ raw
  unfolding text_cell
  text_cell-Own (bytes b) h = elim h [ ]
  text_cell-Own null h = refl
  text_cell-Own raw h = refl

  cell-Own : (t : ColumnType) (raw : Value) → Own raw → cell dec t raw ≡ raw
  unfolding cell
  cell-Own type_number raw h = number_cell-Own raw h
  cell-Own type_medium_int raw h = number_cell-Own raw h
  cell-Own type_float raw h = float_cell-Own raw h
  cell-Own type_decimal raw h = float_cell-Own raw h
  cell-Own type_bit raw h = bit_cell-Own raw h
  cell-Own type_datetime raw h = time_cell-Own raw h
  cell-Own type_timestamp raw h = time_cell-Own raw h
  cell-Own type_date raw h = time_cell-Own raw h
  cell-Own type_time raw h = time_cell-Own raw h
  cell-Own type_string raw h = text_cell-Own raw h
  cell-Own type_enum raw h = text_cell-Own raw h
  cell-Own type_set raw h = text_cell-Own raw h
  cell-Own type_json raw h = text_cell-Own raw h
  cell-Own type_binary raw h = text_cell-Own raw h
  cell-Own type_point raw h = text_cell-Own raw h
  cell-Own (type_other n) raw h = refl

  pub column_value-Fits :
      (t : ColumnType) (raw : Value) → Fits (kind_of t) (some raw) (column_value dec t raw)
  unfolding column_value
  column_value-Fits t null = refl
  column_value-Fits t (bytes b) = cell-FitsBytes t b
  column_value-Fits t (str s) = cell-Own t (str s) tt
  column_value-Fits t (int64 n) = cell-Own t (int64 n) tt
  column_value-Fits t (float64 x) = cell-Own t (float64 x) tt
  column_value-Fits t (boolean x) = cell-Own t (boolean x) tt
  column_value-Fits t (time x) = cell-Own t (time x) tt
  column_value-Fits t (other n) = cell-Own t (other n) tt
