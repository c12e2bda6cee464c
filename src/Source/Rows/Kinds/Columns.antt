-- ===== src/Source/Rows/Kinds/Columns.antt =====
-- The loop of `rowToMap` in source/mysql.go: where each value of the map comes from.
use mathlib.Core.Path.{subst}
use cdc_trigger.Prelude.{
  ℕ, suc, String, ◌≡◌, refl, sym, ◌⊎◌, inl, inr, some, List, [], ◌∷◌, arith, Bool-cases, get_elem?,
  lookup, insert, lookup-insert, eq_iff, str_eq,
}
use cdc_trigger.Errors.{Value, null}
use cdc_trigger.Types.{RowMap}
use cdc_trigger.Source.Rows.{Column, Decoders, column_value, fill_map, row_to_map}
use cdc_trigger.Source.Rows.Kinds.{kind_of, Fits}
use cdc_trigger.Source.Rows.Kinds.Conversions.{column_value-Fits}

-- A column of that name, and a value that fits it and what stands under it in the row.
abbrev pub FromColumn : List Column → List Value → String → Value → Type 0
FromColumn cols row key v =
    (j : ℕ) × (col : Column) × (get_elem? cols j ≡ some col)
    × (col.name ≡ key)
    × Fits (kind_of col.type) (get_elem? row j) v

-- A write into the map is what is looked up, or the rest of the map is.
inserted :
    (name key : String) (x v : Value) (m : RowMap)
    → lookup key (insert name x m) ≡ some v
    → ((name ≡ key) × (x ≡ v)) ⊎ (lookup key m ≡ some v)
inserted name key x v m h = elim (Bool-cases (str_eq name key)) [
  | inl same ↦ inl ((eq_iff name key).0 same, ground (arith, lookup-insert name key x m, same, h))
  | inr apart ↦ inr (ground (arith, lookup-insert name key x m, apart, h))
]

module _ (dec : Decoders) (key : String) (v : Value) where
  later :
      (col : Column) (cols : List Column) (raw : Value) (row : List Value)
      → FromColumn cols row key v
      → FromColumn (col ∷ cols) (raw ∷ row) key v
  later col cols raw row (j, c, at, named, fits) = (suc j, c, at, named, fits)

  later_short :
      (col : Column) (cols : List Column)
      → FromColumn cols [] key v
      → FromColumn (col ∷ cols) [] key v
  later_short col cols (j, c, at, named, fits) = (suc j, c, at, named, fits)

  fill_map-FromColumn :
      (cols : List Column) (row : List Value) (m : RowMap)
      → lookup key (fill_map dec cols row m) ≡ some v
      → FromColumn cols row key v ⊎ (lookup key m ≡ some v)
  unfolding fill_map
  fill_map-FromColumn [] row m h = inr h
  fill_map-FromColumn (col ∷ cols) [] m h =
      elim (fill_map-FromColumn cols [] (insert col.name null m) h) [
        | inl found ↦ inl (later_short col cols found)
        | inr found ↦ elim (inserted col.name key null v m found) [
          | inl (named, same) ↦ inl (0, col, refl, named, sym same)
          | inr before ↦ inr before
        ]
      ]
  fill_map-FromColumn (col ∷ cols) (raw ∷ row) m h =
      let x = column_value dec col.type raw in
      elim (fill_map-FromColumn cols row (insert col.name x m) h) [
        | inl found ↦ inl (later col cols raw row found)
        | inr found ↦ elim (inserted col.name key x v m found) [
          | inl (named, same) ↦ inl (
            0,
            col,
            refl,
            named,
            subst (λ y. Fits (kind_of col.type) (some raw) y) same
                (column_value-Fits dec col.type raw),
          )
          | inr before ↦ inr before
        ]
      ]

-- Every value in the map of a row stands under the name of one of the columns, and fits it: nil and
-- the values that arrive with a type of their own are unchanged, a missing value is nil, and bytes
-- become an int64 in its range or stay bytes in a column of integers, a float or stay bytes in one of
-- reals, a Boolean in one of bits, a time or a string in one of times, a string in one of texts, and
-- stay bytes in a column of any other type.
pub row_to_map-Fits :
    (dec : Decoders) (row : List Value) (cols : List Column) (key : String) (v : Value)
    → lookup key (row_to_map dec row cols) ≡ some v
    → FromColumn cols row key v
unfolding row_to_map
row_to_map-Fits dec row cols key v h = elim (fill_map-FromColumn dec key v cols row [] h) [
  | inl found ↦ found
  | inr before ↦ absurd (unfold lookup in ground (arith, before))
]
