-- ===== src/Source/Rows/Cells.antt =====
-- `rowToMap` of source/mysql.go: which column gets which value.
use cdc_trigger.Prelude.{
  ℕ, zero, suc, String, ◌≡◌, ◌≢◌, refl, ◌∙◌, Option, none, some, List, [], ◌∷◌, map, arith, All,
  Distinct, lookup-insert_self, get_elem?, lookup, insert, lookup-insert, eq_iff,
}
use cdc_trigger.Errors.{Value, null}
use cdc_trigger.Types.{RowMap}
use cdc_trigger.Source.Rows.{Column, Decoders, column_value, fill_map, row_to_map}

abbrev pub column_names : List Column → List String
column_names columns = map (λ (c : Column). c.name) columns

-- A later column of another name leaves a key alone.
fill_map-apart :
    (dec : Decoders) (cols : List Column) (row : List Value) (m : RowMap) (key : String)
    → All (λ n. key ≢ n) (column_names cols)
    → lookup key (fill_map dec cols row m) ≡ lookup key m
unfolding fill_map
fill_map-apart dec [] row m key h = refl
fill_map-apart dec (col ∷ cols) [] m key h =
    fill_map-apart dec cols [] (insert col.name null m) key h.1
    ∙ ground (arith, lookup-insert col.name key null m, eq_iff col.name key, h.0)
fill_map-apart dec (col ∷ cols) (raw ∷ row) m key h =
    fill_map-apart dec cols row (insert col.name (column_value dec col.type raw) m) key h.1
    ∙ ground (
      arith,
      lookup-insert col.name key (column_value dec col.type raw) m,
      eq_iff col.name key,
      h.0,
    )

-- What stands under a column: its converted value, or nil where the row is too short.
abbrev pub cell_of : Decoders → Column → Option Value → Value
cell_of dec col none = null
cell_of dec col (some raw) = column_value dec col.type raw

fill_map-at :
    (dec : Decoders) (cols : List Column) (row : List Value) (m : RowMap) (j : ℕ) (col : Column)
    → Distinct (column_names cols)
    → get_elem? cols j ≡ some col
    → lookup col.name (fill_map dec cols row m) ≡ some (cell_of dec col (get_elem? row j))
unfolding fill_map
fill_map-at dec [] row m j col d e = cc
fill_map-at dec (x ∷ cols) [] m zero col d e =
    let same : x ≡ col = cc in
    rw (← same) (
      fill_map-apart dec cols [] (insert x.name null m) x.name d.0
      ∙ lookup-insert_self x.name null m)
fill_map-at dec (x ∷ cols) (raw ∷ row) m zero col d e =
    let v = column_value dec x.type raw in
    let same : x ≡ col = cc in
    rw (← same)
      (fill_map-apart dec cols row (insert x.name v m) x.name d.0 ∙ lookup-insert_self x.name v m)
fill_map-at dec (x ∷ cols) [] m (suc j) col d e =
    fill_map-at dec cols [] (insert x.name null m) j col d.1 e
fill_map-at dec (x ∷ cols) (raw ∷ row) m (suc j) col d e =
    fill_map-at dec cols row (insert x.name (column_value dec x.type raw) m) j col d.1 e

-- With distinct column names the map holds, under the name of each column, the converted value of
-- the row at the column's index, and nil where the value is nil or the row is too short.
pub lookup-row_to_map :
    (dec : Decoders) (row : List Value) (cols : List Column) (j : ℕ) (col : Column)
    → Distinct (column_names cols)
    → get_elem? cols j ≡ some col
    → lookup col.name (row_to_map dec row cols) ≡ some (cell_of dec col (get_elem? row j))
unfolding row_to_map
lookup-row_to_map dec row cols j col d e = fill_map-at dec cols row [] j col d e

-- The map of a row holds nothing under a name that no column has.
pub lookup-row_to_map-none :
    (dec : Decoders) (row : List Value) (cols : List Column) (key : String)
    → All (λ n. key ≢ n) (column_names cols)
    → lookup key (row_to_map dec row cols) ≡ none
unfolding row_to_map lookup
lookup-row_to_map-none dec row cols key h = fill_map-apart dec cols row [] key h
