-- ===== src/Source/Rows/Entries.antt =====
-- All that `OnRow` of source/mysql.go has to send for one entry of the binlog.
use mathlib.Core.List.{append-nil}
use cdc_trigger.Prelude.{ℕ, suc, ◌≡◌, refl, sym, ap, ◌∙◌, none, List, [], ◌∷◌, ◌++◌}
use cdc_trigger.Errors.{Value}
use cdc_trigger.Types.{EventData}
use cdc_trigger.Source.Rows.{
  Decoders, row_to_map, Action, update_action, RowsEvent, make_event, Turns, send_or_stop,
  on_row_from, on_row,
}
use cdc_trigger.Source.Rows.Batches.{send_each, send_each-IsCut}

-- The events of rows from turn `k` on, at the times of a clock. The rows of an update come in pairs,
-- the row before and the row after; a last one without its pair counts as a row of its own.
abbrev pub events_of :
    Decoders → (ℕ → ℕ) → RowsEvent → Action → ℕ → List (List Value) → List EventData
events_of dec now e update_action k (before ∷ after ∷ rows) =
    make_event e (now k) (row_to_map dec after e.columns) (row_to_map dec before e.columns)
    ∷ events_of dec now e update_action (suc k) rows
events_of dec now e a k [] = []
events_of dec now e a k (row ∷ rows) =
    make_event e (now k) (row_to_map dec row e.columns) [] ∷ events_of dec now e a (suc k) rows

abbrev pub entry_events : Decoders → (ℕ → ℕ) → RowsEvent → List EventData
entry_events dec now e = events_of dec now e e.action 0 e.rows

on_row_from-events :
    (dec : Decoders) (turns : Turns) (e : RowsEvent) (a : Action) (k : ℕ) (rows : List (List Value))
    → on_row_from dec turns e a k rows ≡ send_each turns k (events_of dec turns.now e a k rows)
unfolding on_row_from
on_row_from-events dec turns e update_action k (before ∷ after ∷ rows) =
    ap (send_or_stop turns k _) (on_row_from-events dec turns e update_action (suc k) rows)
on_row_from-events dec turns e a k [] = refl
on_row_from-events dec turns e a k (row ∷ rows) =
    ap (send_or_stop turns k _) (on_row_from-events dec turns e a (suc k) rows)

-- When `OnRow` returns nil, it has sent every event of the entry.
pub on_row-whole :
    (dec : Decoders) (turns : Turns) (e : RowsEvent)
    → (on_row dec turns e).result ≡ none
    → (on_row dec turns e).sent ≡ entry_events dec turns.now e
unfolding on_row
on_row-whole dec turns e fine =
    let events = entry_events dec turns.now e in
    let shown = on_row_from-events dec turns e e.action 0 e.rows in
    let cut = send_each-IsCut turns events in
    let empty = cut.result_none.0 (sym (ap (λ o. o.result) shown) ∙ fine) in
    ap (λ o. o.sent) shown
    ∙ sym (append-nil (send_each turns 0 events).sent)
    ∙ ap (λ l. (send_each turns 0 events).sent ++ l) (sym empty)
    ∙ cut.split
