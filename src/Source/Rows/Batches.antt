-- ===== src/Source/Rows/Batches.antt =====
-- `OnRow` of source/mysql.go: the events of a batch of rows, their order, and what a cancelled
-- context cuts off.
use mathlib.Core.Path.{subst}
use cdc_trigger.Prelude.{
  ℕ, suc, ◌+◌, ◌≡◌, ◌↔◌, ◌≢◌, refl, sym, ap, ◌∙◌, ◌⊎◌, inl, inr, none, some, List, [], ◌∷◌, ◌++◌,
  length, arith, Option-cases,
}
use cdc_trigger.Errors.{Value, GoError}
use cdc_trigger.Types.{EventData}
use cdc_trigger.Source.Rows.{
  Decoders, row_to_map, Action, update_action, RowsEvent, make_event, Turns, Emitted, send_or_stop,
  on_row_from, on_row,
}

-- An update as the binlog writes it: the row before and the row after.
abbrev pub Update : Type 0
Update = List Value × List Value

abbrev pub update_rows : List Update → List (List Value)
update_rows [] = []
update_rows ((before, after) ∷ us) = before ∷ after ∷ update_rows us

-- The events that the batch stands for, numbered from turn `k`.
abbrev pub update_events : Decoders → Turns → RowsEvent → ℕ → List Update → List EventData
update_events dec turns e k [] = []
update_events dec turns e k ((before, after) ∷ us) =
    make_event e (turns.now k) (row_to_map dec after e.columns) (row_to_map dec before e.columns)
    ∷ update_events dec turns e (suc k) us

abbrev pub row_events : Decoders → Turns → RowsEvent → ℕ → List (List Value) → List EventData
row_events dec turns e k [] = []
row_events dec turns e k (row ∷ rows) =
    make_event e (turns.now k) (row_to_map dec row e.columns) []
    ∷ row_events dec turns e (suc k) rows

-- Sending a list of events from turn `k` on, until the context is done.
abbrev pub send_each : Turns → ℕ → List EventData → Emitted
send_each turns k [] = record { sent = []; result = none }
send_each turns k (event ∷ events) = send_or_stop turns k event (send_each turns (suc k) events)

on_row_from-updates :
    (dec : Decoders) (turns : Turns) (e : RowsEvent) (k : ℕ) (us : List Update)
    → on_row_from dec turns e update_action k (update_rows us)
      ≡ send_each turns k (update_events dec turns e k us)
unfolding on_row_from
on_row_from-updates dec turns e k [] = refl
on_row_from-updates dec turns e k ((before, after) ∷ us) =
    ap (send_or_stop turns k _) (on_row_from-updates dec turns e (suc k) us)

on_row_from-rows :
    (dec : Decoders) (turns : Turns) (e : RowsEvent) (a : Action) (k : ℕ) (rows : List (List Value))
    → a ≢ update_action
    → on_row_from dec turns e a k rows ≡ send_each turns k (row_events dec turns e k rows)
unfolding on_row_from
on_row_from-rows dec turns e update_action k rows h = absurd (h refl)
on_row_from-rows dec turns e a k [] h = refl
on_row_from-rows dec turns e a k (row ∷ rows) h =
    ap (send_or_stop turns k _) (on_row_from-rows dec turns e a (suc k) rows h)

-- The context is live at the turns `k`, `k + 1`, ... of a list of events.
abbrev pub Live : Turns → ℕ → List EventData → Type 0
Live turns k [] = Unit
Live turns k (x ∷ xs) = (turns.cancelled k ≡ none) × Live turns (suc k) xs

-- What was sent is a beginning of the events, and nothing is missing from it exactly when the
-- result is nil, and exactly when the context was live at every turn. It was live at the turns of
-- what was sent; where something is missing it was done at the turn behind them, and the result is
-- its error.
pub record IsCut (turns : Turns) (events : List EventData) (out : Emitted) : Type 0 where
  pub unsent : List EventData
  pub split : out.sent ++ unsent ≡ events
  pub result_none : (out.result ≡ none) ↔ (unsent ≡ [])
  pub live : Live turns 0 events ↔ (unsent ≡ [])
  pub sent_live : Live turns 0 out.sent
  pub stop :
      (unsent ≡ [])
      ⊎ ((c : GoError) × (turns.cancelled (length out.sent) ≡ some c) × (out.result ≡ some c))

-- The same from turn `k` on.
abbrev CutAt : Turns → ℕ → List EventData → Emitted → Type 0
CutAt turns k events out =
    (unsent : List EventData) × (out.sent ++ unsent ≡ events)
    × ((out.result ≡ none) ↔ (unsent ≡ []))
    × (Live turns k events ↔ (unsent ≡ []))
    × Live turns k out.sent
    × ((unsent ≡ [])
        ⊎ ((c : GoError) × (turns.cancelled (k + length out.sent) ≡ some c)
            × (out.result ≡ some c)))

send_or_stop-cut :
    (turns : Turns) (k : ℕ) (x : EventData) (xs : List EventData) (out : Emitted)
    → CutAt turns (suc k) xs out
    → CutAt turns k (x ∷ xs) (send_or_stop turns k x out)
send_or_stop-cut turns k x xs out (unsent, split, none_iff, live_iff, live, stop) =
    let after = send_or_stop turns k x out in
    let turn : k + suc (length out.sent) ≡ suc k + length out.sent = omega arith in
    elim (Option-cases (turns.cancelled k)) [
      | inl calm ↦
          let sent : after.sent ≡ x ∷ out.sent = ground (arith, calm) in
          (
            unsent,
            ground (arith, calm, split),
            (λ h. none_iff.0 (ground (arith, calm, h)), λ h. ground (arith, calm, none_iff.1 h)),
            (λ h. live_iff.0 h.1, λ h. (calm, live_iff.1 h)),
            subst (Live turns k) (sym sent) (calm, live),
            elim stop [
              | inl whole ↦ inl whole
              | inr (c, done, told) ↦ inr (
                c,
                subst (λ l. turns.cancelled (k + length l) ≡ some c) (sym sent)
                    (ap turns.cancelled turn ∙ done),
                ground (arith, calm, told),
              )
            ],
          )
      | inr (c, done) ↦
          let none_sent : after.sent ≡ [] = ground (arith, done) in
          let first : k + 0 ≡ k = omega arith in
          (
            x ∷ xs,
            ground (arith, done),
            (λ h. ground (arith, done, h), λ h. cc),
            (λ h. ground (arith, done, h.0), λ h. cc),
            subst (Live turns k) (sym none_sent) tt,
            inr (
              c,
              subst (λ l. turns.cancelled (k + length l) ≡ some c) (sym none_sent)
                  (ap turns.cancelled first ∙ done),
              ground (arith, done),
            ),
          )
    ]

send_each-cut :
    (turns : Turns) (k : ℕ) (events : List EventData)
    → CutAt turns k events (send_each turns k events)
send_each-cut turns k [] = ([], refl, (λ _. refl, λ _. refl), (λ _. refl, λ _. tt), tt, inl refl)
send_each-cut turns k (x ∷ xs) =
    send_or_stop-cut turns k x xs (send_each turns (suc k) xs) (send_each-cut turns (suc k) xs)

pub send_each-IsCut :
    (turns : Turns) (events : List EventData) → IsCut turns events (send_each turns 0 events)
send_each-IsCut turns events =
    let (unsent, split, none_iff, live_iff, live, stop) = send_each-cut turns 0 events in
    record {
      unsent = unsent;
      split = split;
      result_none = none_iff;
      live = live_iff;
      sent_live = live;
      stop = elim stop [
        | inl whole ↦ inl whole
        | inr (c, done, told) ↦
            let sent = (send_each turns 0 events).sent in
            let turn : length sent ≡ 0 + length sent = omega arith in
            inr (c, ap turns.cancelled turn ∙ done, told)
      ];
    }

-- An update event of the binlog, whose rows are pairs of the row before and the row after, gives
-- one event for each pair, in order, with the new row as its data and the old one beside it. They
-- are sent up to the first turn at which the context is done, whose error is the result, and all of
-- them with the result nil if it never is.
pub on_row-updates :
    (dec : Decoders) (turns : Turns) (e : RowsEvent) (us : List Update)
    → e.action ≡ update_action
    → e.rows ≡ update_rows us
    → IsCut turns (update_events dec turns e 0 us) (on_row dec turns e)
unfolding on_row
on_row-updates dec turns e us ha hr =
    let shown =
      (λ i. on_row_from dec turns e (ha i) 0 (hr i)) ∙ on_row_from-updates dec turns e 0 us in
    subst (IsCut turns (update_events dec turns e 0 us)) (sym shown)
      (send_each-IsCut turns (update_events dec turns e 0 us))

-- An event of the binlog other than an update gives one event for each row, in order, with no old
-- data. They are sent up to the first turn at which the context is done, whose error is the result,
-- and all of them with the result nil if it never is.
pub on_row-rows :
    (dec : Decoders) (turns : Turns) (e : RowsEvent)
    → e.action ≢ update_action
    → IsCut turns (row_events dec turns e 0 e.rows) (on_row dec turns e)
unfolding on_row
on_row-rows dec turns e ha =
    rw (on_row_from-rows dec turns e e.action 0 e.rows ha)
      (send_each-IsCut turns (row_events dec turns e 0 e.rows))
