-- ===== src/Source/Restarts/Covered.antt =====
-- What the restarts of source/mysql.go keep: no entry of the binlog is skipped.
use mathlib.Core.List.{append_assoc, append-nil}
use mathlib.Core.Path.{subst}
use native.Mathlib.Decide.{dec_lt}
use cdc_trigger.Prelude.{
  ℕ, suc, ◌≤◌, ◌<◌, String, ◌≡◌, sym, ap, ◌∙◌, true, Option, none, List, [], ◌++◌, arith,
}
use cdc_trigger.Errors.{Result}
use cdc_trigger.Types.{EventData}
use cdc_trigger.Store.{StoreApi, StoreLaws}
use cdc_trigger.Source.Rows.{Decoders, Turns, on_row}
use cdc_trigger.Source.Rows.Entries.{entry_events, on_row-whole}
use cdc_trigger.Source.Position.{Position, PositionCodec, stored_position, load_position}
use cdc_trigger.Source.Position.Resume.{CodecLaws, IsUsable, load_position-save}
use cdc_trigger.Source.Restarts.{
  Binlog, Progress, on_pos_synced, RestartStep, rows_sent, rows_cut, synced, sync_failed, ends,
  restart, RestartReach, here, next,
}

-- All events of entry `j`, at the times of some clock, stand together among those that were sent.
abbrev pub Emits : Decoders → Binlog → ℕ → List EventData → Type 0
Emits dec log j emitted =
    (now : ℕ → ℕ) × (front : List EventData) × (back : List EventData) × (emitted
      ≡ front ++ (entry_events dec now (log.entry j) ++ back))

Emits-append :
    (dec : Decoders) (log : Binlog) (j : ℕ) (emitted more : List EventData)
    → Emits dec log j emitted
    → Emits dec log j (emitted ++ more)
Emits-append dec log j emitted more (now, front, back, shown) =
    let sent = entry_events dec now (log.entry j) in
    (
      now,
      front,
      back ++ more,
      ap (λ l. l ++ more) shown
          ∙ append_assoc front (sent ++ back) more
          ∙ ap (λ l. front ++ l) (append_assoc sent back more),
    )

module _ {E S : Type 0} (api : StoreApi E S) (codec : PositionCodec) (Reads : E → Type 0)
    (dec : Decoders) (log : Binlog) (first : ℕ) where
  -- Every start that can read the store begins with entry `k`.
  abbrev pub StartsAt : ℕ → S → Type 0
  StartsAt k s =
      (read : E) (master : Option (Result Position))
      → Reads read
      → load_position api codec read s master ≡ log.at k

  -- `mark` is the first entry that was never sent, and `saved` the one that a restart begins with.
  record Covered (p : Progress S) : Type 0 where
    mark : ℕ
    saved : ℕ
    begun : first ≤ p.position
    below : p.position ≤ mark
    kept : first ≤ saved
    behind : saved ≤ mark
    starts : StartsAt saved p.stored
    sent : (j : ℕ) → first ≤ j → j < mark → Emits dec log j p.emitted

  module _ {Fits : E → String → S → Type 0} (laws : StoreLaws api Reads Fits)
      (codec_laws : CodecLaws codec) (usable : (k : ℕ) → IsUsable (log.at k))
      (found : (k : ℕ) → log.index_of (log.at k) ≡ k) where
    -- One more entry, or one that was sent before.
    emit-Covered :
        (p : Progress S) (turns : Turns)
        → (on_row dec turns (log.entry p.position)).result ≡ none
        → Covered p
        → Covered (record p {
          position = suc p.position;
          emitted = p.emitted ++ (on_row dec turns (log.entry p.position)).sent;
        })
    emit-Covered p turns fine v =
        let more = (on_row dec turns (log.entry p.position)).sent in
        let new : Emits dec log p.position (p.emitted ++ more) = (
          turns.now,
          p.emitted,
          [],
          ap (λ l. p.emitted ++ l)
              (on_row-whole dec turns (log.entry p.position) fine
                ∙ sym (append-nil (entry_events dec turns.now (log.entry p.position)))),
        ) in
        elim (dec_lt p.position v.mark) [
          | yes old ↦ record {
            mark = v.mark;
            saved = v.saved;
            begun = omega (arith, v.begun);
            below = omega arith;
            kept = v.kept;
            behind = v.behind;
            starts = v.starts;
            sent = λ j low high. Emits-append dec log j p.emitted more (v.sent j low high);
          }
          | no edge ↦ record {
            mark = suc p.position;
            saved = v.saved;
            begun = omega (arith, v.begun);
            below = omega arith;
            kept = v.kept;
            behind = omega (arith, v.behind, v.below);
            starts = v.starts;
            sent = λ j low high. elim (dec_lt j p.position) [
              | yes before ↦
                  Emits-append dec log j p.emitted more (v.sent j low (omega (arith, v.below)))
              | no last ↦
                  let same : p.position ≡ j = omega arith in
                  subst (λ i. Emits dec log i (p.emitted ++ more)) same new
            ];
          }
        ]

    RestartStep-Covered :
        {p q : Progress S} → RestartStep api codec Reads Fits dec log p q → Covered p → Covered q
    unfolding on_pos_synced load_position
    RestartStep-Covered (rows_sent p turns runs fine) v = emit-Covered p turns fine v
    RestartStep-Covered (rows_cut p turns e runs cut) v = record {
      mark = v.mark;
      saved = v.saved;
      begun = v.begun;
      below = v.below;
      kept = v.kept;
      behind = v.behind;
      starts = v.starts;
      sent = λ j low high. Emits-append dec log j p.emitted _ (v.sent j low high);
    }
    RestartStep-Covered (synced p env s runs fits saved) v = record {
      mark = v.mark;
      saved = p.position;
      begun = v.begun;
      below = v.below;
      kept = v.begun;
      behind = v.below;
      starts = λ read master reads.
          load_position-save api laws codec codec_laws env read (log.at p.position) p.stored s
            master (usable p.position) fits reads saved;
      sent = v.sent;
    }
    RestartStep-Covered (sync_failed p env s e runs failed same) v = record {
      mark = v.mark;
      saved = v.saved;
      begun = v.begun;
      below = v.below;
      kept = v.kept;
      behind = v.behind;
      starts = λ read master reads.
          ap (λ r. stored_position codec r master) (same read reads) ∙ v.starts read master reads;
      sent = v.sent;
    }
    RestartStep-Covered (ends p) v = record {
      mark = v.mark;
      saved = v.saved;
      begun = v.begun;
      below = v.below;
      kept = v.kept;
      behind = v.behind;
      starts = v.starts;
      sent = v.sent;
    }
    RestartStep-Covered (restart p read master stopped reads) v =
        let at : log.index_of (load_position api codec read p.stored master) ≡ v.saved =
          ap log.index_of (v.starts read master reads) ∙ found v.saved in
        record {
          mark = v.mark;
          saved = v.saved;
          begun = omega (arith, at, v.kept);
          below = omega (arith, at, v.behind);
          kept = v.kept;
          behind = v.behind;
          starts = v.starts;
          sent = v.sent;
        }

    RestartReach-Covered :
        {p q : Progress S} → RestartReach api codec Reads Fits dec log p q → Covered p → Covered q
    RestartReach-Covered here v = v
    RestartReach-Covered (next r st) v = RestartStep-Covered st (RestartReach-Covered r v)

-- Over a store and a codec that keep their promises, with positions that are usable and from which
-- the canal goes on with the entry behind them, where every start can read the store, which holds the
-- position of the entry `first` at first, and a save that fails leaves what a `Get` returns: however
-- sessions emit, save their position, fail to, and end at any moment, every entry from `first` on that
-- a session has got past had an event for each of its rows, for each pair of rows of an update, sent
-- to the channel, together and in order.
pub restarts_skip_nothing :
    {E S : Type 0} (api : StoreApi E S) (codec : PositionCodec) (Reads : E → Type 0)
    (Fits : E → String → S → Type 0) (dec : Decoders) (log : Binlog) (first j : ℕ) (s : S)
    (p : Progress S)
    → StoreLaws api Reads Fits
    → CodecLaws codec
    → ((k : ℕ) → IsUsable (log.at k))
    → ((k : ℕ) → log.index_of (log.at k) ≡ k)
    → StartsAt api codec Reads dec log first first s
    → RestartReach api codec Reads Fits dec log
        (record { position = first; emitted = []; stored = s; running = true })
        p
    → first ≤ j
    → j < p.position
    → Emits dec log j p.emitted
restarts_skip_nothing api codec Reads Fits dec log first j s p laws codec_laws usable found starts
      reached low high =
    let v =
      RestartReach-Covered api codec Reads dec log first laws codec_laws usable found reached
        (record {
          mark = first;
          saved = first;
          begun = omega arith;
          below = omega arith;
          kept = omega arith;
          behind = omega arith;
          starts = starts;
          sent = λ i from to. absurd (omega arith);
        }) in
    v.sent j low (omega (arith, v.below))
