-- ===== src/Source/Restarts.antt =====
-- source/mysql.go across restarts: the canal calls `OnRow` and `OnPosSynced`, a session ends anywhere,
-- and the next one starts at the position that `loadPosition` finds.
pub mod Covered
use mathlib.Core.List.{append_assoc, append-nil}
use mathlib.Core.Path.{subst}
use native.Mathlib.Decide.{dec_lt}
use cdc_trigger.Prelude.{
  ℕ, suc, ◌≤◌, ◌<◌, String, ◌≡◌, refl, sym, ap, ◌∙◌, Bool, true, false, Option, none, some, List,
  [], ◌++◌, arith,
}
use cdc_trigger.Errors.{GoError, Result, ok, err}
use cdc_trigger.Types.{EventData}
use cdc_trigger.Store.{StoreApi, StoreLaws}
use cdc_trigger.Source.Rows.{Decoders, Turns, RowsEvent, on_row}
use cdc_trigger.Source.Position.{
  Position, PositionCodec, store_key_position, stored_position, load_position, save_position,
}
use cdc_trigger.Source.Position.Resume.{CodecLaws, IsUsable, load_position-save}

-- The binlog, entry by entry. `at k` is the position in front of entry `k`, and `index_of` the entry
-- that the canal begins with at a position.
pub record Binlog : Type 0 where
  pub entry : ℕ → RowsEvent
  pub at : ℕ → Position
  pub index_of : Position → ℕ

-- The entry that comes next, what was sent to the event channel in all sessions, the state of the
-- store, and whether a session runs.
pub record Progress (S : Type 0) : Type 0 where
  pub position : ℕ
  pub emitted : List EventData
  pub stored : S
  pub running : Bool

module _ {E S : Type 0} (api : StoreApi E S) (codec : PositionCodec) where
  -- `OnPosSynced`
  unfoldable pub on_pos_synced : E → Position → S → Option GoError × S
  on_pos_synced env p s = save_position api codec env p s

  module _ (Reads : E → Type 0) (Fits : E → String → S → Type 0) (dec : Decoders)
      (log : Binlog) where
    pub data RestartStep : Progress S → Progress S → Type 0 where
      -- `OnRow` sends all events of the entry
      rows_sent :
          (p : Progress S) (turns : Turns)
          → p.running ≡ true
          → (on_row dec turns (log.entry p.position)).result ≡ none
          → RestartStep p (record p {
            position = suc p.position;
            emitted = p.emitted ++ (on_row dec turns (log.entry p.position)).sent;
          })
      -- `OnRow` stops by the context, after some of the events, and the canal ends
      rows_cut :
          (p : Progress S) (turns : Turns) (e : GoError)
          → p.running ≡ true
          → (on_row dec turns (log.entry p.position)).result ≡ some e
          → RestartStep p (record p {
            emitted = p.emitted ++ (on_row dec turns (log.entry p.position)).sent;
            running = false;
          })
      -- `OnPosSynced` saves the position behind the entries that were handled
      synced :
          (p : Progress S) (env : E) (s : S)
          → p.running ≡ true
          → Fits env store_key_position p.stored
          → on_pos_synced env (log.at p.position) p.stored ≡ (none, s)
          → RestartStep p (record p { stored = s })
      -- it fails, which leaves what a `Get` returns, and the canal ends
      sync_failed :
          (p : Progress S) (env : E) (s : S) (e : GoError)
          → p.running ≡ true
          → on_pos_synced env (log.at p.position) p.stored ≡ (some e, s)
          → ((read : E)
              → Reads read
              → api.get read store_key_position s ≡ api.get read store_key_position p.stored)
          → RestartStep p (record p { stored = s; running = false })
      -- the program ends, or is killed, at any moment
      ends : (p : Progress S) → RestartStep p (record p { running = false })
      -- `Run` of the next process, where the store can be read
      restart :
          (p : Progress S) (read : E) (master : Option (Result Position))
          → p.running ≡ false
          → Reads read
          → RestartStep p (record p {
            position = log.index_of (load_position api codec read p.stored master);
            running = true;
          })

    pub data RestartReach (p : Progress S) : Progress S → Type 0 where
      here : RestartReach p p
      next : {q r : Progress S} → RestartReach p q → RestartStep q r → RestartReach p r
