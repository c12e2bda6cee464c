-- ===== src/Source/Position.antt =====
-- `loadPosition` and `savePosition` of source/mysql.go: the binlog position that a restart resumes.
pub mod Resume
use cdc_trigger.Prelude.{
  ℕ, ◌≡◌, ◌≢◌, refl, Bool, true, false, ◌&&◌, ◌||◌, not, String, Option, none, some, List, [], ◌∷◌,
  arith, str_eq, ◌==◌, if◌then◌else◌, Bool-cases, inl, inr,
}
use cdc_trigger.Errors.{GoError, Result, ok, err, wrapf}
use cdc_trigger.Store.{StoreApi}

-- `mysql.Position`, and the `MysqlPosition` that is stored, whose fields are the same.
pub record Position : Type 0 where
  pub name : String
  pub pos : ℕ

-- `json.Marshal` and `json.Unmarshal` at `MysqlPosition`.
pub record PositionCodec : Type 0 where
  pub marshal : Position → Result (List ℕ)
  pub unmarshal : List ℕ → Result Position

abbrev pub store_key_position : String
store_key_position = "_cdc_trigger_position"

abbrev pub no_position : Position
no_position = record { name = ""; pos = 0 }

-- The end of `loadPosition`: the master's position, which is absent if there is no canal.
unfoldable pub master_position : Option (Result Position) → Position
master_position none = no_position
master_position (some (err e)) = no_position
master_position (some (ok p)) = p

-- What `s.store.Get` gave decides; anything but a usable position falls back to the master's.
unfoldable pub stored_position :
    PositionCodec → Result (List ℕ) → Option (Result Position) → Position
unfolding master_position
stored_position codec (err e) master = master_position master
stored_position codec (ok []) master = master_position master
stored_position codec (ok (b ∷ bytes)) master = elim (codec.unmarshal (b ∷ bytes)) [
  | err e ↦ master_position master
  | ok p ↦ if not (str_eq p.name "") && not (p.pos == 0) then p else master_position master
]

module _ {E S : Type 0} (api : StoreApi E S) (codec : PositionCodec) where
  unfoldable pub load_position : E → S → Option (Result Position) → Position
  unfolding stored_position
  load_position env s master = stored_position codec (api.get env store_key_position s) master

  -- `savePosition`, which `OnPosSynced` calls and returns.
  unfoldable pub save_position : E → Position → S → Option GoError × S
  save_position env p s = elim (codec.marshal p) [
    | err e ↦ (some (wrapf "marshal position error: %w" [] e), s)
    | ok bytes ↦ api.set env store_key_position bytes s
  ]
