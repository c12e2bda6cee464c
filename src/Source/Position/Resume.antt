-- ===== src/Source/Position/Resume.antt =====
-- What a restart resumes: `savePosition` and then `loadPosition` of source/mysql.go.
use cdc_trigger.Prelude.{
  ℕ, String, ◌≡◌, ◌≢◌, refl, ap, ◌∙◌, ◌⊎◌, true, false, Option, none, List, [], ◌∷◌, arith, str_eq,
}
use cdc_trigger.Errors.{Result, ok, err}
use cdc_trigger.Store.{StoreApi, StoreLaws}
use cdc_trigger.Source.Position.{
  Position, PositionCodec, store_key_position, stored_position, master_position, load_position,
  save_position,
}

-- A position that `loadPosition` takes from the store.
abbrev pub IsUsable : Position → Type 0
IsUsable p = (str_eq p.name "" ≡ false) × (p.pos ≢ 0)

-- What encoding/json documents of a value that it wrote: it reads back the same, and it is not empty.
pub record CodecLaws (codec : PositionCodec) : Type 0 where
  pub unmarshal-marshal :
      (p : Position) (bytes : List ℕ) → codec.marshal p ≡ ok bytes → codec.unmarshal bytes ≡ ok p
  pub marshal-ne-nil : (p : Position) → codec.marshal p ≢ ok []

stored_position-ok :
    (codec : PositionCodec) (p : Position) (bytes : List ℕ) (master : Option (Result Position))
    → codec.unmarshal bytes ≡ ok p
    → bytes ≢ []
    → IsUsable p
    → stored_position codec (ok bytes) master ≡ p
unfolding stored_position
stored_position-ok codec p [] master e h u = absurd (h refl)
stored_position-ok codec p (b ∷ bytes) master e h (named, placed) =
    rw (e, stored_position) (ground (arith, named, placed))

module _ {E S : Type 0} (api : StoreApi E S) {Reads : E → Type 0} {Fits : E → String → S → Type 0}
    (laws : StoreLaws api Reads Fits) (codec : PositionCodec) (codec_laws : CodecLaws codec) where
  save_position-none :
      (write : E) (p : Position) (s s' : S)
      → save_position api codec write p s ≡ (none, s')
      → (bytes : List ℕ) × (codec.marshal p ≡ ok bytes)
        × (api.set write store_key_position bytes s ≡ (none, s'))
  unfolding save_position
  save_position-none write p s s' saved = go (codec.marshal p) refl
    where
      go :
          (r : Result (List ℕ))
          → codec.marshal p ≡ r
          → (bytes : List ℕ) × (codec.marshal p ≡ ok bytes)
            × (api.set write store_key_position bytes s ≡ (none, s'))
      go (ok bytes) e = (bytes, e, ground (arith, e, saved))
      go (err x) e = absurd (ground (arith, e, saved))

  -- Over a store and a codec that keep their promises, a usable position whose saving returned nil
  -- is the one that the next start loads, whatever the master answers.
  pub load_position-save :
      (write read : E) (p : Position) (s s' : S) (master : Option (Result Position))
      → IsUsable p
      → Fits write store_key_position s
      → Reads read
      → save_position api codec write p s ≡ (none, s')
      → load_position api codec read s' master ≡ p
  unfolding load_position
  load_position-save write read p s s' master usable fits works saved =
      let (bytes, marshalled, stored) = save_position-none write p s s' saved in
      let got = laws.get-set write read store_key_position bytes s s' fits works stored in
      rw got (
        stored_position-ok codec p bytes master (codec_laws.unmarshal-marshal p bytes marshalled)
          (λ empty. codec_laws.marshal-ne-nil p (marshalled ∙ ap ok empty)) usable)

-- Where the store answers with an error, with nothing, with bytes that do not decode or with a
-- position that has no file or is zero, the start falls back to the master's position.
pub stored_position-falls_back :
    (codec : PositionCodec) (answer : Result (List ℕ)) (master : Option (Result Position))
    → ((bytes : List ℕ) (p : Position)
        → answer ≡ ok bytes
        → bytes ≢ []
        → codec.unmarshal bytes ≡ ok p
        → (str_eq p.name "" ≡ true) ⊎ (p.pos ≡ 0))
    → stored_position codec answer master ≡ master_position master
unfolding stored_position
stored_position-falls_back codec (err e) master h = refl
stored_position-falls_back codec (ok []) master h = refl
stored_position-falls_back codec (ok (b ∷ bytes)) master h = go (codec.unmarshal (b ∷ bytes)) refl
  where
    go :
        (r : Result Position)
        → codec.unmarshal (b ∷ bytes) ≡ r
        → stored_position codec (ok (b ∷ bytes)) master ≡ master_position master
    go (err e) eq = rw (eq, stored_position)
    go (ok p) eq = rw (eq, stored_position) (ground (arith, h (b ∷ bytes) p refl (λ e. cc) eq))
