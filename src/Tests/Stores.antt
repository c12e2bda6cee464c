-- ===== src/Tests/Stores.antt =====
-- The two stores of store/file.go and the resumption of source/mysql.go, run on small states.
use cdc_trigger.Prelude.{
  ℕ, ◌≡◌, ◌≢◌, refl, none, List, [], ◌∷◌, arith, All, lookup, insert, erase, str_eq, eq_iff,
  if◌then◌else◌,
}
use cdc_trigger.Errors.{ok, err, external}
use cdc_trigger.Store.{StoreLaws}
use cdc_trigger.Store.FileStore.{
  Files, FileStore, Io, file_path, stat, set, clean_up, set_from, set_steps, file_store_api,
}
use cdc_trigger.Store.FileStore.Laws.{file_store-StoreLaws, TempFits, ReadWorks}
use cdc_trigger.Store.FileStore.Crash.{IsWhole, set_steps-IsWhole}
use cdc_trigger.Source.Position.{
  Position, PositionCodec, store_key_position, load_position, save_position,
}
use cdc_trigger.Source.Position.Resume.{CodecLaws, load_position-save}
use cdc_trigger.Tests.Samples.{text_ne}

abbrev pub disk : FileStore
disk = record { dir = "data"; hex_md5 = λ key. key; join = λ dir name. name }

-- Every call succeeds.
abbrev pub calm : Io
calm = record {
  temp = ok "tmp-1";
  write = none;
  partial = [];
  close = none;
  chmod = none;
  rename = none;
  remove = none;
  stat = none;
  read = none;
}

abbrev pub files : Files
files = ("cdc-trigger-a", 1 ∷ []) ∷ ("cdc-trigger-b", 2 ∷ []) ∷ []

temp_apart : "tmp-1" ≢ file_path disk "a"
unfolding file_path
temp_apart = text_ne "tmp-1" "cdc-trigger-a" refl

set_steps-IsWhole_example :
    All
      (IsWhole "cdc-trigger-b" (file_path disk "a") (5 ∷ []) files)
      (set_steps disk calm "a" (5 ∷ []) files).visited
set_steps-IsWhole_example =
    set_steps-IsWhole disk calm "a" "tmp-1" "cdc-trigger-b" (5 ∷ []) files refl temp_apart
      (text_ne "tmp-1" "cdc-trigger-b" refl)

file_store-StoreLaws_example : StoreLaws (file_store_api disk) ReadWorks (TempFits disk)
file_store-StoreLaws_example = file_store-StoreLaws disk

-- A codec that writes the number of the position, for the one file of this test.
abbrev pub codec : PositionCodec
codec = record {
  marshal = λ p. if str_eq p.name "mysql-bin.1" then ok (p.pos ∷ []) else err (external 4);
  unmarshal = λ bytes. elim bytes [
    | [] ↦ err (external 5)
    | b ∷ bs ↦ ok (record { name = "mysql-bin.1"; pos = b })
  ];
}

abbrev checkpoint : Position
checkpoint = record { name = "mysql-bin.1"; pos = 120 }

unmarshal-marshal :
    (p : Position) (bytes : List ℕ) → codec.marshal p ≡ ok bytes → codec.unmarshal bytes ≡ ok p
unmarshal-marshal p [] h = absurd (ground (arith, h))
unmarshal-marshal p (b ∷ []) h = ground (arith, h, eq_iff p.name "mysql-bin.1")
unmarshal-marshal p (b ∷ c ∷ bs) h = absurd (ground (arith, h))

pub codec_laws : CodecLaws codec
codec_laws = record {
  unmarshal-marshal = unmarshal-marshal;
  marshal-ne-nil = λ p h. ground (arith, h);
}

temp_fits : TempFits disk calm store_key_position files
unfolding file_path
temp_fits = λ temp named same.
    text_ne "tmp-1" "cdc-trigger-_cdc_trigger_position" refl (ground (arith, named, same))

load_position-save_example :
    load_position
      (file_store_api disk)
      codec
      calm
      (set disk calm store_key_position (120 ∷ []) files).1
      none
    ≡ checkpoint
unfolding save_position set set_steps set_from clean_up stat file_path lookup insert erase
load_position-save_example =
    load_position-save (file_store_api disk) (file_store-StoreLaws disk) codec codec_laws calm calm
      checkpoint files (set disk calm store_key_position (120 ∷ []) files).1 none
      (refl, λ e. omega (arith, e)) temp_fits refl refl
