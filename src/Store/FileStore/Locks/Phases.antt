-- ===== src/Store/FileStore/Locks/Phases.antt =====
-- Where a goroutine inside a method of store/file.go stands, and what it may rely on.
use cdc_trigger.Prelude.{String, ◌≡◌, ◌≢◌, ◌⊎◌, Option, none, some, lookup}
use cdc_trigger.Errors.{ok}
use cdc_trigger.Store.FileStore.{FileStore, Files, file_path}
use cdc_trigger.Store.FileStore.Locks.{
  key_of_op, Op, delete_op, set_op, Phase, idle, locked, created, filled, cleaning, removing,
  replied, temp_of, creates,
}
use cdc_trigger.Store.FileStore.Locks.Effects.{
  Held, remove_held, delete_held, set_result, set_held, effect,
}

abbrev pub key_of : Phase → String
key_of idle = ""
key_of (locked op) = key_of_op op
key_of (created key io value temp) = key
key_of (filled key io value temp) = key
key_of (cleaning key io value temp e) = key
key_of (removing key io) = key
key_of (replied op reply) = key_of_op op

-- The call that a goroutine is in.
abbrev pub op_of : Phase → Option Op
op_of idle = none
op_of (locked op) = some op
op_of (created key io value temp) = some (set_op key io value)
op_of (filled key io value temp) = some (set_op key io value)
op_of (cleaning key io value temp e) = some (set_op key io value)
op_of (removing key io) = some (delete_op key io)
op_of (replied op reply) = some op

-- What the temporary file holds while the value stands in it.
abbrev pub temp_held : Phase → Files → Held
temp_held (filled key io value temp) files = lookup temp files
temp_held p files = none

-- Where a call has got to: `c` is what the file of its key holds, `d` what it would hold if the
-- calls that have returned had run one after another, and `t` what its temporary file holds.
abbrev pub Stands : Phase → Held → Held → Held → Type 0
Stands idle c d t = Unit
Stands (locked op) c d t = c ≡ d
Stands (created key io value temp) c d t = (io.temp ≡ ok temp) × (c ≡ d)
Stands (filled key io value temp) c d t =
    (io.temp ≡ ok temp) × (io.write ≡ none) × (c ≡ d) × (t ≡ some value)
Stands (cleaning key io value temp r) c d t =
    (r ≡ set_result io) × (c ≡ set_held (set_result io) value d)
Stands (removing key io) c d t = (c ≡ d) × (delete_held io d ≡ remove_held io d)
Stands (replied op reply) c d t = (reply ≡ (effect op d).0) × (c ≡ (effect op d).1)

module _ (fs : FileStore) where
  abbrev pub StandsIn : Phase → Files → Files → Type 0
  StandsIn p files r =
      Stands p (lookup (file_path fs (key_of p)) files) (lookup (file_path fs (key_of p)) r)
        (temp_held p files)

  -- The temporary file of a goroutine has the name of no key's file.
  abbrev pub ApartIn : Phase → Type 0
  ApartIn p = (t key : String) → (creates p ≡ some t) ⊎ (temp_of p ≡ some t) → t ≢ file_path fs key
