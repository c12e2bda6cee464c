-- ===== src/Store/FileStore/Laws.antt =====
-- `Set` of store/file.go: what it leaves behind, and what a `Get` then reads.
use cdc_trigger.Prelude.{
  ℕ, String, ◌≡◌, ◌≢◌, refl, ap, ◌∙◌, ◌⊎◌, Option, none, some, List, [], arith, inl, inr, lookup,
  insert, erase, lookup-insert, lookup-erase, str_eq, eq_iff, if◌then◌else◌, Option-cases,
}
use cdc_trigger.Errors.{GoError, Result, ok, err}
use cdc_trigger.Store.{StoreLaws}
use cdc_trigger.Store.FileStore.{
  Files, FileStore, Io, file_path, get, stat, clean_up, set_from, set_steps, set, file_store_api,
}

-- Cleaning up touches no file but the temporary one.
pub lookup-clean_up :
    (io : Io) (temp j : String) (files : Files)
    → temp ≢ j
    → lookup j (clean_up io temp files) ≡ lookup j files
unfolding clean_up
lookup-clean_up io temp j files h = ground (arith, lookup-erase temp j files, eq_iff temp j, h)

-- Where nothing stands under the temporary name there is nothing to clean up.
clean_up-none :
    (io : Io) (temp : String) (files : Files)
    → lookup temp files ≡ none
    → clean_up io temp files ≡ files
unfolding clean_up stat
clean_up-none io temp files h = ground (arith, h)

module _ (io : Io) (temp path : String) (value : List ℕ) (files : Files) (apart : temp ≢ path) where
  -- A `Set` that failed changed no file but the temporary one.
  lookup-set_from_failed :
      (e : GoError) (j : String)
      → (set_from io temp path value files).result ≡ some e
      → temp ≢ j
      → lookup j (set_from io temp path value files).files ≡ lookup j files
  unfolding set_from
  lookup-set_from_failed e j h other =
      let made = insert temp [] files in
      ground (
        arith,
        lookup-clean_up io temp j (insert temp io.partial made) other,
        lookup-clean_up io temp j (insert temp value made) other,
        lookup-insert temp j io.partial made,
        lookup-insert temp j value made,
        lookup-insert temp j [] files,
        eq_iff temp j,
      )

  replaced : Files
  replaced = insert path value (erase temp (insert temp value (insert temp [] files)))

  lookup-replaced :
      (j : String)
      → lookup j replaced
        ≡ (if str_eq path j then some value else if str_eq temp j then none else lookup j files)
  unfolding replaced
  lookup-replaced j =
      let made = insert temp [] files in
      ground (
        arith,
        lookup-insert path j value (erase temp (insert temp value made)),
        lookup-erase temp j (insert temp value made),
        lookup-insert temp j value made,
        lookup-insert temp j [] files,
      )

  -- A `Set` that returned nil put the value under its path, removed the temporary file, and
  -- changed nothing else.
  lookup-set_from_done :
      (j : String)
      → (set_from io temp path value files).result ≡ none
      → lookup j (set_from io temp path value files).files
        ≡ (if str_eq path j then some value else if str_eq temp j then none else lookup j files)
  unfolding set_from replaced
  lookup-set_from_done j h = ground (
    arith,
    lookup-replaced j,
    clean_up-none io temp replaced,
    lookup-replaced temp,
    eq_iff path temp,
    eq_iff temp temp,
  )

-- What another file than the temporary one holds after a `Set` with this result.
abbrev pub content_after :
    Option GoError → String → List ℕ → String → Option (List ℕ) → Option (List ℕ)
content_after none path value j before = if str_eq path j then some value else before
content_after (some e) path value j before = before

set_from-content :
    (io : Io) (temp path j : String) (value : List ℕ) (files : Files)
    → temp ≢ path
    → temp ≢ j
    → let w = set_from io temp path value files in
      (lookup j w.files ≡ content_after w.result path value j (lookup j files))
      × ((w.result ≢ none) ⊎ (lookup temp w.files ≡ none))
set_from-content io temp path j value files apart other =
    let w = set_from io temp path value files in
    elim (Option-cases w.result) [
      | inl done ↦ (
        rw (done, content_after)
            (lookup-set_from_done io temp path value files apart j done
              ∙ ground (arith, eq_iff temp j, other)),
        inr (
            lookup-set_from_done io temp path value files apart temp done
            ∙ ground (arith, eq_iff path temp, eq_iff temp temp, apart)),
      )
      | inr (e, failed) ↦ (
        rw (failed, content_after)
            (lookup-set_from_failed io temp path value files apart e j failed other),
        inl (λ h. cc),
      )
    ]

-- Where the temporary file has another name than the file of the key: after `Set`, every file
-- but the temporary one is as it was, except that on success the file of the key holds the
-- value; and on success the temporary file is gone.
pub lookup-set :
    (fs : FileStore) (io : Io) (key temp j : String) (value : List ℕ) (files : Files)
    → io.temp ≡ ok temp
    → temp ≢ file_path fs key
    → temp ≢ j
    → let out = set fs io key value files in
      (lookup j out.1 ≡ content_after out.0 (file_path fs key) value j (lookup j files))
      × ((out.0 ≢ none) ⊎ (lookup temp out.1 ≡ none))
unfolding set set_steps
lookup-set fs io key temp j value files named apart other =
    rw (named, set_steps) (set_from-content io temp (file_path fs key) j value files apart other)

-- What the operating system guarantees of the temporary file of a `Set`, and of a `Get` that works.
abbrev pub TempFits : FileStore → Io → String → Files → Type 0
TempFits fs io key files = (temp : String) → io.temp ≡ ok temp → temp ≢ file_path fs key

abbrev pub ReadWorks : Io → Type 0
ReadWorks io = io.read ≡ none

set-ok :
    (fs : FileStore) (io : Io) (key : String) (value : List ℕ) (files : Files)
    → (set fs io key value files).0 ≡ none
    → (temp : String) × (io.temp ≡ ok temp)
unfolding set set_steps
set-ok fs io key value files h = go io.temp refl
  where
    go : (r : Result String) → io.temp ≡ r → (temp : String) × (io.temp ≡ ok temp)
    go (ok temp) e = (temp, e)
    go (err x) e = absurd (ground (arith, e, h))

-- The file store keeps the promise of `IStore`, where a temporary file never has the name of a
-- key's file: after a `Set` that returned nil, a `Get` that can read returns the value.
pub file_store-StoreLaws : (fs : FileStore) → StoreLaws (file_store_api fs) ReadWorks (TempFits fs)
unfolding get
file_store-StoreLaws fs = record {
  get-set = λ write read key value s s' fits works written.
      let done : (set fs write key value s).0 ≡ none =
        ap (λ (o : Option GoError × Files). o.0) written in
      let (temp, named) = set-ok fs write key value s done in
      let (content, _) =
        lookup-set fs write key temp (file_path fs key) value s named (fits temp named)
          (fits temp named) in
      ground (arith, works, written, content, eq_iff (file_path fs key) (file_path fs key));
}
