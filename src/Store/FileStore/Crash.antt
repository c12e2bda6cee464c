-- ===== src/Store/FileStore/Crash.antt =====
-- `Set` of store/file.go is atomic: what a crash after any of its steps leaves on disk.
use cdc_trigger.Prelude.{
  ℕ, String, ◌≡◌, ◌≢◌, refl, ◌⊎◌, inl, inr, some, List, [], ◌∷◌, All, arith, lookup, insert, erase,
  lookup-insert, lookup-erase, eq_iff, Option-cases,
}
use cdc_trigger.Errors.{ok}
use cdc_trigger.Store.FileStore.{Files, FileStore, Io, file_path, clean_up, set_from, set_steps}
use cdc_trigger.Store.FileStore.Laws.{lookup-clean_up}

-- The file `j` is as it was, or it is the file of the key and whole.
abbrev pub IsWhole : String → String → List ℕ → Files → Files → Type 0
IsWhole j path value before now =
    (lookup j now ≡ lookup j before) ⊎ ((j ≡ path) × (lookup j now ≡ some value))

module _ (io : Io) (temp path j : String) (value : List ℕ) (files : Files) (apart : temp ≢ path)
    (other : temp ≢ j) where
  made-IsWhole :
      (content : List ℕ) → IsWhole j path value files (insert temp content (insert temp [] files))
  made-IsWhole content = ground (
    arith,
    lookup-insert temp j content (insert temp [] files),
    lookup-insert temp j [] files,
    eq_iff temp j,
  )

  clean_up-IsWhole :
      (now : Files)
      → IsWhole j path value files now
      → IsWhole j path value files (clean_up io temp now)
  clean_up-IsWhole now h = rw (lookup-clean_up io temp j now other) h

  replaced-IsWhole :
      IsWhole j path value files
        (insert path value (erase temp (insert temp value (insert temp [] files))))
  replaced-IsWhole =
      let made = insert temp [] files in
      ground (
        arith,
        lookup-insert path j value (erase temp (insert temp value made)),
        lookup-erase temp j (insert temp value made),
        lookup-insert temp j value made,
        lookup-insert temp j [] files,
        eq_iff temp j,
        eq_iff path j,
      )

  before-IsWhole : IsWhole j path value files files
  before-IsWhole = inl refl

  empty-IsWhole : IsWhole j path value files (insert temp [] files)
  empty-IsWhole = ground (arith, lookup-insert temp j [] files, eq_iff temp j)

  -- The disk after each step of a `Set` that gives up with `content` in the temporary file.
  given_up-IsWhole :
      (content : List ℕ)
      → let made = insert temp [] files in
        let full = insert temp content made in
        All (IsWhole j path value files) (clean_up io temp full ∷ full ∷ made ∷ files ∷ [])
  given_up-IsWhole content = (
    clean_up-IsWhole _ (made-IsWhole content),
    (made-IsWhole content, (empty-IsWhole, (before-IsWhole, tt))),
  )

  set_from-IsWhole : All (IsWhole j path value files) (set_from io temp path value files).visited
  unfolding set_from
  set_from-IsWhole =
      let full = given_up-IsWhole value in
      elim (Option-cases io.write) [
        | inr (e, w) ↦ rw (w, set_from) (given_up-IsWhole io.partial)
        | inl w ↦ elim (Option-cases io.close) [
          | inr (e, c) ↦ rw (w, set_from) (rw (c, set_from) full)
          | inl c ↦ elim (Option-cases io.chmod) [
            | inr (e, m) ↦ rw (w, set_from) (rw (c, set_from) (rw (m, set_from) full))
            | inl m ↦ elim (Option-cases io.rename) [
              | inr (e, r) ↦
                  rw (w, set_from) (rw (c, set_from) (rw (m, set_from) (rw (r, set_from) full)))
              | inl r ↦
                  rw (w, set_from)
                    (rw (c, set_from)
                      (rw (m, set_from)
                        (rw (r, set_from)
                          (clean_up-IsWhole _ replaced-IsWhole, (replaced-IsWhole, full.1)))))
            ]
          ]
        ]
      ]

-- Where the temporary file has another name than the file of the key: after each step of `Set`,
-- and so after a crash between its steps, every file but the temporary one is as it was, or is
-- the file of the key with the whole new value.
pub set_steps-IsWhole :
    (fs : FileStore) (io : Io) (key temp j : String) (value : List ℕ) (files : Files)
    → io.temp ≡ ok temp
    → temp ≢ file_path fs key
    → temp ≢ j
    → All (IsWhole j (file_path fs key) value files) (set_steps fs io key value files).visited
unfolding set_steps
set_steps-IsWhole fs io key temp j value files named apart other =
    rw (named, set_steps) (set_from-IsWhole io temp (file_path fs key) j value files apart other)
