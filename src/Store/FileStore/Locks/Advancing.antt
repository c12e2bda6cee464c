-- ===== src/Store/FileStore/Locks/Advancing.antt =====
-- A step of a goroutine inside a method of store/file.go takes its call on.
use mathlib.Core.Path.{subst}
use cdc_trigger.Prelude.{
  ℕ, String, ◌≡◌, ◌≢◌, refl, sym, ap, ◌∙◌, ◌⊎◌, inl, inr, true, Option, none, some, List, [], arith,
  lookup, insert, erase, lookup-insert, lookup-insert_self, lookup-erase, eq_iff, eq_refl,
  Option-cases, Bool-cases,
}
use cdc_trigger.Errors.{GoError, ok, Result-cases}
use cdc_trigger.Store.FileStore.{FileStore, Files, Io, file_path, stat, is_not_exist, remove_file}
use cdc_trigger.Store.FileStore.Laws.{lookup-clean_up}
use cdc_trigger.Store.FileStore.Locks.{
  has_op, get_op, delete_op, set_op, found, content, error, Phase, idle, locked, created, filled,
  cleaning, removing, replied, publish, advance,
}
use cdc_trigger.Store.FileStore.Locks.Effects.{
  Held, stat_held, remove_held, delete_held, set_result, set_held, effect, stat-stat_held, has-held,
  get-held,
}
use cdc_trigger.Store.FileStore.Locks.Phases.{StandsIn, ApartIn}

module _ (fs : FileStore) where
  abbrev Advances : Phase → Files → Files → Type 0
  Advances p files r = StandsIn fs (advance fs p files).0 (advance fs p files).1 r

  settled_delete :
      (io : Io) (held : Held) (e : GoError)
      → stat_held io held ≡ some e
      → is_not_exist e ≡ true
      → (error none ≡ error (delete_held io held).0) × (held ≡ (delete_held io held).1)
  settled_delete io held e missing gone =
      let deleted : delete_held io held ≡ (none, held) = ground (arith, missing, gone) in
      (
        ap (λ (b : Option GoError × Held). error b.0) (sym deleted),
        ap (λ (b : Option GoError × Held). b.1) (sym deleted),
      )

  advance-delete :
      (key : String) (io : Io) (files r : Files)
      → StandsIn fs (locked (delete_op key io)) files r
      → Advances (locked (delete_op key io)) files r
  unfolding advance
  advance-delete key io files r same =
      let path = file_path fs key in
      let held = lookup path files in
      elim (Option-cases (stat_held io held)) [
        | inl there ↦
            let seen : stat io path files ≡ none = stat-stat_held fs io key files ∙ there in
            rw (seen, advance) (same, ground (arith, there, same))
        | inr (e, missing) ↦
            let seen : stat io path files ≡ some e = stat-stat_held fs io key files ∙ missing in
            elim (Bool-cases (is_not_exist e)) [
              | inl gone ↦
                  rw (seen, gone, advance) (rw (← same) (settled_delete io held e missing gone))
              | inr other ↦
                  rw (seen, other, advance) (same, rw (← same) (ground (arith, missing, other)))
            ]
      ]

  advance-create :
      (key : String) (io : Io) (value : List ℕ) (files r : Files)
      → StandsIn fs (locked (set_op key io value)) files r
      → ApartIn fs (locked (set_op key io value))
      → Advances (locked (set_op key io value)) files r
  unfolding advance
  advance-create key io value files r same apart = elim (Result-cases io.temp) [
    | inl (e, failed) ↦ rw (failed, advance) (ground (arith, failed), ground (arith, failed, same))
    | inr (t, made) ↦
        rw (made, advance)
          (
            made,
            ground (
              arith,
              lookup-insert t (file_path fs key) [] files,
              eq_iff t (file_path fs key),
              apart t key (inl (ground (arith, made))),
              same,
            ),
          )
  ]

  -- A write to a temporary file leaves the file of the key.
  insert_away :
      (key temp : String) (v : List ℕ) (files r : Files)
      → temp ≢ file_path fs key
      → lookup (file_path fs key) files ≡ lookup (file_path fs key) r
      → lookup (file_path fs key) (insert temp v files) ≡ lookup (file_path fs key) r
  insert_away key temp v files r apart same = ground (
    arith,
    lookup-insert temp (file_path fs key) v files,
    eq_iff temp (file_path fs key),
    apart,
    same,
  )

  advance-write :
      (key : String) (io : Io) (value : List ℕ) (temp : String) (files r : Files)
      → StandsIn fs (created key io value temp) files r
      → ApartIn fs (created key io value temp)
      → Advances (created key io value temp) files r
  unfolding advance
  advance-write key io value temp files r (known, same) apart =
      let outside =
        λ (v : List ℕ). insert_away key temp v files r (apart temp key (inr refl)) same in
      elim (Option-cases io.write) [
        | inl fine ↦
            rw (fine, advance) (known, fine, outside value, lookup-insert_self temp value files)
        | inr (e, failed) ↦
            rw (failed, advance)
              (ground (arith, known, failed), ground (arith, known, failed, outside io.partial))
      ]

  -- The end of `Set` gives up, or has put the value under the path.
  publish-cases :
      (key : String) (io : Io) (value : List ℕ) (temp : String) (files : Files)
      → io.temp ≡ ok temp
      → io.write ≡ none
      → lookup temp files ≡ some value
      → ((e : GoError) × (publish fs key io value temp files
            ≡ (cleaning key io value temp (some e), files))
          × (set_result io ≡ some e))
        ⊎ ((publish fs key io value temp files ≡ (
          cleaning key io value temp none,
          insert (file_path fs key) value (erase temp files),
        ))
            × (set_result io ≡ none))
  publish-cases key io value temp files known wrote full = elim (Option-cases io.close) [
    | inr (e, bad) ↦ inl (e, ground (arith, bad), ground (arith, known, wrote, bad))
    | inl closed ↦ elim (Option-cases io.chmod) [
      | inr (e, bad) ↦
          inl (e, ground (arith, closed, bad), ground (arith, known, wrote, closed, bad))
      | inl moded ↦ elim (Option-cases io.rename) [
        | inr (e, bad) ↦ inl (
          e,
          ground (arith, closed, moded, bad),
          ground (arith, known, wrote, closed, moded, bad),
        )
        | inl moved ↦ inr (
          ground (arith, closed, moded, moved, full),
          ground (arith, known, wrote, closed, moded, moved),
        )
      ]
    ]
  ]

  advance-publish :
      (key : String) (io : Io) (value : List ℕ) (temp : String) (files r : Files)
      → StandsIn fs (filled key io value temp) files r
      → Advances (filled key io value temp) files r
  unfolding advance
  advance-publish key io value temp files r (known, wrote, same, full) =
      let path = file_path fs key in
      let put = insert path value (erase temp files) in
      elim (publish-cases key io value temp files known wrote full) [
        | inl (e, gave_up, told) ↦
            subst (λ (b : Phase × Files). StandsIn fs b.0 b.1 r) (sym gave_up)
              (sym told, same ∙ ap (λ x. set_held x value (lookup path r)) (sym told))
        | inr (done, told) ↦
            subst (λ (b : Phase × Files). StandsIn fs b.0 b.1 r) (sym done)
              (
                sym told,
                lookup-insert_self path value (erase temp files)
                    ∙ ap (λ x. set_held x value (lookup path r)) (sym told),
              )
      ]

  advance-clean_up :
      (key : String) (io : Io) (value : List ℕ) (temp : String) (e : Option GoError)
      (files r : Files)
      → StandsIn fs (cleaning key io value temp e) files r
      → ApartIn fs (cleaning key io value temp e)
      → Advances (cleaning key io value temp e) files r
  unfolding advance
  advance-clean_up key io value temp e files r (told, left) apart = (
    ap error told,
    lookup-clean_up io temp (file_path fs key) files (apart temp key (inr refl)) ∙ left,
  )

  remove_file-held :
      (io : Io) (path : String) (files : Files)
      → ((remove_file io path files).0 ≡ (remove_held io (lookup path files)).0)
        × (lookup path (remove_file io path files).1 ≡ (remove_held io (lookup path files)).1)
  remove_file-held io path files = (
    ground (arith, lookup-erase path path files, eq_refl path),
    ground (arith, lookup-erase path path files, eq_refl path),
  )

  advance-remove :
      (key : String) (io : Io) (files r : Files)
      → StandsIn fs (removing key io) files r
      → Advances (removing key io) files r
  unfolding advance
  advance-remove key io files r (same, removes) =
      let (told, left) = remove_file-held io (file_path fs key) files in
      (
        ap error told
            ∙ ap (λ c. error (remove_held io c).0) same
            ∙ ap (λ (b : Option GoError × Held). error b.0) (sym removes),
        left
            ∙ ap (λ c. (remove_held io c).1) same
            ∙ ap (λ (b : Option GoError × Held). b.1) (sym removes),
      )

  -- A step of a goroutine goes on as the calls one after another would.
  pub advance-StandsIn :
      (p : Phase) (files r : Files) → StandsIn fs p files r → ApartIn fs p → Advances p files r
  unfolding advance
  advance-StandsIn idle files r v apart = tt
  advance-StandsIn (locked (has_op key io)) files r v apart =
      (ap found (has-held fs io key files) ∙ ap (λ c. (effect (has_op key io) c).0) v, v)
  advance-StandsIn (locked (get_op key io)) files r v apart =
      (ap content (get-held fs io key files) ∙ ap (λ c. (effect (get_op key io) c).0) v, v)
  advance-StandsIn (locked (delete_op key io)) files r v apart = advance-delete key io files r v
  advance-StandsIn (locked (set_op key io value)) files r v apart =
      advance-create key io value files r v apart
  advance-StandsIn (created key io value temp) files r v apart =
      advance-write key io value temp files r v apart
  advance-StandsIn (filled key io value temp) files r v apart =
      advance-publish key io value temp files r v
  advance-StandsIn (cleaning key io value temp e) files r v apart =
      advance-clean_up key io value temp e files r v apart
  advance-StandsIn (removing key io) files r v apart = advance-remove key io files r v
  advance-StandsIn (replied op reply) files r v apart = v
