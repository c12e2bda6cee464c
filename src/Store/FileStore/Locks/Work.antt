-- ===== src/Store/FileStore/Locks/Work.antt =====
-- A step inside a method of store/file.go keeps the invariant.
use mathlib.Core.Path.{subst}
use cdc_trigger.Prelude.{ℕ, String, ◌≡◌, ◌≢◌, refl, sym, ap, ◌∙◌, inl, inr, some, arith, lookup}
use cdc_trigger.Store.FileStore.{FileStore, Files, file_path}
use cdc_trigger.Store.FileStore.Locks.{
  Phase, advance, writing, reading, temp_of, creates, System, update, after,
}
use cdc_trigger.Store.FileStore.Locks.Phases.{op_of, key_of, StandsIn, ApartIn}
use cdc_trigger.Store.FileStore.Locks.Advancing.{advance-StandsIn}
use cdc_trigger.Store.FileStore.Locks.Frames.{
  Keeps, call_of, writing-key, advance-Keeps, advance-other, Locks, StandsIn-frame,
}
use cdc_trigger.Store.FileStore.Locks.Invariant.{each, Inv}

module _ (fs : FileStore) (Used : String → Type 0)
    (one_to_one : (a b : String) → Used a → Used b → file_path fs a ≡ file_path fs b → a ≡ b)
    (initial : Files) (s : System) (v : Inv fs Used initial s) (g : ℕ)
    (fresh : (h : ℕ) (t : String)
      → h ≢ g
      → creates (s.phase g) ≡ some t
      → temp_of (s.phase h) ≢ some t) where
  abbrev done : Phase × Files
  done = advance fs (s.phase g) s.files

  abbrev moved : ℕ → Phase
  moved = update g done.0 s.phase

  kept : Keeps (s.phase g) done.0
  kept = advance-Keeps fs (s.phase g) s.files

  same_writes : (h : ℕ) → writing (moved h) ≡ writing (s.phase h)
  same_writes =
      each (λ i p. writing p ≡ writing (s.phase i)) g done.0 s.phase kept.writes (λ h far. refl)

  same_reads : (h : ℕ) → reading (moved h) ≡ reading (s.phase h)
  same_reads =
      each (λ i p. reading p ≡ reading (s.phase i)) g done.0 s.phase kept.reads (λ h far. refl)

  same_calls : (h : ℕ) → op_of (moved h) ≡ op_of (s.phase h)
  same_calls = each (λ i p. op_of p ≡ op_of (s.phase i)) g done.0 s.phase kept.call (λ h far. refl)

  -- The key that a goroutine writes, or whose lock it holds, is in use.
  their_key : (h : ℕ) → Locks (s.phase h) → Used (key_of (s.phase h))
  their_key h held =
      let (op, at, same) = call_of (s.phase h) held in subst Used same (v.in_use h op at)

  written_key : (key : String) → writing (s.phase g) ≡ some key → Used key
  written_key key w =
      let same = writing-key (s.phase g) key w in
      subst Used same (their_key g (inl (w ∙ ap some (sym same))))

  -- The file of a key in use that the goroutine does not write.
  unwritten :
      (key : String)
      → Used key
      → writing (s.phase g) ≢ some key
      → lookup (file_path fs key) done.1 ≡ lookup (file_path fs key) s.files
  unwritten key known other =
      advance-other fs (s.phase g) s.files (file_path fs key)
        (λ k w e. other (w ∙ ap some (one_to_one k key (written_key k w) known e)))
        (λ t c. v.apart g t key c)

  -- The file of the key of another goroutine, which holds its lock.
  theirs :
      (h : ℕ)
      → h ≢ g
      → Locks (s.phase h)
      → lookup (file_path fs (key_of (s.phase h))) done.1
        ≡ lookup (file_path fs (key_of (s.phase h))) s.files
  theirs h far (inl writes) =
      unwritten (key_of (s.phase h)) (their_key h (inl writes))
        (λ w. (v.exclusive g h (key_of (s.phase h)) far w).0 writes)
  theirs h far (inr reads) =
      unwritten (key_of (s.phase h)) (their_key h (inr reads))
        (λ w. (v.exclusive g h (key_of (s.phase h)) far w).1 reads)

  -- The temporary file of another goroutine.
  their_temp :
      (h : ℕ) (t : String)
      → h ≢ g
      → temp_of (s.phase h) ≡ some t
      → lookup t done.1 ≡ lookup t s.files
  their_temp h t far has =
      advance-other fs (s.phase g) s.files t (λ k w e. v.apart h t k (inr has) (sym e))
        (λ t' c e. elim c [
          | inl made ↦ fresh h t far (made ∙ ap some e) has
          | inr own ↦ v.distinct g h t far (own ∙ ap some e) has
        ])

  work-distinct :
      (a b : ℕ) (t : String) → b ≢ a → temp_of (moved a) ≡ some t → temp_of (moved b) ≢ some t
  work-distinct a b t apart_ab =
      each (λ i p. b ≢ i → temp_of p ≡ some t → temp_of (moved b) ≢ some t) g done.0 s.phase
        (λ other w.
          each (λ j q. j ≢ g → temp_of q ≢ some t) g done.0 s.phase (λ mine. absurd (mine refl))
            (λ h far near. elim (kept.temps t w) [
              | inl made ↦ fresh h t near made
              | inr own ↦ v.distinct g h t near own
            ])
            b other)
        (λ i far other w.
          each (λ j q. j ≢ i → temp_of q ≢ some t) g done.0 s.phase
            (λ away e. elim (kept.temps t e) [
              | inl made ↦ fresh i t far made w
              | inr own ↦ v.distinct g i t far own w
            ])
            (λ h away near. v.distinct i h t near w) b other)
        a apart_ab

  pub work-Inv : Inv fs Used initial (record s { files = done.1; phase = moved })
  work-Inv = record {
    exclusive = λ a b key apart_ab w.
        let (no_write, no_read) = v.exclusive a b key apart_ab (sym (same_writes a) ∙ w) in
        (λ e. no_write (sym (same_writes b) ∙ e), λ e. no_read (sym (same_reads b) ∙ e));
    apart =
        each (λ i p. ApartIn fs p) g done.0 s.phase
          (λ t key c. elim c [
            | inl made ↦ absurd (ground (arith, kept.fresh, made))
            | inr own ↦ v.apart g t key (kept.temps t own)
          ])
          (λ h far. v.apart h);
    calls = λ h o e. v.calls h o (sym (same_calls h) ∙ e);
    in_use = λ h o e. v.in_use h o (sym (same_calls h) ∙ e);
    distinct = work-distinct;
    stands =
        each (λ i p. StandsIn fs p done.1 (after fs initial s.log)) g done.0 s.phase
          (advance-StandsIn fs (s.phase g) s.files (after fs initial s.log) (v.stands g)
            (v.apart g))
          (λ h far.
            StandsIn-frame fs (s.phase h) s.files done.1 (after fs initial s.log)
              (after fs initial s.log) (theirs h far) (λ l. refl) (λ t has. their_temp h t far has)
              (v.stands h));
    agrees = λ key known unheld.
        unwritten key known (λ w. unheld g (same_writes g ∙ w))
        ∙ v.agrees key known (λ h w. unheld h (same_writes h ∙ w));
    sequential = v.sequential;
  }
