-- ===== src/Store/FileStore/Locks/Acquire.antt =====
-- Taking a lock of store/file.go keeps the invariant.
use mathlib.Core.Path.{subst}
use cdc_trigger.Prelude.{ℕ, String, ◌≡◌, ◌≢◌, refl, sym, ap, ◌∙◌, inl, inr, some, arith, lookup}
use cdc_trigger.Store.FileStore.{FileStore, Files, file_path}
use cdc_trigger.Store.FileStore.Locks.{
  key_of_op, Op, Phase, idle, locked, writing, reading, temp_of, creates, System, update, MayLock,
  after,
}
use cdc_trigger.Store.FileStore.Locks.Effects.{Apart}
use cdc_trigger.Store.FileStore.Locks.Phases.{op_of, StandsIn, ApartIn}
use cdc_trigger.Store.FileStore.Locks.Frames.{Locks, op-Locks}
use cdc_trigger.Store.FileStore.Locks.Invariant.{each, elsewhere, Inv}

module _ (fs : FileStore) (Used : String → Type 0) (initial : Files) (s : System)
    (v : Inv fs Used initial s) (g : ℕ) (op : Op) (free : s.phase g ≡ idle)
    (mine : Used (key_of_op op)) (may : MayLock s.phase op)
    (apart : (t key : String) → creates (locked op) ≡ some t → t ≢ file_path fs key) where
  abbrev taken : ℕ → Phase
  taken = update g (locked op) s.phase

  -- Nobody else writes what the call reads or writes.
  unwritten :
      (key : String)
      → Locks (locked op)
      → key ≡ key_of_op op
      → (h : ℕ) → writing (s.phase h) ≢ some key
  unwritten key (inl writes) same h = may.1 h key (writes ∙ ap some (sym same))
  unwritten key (inr reads) same h = may.0 h key (reads ∙ ap some (sym same))

  acquire-exclusive :
      (a b : ℕ) (key : String)
      → b ≢ a
      → writing (taken a) ≡ some key
      → (writing (taken b) ≢ some key) × (reading (taken b) ≢ some key)
  acquire-exclusive a b key apart_ab =
      each
        (λ i p.
          b ≢ i
          → writing p ≡ some key
          → (writing (taken b) ≢ some key) × (reading (taken b) ≢ some key))
        g (locked op) s.phase
        (λ other w.
          each (λ j q. j ≢ g → (writing q ≢ some key) × (reading q ≢ some key)) g (locked op)
            s.phase (λ mine. absurd (mine refl)) (λ h far near. (may.1 h key w, may.2 h key w)) b
            other)
        (λ i far other w.
          each (λ j q. j ≢ i → (writing q ≢ some key) × (reading q ≢ some key)) g (locked op)
            s.phase (λ away. (λ e. may.1 i key e w, λ e. may.0 i key e w))
            (λ h away near. v.exclusive i h key near w) b other)
        a apart_ab

  acquire-distinct :
      (a b : ℕ) (t : String) → b ≢ a → temp_of (taken a) ≡ some t → temp_of (taken b) ≢ some t
  acquire-distinct a b t apart_ab =
      each (λ i p. b ≢ i → temp_of p ≡ some t → temp_of (taken b) ≢ some t) g (locked op) s.phase
        (λ other w. absurd (ground (arith, w)))
        (λ i far other w.
          each (λ j q. j ≢ i → temp_of q ≢ some t) g (locked op) s.phase
            (λ away e. absurd (ground (arith, e))) (λ h away near. v.distinct i h t near w) b other)
        a apart_ab

  acquire-agrees :
      (key : String)
      → Used key
      → ((h : ℕ) → writing (taken h) ≢ some key)
      → lookup (file_path fs key) s.files ≡ lookup (file_path fs key) (after fs initial s.log)
  acquire-agrees key known unheld = v.agrees key known (
      elsewhere (λ p. writing p ≢ some key) g (locked op) s.phase unheld
        (subst (λ p. writing p ≢ some key) (sym free) (λ e. absurd (ground (arith, e)))))

  pub acquire-Inv : Inv fs Used initial (record s { phase = taken })
  acquire-Inv = record {
    exclusive = acquire-exclusive;
    apart =
        each (λ i p. ApartIn fs p) g (locked op) s.phase
          (λ t key c. elim c [
            | inl made ↦ apart t key made
            | inr old ↦ absurd (ground (arith, old))
          ])
          (λ h far. v.apart h);
    calls =
        each (λ i p. (o : Op) → op_of p ≡ some o → Apart fs o) g (locked op) s.phase
          (λ o e. let same : op ≡ o = cc in subst (λ x. Apart fs x) same apart)
          (λ h far. v.calls h);
    in_use =
        each (λ i p. (o : Op) → op_of p ≡ some o → Used (key_of_op o)) g (locked op) s.phase
          (λ o e. let same : op ≡ o = cc in subst (λ x. Used (key_of_op x)) same mine)
          (λ h far. v.in_use h);
    distinct = acquire-distinct;
    stands =
        each (λ i p. StandsIn fs p s.files (after fs initial s.log)) g (locked op) s.phase
          (v.agrees (key_of_op op) mine (unwritten (key_of_op op) (op-Locks op) refl))
          (λ h far. v.stands h);
    agrees = acquire-agrees;
    sequential = v.sequential;
  }
