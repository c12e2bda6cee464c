-- ===== src/Store/FileStore/Locks/Release.antt =====
-- Giving a lock of store/file.go back keeps the invariant.
use mathlib.Core.Path.{subst}
use cdc_trigger.Prelude.{
  ℕ, String, ◌≡◌, ◌≢◌, refl, sym, ap, ◌∙◌, inl, inr, some, snoc, arith, lookup,
}
use cdc_trigger.Store.FileStore.{FileStore, Files, file_path}
use cdc_trigger.Store.FileStore.Locks.{
  key_of_op, Op, Reply, run_op, Phase, idle, replied, writing, reading, temp_of, System, update,
  after,
}
use cdc_trigger.Store.FileStore.Locks.Effects.{Apart, effect, run_op-effect}
use cdc_trigger.Store.FileStore.Locks.Phases.{op_of, key_of, StandsIn, ApartIn}
use cdc_trigger.Store.FileStore.Locks.Frames.{Locks, writes-key, call_of, StandsIn-frame}
use cdc_trigger.Store.FileStore.Locks.Invariant.{
  after-snoc, Sequential-snoc, each, elsewhere, writes-cases, Inv, run_op-unwritten,
}

module _ (fs : FileStore) (Used : String → Type 0)
    (one_to_one : (a b : String) → Used a → Used b → file_path fs a ≡ file_path fs b → a ≡ b)
    (initial : Files) (s : System) (v : Inv fs Used initial s) (g : ℕ) (op : Op) (reply : Reply)
    (ready : s.phase g ≡ replied op reply) where
  abbrev left : ℕ → Phase
  left = update g idle s.phase

  -- The files after the calls that had returned, and after this one too.
  abbrev r : Files
  r = after fs initial s.log

  abbrev r' : Files
  r' = (run_op fs op r).1

  logged : after fs initial (snoc s.log (op, reply)) ≡ r'
  logged = after-snoc fs initial s.log op reply

  op-Apart : Apart fs op
  op-Apart = v.calls g op (ap op_of ready)

  own_in_use : Used (key_of_op op)
  own_in_use = v.in_use g op (ap op_of ready)

  their_key : (h : ℕ) → Locks (s.phase h) → Used (key_of (s.phase h))
  their_key h held =
      let (o, at, as_key) = call_of (s.phase h) held in subst Used as_key (v.in_use h o at)

  stood : StandsIn fs (replied op reply) s.files r
  stood = subst (λ p. StandsIn fs p s.files r) ready (v.stands g)

  abbrev path : String
  path = file_path fs (key_of_op op)

  effected :
      ((run_op fs op r).0 ≡ (effect op (lookup path r)).0)
      × (lookup path r' ≡ (effect op (lookup path r)).1)
  effected = run_op-effect fs op r op-Apart

  theirs :
      (h : ℕ)
      → h ≢ g
      → Locks (s.phase h)
      → lookup (file_path fs (key_of (s.phase h))) r' ≡ lookup (file_path fs (key_of (s.phase h))) r
  theirs h far (inl writes) =
      let key = key_of (s.phase h) in
      run_op-unwritten fs Used one_to_one op r key op-Apart own_in_use (their_key h (inl writes))
        (λ w. (v.exclusive g h key far (ap writing ready ∙ w)).0 writes)
  theirs h far (inr reads) =
      let key = key_of (s.phase h) in
      run_op-unwritten fs Used one_to_one op r key op-Apart own_in_use (their_key h (inr reads))
        (λ w. (v.exclusive g h key far (ap writing ready ∙ w)).1 reads)

  release-agrees :
      (key : String)
      → Used key
      → ((h : ℕ) → writing (left h) ≢ some key)
      → lookup (file_path fs key) s.files ≡ lookup (file_path fs key) r'
  release-agrees key known unheld = elim (writes-cases op key) [
    | inl writes ↦
        subst (λ k. lookup (file_path fs k) s.files ≡ lookup (file_path fs k) r')
          (writes-key op key writes) (stood.1 ∙ sym effected.1)
    | inr other ↦
        v.agrees key known (
          elsewhere (λ p. writing p ≢ some key) g idle s.phase unheld
            (subst (λ p. writing p ≢ some key) (sym ready) other))
        ∙ sym (run_op-unwritten fs Used one_to_one op r key op-Apart own_in_use known other)
  ]

  pub release-Inv : Inv fs Used initial (record s { phase = left; log = snoc s.log (op, reply) })
  release-Inv = record {
    exclusive = λ a b key apart_ab.
        each
          (λ i p.
            b ≢ i
            → writing p ≡ some key
            → (writing (left b) ≢ some key) × (reading (left b) ≢ some key))
          g idle s.phase (λ other w. absurd (ground (arith, w)))
          (λ i far other w.
            each (λ j q. j ≢ i → (writing q ≢ some key) × (reading q ≢ some key)) g idle s.phase
              (λ away. (λ e. absurd (ground (arith, e)), λ e. absurd (ground (arith, e))))
              (λ h away near. v.exclusive i h key near w) b other)
          a apart_ab;
    apart =
        each (λ i p. ApartIn fs p) g idle s.phase
          (λ t key c. elim c [
            | inl made ↦ absurd (ground (arith, made))
            | inr own ↦ absurd (ground (arith, own))
          ])
          (λ h far. v.apart h);
    calls =
        each (λ i p. (o : Op) → op_of p ≡ some o → Apart fs o) g idle s.phase
          (λ o e. absurd (ground (arith, e))) (λ h far. v.calls h);
    in_use =
        each (λ i p. (o : Op) → op_of p ≡ some o → Used (key_of_op o)) g idle s.phase
          (λ o e. absurd (ground (arith, e))) (λ h far. v.in_use h);
    distinct = λ a b t apart_ab.
        each (λ i p. b ≢ i → temp_of p ≡ some t → temp_of (left b) ≢ some t) g idle s.phase
          (λ other w. absurd (ground (arith, w)))
          (λ i far other w.
            each (λ j q. j ≢ i → temp_of q ≢ some t) g idle s.phase
              (λ away e. absurd (ground (arith, e))) (λ h away near. v.distinct i h t near w) b
              other)
          a apart_ab;
    stands =
        each (λ i p. StandsIn fs p s.files (after fs initial (snoc s.log (op, reply)))) g idle
          s.phase tt
          (λ h far.
            StandsIn-frame fs (s.phase h) s.files s.files r
              (after fs initial (snoc s.log (op, reply))) (λ l. refl)
              (λ l. ap (lookup (file_path fs (key_of (s.phase h)))) logged ∙ theirs h far l)
              (λ t has. refl) (v.stands h));
    agrees = λ key known unheld.
        release-agrees key known unheld ∙ sym (ap (lookup (file_path fs key)) logged);
    sequential = Sequential-snoc fs initial s.log op reply v.sequential (stood.0 ∙ sym effected.0);
  }
