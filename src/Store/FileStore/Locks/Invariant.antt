-- ===== src/Store/FileStore/Locks/Invariant.antt =====
-- What the goroutines inside the methods of store/file.go keep between them.
use mathlib.Core.Path.{subst}
use native.Mathlib.Decide.{ℕ_discrete}
use cdc_trigger.Prelude.{
  ℕ, String, ◌≡◌, ◌≢◌, refl, sym, ap, ◌⊎◌, inl, inr, some, List, [], ◌∷◌, snoc, arith, lookup,
  str_eq, eq_iff, ==_iff, Bool-cases,
}
use cdc_trigger.Store.FileStore.{FileStore, Files, file_path}
use cdc_trigger.Store.FileStore.Locks.{
  Op, key_of_op, has_op, get_op, delete_op, set_op, Reply, run_op, Phase, op_writes, writing,
  reading, temp_of, System, update, after,
}
use cdc_trigger.Store.FileStore.Locks.Effects.{Apart, run_op-other}
use cdc_trigger.Store.FileStore.Locks.Phases.{op_of, StandsIn, ApartIn}

-- Each call returned what it returns after those before it.
abbrev pub Sequential : FileStore → Files → List (Op × Reply) → Type 0
Sequential fs files [] = Unit
Sequential fs files ((op, reply) ∷ rest) =
    (reply ≡ (run_op fs op files).0) × Sequential fs (run_op fs op files).1 rest

pub after-snoc :
    (fs : FileStore) (files : Files) (log : List (Op × Reply)) (op : Op) (reply : Reply)
    → after fs files (snoc log (op, reply)) ≡ (run_op fs op (after fs files log)).1
unfolding after
after-snoc fs files [] op reply = refl
after-snoc fs files ((o, r) ∷ rest) op reply = after-snoc fs (run_op fs o files).1 rest op reply

pub Sequential-snoc :
    (fs : FileStore) (files : Files) (log : List (Op × Reply)) (op : Op) (reply : Reply)
    → Sequential fs files log
    → reply ≡ (run_op fs op (after fs files log)).0
    → Sequential fs files (snoc log (op, reply))
unfolding after
Sequential-snoc fs files [] op reply v e = (e, tt)
Sequential-snoc fs files ((o, r) ∷ rest) op reply (here, later) e =
    (here, Sequential-snoc fs (run_op fs o files).1 rest op reply later e)

-- After an update of one goroutine, a property of each of them.
pub each :
    (P : ℕ → Phase → Type 0) (g : ℕ) (p : Phase) (phase : ℕ → Phase)
    → P g p
    → ((h : ℕ) → h ≢ g → P h (phase h))
    → (h : ℕ) → P h (update g p phase h)
each P g p phase mine others h = elim (ℕ_discrete h g) [
  | yes same ↦
      let now : update g p phase h ≡ p = ground (arith, ==_iff h g, same) in
      subst (P h) (sym now) (subst (λ i. P i p) (sym same) mine)
  | no apart ↦
      let now : update g p phase h ≡ phase h = ground (arith, ==_iff h g, apart) in
      subst (P h) (sym now) (others h apart)
]

-- Before an update of one goroutine, a property that each has after it, and that one before it.
pub elsewhere :
    (P : Phase → Type 0) (g : ℕ) (p : Phase) (phase : ℕ → Phase)
    → ((h : ℕ) → P (update g p phase h))
    → P (phase g)
    → (h : ℕ) → P (phase h)
elsewhere P g p phase all mine h = elim (ℕ_discrete h g) [
  | yes same ↦ subst (λ i. P (phase i)) (sym same) mine
  | no apart ↦
      let now : update g p phase h ≡ phase h = ground (arith, ==_iff h g, apart) in
      subst P now (all h)
]

pub writes-cases : (op : Op) (key : String) → (op_writes op ≡ some key) ⊎ (op_writes op ≢ some key)
writes-cases (has_op k io) key = inr (λ h. cc)
writes-cases (get_op k io) key = inr (λ h. cc)
writes-cases (delete_op k io) key = elim (Bool-cases (str_eq k key)) [
  | inl same ↦ inl (ap some ((eq_iff k key).0 same))
  | inr apart ↦ inr (λ h. absurd (ground (arith, eq_iff k key, h, apart)))
]
writes-cases (set_op k io value) key = elim (Bool-cases (str_eq k key)) [
  | inl same ↦ inl (ap some ((eq_iff k key).0 same))
  | inr apart ↦ inr (λ h. absurd (ground (arith, eq_iff k key, h, apart)))
]

-- `initial` are the files at the start.
pub record Inv (fs : FileStore) (Used : String → Type 0) (initial : Files) (s : System)
    : Type 0 where
  pub exclusive :
      (g h : ℕ) (key : String)
      → h ≢ g
      → writing (s.phase g) ≡ some key
      → (writing (s.phase h) ≢ some key) × (reading (s.phase h) ≢ some key)
  pub apart : (g : ℕ) → ApartIn fs (s.phase g)
  pub calls : (g : ℕ) (op : Op) → op_of (s.phase g) ≡ some op → Apart fs op
  pub in_use : (g : ℕ) (op : Op) → op_of (s.phase g) ≡ some op → Used (key_of_op op)
  pub distinct :
      (g h : ℕ) (t : String) → h ≢ g → temp_of (s.phase g) ≡ some t → temp_of (s.phase h) ≢ some t
  pub stands : (g : ℕ) → StandsIn fs (s.phase g) s.files (after fs initial s.log)
  pub agrees :
      (key : String)
      → Used key
      → ((g : ℕ) → writing (s.phase g) ≢ some key)
      → lookup (file_path fs key) s.files ≡ lookup (file_path fs key) (after fs initial s.log)
  pub sequential : Sequential fs initial s.log

module _ (fs : FileStore) (Used : String → Type 0)
    (one_to_one : (a b : String) → Used a → Used b → file_path fs a ≡ file_path fs b → a ≡ b) where
  -- A call that does not write a key leaves its file.
  pub run_op-unwritten :
      (op : Op) (files : Files) (key : String)
      → Apart fs op
      → Used (key_of_op op)
      → Used key
      → op_writes op ≢ some key
      → lookup (file_path fs key) (run_op fs op files).1 ≡ lookup (file_path fs key) files
  unfolding run_op
  run_op-unwritten (has_op k io) files key apart mine other h = refl
  run_op-unwritten (get_op k io) files key apart mine other h = refl
  run_op-unwritten (delete_op k io) files key apart mine other h =
      run_op-other fs (delete_op k io) files key apart
        (λ e. h (ap some (one_to_one k key mine other e)))
  run_op-unwritten (set_op k io value) files key apart mine other h =
      run_op-other fs (set_op k io value) files key apart
        (λ e. h (ap some (one_to_one k key mine other e)))
