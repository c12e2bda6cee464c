-- ===== src/Store/FileStore/Locks/Atomic.antt =====
-- The locks of store/file.go make each call atomic.
use mathlib.Core.Path.{subst}
use cdc_trigger.Prelude.{ℕ, String, ◌≡◌, ◌≢◌, refl, inl, inr, some, arith, lookup}
use cdc_trigger.Store.FileStore.{FileStore, Files, file_path}
use cdc_trigger.Store.FileStore.Locks.{
  Phase, advance, writing, temp_of, creates, System, update, LockStep, acquire, work, release,
  LockReach, here, next, at_rest, after,
}
use cdc_trigger.Store.FileStore.Locks.Invariant.{Sequential, Inv}
use cdc_trigger.Store.FileStore.Locks.Acquire.{acquire-Inv}
use cdc_trigger.Store.FileStore.Locks.Work.{work-Inv}
use cdc_trigger.Store.FileStore.Locks.Release.{release-Inv}

module _ (fs : FileStore) (Used : String → Type 0)
    (one_to_one : (a b : String) → Used a → Used b → file_path fs a ≡ file_path fs b → a ≡ b)
    (initial : Files) where
  at_rest-Inv : Inv fs Used initial (at_rest initial)
  unfolding after
  at_rest-Inv = record {
    exclusive = λ a b key apart w. absurd (ground (arith, w));
    apart = λ g t key c. elim c [
      | inl made ↦ absurd (ground (arith, made))
      | inr own ↦ absurd (ground (arith, own))
    ];
    calls = λ g op e. absurd (ground (arith, e));
    in_use = λ g op e. absurd (ground (arith, e));
    distinct = λ a b t apart w. absurd (ground (arith, w));
    stands = λ g. tt;
    agrees = λ key known unheld. refl;
    sequential = tt;
  }

  abbrev Fresh : System → ℕ → Phase → Type 0
  Fresh s g p = (h : ℕ) (t : String) → h ≢ g → creates p ≡ some t → temp_of (s.phase h) ≢ some t

  LockStep-Inv :
      {s t : System} → LockStep fs Used s t → Inv fs Used initial s → Inv fs Used initial t
  LockStep-Inv (acquire s g op free mine may apart) v =
      acquire-Inv fs Used initial s v g op free mine may apart
  LockStep-Inv (work s g p at fresh) v =
      subst
        (λ q.
          Fresh s g q
          → Inv fs Used initial (record s {
            files = (advance fs q s.files).1;
            phase = update g (advance fs q s.files).0 s.phase;
          }))
        at (λ unused. work-Inv fs Used one_to_one initial s v g unused) fresh
  LockStep-Inv (release s g op reply ready) v =
      release-Inv fs Used one_to_one initial s v g op reply ready

  LockReach-Inv : {s : System} → LockReach fs Used (at_rest initial) s → Inv fs Used initial s
  LockReach-Inv here = at_rest-Inv
  LockReach-Inv (next r st) = LockStep-Inv st (LockReach-Inv r)

-- Where no two of the keys in use have one path, the calls are for such keys, and the names of temporary files are those of no key's file and
-- of no other goroutine's: however the steps of any number of `Has`, `Get`, `Set` and `Delete` calls
-- interleave under the locks, failed ones included, the calls that have returned gave the replies
-- that they give one after another, in the order in which they released their locks; and the file of
-- a key in use that nobody holds for writing has what it would then have.
pub locked_calls_atomic :
    (fs : FileStore) (Used : String → Type 0) (initial : Files) (s : System) (key : String)
    → ((a b : String) → Used a → Used b → file_path fs a ≡ file_path fs b → a ≡ b)
    → Used key
    → LockReach fs Used (at_rest initial) s
    → ((g : ℕ) → writing (s.phase g) ≢ some key)
    → Sequential fs initial s.log
      × (lookup (file_path fs key) s.files ≡ lookup (file_path fs key) (after fs initial s.log))
locked_calls_atomic fs Used initial s key one_to_one known reached unheld =
    let v = LockReach-Inv fs Used one_to_one initial reached in
    (v.sequential, v.agrees key known unheld)
