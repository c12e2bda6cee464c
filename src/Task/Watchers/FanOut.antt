-- ===== src/Task/Watchers/FanOut.antt =====
-- `runEach` of task/watchers.go: its result does not depend on how the goroutines are scheduled.
use mathlib.Core.List.{Perm, Permᴰ, perm_append_comm, append_assoc, append-nil}
use mathlib.Core.List.Perm
use native.Mathlib.Decide.{ℕ_discrete}
use cdc_trigger.Prelude.{
  ℕ, zero, suc, ◌≡◌, refl, sym, ap, ◌∙◌, ◌⊎◌, inl, inr, Option, none, some, List, [], ◌∷◌, ◌++◌,
  map, arith, length, Option-cases, get_elem?, length-set, length-replicate, get_elem?-set_self,
  get_elem?-set_ne, ◌+◌, ◌<◌, ◌≤◌,
}
use cdc_trigger.Errors.{GoError, errors_join}
use cdc_trigger.Task.Watchers.{Watcher, Call, Outcome, Shared, complete, complete_all, run_each}

-- The goroutine of index `j` has run by the end of `order`.
abbrev pub Runs : ℕ → List ℕ → Type 0
Runs j [] = ⊥
Runs j (i ∷ order) = (i ≡ j) ⊎ Runs j order

module _ (ws : List Watcher) (fn : Watcher → Outcome) where
  length-complete : (i : ℕ) (s : Shared) → length (complete ws fn i s).errs ≡ length s.errs
  unfolding complete
  length-complete i s = elim (Option-cases (get_elem? ws i)) [
    | inl e ↦ rw (e, complete)
    | inr (w, e) ↦ rw (e, complete) (length-set s.errs i (fn w).error)
  ]

  length-complete_all :
      (order : List ℕ) (s : Shared) → length (complete_all ws fn order s).errs ≡ length s.errs
  unfolding complete_all
  length-complete_all [] s = refl
  length-complete_all (i ∷ order) s =
      length-complete_all order (complete ws fn i s) ∙ length-complete i s

  module _ (j : ℕ) (w : Watcher) (at : get_elem? ws j ≡ some w) where
    abbrev Settled : Shared → Type 0
    Settled s = get_elem? s.errs j ≡ some (fn w).error

    -- Running its own goroutine settles the slot, and running another leaves it alone.
    complete_self : (s : Shared) → j < length s.errs → Settled (complete ws fn j s)
    unfolding complete
    complete_self s h = rw (at, complete) (get_elem?-set_self s.errs j (fn w).error h)

    complete-Settled :
        (i : ℕ) (s : Shared) → j < length s.errs → Settled s → Settled (complete ws fn i s)
    unfolding complete
    complete-Settled i s h done = elim (ℕ_discrete i j) [
      | yes e ↦ rw e (complete_self s h)
      | no other ↦ elim (Option-cases (get_elem? ws i)) [
        | inl e ↦ rw (e, complete) done
        | inr (v, e) ↦ rw (e, complete) (get_elem?-set_ne s.errs (fn v).error other ∙ done)
      ]
    ]

    complete_all-Settled :
        (order : List ℕ) (s : Shared)
        → j < length s.errs
        → Settled s ⊎ Runs j order
        → Settled (complete_all ws fn order s)
    unfolding complete_all
    complete_all-Settled [] s h (inl done) = done
    complete_all-Settled [] s h (inr never) = absurd never
    complete_all-Settled (i ∷ order) s h (inl done) =
        complete_all-Settled order (complete ws fn i s) (omega (arith, length-complete i s))
          (inl (complete-Settled i s h done))
    complete_all-Settled (i ∷ order) s h (inr (inr later)) =
        complete_all-Settled order (complete ws fn i s) (omega (arith, length-complete i s))
          (inr later)
    complete_all-Settled (i ∷ order) s h (inr (inl now)) =
        complete_all-Settled order (complete ws fn i s) (omega (arith, length-complete i s))
          (inl (rw now (complete_self s h)))

-- The indices `k`, `k + 1`, ... of `n` goroutines, in the order they are started in.
abbrev pub started : ℕ → ℕ → List ℕ
started k zero = []
started k (suc n) = k ∷ started (suc k) n

-- The scheduler runs each of the `n` goroutines once, in an order of its choice.
abbrev pub IsSchedule : List ℕ → ℕ → Type 0
IsSchedule order n = Permᴰ order (started 0 n)

Runs-started : (j n k : ℕ) → k ≤ j → j < k + n → Runs j (started k n)
Runs-started j zero k low high = absurd (omega arith)
Runs-started j (suc n) k low high = elim (ℕ_discrete k j) [
  | yes e ↦ inl e
  | no other ↦ inr (Runs-started j n (suc k) (omega arith) (omega arith))
]

Runs-perm : (j : ℕ) {xs ys : List ℕ} → Permᴰ xs ys → Runs j ys → Runs j xs
Runs-perm j Permᴰ.nil r = r
Runs-perm j (Permᴰ.cons e p) (inl now) = inl (e ∙ now)
Runs-perm j (Permᴰ.cons e p) (inr later) = inr (Runs-perm j p later)
Runs-perm j (Permᴰ.swap e f) (inl now) = inr (inl (f ∙ now))
Runs-perm j (Permᴰ.swap e f) (inr (inl now)) = inl (e ∙ now)
Runs-perm j (Permᴰ.swap e f) (inr (inr later)) = inr (inr later)
Runs-perm j (Permᴰ.trans p q) r = Runs-perm j p (Runs-perm j q r)

-- A slice that agrees with the watchers' errors at every index is the slice of those errors.
errors_by_index :
    (fn : Watcher → Outcome) (ws : List Watcher) (es : List (Option GoError))
    → length es ≡ length ws
    → ((j : ℕ) (w : Watcher) → get_elem? ws j ≡ some w → get_elem? es j ≡ some (fn w).error)
    → es ≡ map (λ w. (fn w).error) ws
errors_by_index fn [] [] n h = refl
errors_by_index fn [] (e ∷ es) n h = absurd (omega arith)
errors_by_index fn (w ∷ ws) [] n h = absurd (omega arith)
errors_by_index fn (w ∷ ws) (e ∷ es) n h =
    let rest = errors_by_index fn ws es (omega arith) (λ j v. h (suc j) v) in cc (h 0 w refl, rest)

get_elem?-lt {ℓ} :
    {A : Type ℓ} (xs : List A) (j : ℕ) (a : A) → get_elem? xs j ≡ some a → j < length xs
get_elem?-lt [] j a h = cc
get_elem?-lt (x ∷ xs) zero a h = omega arith
get_elem?-lt (x ∷ xs) (suc j) a h = omega (arith, get_elem?-lt xs j a h)

-- The calls of the goroutine of index `i`.
calls_at : List Watcher → (Watcher → Outcome) → ℕ → List Call
calls_at ws fn i = elim (get_elem? ws i) [ none ↦ [] | some w ↦ (fn w).calls ]

-- The calls that the goroutines make, in the order they run in.
abbrev calls_in : List Watcher → (Watcher → Outcome) → List ℕ → List Call
calls_in ws fn [] = []
calls_in ws fn (i ∷ order) = calls_at ws fn i ++ calls_in ws fn order

-- The calls of all watchers, one watcher after the other.
abbrev pub calls_of : List Watcher → (Watcher → Outcome) → List Call
calls_of [] fn = []
calls_of (w ∷ ws) fn = (fn w).calls ++ calls_of ws fn

calls-complete :
    (ws : List Watcher) (fn : Watcher → Outcome) (i : ℕ) (s : Shared)
    → (complete ws fn i s).calls ≡ s.calls ++ calls_at ws fn i
unfolding complete calls_at
calls-complete ws fn i s = ground (arith, append-nil s.calls)

calls-complete_all :
    (ws : List Watcher) (fn : Watcher → Outcome) (order : List ℕ) (s : Shared)
    → (complete_all ws fn order s).calls ≡ s.calls ++ calls_in ws fn order
unfolding complete_all
calls-complete_all ws fn [] s = sym (append-nil s.calls)
calls-complete_all ws fn (i ∷ order) s =
    calls-complete_all ws fn order (complete ws fn i s)
    ∙ ap (λ l. l ++ calls_in ws fn order) (calls-complete ws fn i s)
    ∙ append_assoc s.calls (calls_at ws fn i) (calls_in ws fn order)

calls_in-shift :
    (w : Watcher) (ws : List Watcher) (fn : Watcher → Outcome) (n k : ℕ)
    → calls_in (w ∷ ws) fn (started (suc k) n) ≡ calls_in ws fn (started k n)
unfolding calls_at
calls_in-shift w ws fn zero k = refl
calls_in-shift w ws fn (suc n) k = rw (calls_in-shift w ws fn n (suc k))

calls_in-started :
    (ws : List Watcher) (fn : Watcher → Outcome)
    → calls_in ws fn (started 0 (length ws)) ≡ calls_of ws fn
unfolding calls_at
calls_in-started [] fn = refl
calls_in-started (w ∷ ws) fn =
    ap (λ l. (fn w).calls ++ l) (calls_in-shift w ws fn (length ws) 0 ∙ calls_in-started ws fn)

swap_front {ℓ} : {A : Type ℓ} (xs ys zs : List A) → Perm (xs ++ (ys ++ zs)) (ys ++ (xs ++ zs))
swap_front xs ys zs =
    rw (← append_assoc xs ys zs)
      (rw (← append_assoc ys xs zs) (Perm.append_right zs (perm_append_comm xs ys)))

calls_in-perm :
    (ws : List Watcher) (fn : Watcher → Outcome) {xs ys : List ℕ}
    → Permᴰ xs ys
    → Perm (calls_in ws fn xs) (calls_in ws fn ys)
calls_in-perm ws fn Permᴰ.nil = Perm.refl []
calls_in-perm ws fn (Permᴰ.cons e p) = rw e (Perm.append_left _ (calls_in-perm ws fn p))
calls_in-perm ws fn (Permᴰ.swap {a = a} {b = b} {l = l} e f) =
    rw (e, f) (swap_front (calls_at ws fn _) (calls_at ws fn _) (calls_in ws fn l))
calls_in-perm ws fn (Permᴰ.trans p q) = Perm.trans (calls_in-perm ws fn p) (calls_in-perm ws fn q)

-- Whatever order the scheduler runs the goroutines in, a run whose context is live reports the
-- errors of its watchers in the order of the watchers, and it makes the calls of every watcher,
-- each as often as the watchers make it.
pub run_each-schedule :
    (ws : List Watcher) (fn : Watcher → Outcome) (order : List ℕ)
    → IsSchedule order (length ws)
    → ((run_each none ws fn order).error ≡ errors_join (map (λ w. (fn w).error) ws))
      × Perm (run_each none ws fn order).calls (calls_of ws fn)
unfolding run_each
run_each-schedule ws fn order p = (
  ap errors_join (
      errors_by_index fn ws _
        (length-complete_all ws fn order _ ∙ length-replicate (length ws) none)
        λ j w at.
          complete_all-Settled ws fn j w at order _
            (omega (
              arith,
              length-replicate {A = Option GoError} (length ws) none,
              get_elem?-lt ws j w at,
            ))
            (inr (
              Runs-perm j p (
                Runs-started j (length ws) 0 (omega arith)
                  (omega (arith, get_elem?-lt ws j w at)))))),
  rw (calls-complete_all ws fn order _) (rw (← calls_in-started ws fn) (calls_in-perm ws fn p)),
)
