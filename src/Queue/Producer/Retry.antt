-- ===== src/Queue/Producer/Retry.antt =====
-- What `SendWithRetry` (queue/producer/producer.go) promises of its attempts.
use cdc_trigger.Prelude.{
  ℕ, zero, suc, ◌+◌, ◌-◌, ◌↔◌, ◌<◌, ◌≤◌, ◌≡◌, refl, ap, inl, inr, true, false, Option, none, some,
  List, [], ◌∷◌, arith, Bool-cases, Option-cases, ltb, lt→ltb,
}
use cdc_trigger.Errors.{pos, GoError}
use cdc_trigger.Queue.Producer.{
  Attempts, Sent, is_retriable, backoff, send_loop, send_with_retry, after_failure,
}

ltb-le_false : (a b : ℕ) → b ≤ a → ltb a b ≡ false
ltb-le_false a b h = ground arith

-- The attempts from `i` on, `k` of them, fail with an error worth a retry, and none of the waits
-- after them is interrupted.
abbrev pub Fails : Attempts → ℕ → ℕ → Type 0
Fails env i zero = Unit
Fails env i (suc k) =
    ((e : GoError) × (env.send i ≡ some e) × (is_retriable (some e) ≡ true))
    × (env.interrupted i ≡ none)
    × Fails env (suc i) k

-- The waits after the attempts `i`, `i + 1`, ..., `k` of them.
abbrev pub waits_from : (ℕ → ℕ) → ℕ → ℕ → List ℕ
waits_from wait i zero = []
waits_from wait i (suc k) = wait i ∷ waits_from wait (suc i) k

-- Addition by recursion on its first argument, which computes as the loop does.
abbrev pub plus : ℕ → ℕ → ℕ
plus zero n = n
plus (suc k) n = suc (plus k n)

-- One failure that is worth a retry, before the last attempt.
send_loop-retry :
    (wait : ℕ → ℕ) (env : Attempts) (max rounds i : ℕ) (last : Option GoError) (e : GoError)
    → env.send i ≡ some e
    → is_retriable (some e) ≡ true
    → env.interrupted i ≡ none
    → ltb i max ≡ true
    → send_loop wait env (pos max) (suc rounds) i last
      ≡ after_failure (wait i ∷ []) (send_loop wait env (pos max) rounds (suc i) (some e))
unfolding send_loop
send_loop-retry wait env max rounds i last e s r c l =
    rw (s, send_loop) (rw (r, l) (rw (c, send_loop)))

-- How the loop ends with the attempt of index `j`: what it returns, and whether a wait began
-- after that attempt (1) or not (0).
pub data Ends (env : Attempts) (max : ℕ) (j : ℕ) : Option GoError → ℕ → Type 0 where
  delivered : env.send j ≡ none → Ends env max j none 0
  rejected :
      (e : GoError)
      → env.send j ≡ some e
      → is_retriable (some e) ≡ false
      → Ends env max j (some e) 0
  given_up :
      (e c : GoError)
      → j < max
      → env.send j ≡ some e
      → is_retriable (some e) ≡ true
      → env.interrupted j ≡ some c
      → Ends env max j (some c) 1
  exhausted :
      (e : GoError)
      → j ≡ max
      → env.send j ≡ some e
      → is_retriable (some e) ≡ true
      → Ends env max j (some e) 0

-- A full account of one run of the loop from index `i`: `failed` attempts that were retried, and
-- the one of index `last` that ended it.
pub record Account (wait : ℕ → ℕ) (env : Attempts) (max i : ℕ) (s : Sent) : Type 0 where
  pub failed : ℕ
  pub last : ℕ
  pub extra : ℕ
  pub placed : last ≡ i + failed
  pub in_range : last ≤ max
  pub retried : Fails env i failed
  pub ended : Ends env max last s.result extra
  pub counted : s.sends ≡ suc failed
  pub waited : s.waits ≡ waits_from wait i (plus failed extra)

module _ (wait : ℕ → ℕ) (env : Attempts) (max : ℕ) where
  abbrev Accounted : ℕ → ℕ → Option GoError → Type 0
  Accounted rounds i l = Account wait env max i (send_loop wait env (pos max) rounds i l)

  -- The loop ends with the attempt of index `i`.
  ends_at :
      (rounds i extra : ℕ) (l r : Option GoError) (w : List ℕ)
      → i ≤ max
      → send_loop wait env (pos max) rounds i l ≡ record { result = r; sends = 1; waits = w }
      → Ends env max i r extra
      → w ≡ waits_from wait i extra
      → Accounted rounds i l
  ends_at rounds i extra l r w h e end shown = rw e (record {
    failed = 0;
    last = i;
    extra = extra;
    placed = omega arith;
    in_range = h;
    retried = tt;
    ended = end;
    counted = refl;
    waited = shown;
  })

  -- The first split of a round: only a failure that is worth a retry goes on.
  first_split :
      (rounds i : ℕ) (l : Option GoError)
      → i ≤ max
      → ((e : GoError)
          → env.send i ≡ some e
          → is_retriable (some e) ≡ true
          → Accounted (suc rounds) i l)
      → Accounted (suc rounds) i l
  first_split rounds i l h failed = elim (Option-cases (env.send i)) [
    | inl sent ↦
        ends_at (suc rounds) i 0 l none [] h (unfold send_loop in rw (sent, send_loop))
          (delivered sent) refl
    | inr (e, s) ↦ elim (Bool-cases (is_retriable (some e))) [
      | inr fatal ↦
          ends_at (suc rounds) i 0 l (some e) [] h
            (unfold send_loop in rw (s, send_loop) (rw fatal)) (rejected e s fatal) refl
      | inl worth ↦ failed e s worth
    ]
  ]

  -- A retried failure in front of the account of the rest.
  retried_first :
      (n i : ℕ) (l : Option GoError) (e : GoError)
      → env.send i ≡ some e
      → is_retriable (some e) ≡ true
      → env.interrupted i ≡ none
      → ltb i max ≡ true
      → Accounted (suc n) (suc i) (some e)
      → Accounted (suc (suc n)) i l
  retried_first n i l e s worth calm room a =
      rw (send_loop-retry wait env max (suc n) i l e s worth calm room) (record {
        failed = suc a.failed;
        last = a.last;
        extra = a.extra;
        placed = omega (arith, a.placed);
        in_range = a.in_range;
        retried = ((e, s, worth), calm, a.retried);
        ended = a.ended;
        counted = ap suc a.counted;
        waited = ap (λ w. wait i ∷ w) a.waited;
      })

  account : (rounds i : ℕ) (l : Option GoError) → i + rounds ≡ max → Accounted (suc rounds) i l
  account zero i l h = first_split zero i l (omega arith) λ e s worth.
      ends_at 1 i 0 l (some e) [] (omega arith)
        (unfold send_loop in rw (s, send_loop) (rw worth (rw (ltb-le_false i max (omega arith)))))
        (exhausted e (omega arith) s worth) refl
  account (suc n) i l h =
      let room = lt→ltb i max (omega arith) in
      first_split (suc n) i l (omega arith) λ e s worth. elim (Option-cases (env.interrupted i)) [
        | inr (c, stop) ↦
            ends_at (suc (suc n)) i 1 l (some c) (wait i ∷ []) (omega arith)
              (unfold send_loop in rw (s, send_loop) (rw (worth, room) (rw (stop, send_loop))))
              (given_up e c (omega arith) s worth stop) refl
        | inl calm ↦
            retried_first n i l e s worth calm room (account n (suc i) (some e) (omega arith))
      ]

-- With `maxRetries` at zero or above, a run consists of failures that are worth a retry, each
-- followed by its backoff, and of one attempt that ends it: a delivery, an error that no retry
-- can mend, a context that ends the wait, or the last attempt allowed.
pub send_with_retry-Account :
    (v : ℕ) (env : Attempts) (max : ℕ)
    → Account (backoff v) env max 0 (send_with_retry v env (pos max))
unfolding send_with_retry
send_with_retry-Account v env max = account (backoff v) env max max 0 none (omega arith)

pub Ends-none :
    {env : Attempts} {max j x : ℕ} {r : Option GoError}
    → Ends env max j r x
    → (r ≡ none) ↔ (env.send j ≡ none)
Ends-none (delivered s) = (λ _. s, λ _. refl)
Ends-none (rejected e s f) = (λ h. cc, λ h. cc)
Ends-none (given_up e c l s w i) = (λ h. cc, λ h. cc)
Ends-none (exhausted e l s w) = (λ h. cc, λ h. cc)

-- With `maxRetries` at zero or above, a run sends at least once and at most `maxRetries + 1` times, and reports success exactly
-- when the last of its attempts was delivered.
pub send_with_retry_bounds :
    (v : ℕ) (env : Attempts) (max : ℕ)
    → let s = send_with_retry v env (pos max) in
      (1 ≤ s.sends) × (s.sends ≤ max + 1) × ((s.result ≡ none) ↔ (env.send (s.sends - 1) ≡ none))
send_with_retry_bounds v env max =
    let a = send_with_retry-Account v env max in
    let s = send_with_retry v env (pos max) in
    let last : s.sends - 1 ≡ a.last = omega (arith, a.counted, a.placed) in
    (
      omega (arith, a.counted),
      omega (arith, a.counted, a.placed, a.in_range),
      rw last (Ends-none a.ended),
    )
