-- ===== src/Queue/Producer/Backoff.antt =====
-- The waits of `SendWithRetry` (queue/producer/producer.go), as 64-bit durations.
use Prim.Native.Nat.{◌^◌, min}
use native.Mathlib.Decide.{ℕ_discrete}
use cdc_trigger.Prelude.{
  ◌≤◌, ℕ, zero, suc, ◌+◌, ◌*◌, ◌<◌, ◌≡◌, refl, Bool, true, ◌&&◌, arith, ◌==◌, ==_iff,
}
use cdc_trigger.Queue.Producer.{backoff, two_seconds}

-- The test holds at each of the `n` numbers `from`, `from + 1`, ...
holds_from : (ℕ → Bool) → ℕ → ℕ → Bool
holds_from test from zero = true
holds_from test from (suc n) = test from && holds_from test (suc from) n

holds_from-at :
    (test : ℕ → Bool) (n from i : ℕ)
    → holds_from test from n ≡ true
    → from ≤ i
    → i < from + n
    → test i ≡ true
unfolding holds_from
holds_from-at test zero from i all low high = absurd (omega arith)
holds_from-at test (suc n) from i all low high = elim (ℕ_discrete from i) [
  | yes same ↦ rw (← same) (ground arith)
  | no other ↦ holds_from-at test n (suc from) i (ground arith) (omega (arith, other)) (omega arith)
]

agrees : ℕ → ℕ → Bool
agrees v i = backoff v i == min (2 ^ (i + 1) * 100_000_000) two_seconds

agrees_early : (v : ℕ) → holds_from (agrees v) 0 36 ≡ true
unfolding holds_from agrees backoff
agrees_early v = refl

-- Up to the thirty-sixth attempt nothing overflows: the wait doubles from 200 ms and is capped at
-- two seconds.
pub backoff-eq-min : (v i : ℕ) → i < 36 → backoff v i ≡ min (2 ^ (i + 1) * 100_000_000) two_seconds
unfolding agrees
backoff-eq-min v i h =
    (==_iff _ _).0 (holds_from-at (agrees v) 36 0 i (agrees_early v) (omega arith) (omega arith))
