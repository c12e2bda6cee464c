-- ===== src/Queue/Ledger/Replay.antt =====
-- The effects of one call after those of the calls before it.
use cdc_trigger.Prelude.{
  ℕ, ◌≡◌, refl, ◌∙◌, some, List, [], ◌∷◌, ◌++◌, ◌==◌, arith, inl, inr, Bool-cases,
}
use cdc_trigger.Queue.Ledger.{Effect, opens, closes, replay}

pub replay-append :
    (a b : List Effect) (held mid : List ℕ)
    → replay a held ≡ some mid
    → replay (a ++ b) held ≡ replay b mid
replay-append [] b held mid h = ground (arith, h)
replay-append (opens n ∷ a) b held mid h = replay-append a b (n ∷ held) mid h
replay-append (closes n ∷ a) b [] mid h = absurd (ground (arith, h))
replay-append (closes n ∷ a) b (m ∷ held) mid h = elim (Bool-cases (m == n)) [
  | inl same ↦ ground (arith, same, h, replay-append a b held mid)
  | inr other ↦ absurd (ground (arith, other, h))
]

-- Any calls of a producer, where each call leaves a producer and has effects.
module _ {P C : Type 0} (call : C → P → P × List Effect) where
  abbrev pub after : List C → P → P × List Effect
  after [] p = (p, [])
  after (c ∷ rest) p =
      let (q, effects) = call c p in let (last, later) = after rest q in (last, effects ++ later)

  -- Where each call on a producer in order opens and closes what the producer then holds more or
  -- less, and leaves it in order, so do all of them.
  pub after-replay :
      (held : P → List ℕ) (InOrder : P → Type 0)
      → ((c : C) (p : P)
          → InOrder p
          → InOrder (call c p).0 × (replay (call c p).1 (held p) ≡ some (held (call c p).0)))
      → (calls : List C) (p : P) → InOrder p
      → replay (after calls p).1 (held p) ≡ some (held (after calls p).0)
  after-replay held InOrder each [] p good = refl
  after-replay held InOrder each (c ∷ rest) p good =
      let q = (call c p).0 in
      let (still, kept) = each c p good in
      replay-append (call c p).1 (after rest q).1 (held p) (held q) kept
      ∙ after-replay held InOrder each rest q still
