-- ===== src/Queue/RedisQueue/Taken.antt =====
-- What the BRPOP commands of queue/consumer/redis.go take from a list, and what of it arrives.
use cdc_trigger.Prelude.{
  ℕ, zero, suc, ◌+◌, ◌≤◌, ◌≡◌, refl, sym, ap, ◌∙◌, inl, inr, Bool, true, false, Option, List, [],
  ◌∷◌, ◌++◌, snoc, String, length, reverse, reverse-snoc, snoc-cases, arith,
}
use cdc_trigger.Queue.Producer.RedisProducer.{RedisProducer}
use cdc_trigger.Queue.RedisQueue.{ListServer, lose}

-- Values that were taken, the oldest first, each with whether the reply that brought it arrived.
module _ {A : Type 0} where
  abbrev pub all_of : List (Bool × A) → List A
  all_of [] = []
  all_of ((arrived, x) ∷ rest) = x ∷ all_of rest

  abbrev pub delivered : List (Bool × A) → List A
  delivered [] = []
  delivered ((true, x) ∷ rest) = x ∷ delivered rest
  delivered ((false, x) ∷ rest) = delivered rest

  abbrev pub lost_count : List (Bool × A) → ℕ
  lost_count [] = 0
  lost_count ((true, x) ∷ rest) = lost_count rest
  lost_count ((false, x) ∷ rest) = suc (lost_count rest)

  -- Values whose replies were lost, in front of others.
  abbrev pub with_lost : List A → List (Bool × A) → List (Bool × A)
  with_lost [] taken = taken
  with_lost (x ∷ xs) taken = (false, x) ∷ with_lost xs taken

  pub all_of-with_lost :
      (xs : List A) (taken : List (Bool × A)) → all_of (with_lost xs taken) ≡ xs ++ all_of taken
  all_of-with_lost [] taken = refl
  all_of-with_lost (x ∷ xs) taken = ap (λ l. x ∷ l) (all_of-with_lost xs taken)

  pub delivered-with_lost :
      (xs : List A) (taken : List (Bool × A)) → delivered (with_lost xs taken) ≡ delivered taken
  delivered-with_lost [] taken = refl
  delivered-with_lost (x ∷ xs) taken = delivered-with_lost xs taken

  pub lost_count-with_lost :
      (xs : List A) (taken : List (Bool × A))
      → lost_count (with_lost xs taken) ≡ length xs + lost_count taken
  lost_count-with_lost [] taken = omega arith
  lost_count-with_lost (x ∷ xs) taken = omega (arith, lost_count-with_lost xs taken)

module _ {S : Type 0} (server : ListServer S) (p : RedisProducer) (key : String)
    (name : List ℕ) where
  -- One BRPOP on a list that is not empty.
  pub brpop-first :
      (s : S) (rest : List (List ℕ)) (v : List ℕ) (ws zs : List (List ℕ))
      → server.contents key s ≡ snoc rest v
      → ws ≡ reverse (server.contents key (server.brpop key s).1) ++ zs
      → v ∷ ws ≡ reverse (server.contents key s) ++ zs
  brpop-first s rest v ws zs full h =
      let (popped, left) = server.brpop-snoc key s rest v full in
      ap (λ l. v ∷ l) (h ∙ ap (λ l. reverse l ++ zs) left)
      ∙ sym (ap (λ l. l ++ zs) (ap reverse full ∙ reverse-snoc rest v))

  -- Commands whose replies are lost take the oldest values, one each at most.
  pub lose-takes :
      (n : ℕ) (s : S)
      → (vs : List (List ℕ)) × (length vs ≤ n)
        × ((zs : List (List ℕ))
            → vs ++ (reverse (server.contents key (lose server p key name n s)) ++ zs)
              ≡ reverse (server.contents key s) ++ zs)
  unfolding lose
  lose-takes zero s = ([], omega arith, λ zs. refl)
  lose-takes (suc n) s = elim (snoc-cases (server.contents key s)) [
    | inl empty ↦
        let Popped : Type 0 = Option (List ℕ) × S in
        let (vs, few, order) = lose-takes n s in
        (
          vs,
          omega (arith, few),
          λ zs.
              ap
                (λ (b : Popped).
                  vs ++ (reverse (server.contents key (lose server p key name n b.1)) ++ zs))
                (server.brpop-empty key s empty)
              ∙ order zs,
        )
    | inr (rest, v, full) ↦
        let (vs, few, order) = lose-takes n (server.brpop key s).1 in
        (v ∷ vs, omega (arith, few), λ zs. brpop-first s rest v _ zs full (order zs))
  ]
