-- ===== src/Queue/RedisQueue/Retried.antt =====
-- `SendWithRetry` of queue/producer/producer.go over the producer of queue/producer/redis.go: how
-- often an event is then in the list.
use native.Mathlib.Nat.{suc-mul, add-mul}
use cdc_trigger.Prelude.{
  ℕ, zero, suc, ◌+◌, ◌-◌, ◌*◌, ◌≤◌, ◌≡◌, refl, sym, ap, ◌∙◌, Option, none, List, ◌∷◌, ◌++◌,
  replicate, arith,
}
use cdc_trigger.Errors.{GoError, pos, ok}
use cdc_trigger.Queue.Producer.{send_with_retry}
use cdc_trigger.Queue.Producer.Retry.{send_with_retry-Account, Ends-none}
use cdc_trigger.Queue.Producer.RedisProducer.{Network, RedisProducer, push_times, send}
use cdc_trigger.Queue.RedisQueue.{ListServer, pushes, attempts, attempted}

-- How often `k` attempts from index `i` on push the payload.
abbrev pub pushed : (ℕ → Network) → ℕ → ℕ → ℕ
pushed network i zero = 0
pushed network i (suc k) = pushes (network i) + pushed network (suc i) k

pub pushed_le :
    (network : ℕ → Network) (most i k : ℕ)
    → ((j : ℕ) → pushes (network j) ≤ most)
    → pushed network i k ≤ k * most
pushed_le network most i zero h = omega arith
pushed_le network most i (suc k) h =
    omega (arith, h i, pushed_le network most (suc i) k h, suc-mul k most)

pub pushed_last :
    (network : ℕ → Network) (i k last : ℕ)
    → last ≡ i + k
    → 1 ≤ pushes (network last)
    → 1 ≤ pushed network i (suc k)
pushed_last network i zero last e h =
    let here : last ≡ i = omega arith in omega (arith, h, ap (λ j. pushes (network j)) here)
pushed_last network i (suc k) last e h =
    omega (arith, pushed_last network (suc i) k last (omega arith) h)

-- At most `k` attempts, where `k` is below a bound.
pub pushed_below :
    (network : ℕ → Network) (most k bound : ℕ)
    → ((j : ℕ) → pushes (network j) ≤ most)
    → k ≤ bound
    → pushed network 0 k ≤ bound * most
pushed_below network most k bound h few =
    let all : k + (bound - k) ≡ bound = omega arith in
    omega (
      arith,
      pushed_le network most 0 k h,
      sym (add-mul k (bound - k) most),
      ap (λ n. n * most) all,
    )

replicate-cons :
    (n : ℕ) (v : List ℕ) (rest : List (List ℕ))
    → replicate n v ++ (v ∷ rest) ≡ v ∷ (replicate n v ++ rest)
replicate-cons zero v rest = refl
replicate-cons (suc n) v rest = ap (λ l. v ∷ l) (replicate-cons n v rest)

replicate-more :
    (m n : ℕ) (v : List ℕ) (rest : List (List ℕ))
    → replicate m v ++ (replicate n v ++ rest) ≡ replicate (n + m) v ++ rest
replicate-more m zero v rest = let e : m ≡ 0 + m = omega arith in ap (λ k. replicate k v ++ rest) e
replicate-more m (suc n) v rest =
    let e : suc (n + m) ≡ suc n + m = omega arith in
    replicate-cons m v (replicate n v ++ rest)
    ∙ ap (λ l. v ∷ l) (replicate-more m n v rest)
    ∙ ap (λ k. replicate k v ++ rest) e

module _ {S : Type 0} (server : ListServer S) (p : RedisProducer) (payload : List ℕ) where
  push_times-replicate :
      (n : ℕ) (s : S)
      → server.contents p.key (push_times server.lpush p.key payload n s)
        ≡ replicate n payload ++ server.contents p.key s
  unfolding push_times
  push_times-replicate zero s = refl
  push_times-replicate (suc n) s =
      push_times-replicate n (server.lpush p.key payload s)
      ∙ ap (λ l. replicate n payload ++ l) (server.contents-lpush p.key payload s)
      ∙ replicate-cons n payload (server.contents p.key s)

  send-pushes :
      (network : Network) (s : S)
      → server.contents p.key (send server.lpush (ok payload) network p s).1
        ≡ replicate (pushes network) payload ++ server.contents p.key s
  unfolding send
  send-pushes (Network.answers n) s = push_times-replicate (suc n) s
  send-pushes (Network.lost n e) s = push_times-replicate n s

  attempted-contents :
      (network : ℕ → Network) (i k : ℕ) (s : S)
      → server.contents p.key (attempted server p payload network i k s)
        ≡ replicate (pushed network i k) payload ++ server.contents p.key s
  unfolding attempted
  attempted-contents network i zero s = refl
  attempted-contents network i (suc k) s =
      let t = (send server.lpush (ok payload) (network i) p s).1 in
      attempted-contents network (suc i) k t
      ∙ ap (λ l. replicate (pushed network (suc i) k) payload ++ l) (send-pushes (network i) s)
      ∙ replicate-more (pushed network (suc i) k) (pushes (network i)) payload
          (server.contents p.key s)

  answered :
      (network : Network) (s : S)
      → (send server.lpush (ok payload) network p s).0 ≡ none
      → 1 ≤ pushes network
  unfolding send
  answered (Network.answers n) s h = omega arith
  answered (Network.lost n e) s h = cc

-- Where `SendWithRetry` over the Redis producer returns nil, with `maxRetries` at zero or above and
-- whatever the network does to each attempt, the event was pushed at least once, in front of what the
-- list held, and at most `maxRetries` + 1 times as often as one call of the client pushes it at most.
pub redis_at_least_once :
    {S : Type 0} (server : ListServer S) (p : RedisProducer) (payload : List ℕ)
    (network : ℕ → Network) (interrupted : ℕ → Option GoError) (v max most : ℕ) (s : S)
    → ((i : ℕ) → pushes (network i) ≤ most)
    → (send_with_retry v (attempts server p payload network interrupted s) (pos max)).result ≡ none
    → let run = send_with_retry v (attempts server p payload network interrupted s) (pos max) in
      (n : ℕ) × (1 ≤ n)
      × (n ≤ (max + 1) * most)
      × (server.contents p.key (attempted server p payload network 0 run.sends s)
          ≡ replicate n payload ++ server.contents p.key s)
unfolding attempts
redis_at_least_once server p payload network interrupted v max most s bound h =
    let env = attempts server p payload network interrupted s in
    let a = send_with_retry-Account v env max in
    let good = answered server p payload (network a.last) s ((Ends-none a.ended).0 h) in
    let run = send_with_retry v env (pos max) in
    let n = pushed network 0 run.sends in
    (
      n,
      omega (
        arith,
        ap (pushed network 0) a.counted,
        pushed_last network 0 a.failed a.last a.placed good,
      ),
      pushed_below network most run.sends (max + 1) bound
          (omega (arith, a.counted, a.placed, a.in_range)),
      attempted-contents server p payload network 0 run.sends s,
    )
