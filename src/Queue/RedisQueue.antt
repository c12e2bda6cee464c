-- ===== src/Queue/RedisQueue.antt =====
-- The Redis list between queue/producer/redis.go and queue/consumer/redis.go: what the two need of
-- the server, and their calls in any order.
pub mod Taken
pub mod Sides
pub mod Fifo
pub mod Retried
use cdc_trigger.Prelude.{
  ℕ, zero, suc, ◌+◌, String, ◌≡◌, Bool, true, false, Option, none, some, List, [], ◌∷◌, ◌++◌, snoc,
  replicate, if◌then◌else◌,
}
use cdc_trigger.Errors.{GoError, sentinel, redis_nil, any_in, wrapf, Result, ok, err}
use cdc_trigger.Queue.Consumer.{Stopping, Ended, reading, returned}
use cdc_trigger.Queue.Consumer.Redis.{Turn, is_redis_nil}
use cdc_trigger.Queue.Producer.{Attempts}
use cdc_trigger.Queue.Producer.RedisProducer.{Network, RedisProducer, send}

-- The server, with its lists from the head to the tail: LPUSH puts a value at the head, and BRPOP
-- takes the one at the tail, or none where the list stays empty until the timeout.
pub record ListServer (S : Type 0) : Type 0 where
  pub contents : String → S → List (List ℕ)
  pub lpush : String → List ℕ → S → S
  pub brpop : String → S → Option (List ℕ) × S
  pub contents-lpush :
      (key : String) (v : List ℕ) (s : S) → contents key (lpush key v s) ≡ v ∷ contents key s
  pub brpop-empty : (key : String) (s : S) → contents key s ≡ [] → brpop key s ≡ (none, s)
  pub brpop-snoc :
      (key : String) (s : S) (rest : List (List ℕ)) (v : List ℕ)
      → contents key s ≡ snoc rest v
      → ((brpop key s).0 ≡ some v) × (contents key (brpop key s).1 ≡ rest)

-- A call of either side: a `Send`, with what `json.Marshal` gives, or a turn of `Consume`. In a turn
-- the client sends BRPOP: after `n` requests that the server carried out without its reply
-- arriving, the reply to one more arrives, or an error is reported.
pub data Call : Type 0 where
  sends : Result (List ℕ) → Network → Call
  turns : ℕ → Option GoError → Call

abbrev running : Stopping
running = record { is_closed = false; ctx_err = none }

-- A turn in which nothing asks the consumer to stop, with BRPOP's answer: the key, as the bytes
-- `name`, and the value, or `redis.Nil`.
abbrev pub turn_of : List ℕ → Option (List ℕ) → Turn
turn_of name none = record {
  at_top = running;
  popped = ([], some (sentinel redis_nil));
  at_error = running;
}
turn_of name (some v) = record {
  at_top = running;
  popped = (name ∷ v ∷ [], none);
  at_error = running;
}

-- A turn in which BRPOP fails.
abbrev pub failed_turn : GoError → Turn
failed_turn e = record { at_top = running; popped = ([], some e); at_error = running }

module _ {S : Type 0} (server : ListServer S) (p : RedisProducer) (key : String)
    (name : List ℕ) where
  -- The server after it carried out `n` BRPOP commands whose replies are lost.
  unfoldable pub lose : ℕ → S → S
  lose zero s = s
  lose (suc n) s = lose n (server.brpop key s).1

  -- The server after these calls, and the turns that the consumer of the list `key` saw, which takes
  -- turns while it reads: an error other than `redis.Nil` ends it.
  unfoldable pub run : Bool → List Call → S → S × List Turn
  unfolding send lose
  run reads [] s = (s, [])
  run reads (sends marshalled network ∷ calls) s =
      run reads calls (send server.lpush marshalled network p s).1
  run false (turns n failed ∷ calls) s = run false calls s
  run true (turns n none ∷ calls) s =
      let (v, t) = server.brpop key (lose n s) in
      let (last, seen) = run true calls t in (last, turn_of name v ∷ seen)
  run true (turns n (some e) ∷ calls) s =
      let (last, seen) = run (any_in is_redis_nil e) calls (lose n s) in
      (last, failed_turn e ∷ seen)

-- How a consumer that reads ends, over these calls.
abbrev pub ends : List Call → Ended
ends [] = reading
ends (sends marshalled network ∷ calls) = ends calls
ends (turns n none ∷ calls) = ends calls
ends (turns n (some e) ∷ calls) =
    if any_in is_redis_nil e
    then ends calls
    else returned (some (wrapf "failed to read from Redis: %w" [] e))

-- How many replies to BRPOP are lost, at most.
abbrev pub lost_replies : List Call → ℕ
lost_replies [] = 0
lost_replies (sends marshalled network ∷ calls) = lost_replies calls
lost_replies (turns n failed ∷ calls) = n + lost_replies calls

-- How often a call of the client pushes its value.
abbrev pub pushes : Network → ℕ
pushes (Network.answers n) = suc n
pushes (Network.lost n e) = n

-- The payloads of the calls of `Send` that reach the server, in their order.
abbrev pub payloads : Result (List ℕ) → Network → List (List ℕ)
payloads (err e) network = []
payloads (ok v) network = replicate (pushes network) v

abbrev pub arrivals : List Call → List (List ℕ)
arrivals [] = []
arrivals (sends marshalled network ∷ calls) = payloads marshalled network ++ arrivals calls
arrivals (turns n failed ∷ calls) = arrivals calls

module _ {S : Type 0} (server : ListServer S) (p : RedisProducer) (payload : List ℕ) where
  -- The attempts of `SendWithRetry` at one event on this producer, over what the network does at
  -- each of them.
  unfoldable pub attempts : (ℕ → Network) → (ℕ → Option GoError) → S → Attempts
  unfolding send
  attempts network interrupted s = record {
    send = λ i. (send server.lpush (ok payload) (network i) p s).0;
    interrupted = interrupted;
  }

  -- The server after `k` attempts, from that of index `i` on.
  unfoldable pub attempted : (ℕ → Network) → ℕ → ℕ → S → S
  unfolding send
  attempted network i zero s = s
  attempted network i (suc k) s =
      attempted network (suc i) k (send server.lpush (ok payload) (network i) p s).1
