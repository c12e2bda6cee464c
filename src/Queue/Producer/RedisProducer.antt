-- ===== src/Queue/Producer/RedisProducer.antt =====
-- `RedisProducer` (queue/producer/redis.go), over the Redis server and what the network does.
use cdc_trigger.Prelude.{ℕ, zero, suc, String, Option, none, some, List, []}
use cdc_trigger.Errors.{GoError, wrapf, Result, ok, err}

-- What the producer reads of its `RedisConfig` after the client is made.
pub record RedisProducer : Type 0 where
  pub key : String

-- `NewRedisProducer`, over what the ping reports. The key is taken as it is.
unfoldable pub new_redis_producer : String → Option GoError → Result RedisProducer
new_redis_producer key ping = elim ping [
  | some e ↦ err (wrapf "failed to connect Redis: %w" [] e)
  | none ↦ ok (record { key = key })
]

-- How one call of the client goes, which may send its request several times: after `n` requests that
-- the server carried out without its reply arriving, the server carries out one more and answers, or
-- an error is reported.
pub data Network : Type 0 where
  answers : ℕ → Network
  lost : ℕ → GoError → Network

-- The server after it carried out `n` LPUSH commands of one value.
unfoldable pub push_times : {S : Type 0} → (String → List ℕ → S → S) → String → List ℕ → ℕ → S → S
push_times lpush key v zero s = s
push_times lpush key v (suc n) s = push_times lpush key v n (lpush key v s)

-- `Send`, over `LPUSH` of the server and what `json.Marshal` gives for the event: what it returns,
-- and the server after it.
unfoldable pub send :
    {S : Type 0}
    → (String → List ℕ → S → S)
    → Result (List ℕ)
    → Network
    → RedisProducer
    → S
    → Option GoError × S
unfolding push_times
send lpush marshalled network p s = elim marshalled [
  | err e ↦ (some e, s)
  | ok payload ↦ elim network [
    | answers n ↦ (none, push_times lpush p.key payload (suc n) s)
    | lost n e ↦
        (some (wrapf "failed to push event to Redis: %w" [] e), push_times lpush p.key payload n s)
  ]
]
