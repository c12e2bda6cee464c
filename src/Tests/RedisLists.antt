-- ===== src/Tests/RedisLists.antt =====
-- The Redis list between queue/producer/redis.go and queue/consumer/redis.go, on concrete inputs.
use cdc_trigger.Prelude.{
  ℕ, ◌≤◌, Bool, true, zero, suc, String, ◌≡◌, refl, Option, none, some, List, [], ◌∷◌, ◌++◌, map,
  snoc, reverse, arith, str_eq, eq_refl, ap, ◌∙◌, if◌then◌else◌,
}
use cdc_trigger.Errors.{external, ok, err}
use cdc_trigger.Queue.Consumer.{Unmarshal, Handler, process_message}
use cdc_trigger.Queue.Consumer.Redis.{RedisConfig, normalize_redis_config, consume}
use cdc_trigger.Queue.Producer.RedisProducer.{RedisProducer, Network}
use cdc_trigger.Queue.RedisQueue.{ListServer, Call, sends, turns, run, arrivals, ends, lost_replies}
use cdc_trigger.Queue.RedisQueue.Taken.{all_of, delivered, lost_count}
use cdc_trigger.Types.{EventData}
use cdc_trigger.Queue.RedisQueue.Fifo.{redis_fifo}
use cdc_trigger.Tests.Samples.{user_changed}

-- A server whose lists are a function of the key.
abbrev pub Lists : Type 0
Lists = String → List (List ℕ)

abbrev pub take_last : List (List ℕ) → Option (List ℕ) × List (List ℕ)
take_last [] = (none, [])
take_last (v ∷ vs) = elim (take_last vs).0 [
  | none ↦ (some v, [])
  | some last ↦ (some last, v ∷ (take_last vs).1)
]

abbrev pub update : String → List (List ℕ) → Lists → Lists
update key vs s = λ (other : String). if str_eq key other then vs else s other

abbrev pub pop : String → Lists → Option (List ℕ) × Lists
pop key s = elim (take_last (s key)).0 [
  | none ↦ (none, s)
  | some v ↦ (some v, update key (take_last (s key)).1 s)
]

pub take_last-snoc : (vs : List (List ℕ)) (v : List ℕ) → take_last (snoc vs v) ≡ (some v, vs)
take_last-snoc [] v = refl
take_last-snoc (u ∷ vs) v = ground (arith, take_last-snoc vs v)

pub update_self : (key : String) (vs : List (List ℕ)) (s : Lists) → update key vs s key ≡ vs
update_self key vs s = ground (arith, eq_refl key)

pub pop-empty : (key : String) (s : Lists) → s key ≡ [] → pop key s ≡ (none, s)
pop-empty key s e =
    let taken : take_last (s key) ≡ (none, []) = ap take_last e in ground (arith, taken)

pub pop-snoc :
    (key : String) (s : Lists) (rest : List (List ℕ)) (v : List ℕ)
    → s key ≡ snoc rest v
    → ((pop key s).0 ≡ some v) × ((pop key s).1 key ≡ rest)
pop-snoc key s rest v e =
    let taken : take_last (s key) ≡ (some v, rest) = ap take_last e ∙ take_last-snoc rest v in
    (ground (arith, taken), ground (arith, taken, eq_refl key))

abbrev pub memory : ListServer Lists
memory = record {
  contents = λ key s. s key;
  lpush = λ key v s. update key (v ∷ s key) s;
  brpop = pop;
  contents-lpush = λ key v s. update_self key (v ∷ s key) s;
  brpop-empty = pop-empty;
  brpop-snoc = pop-snoc;
}

abbrev pub plain : RedisProducer
plain = record { key = "cdc-trigger-events" }

abbrev pub unset : RedisConfig
unset = record { key = ""; timeout = 5 }

abbrev decodes : Unmarshal
decodes payload = ok user_changed

abbrev accepts : Handler
accepts event = none

-- Three events are sent, of which the second is pushed twice and reported to fail. One is read, the
-- next is lost with its reply, and then BRPOP fails.
abbrev traffic : List Call
traffic =
    sends (ok (1 ∷ [])) (Network.answers 0)
    ∷ turns 0 none
    ∷ sends (ok (2 ∷ [])) (Network.lost 2 (external 5))
    ∷ sends (ok (3 ∷ [])) (Network.answers 0)
    ∷ turns 1 none
    ∷ turns 0 (some (external 6))
    ∷ turns 0 none
    ∷ []

redis_fifo_example :
    let key = (normalize_redis_config unset).key in
    let (last, seen) = run memory plain key [] true traffic (λ (k : String). []) in
    (taken : List (Bool × List ℕ)) × (consume decodes (some accepts) seen ≡ record {
      handled = map (λ v. (v, process_message decodes accepts v)) (delivered taken);
      ended = ends traffic;
    })
    × (all_of taken ++ reverse (memory.contents key last) ≡ arrivals traffic)
    × (lost_count taken ≤ lost_replies traffic)
unfolding normalize_redis_config
redis_fifo_example =
    redis_fifo memory decodes accepts plain unset [] traffic (λ (k : String). []) refl refl

-- The first attempt pushes its value and is reported to fail, the second pushes nothing, and the
-- third pushes it twice and is answered.
abbrev pub flaky : ℕ → Network
flaky zero = Network.lost 1 (external 5)
flaky (suc zero) = Network.lost 0 (external 5)
flaky (suc (suc i)) = Network.answers 1

-- An encoding that keeps the time of an event alone.
abbrev pub by_time : EventData → List ℕ
by_time event = event.time ∷ []

abbrev pub at_time : EventData → EventData
at_time event = record user_changed { time = event.time }

abbrev pub reads_time : Unmarshal
reads_time [] = err (external 1)
reads_time (t ∷ rest) = ok (record user_changed { time = t })
