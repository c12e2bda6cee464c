-- ===== src/Queue/Producer.antt =====
-- queue/producer/producer.go: the registry of producers, and the retry loop around `Send`.
pub mod Backoff
pub mod Retry
pub mod PulsarProducer
pub mod RocketMqProducer
pub mod RedisProducer
pub mod KafkaProducer
pub mod StdoutProducer
pub mod Encoding
pub mod RabbitDial
pub mod RabbitClient
pub mod RabbitDispatch
pub mod RabbitProducer
use Prim.Native.Nat.{◌^◌}
use cdc_trigger.Prelude.{
  ℕ, zero, suc, ◌+◌, ◌*◌, ◌%◌, String, Bool, true, false, not, ◌&&◌, ◌||◌, Option, none, some, List,
  [], ◌∷◌, ◌++◌, lookup, ltb, if◌then◌else◌,
}
use cdc_trigger.Errors.{
  ℤ, pos, negsuc, str, GoError, json, syntax, marshaler, unsupported_type, unsupported_value,
  sentinel, external, errorf, wrapf, wrap_and_print, joined, any_in, Result, ok, err,
}
use cdc_trigger.Types.{EventData}

-- `IProducer`: what `Send` and `Close` report.
pub record IProducer : Type 0 where
  pub send : EventData → Option GoError
  pub close : Option GoError

-- The types that `init` registers, and any other name.
pub data ProducerType : Type 0 where
  stdout redis kafka rabbitmq rocketmq pulsar : ProducerType
  unknown : String → ProducerType

-- `NewProducer`: the constructor that `init` registered under the type, with the configuration
-- already applied to each of them.
pub record ProducerCreators : Type 0 where
  pub new_stdout : Result IProducer
  pub new_redis : Result IProducer
  pub new_kafka : Result IProducer
  pub new_rabbitmq : Result IProducer
  pub new_rocketmq : Result IProducer
  pub new_pulsar : Result IProducer

unfoldable pub new_producer : ProducerCreators → ProducerType → Result IProducer
new_producer c stdout = c.new_stdout
new_producer c redis = c.new_redis
new_producer c kafka = c.new_kafka
new_producer c rabbitmq = c.new_rabbitmq
new_producer c rocketmq = c.new_rocketmq
new_producer c pulsar = c.new_pulsar
new_producer c (unknown name) = err (errorf "producer type %s is not registered" (str name ∷ []))

-- The error types that `errors.As` looks for.
abbrev pub is_encoding_error : GoError → Bool
is_encoding_error (json syntax) = true
is_encoding_error (json marshaler) = true
is_encoding_error (json unsupported_type) = true
is_encoding_error (json unsupported_value) = true
is_encoding_error e = false

unfoldable pub is_retriable : Option GoError → Bool
is_retriable none = false
is_retriable (some e) = not (any_in is_encoding_error e)

-- Durations are nanoseconds in 64-bit two's complement, as words.
abbrev pub two_seconds : ℕ
two_seconds = 2_000_000_000

-- The backoff after attempt `i`. `float_overflow` is what the conversion of a float that an int64
-- cannot hold gives, which Go leaves to the implementation.
unfoldable pub backoff : ℕ → ℕ → ℕ
backoff float_overflow i =
    let power = if ltb (i + 1) 63 then 2 ^ (i + 1) else float_overflow in
    let d = power * 100_000_000 % 2 ^ 64 in
    if ltb two_seconds d && ltb d (2 ^ 63) then two_seconds else d

-- What the loop meets: the report of each attempt, and `ctx.Err()` where the wait after that
-- attempt ends by the context and not by the timer.
pub record Attempts : Type 0 where
  pub send : ℕ → Option GoError
  pub interrupted : ℕ → Option GoError

-- What the loop returns, how often it sent, and the waits it began.
pub record Sent : Type 0 where
  pub result : Option GoError
  pub sends : ℕ
  pub waits : List ℕ

abbrev pub stop_with : Option GoError → Sent
stop_with e = record { result = e; sends = 1; waits = [] }

-- One more attempt, which failed, in front of the rest; `w` are the waits between.
abbrev pub after_failure : List ℕ → Sent → Sent
after_failure w s = record { result = s.result; sends = suc s.sends; waits = w ++ s.waits }

-- `i < maxRetries`
abbrev pub lt_int : ℕ → ℤ → Bool
lt_int i (pos n) = ltb i n
lt_int i (negsuc n) = false

-- The loop from index `i`, with `rounds` indices left up to `maxRetries`.
unfoldable pub send_loop : (ℕ → ℕ) → Attempts → ℤ → ℕ → ℕ → Option GoError → Sent
send_loop wait env max_retries zero i last_err = record { result = last_err; sends = 0; waits = [] }
send_loop wait env max_retries (suc rounds) i last_err =
    let rest = λ (e : GoError). send_loop wait env max_retries rounds (suc i) (some e) in
    elim (env.send i) [
      | none ↦ stop_with none
      | some e ↦
          if not (is_retriable (some e))
          then stop_with (some e)
          else if lt_int i max_retries
          then (elim (env.interrupted i) [
            | some c ↦ record { result = some c; sends = 1; waits = wait i ∷ [] }
            | none ↦ after_failure (wait i ∷ []) (rest e)
          ])
          else after_failure [] (rest e)
    ]

-- The indices 0 to `maxRetries`.
abbrev pub rounds_of : ℤ → ℕ
rounds_of (pos n) = suc n
rounds_of (negsuc n) = 0

unfoldable pub send_with_retry : ℕ → Attempts → ℤ → Sent
unfolding send_loop
send_with_retry float_overflow env max_retries =
    send_loop (backoff float_overflow) env max_retries (rounds_of max_retries) 0 none
