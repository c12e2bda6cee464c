-- ===== src/Queue/Producer/Encoding.antt =====
-- An event that encoding/json cannot marshal, from the producers of queue/producer to the retries of
-- queue/producer/producer.go.
use cdc_trigger.Prelude.{ℕ, String, ◌≡◌, refl, true, Option, some, List, [], arith}
use cdc_trigger.Errors.{GoError, pos, any_in, wrapf, err}
use cdc_trigger.Queue.Ledger.{SendCalls, returns}
use cdc_trigger.Queue.Producer.{
  is_encoding_error, is_retriable, send_loop, send_with_retry, stop_with,
}
use cdc_trigger.Queue.Producer.RedisProducer.{Network, RedisProducer}
use cdc_trigger.Queue.Producer.RedisProducer
use cdc_trigger.Queue.Producer.KafkaProducer.{Writer}
use cdc_trigger.Queue.Producer.KafkaProducer
use cdc_trigger.Queue.Producer.StdoutProducer
use cdc_trigger.Queue.Producer.RabbitProducer.{RabbitProducer}
use cdc_trigger.Queue.Producer.RabbitProducer
use cdc_trigger.Queue.Producer.PulsarProducer.{Pulsar, PulsarProducer}
use cdc_trigger.Queue.Producer.PulsarProducer
use cdc_trigger.Queue.Producer.RocketMqProducer.{RocketMq, RocketMqProducer}
use cdc_trigger.Queue.Producer.RocketMqProducer

-- `SendWithRetry` over a producer whose every `Send` reports `r`: it sends once, waits for nothing
-- and returns `r`.
abbrev pub StopsAtOnce : ℕ → ℕ → (ℕ → Option GoError) → Option GoError → Type 0
StopsAtOnce v max interrupted r =
    send_with_retry v (record { send = λ i. r; interrupted = interrupted }) (pos max) ≡ stop_with r

not_retried :
    (v max : ℕ) (interrupted : ℕ → Option GoError) (e : GoError)
    → any_in is_encoding_error e ≡ true
    → StopsAtOnce v max interrupted (some e)
unfolding send_with_retry send_loop is_retriable
not_retried v max interrupted e h = rw h refl

-- An event whose marshalling fails with an error that `isRetriable` knows is sent once and never
-- again by `SendWithRetry`, with `maxRetries` at zero or above, whichever of the six producers it
-- drives and whatever state that is in: the error that `Send` reports, with or without a wrapping,
-- is not retriable.
pub encoding_error_stops :
    {S : Type 0} (v max : ℕ) (interrupted : ℕ → Option GoError) (e : GoError)
    (write : Writer → ℕ → List ℕ → Option GoError) (writer : Writer)
    (lpush : String → List ℕ → S → S) (network : Network) (redis : RedisProducer) (s : S)
    (rabbit_calls : RabbitProducer.SendCalls) (rabbit : RabbitProducer)
    (pulsar_calls : SendCalls Pulsar) (pulsar : PulsarProducer) (rocket_calls : SendCalls RocketMq)
    (rocket : RocketMqProducer)
    → any_in is_encoding_error e ≡ true
    → StopsAtOnce v max interrupted (StdoutProducer.send (err e)).0
      × StopsAtOnce v max interrupted (KafkaProducer.send write (err e) writer)
      × StopsAtOnce v max interrupted (RedisProducer.send lpush (err e) network redis s).0
      × StopsAtOnce v max interrupted
          (RabbitProducer.send (record rabbit_calls { marshal = some e }) rabbit).result
      × StopsAtOnce v max interrupted (some e)
      × ((PulsarProducer.send (record pulsar_calls { marshal = some e }) pulsar).outcome
          ≡ returns (some e))
      × ((RocketMqProducer.send (record rocket_calls { marshal = some e }) rocket).outcome
          ≡ returns (some e))
unfolding StdoutProducer.send KafkaProducer.send RedisProducer.send RabbitProducer.send
    PulsarProducer.send RocketMqProducer.send any_in
encoding_error_stops v max interrupted e write writer lpush network redis s rabbit_calls rabbit
      pulsar_calls pulsar rocket_calls rocket h =
    let wrapped : any_in is_encoding_error (wrapf "failed to marshal event: %w" [] e) ≡ true =
      ground (arith, h) in
    let plain = not_retried v max interrupted e h in
    let outer = not_retried v max interrupted (wrapf "failed to marshal event: %w" [] e) wrapped in
    (outer, plain, plain, outer, plain, refl, refl)
