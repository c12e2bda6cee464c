-- ===== src/Tests/Producers.antt =====
-- The Pulsar and the RocketMQ producer and the Pulsar consumer, and events that no producer can
-- marshal, on concrete inputs.
use cdc_trigger.Prelude.{ℕ, String, ◌≡◌, refl, false, none, some, List, [], ◌∷◌, ◌&&◌}
use cdc_trigger.Errors.{GoError, any_in, json, unsupported_value, external, pos, ok, err}
use cdc_trigger.Queue.Ledger.{replay, SendCalls, returns}
use cdc_trigger.Queue.Producer.PulsarProducer.{PulsarConfig, Pulsar, PulsarProducer}
use cdc_trigger.Queue.Producer.PulsarProducer
use cdc_trigger.Queue.Producer.PulsarProducer.Released
use cdc_trigger.Queue.Producer.PulsarProducer.Outcomes
use cdc_trigger.Queue.Producer.RocketMqProducer.{
  RocketMqConfig, RocketMq, RocketMqProducer, build_options,
}
use cdc_trigger.Queue.Producer.RocketMqProducer
use cdc_trigger.Queue.Producer.RocketMqProducer.Released as RocketReleased
use cdc_trigger.Queue.Producer.RedisProducer.{RedisProducer, Network}
use cdc_trigger.Queue.Producer.RedisProducer
use cdc_trigger.Queue.Producer.KafkaProducer
use cdc_trigger.Queue.Producer.StdoutProducer
use cdc_trigger.Queue.Producer.RabbitProducer.{RabbitProducer}
use cdc_trigger.Queue.Producer.RabbitProducer
use cdc_trigger.Queue.Producer.Encoding.{StopsAtOnce, encoding_error_stops}
use cdc_trigger.Queue.Ledger.Replay.{after}
use cdc_trigger.Queue.Consumer.Pulsar as Consumer
use cdc_trigger.Queue.Consumer.Pulsar.Sessions

abbrev pulsar_config : PulsarConfig
pulsar_config = record {
  url = "pulsar://127.0.0.1:6650";
  topic = "cdc";
  token = "";
  operation_timeout = 30;
  connection_timeout = 30;
}

-- A broker that numbers its connections.
abbrev serves : ℕ → Pulsar
serves n = record { new_client = λ o. ok n; create_producer = λ c t. ok 100 }

abbrev refuses : Pulsar
refuses = record { new_client = λ o. ok 7; create_producer = λ c t. err (external 1) }

-- The first message fails on a broken connection, and the new one takes it.
abbrev broken : SendCalls Pulsar
broken = record {
  marshal = none;
  first_dial = refuses;
  first_send = some (external 2);
  second_dial = serves 2;
  second_send = none;
}

abbrev lost : SendCalls Pulsar
lost = record broken { second_dial = refuses }

abbrev pulsar_calls : List Released.Call
pulsar_calls =
    Released.sends broken ∷ Released.sends lost ∷ Released.sends lost ∷ Released.closes_it ∷ []

pulsar_session-replay_example :
    let (ended, effects) = Released.session pulsar_config (serves 1) pulsar_calls in
    replay effects [] ≡ some (Released.kept_open ended)
pulsar_session-replay_example = Released.pulsar_session-replay pulsar_config (serves 1) pulsar_calls

abbrev pulsar_live : PulsarProducer
pulsar_live = record { cfg = pulsar_config; client = some 1; producer = some 100; closed = false }

pulsar_send-Delivers_example :
    Outcomes.Delivers
      (PulsarProducer.send broken pulsar_live)
      (Outcomes.is_ready broken pulsar_live && Outcomes.is_taken broken pulsar_config)
pulsar_send-Delivers_example = Outcomes.pulsar_send-Delivers broken pulsar_live refl refl

abbrev rocket_config : RocketMqConfig
rocket_config = record {
  servers = "127.0.0.1:9876" ∷ [];
  topic = "cdc";
  group = "g";
  retry = pos 3;
  name_space = "";
  access_key = "k";
  secret_key = "";
}

abbrev starts : ℕ → RocketMq
starts n = record { new_producer = λ o. ok n; start = λ m. none; shutdown = λ m. none }

-- The producer is made but does not start.
abbrev stalls : RocketMq
stalls = record {
  new_producer = λ o. ok 9;
  start = λ m. some (external 1);
  shutdown = λ m. some (external 2);
}

abbrev rocket_broken : SendCalls RocketMq
rocket_broken = record {
  marshal = none;
  first_dial = starts 5;
  first_send = some (external 2);
  second_dial = stalls;
  second_send = none;
}

abbrev rocket_calls : List RocketReleased.Call
rocket_calls =
    RocketReleased.sends rocket_broken
    ∷ RocketReleased.sends rocket_broken
    ∷ RocketReleased.closes_it (starts 0)
    ∷ []

abbrev rocket_none : RocketMqProducer
rocket_none = record { cfg = rocket_config; options = []; producer = none; closed = false }

abbrev plain : RedisProducer
plain = record { key = "cdc-trigger-events" }

abbrev kafka_config : KafkaProducer.KafkaConfig
kafka_config = record { brokers = "127.0.0.1:9092" ∷ []; topic = "cdc" }

abbrev rabbit : RabbitProducer
rabbit = record { client = some 1; closed = false }

abbrev rabbit_calls : RabbitProducer.SendCalls
rabbit_calls = record {
  marshal = none;
  first_dial = ok 1;
  first_publish = none;
  health = none;
  second_dial = ok 2;
  third_dial = ok 3;
  second_publish = none;
}

encoding_error_stops_example :
    let bad : GoError = json unsupported_value in
    StopsAtOnce 0 3 (λ i. none) (StdoutProducer.send (err bad)).0
    × StopsAtOnce 0 3
        (λ i. none)
        (KafkaProducer.send
          (λ w t v. none)
          (err bad)
          (KafkaProducer.new_kafka_producer kafka_config))
    × StopsAtOnce 0 3
        (λ i. none)
        (RedisProducer.send (λ k v (s : ℕ). s) (err bad) (Network.answers 0) plain 0).0
    × StopsAtOnce 0 3
        (λ i. none)
        (RabbitProducer.send (record rabbit_calls { marshal = some bad }) rabbit).result
    × StopsAtOnce 0 3 (λ i. none) (some bad)
    × ((PulsarProducer.send (record broken { marshal = some bad }) pulsar_live).outcome
        ≡ returns (some bad))
    × ((RocketMqProducer.send (record rocket_broken { marshal = some bad }) rocket_none).outcome
        ≡ returns (some bad))
unfolding any_in
encoding_error_stops_example =
    encoding_error_stops 0 3 (λ i. none) (json unsupported_value) (λ w t v. none)
      (KafkaProducer.new_kafka_producer kafka_config) (λ k v (s : ℕ). s) (Network.answers 0) plain 0
      rabbit_calls rabbit broken pulsar_live rocket_broken rocket_none refl

abbrev pulsar_consumer : Consumer.PulsarConfig
pulsar_consumer = record {
  url = "pulsar://127.0.0.1:6650";
  topic = "cdc";
  subscription = "tasks";
  subscription_type = "shared";
  subscription_initial_position = "";
  token = "";
  operation_timeout = 30;
  connection_timeout = 30;
  nack_redelivery_delay = 0;
}

-- The broker refuses the subscription, then grants it, and the consumer is closed twice.
abbrev asked_twice : List (Sessions.Call (λ (name : String). name) pulsar_consumer)
asked_twice =
    Sessions.asks (record { new_client = λ o. ok 1; subscribe = λ c o. err (external 1) })
    ∷ Sessions.asks (record { new_client = λ o. ok 2; subscribe = λ c o. ok 20 })
    ∷ Sessions.closes_it
    ∷ Sessions.closes_it
    ∷ []

subscription_session-replay_example :
    let (p, effects) =
      after
        (Sessions.call (λ (name : String). name) pulsar_consumer)
        asked_twice
        Consumer.no_subscription in
    replay effects [] ≡ some (Sessions.held p)
subscription_session-replay_example =
    Sessions.subscription_session-replay (λ (name : String). name) pulsar_consumer asked_twice
