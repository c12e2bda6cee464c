-- ===== src/Queue/Producer/KafkaProducer.antt =====
-- `KafkaProducer` (queue/producer/kafka.go), over the writer of the Kafka client.
use cdc_trigger.Prelude.{ℕ, String, Bool, true, false, Option, some, List}
use cdc_trigger.Errors.{GoError, Result, ok, err}

pub record KafkaConfig : Type 0 where
  pub brokers : List String
  pub topic : String

pub data Balancer : Type 0 where
  least_bytes : Balancer

pub data RequiredAcks : Type 0 where
  require_all : RequiredAcks

-- The fields of `kafka.Writer` that `NewKafkaProducer` sets.
pub record Writer : Type 0 where
  pub addr : List String
  pub topic : String
  pub balancer : Balancer
  pub required_acks : RequiredAcks
  pub async : Bool
  pub allow_auto_topic_creation : Bool
  pub batch_size : ℕ

unfoldable pub new_kafka_producer : KafkaConfig → Writer
new_kafka_producer cfg = record {
  addr = cfg.brokers;
  topic = cfg.topic;
  balancer = least_bytes;
  required_acks = require_all;
  async = false;
  allow_auto_topic_creation = true;
  batch_size = 1;
}

-- Thirty seconds, in nanoseconds.
abbrev pub send_timeout : ℕ
send_timeout = 30_000_000_000

-- `Send`, over what `json.Marshal` gives for the event and what `WriteMessages` of a writer reports
-- for a payload under a timeout.
unfoldable pub send :
    (Writer → ℕ → List ℕ → Option GoError) → Result (List ℕ) → Writer → Option GoError
send write_messages marshalled writer = elim marshalled [
  | err e ↦ some e
  | ok event_value ↦ write_messages writer send_timeout event_value
]
