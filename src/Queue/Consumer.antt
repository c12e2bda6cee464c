-- ===== src/Queue/Consumer.antt =====
-- queue/consumer/consumer.go: the registry of consumers, and what is done with one message.
pub mod Kafka
pub mod Redis
pub mod RabbitMq
pub mod Pulsar
pub mod RocketMq
pub mod Closing
use cdc_trigger.Prelude.{
  ℕ, String, ◌≡◌, ◌↔◌, ◌⊎◌, inl, inr, refl, Bool, true, false, Option, none, some, List, [], ◌∷◌,
  arith,
}
use cdc_trigger.Errors.{GoError, sentinel, nil_handler, errorf, wrapf, str, Result, ok, err}
use cdc_trigger.Types.{EventData}

-- `Handler`, as what it reports for an event.
abbrev pub Handler : Type 0
Handler = EventData → Option GoError

-- The types that `init` registers, and any other name.
pub data ConsumerType : Type 0 where
  redis kafka rabbitmq rocketmq pulsar : ConsumerType
  unknown : String → ConsumerType

-- `NewConsumer`, over what the registered constructors report for the configuration.
unfoldable pub new_consumer : {A : Type 0} → (ConsumerType → Result A) → ConsumerType → Result A
new_consumer creators (unknown name) =
    err (errorf "consumer type %s is not registered" (str name ∷ []))
new_consumer creators redis = creators redis
new_consumer creators kafka = creators kafka
new_consumer creators rabbitmq = creators rabbitmq
new_consumer creators rocketmq = creators rocketmq
new_consumer creators pulsar = creators pulsar

abbrev pub err_nil_handler : GoError
err_nil_handler = sentinel nil_handler

pub data Disposition : Type 0 where
  ack_disposition retry_disposition : Disposition

pub Disposition-cases : (d : Disposition) → (d ≡ ack_disposition) ⊎ (d ≡ retry_disposition)
Disposition-cases ack_disposition = inl refl
Disposition-cases retry_disposition = inr refl

-- `json.Unmarshal` at `EventData`.
abbrev pub Unmarshal : Type 0
Unmarshal = List ℕ → Result EventData

unfoldable pub decode_event : Unmarshal → List ℕ → Result EventData
decode_event unmarshal payload = elim (unmarshal payload) [
  | err e ↦ err (wrapf "invalid event payload: %w" [] e)
  | ok event ↦ ok event
]

unfoldable pub process_message : Unmarshal → Handler → List ℕ → Disposition
unfolding decode_event
process_message unmarshal handler payload = elim (decode_event unmarshal payload) [
  | err e ↦ ack_disposition
  | ok event ↦ elim (handler event) [ none ↦ ack_disposition | some e ↦ retry_disposition ]
]

-- What `IsClosed` and the context say at the moment a read fails.
pub record Stopping : Type 0 where
  pub is_closed : Bool
  pub ctx_err : Option GoError

-- How a consumption stands when its script of answers is used up: still reading, or returned.
pub data Ended : Type 0 where
  reading : Ended
  returned : Option GoError → Ended
