-- ===== src/Queue/Consumer/Pulsar/PulsarDial.antt =====
-- `dial` of queue/consumer/pulsar.go with its options, and what it opens and closes.
use cdc_trigger.Prelude.{
  ℕ, String, none, some, List, [], ◌∷◌, ◌++◌, ◌*◌, ◌%◌, ◌^◌, if◌then◌else◌, str_eq,
}
use cdc_trigger.Errors.{wrapf, str, Result, ok, err, ◌>>=◌}
use cdc_trigger.Queue.Ledger.{Effect, opens, closes}
use cdc_trigger.Queue.Producer.PulsarProducer.{ClientOptions, Dialled, close_option}
use cdc_trigger.Queue.Consumer.Pulsar.{
  PulsarConfig, SubscriptionType, InitialPosition, subscription_type, initial_position,
  PulsarConsumer, close,
}

-- `pulsar.ConsumerOptions`, with the delay in nanoseconds.
pub record ConsumerOptions : Type 0 where
  pub topic : String
  pub subscription_name : String
  pub type : SubscriptionType
  pub subscription_initial_position : InitialPosition
  pub nack_redelivery_delay : ℕ

-- The client library: what `NewClient` and `Subscribe` answer.
pub record Pulsar : Type 0 where
  pub new_client : ClientOptions → Result ℕ
  pub subscribe : ℕ → ConsumerOptions → Result ℕ

unfoldable pub client_options : PulsarConfig → ClientOptions
client_options cfg = record {
  url = cfg.url;
  operation_timeout = cfg.operation_timeout * 1_000_000_000 % 2 ^ 64;
  connection_timeout = cfg.connection_timeout * 1_000_000_000 % 2 ^ 64;
  authentication = if str_eq cfg.token "" then none else some cfg.token;
}

unfoldable pub consumer_options : (String → String) → PulsarConfig → Result ConsumerOptions
unfolding subscription_type initial_position
consumer_options fold cfg = do
  kind ← subscription_type fold cfg.subscription_type
  position ← initial_position fold cfg.subscription_initial_position
  ok (record {
    topic = cfg.topic;
    subscription_name = cfg.subscription;
    type = kind;
    subscription_initial_position = position;
    nack_redelivery_delay = cfg.nack_redelivery_delay * 1_000_000_000 % 2 ^ 64;
  })

unfoldable pub dial : (String → String) → PulsarConfig → Pulsar → Dialled
unfolding client_options consumer_options
dial fold cfg pulsar = elim (consumer_options fold cfg) [
  | err e ↦ record { connected = err e; effects = [] }
  | ok options ↦ elim (pulsar.new_client (client_options cfg)) [
    | err e ↦ record { connected = err e; effects = [] }
    | ok client ↦ elim (pulsar.subscribe client options) [
      | err e ↦ record {
        connected = err (wrapf "failed to subscribe to the topic %q: %w" (str cfg.topic ∷ []) e);
        effects = opens client ∷ closes client ∷ [];
      }
      | ok consumer ↦ record {
        connected = ok (client, consumer);
        effects = opens client ∷ opens consumer ∷ [];
      }
    ]
  ]
]

-- What a call of `subscription` opens and closes: it dials only for the first one.
unfoldable pub subscription_effects : PulsarConsumer → Dialled → List Effect
subscription_effects p dialled =
    if p.closed then [] else (elim p.consumer [ some c ↦ [] | none ↦ dialled.effects ])

-- What `Close` closes: the subscription, then the client.
unfoldable pub close_effects : PulsarConsumer → List Effect
unfolding close
close_effects p =
    let (q, consumer, client) = close p in close_option consumer ++ close_option client
