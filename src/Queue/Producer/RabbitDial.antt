-- ===== src/Queue/Producer/RabbitDial.antt =====
-- `dial` and the configuration of queue/producer/rabbit.go.
use cdc_trigger.Prelude.{
  ℕ, Bool, false, not, ◌&&◌, none, some, List, [], ◌∷◌, str_eq, if◌then◌else◌,
}
use cdc_trigger.Errors.{str, errorf, Result, ok, err}
use cdc_trigger.Queue.Producer.RabbitProducer.{RabbitProducer}
use cdc_trigger.Queue.Amqp.{
  Topology, Amqp, AmqpCall, Dialled, attempt, done, close_both, dial_server, open_channel,
  exchange_declare, queue_declare, queue_bind, confirm_mode, notify_close, notify_return,
  notify_publish, close_connection,
}

-- `RabbitMQConfig`; nothing reads `AutoAck`.
pub record RabbitMqConfig : Type 0 where
  pub topology : Topology
  pub auto_ack : Bool

unfoldable pub normalize_rabbit_config : RabbitMqConfig → RabbitMqConfig
normalize_rabbit_config cfg =
    let t = cfg.topology in
    record cfg {
      topology = record t {
        exchange_type = if str_eq t.exchange_type "" then "direct" else t.exchange_type;
        routing_key = if str_eq t.routing_key "" then t.queue else t.routing_key;
      };
    }

-- `dial`, once its channel is there: from the declarations on.
unfoldable pub declare_and_confirm : Amqp → Topology → Dialled
declare_and_confirm amqp t =
    let confirmed =
      attempt amqp confirm_mode close_both "failed to put the channel in confirm mode: %w" []
        (done (notify_close ∷ notify_return ∷ notify_publish ∷ [])) in
    let bound =
      if not (str_eq t.exchange "")
      then attempt amqp (queue_bind t.queue t.routing_key t.exchange t.no_wait) close_both
          "failed to bind the queue %q to the exchange %q: %w" (str t.queue ∷ str t.exchange ∷ [])
          confirmed
      else confirmed in
    let queued =
      attempt amqp (queue_declare t.queue t.durable t.auto_delete t.exclusive t.no_wait) close_both
        "failed to declare the queue %q: %w" (str t.queue ∷ []) bound in
    if not (str_eq t.exchange "")
    then attempt amqp (exchange_declare t.exchange t.exchange_type t.durable t.auto_delete)
        close_both "failed to declare the exchange %q: %w" (str t.exchange ∷ []) queued
    else queued

unfoldable pub dial : Amqp → RabbitMqConfig → Dialled
unfolding declare_and_confirm
dial amqp cfg =
    let t = cfg.topology in
    if not (str_eq t.exchange "") && str_eq t.exchange_type "headers"
    then record {
      calls = [];
      result = some (
          errorf
            "a %q exchange cannot be used as a producer: the queue is bound with the routing key %q, while a headers exchange matches on message headers (use direct, fanout or topic)"
            (str t.exchange_type ∷ str t.routing_key ∷ []));
    }
    else attempt amqp (dial_server t.url) [] "failed to connect to RabbitMQ: %w" [] (
        attempt amqp open_channel (close_connection ∷ []) "failed to open a channel: %w" []
          (declare_and_confirm amqp t))

-- `NewRabbitMQProducer`, whose client is named by a number: the configuration that it keeps, the
-- producer, and the AMQP calls.
unfoldable pub new_rabbit_mq_producer :
    Amqp → ℕ → RabbitMqConfig → Result (RabbitMqConfig × RabbitProducer) × List AmqpCall
unfolding normalize_rabbit_config dial
new_rabbit_mq_producer amqp n cfg =
    let kept = normalize_rabbit_config cfg in
    let d = dial amqp kept in
    elim d.result [
      | some e ↦ (err e, d.calls)
      | none ↦ (ok (kept, record { client = some n; closed = false }), d.calls)
    ]

pub data DeliveryMode : Type 0 where
  persistent transient : DeliveryMode

unfoldable pub delivery_mode : Bool → DeliveryMode
delivery_mode durable = if durable then persistent else transient
