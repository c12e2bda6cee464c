-- ===== src/Queue/Consumer/RabbitMq/Dial.antt =====
-- `dial` of queue/consumer/rabbit.go.
use cdc_trigger.Prelude.{false, some, [], ◌∷◌, str_eq, not, ◌&&◌, if◌then◌else◌}
use cdc_trigger.Errors.{str, int64, pos, errorf}
use cdc_trigger.Queue.Amqp.{
  Amqp, Dialled, attempt, done, close_both, dial_server, open_channel, exchange_declare,
  queue_declare, queue_bind, qos, consume_queue, close_connection,
}
use cdc_trigger.Queue.Consumer.RabbitMq.{RabbitMqConfig}

-- `dial`, once its channel is there: from the declarations on.
unfoldable pub declare_and_subscribe : Amqp → RabbitMqConfig → Dialled
declare_and_subscribe amqp cfg =
    let t = cfg.topology in
    let subscribed =
      attempt amqp (consume_queue t.queue cfg.consumer_tag false t.exclusive t.no_wait) close_both
        "failed to consume from the queue %q: %w" (str t.queue ∷ []) (done []) in
    let paced =
      attempt amqp (qos cfg.prefetch) close_both "failed to set the prefetch count to %d: %w"
        (int64 (pos cfg.prefetch) ∷ []) subscribed in
    let bound =
      if not (str_eq t.exchange "")
      then attempt amqp (queue_bind t.queue t.routing_key t.exchange t.no_wait) close_both
          "failed to bind the queue %q to the exchange %q: %w" (str t.queue ∷ str t.exchange ∷ [])
          paced
      else paced in
    let queued =
      attempt amqp (queue_declare t.queue t.durable t.auto_delete t.exclusive t.no_wait) close_both
        "failed to declare the queue %q: %w" (str t.queue ∷ []) bound in
    if not (str_eq t.exchange "")
    then attempt amqp (exchange_declare t.exchange t.exchange_type t.durable t.auto_delete)
        close_both "failed to declare the exchange %q: %w" (str t.exchange ∷ []) queued
    else queued

unfoldable pub dial : Amqp → RabbitMqConfig → Dialled
unfolding declare_and_subscribe
dial amqp cfg =
    let t = cfg.topology in
    if not (str_eq t.exchange "") && str_eq t.exchange_type "headers"
    then record {
      calls = [];
      result = some (
          errorf
            "a %q exchange cannot be used as a consumer: the queue is bound with the routing key %q, while a headers exchange matches on message headers (use direct, fanout or topic)"
            (str t.exchange_type ∷ str t.routing_key ∷ []));
    }
    else attempt amqp (dial_server t.url) [] "failed to connect to RabbitMQ: %w" [] (
        attempt amqp open_channel (close_connection ∷ []) "failed to open a channel: %w" []
          (declare_and_subscribe amqp cfg))
