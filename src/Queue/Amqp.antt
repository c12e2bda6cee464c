-- ===== src/Queue/Amqp.antt =====
-- What queue/producer/rabbit.go and queue/consumer/rabbit.go ask of the AMQP client while they dial:
-- the calls with the arguments that the code chooses, and the release of what was opened.

use cdc_trigger.Prelude.{ℕ, String, Bool, Option, none, some, List, [], ◌∷◌}
use cdc_trigger.Errors.{Value, GoError, wrapf}

pub data AmqpCall : Type 0 where
  dial_server : String → AmqpCall
  open_channel : AmqpCall
  -- name, kind, durable, auto-delete
  exchange_declare : String → String → Bool → Bool → AmqpCall
  -- name, durable, auto-delete, exclusive, no-wait
  queue_declare : String → Bool → Bool → Bool → Bool → AmqpCall
  -- queue, routing key, exchange, no-wait
  queue_bind : String → String → String → Bool → AmqpCall
  confirm_mode : AmqpCall
  notify_close notify_return notify_publish : AmqpCall
  qos : ℕ → AmqpCall
  -- queue, tag, auto-ack, exclusive, no-wait
  consume_queue : String → String → Bool → Bool → Bool → AmqpCall
  close_channel close_connection : AmqpCall

-- What the client reports for each call of one dialling, none of which is made twice.
abbrev pub Amqp : Type 0
Amqp = AmqpCall → Option GoError

-- The calls made, in order, and the error of `dial`.
pub record Dialled : Type 0 where
  pub calls : List AmqpCall
  pub result : Option GoError

-- One call, whose failure is wrapped, after the release of what was opened; else the rest.
abbrev pub attempt : Amqp → AmqpCall → List AmqpCall → String → List Value → Dialled → Dialled
attempt amqp call release format args rest = elim (amqp call) [
  | none ↦ record { calls = call ∷ rest.calls; result = rest.result }
  | some e ↦ record { calls = call ∷ release; result = some (wrapf format args e) }
]

-- `close` of a client or a subscription that has its channel.
abbrev pub close_both : List AmqpCall
close_both = close_channel ∷ close_connection ∷ []

abbrev pub done : List AmqpCall → Dialled
done calls = record { calls = calls; result = none }

-- The fields that both configurations have and that `dial` reads.
pub record Topology : Type 0 where
  pub url : String
  pub exchange : String
  pub exchange_type : String
  pub routing_key : String
  pub queue : String
  pub durable : Bool
  pub auto_delete : Bool
  pub exclusive : Bool
  pub no_wait : Bool
