-- ===== src/Queue/Consumer/RabbitMq.antt =====
-- queue/consumer/rabbit.go: the subscriptions that are dialled one after another, and the answer
-- that each delivery gets.
pub mod Answers
pub mod Dial
use cdc_trigger.Prelude.{
  ℕ, String, Bool, true, false, not, Option, none, some, List, [], ◌∷◌, ◌++◌, str_eq, if◌then◌else◌,
}
use cdc_trigger.Errors.{GoError, sentinel, deliveries_closed, any_in, wrapf}
use cdc_trigger.Queue.Amqp.{Topology, AmqpCall, close_both}
use cdc_trigger.Queue.Consumer.{
  Handler, Unmarshal, Disposition, ack_disposition, retry_disposition, process_message,
  err_nil_handler, Stopping, Ended, reading, returned,
}

-- `RabbitMQConfig`, with the fields that describe the topology in a record of their own.
pub record RabbitMqConfig : Type 0 where
  pub topology : Topology
  pub prefetch : ℕ
  pub drop_on_error : Bool
  pub consumer_tag : String

unfoldable pub normalize_rabbit_config : RabbitMqConfig → RabbitMqConfig
normalize_rabbit_config cfg =
    let t = cfg.topology in
    record cfg {
      topology = record t {
        exchange_type = if str_eq t.exchange_type "" then "direct" else t.exchange_type;
        routing_key = if str_eq t.routing_key "" then t.queue else t.routing_key;
      };
    }

-- A delivery, with what the client reports for the answer to it.
pub record Delivery : Type 0 where
  pub body : List ℕ
  pub ack_err : Option GoError
  pub nack_err : Option GoError

pub data Answer : Type 0 where
  ack : List ℕ → Answer
  nack : List ℕ → Bool → Answer

-- A subscription: what `next` delivers, and the error it ends with.
pub record Subscription : Type 0 where
  pub deliveries : List Delivery
  pub ends_with : GoError

-- The answers given, in order, and the error that the loop over the deliveries returned.
pub record Consumed : Type 0 where
  pub answers : List Answer
  pub failure : GoError

-- One turn of `Consume`: the state of things at its top, what the dialling reports, and the state
-- of things after the subscription ended.
pub record Session : Type 0 where
  pub at_top : Stopping
  pub dialled : Option GoError × Subscription
  pub at_end : Stopping

pub record RabbitRun : Type 0 where
  pub answers : List Answer
  pub ended : Ended

abbrev pub is_deliveries_closed : GoError → Bool
is_deliveries_closed (sentinel deliveries_closed) = true
is_deliveries_closed e = false

-- What `Consume` makes of the error of a subscription: `reading` dials again.
unfoldable pub after_subscription : GoError → Stopping → Ended
after_subscription e st = if st.is_closed then returned none else (elim st.ctx_err [
  | some c ↦ returned (some c)
  | none ↦ if any_in is_deliveries_closed e then reading else returned (some e)
])

module _ (unmarshal : Unmarshal) (config : RabbitMqConfig) (handler : Handler) where
  -- The loop of `consume`.
  unfoldable pub consume_deliveries : List Delivery → GoError → Consumed
  consume_deliveries [] e = record { answers = []; failure = e }
  consume_deliveries (d ∷ ds) e =
      let more = consume_deliveries ds e in
      elim (process_message unmarshal handler d.body) [
        | retry_disposition ↦
            let a = nack d.body (not config.drop_on_error) in
            elim d.nack_err [
              | none ↦ record { answers = a ∷ more.answers; failure = more.failure }
              | some x ↦ record {
                answers = a ∷ [];
                failure = wrapf "failed to leave a message for another attempt: %w" [] x;
              }
            ]
        | ack_disposition ↦
            let a = ack d.body in
            elim d.ack_err [
              | none ↦ record { answers = a ∷ more.answers; failure = more.failure }
              | some x ↦ record {
                answers = a ∷ [];
                failure = wrapf "failed to acknowledge a message: %w" [] x;
              }
            ]
      ]

  -- The loop of `Consume`, over what its turns see.
  unfoldable pub consume_sessions : List Session → RabbitRun
  unfolding consume_deliveries after_subscription
  consume_sessions [] = record { answers = []; ended = reading }
  consume_sessions (s ∷ rest) =
      let more = consume_sessions rest in
      if s.at_top.is_closed
      then record { answers = []; ended = returned none }
      else (elim s.at_top.ctx_err [
        | some c ↦ record { answers = []; ended = returned (some c) }
        | none ↦ elim s.dialled.0 [
          | some e ↦ record { answers = []; ended = returned (some e) }
          | none ↦
              let c = consume_deliveries s.dialled.1.deliveries s.dialled.1.ends_with in
              elim (after_subscription c.failure s.at_end) [
                | reading ↦ record { answers = c.answers ++ more.answers; ended = more.ended }
                | returned r ↦ record { answers = c.answers; ended = returned r }
              ]
        ]
      ])

unfoldable pub consume : Unmarshal → RabbitMqConfig → Option Handler → List Session → RabbitRun
unfolding consume_sessions
consume unmarshal config none sessions = record {
  answers = [];
  ended = returned (some err_nil_handler);
}
consume unmarshal config (some handler) sessions =
    consume_sessions unmarshal config handler sessions

-- `Close`, over the flag that `mu` guards: the flag it leaves, and how often it closes `done`.
unfoldable pub close : Bool → Bool × ℕ
close closed = if closed then (true, 0) else (true, 1)

-- `close` of a subscription, over whether its `closeOnce` was used: whether it is now, and the calls.
unfoldable pub close_subscription : Bool → Bool × List AmqpCall
close_subscription used = if used then (true, []) else (true, close_both)

-- What wakes the watchdog of `consume`: the context, `done`, or the end of `consume`.
pub data Wake : Type 0 where
  context_done done_closed stopped : Wake

-- Which of them can, once `consume` has ended.
abbrev pub can_wake : Stopping → Wake → Bool
can_wake st stopped = true
can_wake st done_closed = st.is_closed
can_wake st context_done = elim st.ctx_err [ none ↦ false | some e ↦ true ]

-- The goroutine that `consume` starts: whether the `closeOnce` of its subscription is used after it,
-- and the calls.
unfoldable pub watchdog : Wake → Bool → Bool × List AmqpCall
unfolding close_subscription
watchdog stopped used = (used, [])
watchdog context_done used = close_subscription used
watchdog done_closed used = close_subscription used
