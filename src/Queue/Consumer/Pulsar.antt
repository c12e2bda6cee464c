-- ===== src/Queue/Consumer/Pulsar.antt =====
-- queue/consumer/pulsar.go: the loop that receives messages and answers them, and the life of the
-- subscription, which `Close` must release.
pub mod Release
pub mod PulsarDial
pub mod Sessions
use cdc_trigger.Prelude.{
  ℕ, String, Bool, true, false, Option, none, some, List, [], ◌∷◌, str_eq, if◌then◌else◌, ◌||◌,
}
use cdc_trigger.Errors.{
  GoError, sentinel, topic_terminated, any_in, errorf, wrapf, str, Result, ok, err,
}
use cdc_trigger.Queue.Consumer.{
  Handler, Unmarshal, Disposition, ack_disposition, retry_disposition, process_message,
  err_nil_handler, Stopping, Ended, reading, returned,
}

pub data SubscriptionType : Type 0 where
  shared exclusive failover key_shared : SubscriptionType

pub data InitialPosition : Type 0 where
  earliest latest : InitialPosition

-- `fold` is `strings.ToLower(strings.TrimSpace(name))`.
unfoldable pub subscription_type : (String → String) → String → Result SubscriptionType
subscription_type fold name =
    let n = fold name in
    if str_eq n "" || str_eq n "shared"
    then ok shared
    else if str_eq n "exclusive"
    then ok exclusive
    else if str_eq n "failover"
    then ok failover
    else if str_eq n "key_shared" || str_eq n "keyshared"
    then ok key_shared
    else (err (
        errorf "unsupported subscription_type %q: use exclusive, shared, failover or key_shared"
          (str name ∷ [])))

unfoldable pub initial_position : (String → String) → String → Result InitialPosition
initial_position fold name =
    let n = fold name in
    if str_eq n "" || str_eq n "earliest"
    then ok earliest
    else if str_eq n "latest"
    then ok latest
    else (err (
        errorf "unsupported subscription_initial_position %q: use earliest or latest"
          (str name ∷ [])))

-- What `Receive` answers: a payload, with what an acknowledgement of it reports, or an error, with
-- the state of things when it is looked at.
pub data Received : Type 0 where
  message : List ℕ → Option GoError → Received
  receive_failed : GoError → Stopping → Received

pub data Answer : Type 0 where
  ack nack : List ℕ → Answer

pub record PulsarRun : Type 0 where
  pub answers : List Answer
  pub ended : Ended

abbrev is_terminated : GoError → Bool
is_terminated (sentinel topic_terminated) = true
is_terminated e = false

unfoldable pub after_receive_error : GoError → Stopping → Option GoError
after_receive_error e st = if st.is_closed then none else (elim st.ctx_err [
  | some c ↦ some c
  | none ↦
      if any_in is_terminated e then none else some (wrapf "failed to receive from Pulsar: %w" [] e)
])

-- The loop of `Consume`, over the answers of `Receive`.
unfoldable pub receive_loop : Unmarshal → Handler → List Received → PulsarRun
unfolding after_receive_error
receive_loop unmarshal handler [] = record { answers = []; ended = reading }
receive_loop unmarshal handler (receive_failed e st ∷ rest) = record {
  answers = [];
  ended = returned (after_receive_error e st);
}
receive_loop unmarshal handler (message payload ack_err ∷ rest) =
    let more = receive_loop unmarshal handler rest in
    elim (process_message unmarshal handler payload) [
      | retry_disposition ↦ record { answers = nack payload ∷ more.answers; ended = more.ended }
      | ack_disposition ↦ elim ack_err [
        | none ↦ record { answers = ack payload ∷ more.answers; ended = more.ended }
        | some e ↦ record {
          answers = ack payload ∷ [];
          ended = returned (some (wrapf "failed to acknowledge a message: %w" [] e));
        }
      ]
    ]

-- The consumer, with the subscriptions and clients named by numbers.
pub record PulsarConsumer : Type 0 where
  pub closed : Bool
  pub client : Option ℕ
  pub consumer : Option ℕ

abbrev pub no_subscription : PulsarConsumer
no_subscription = record { closed = false; client = none; consumer = none }

-- The times are 64-bit integers, in two's complement as words.
pub record PulsarConfig : Type 0 where
  pub url : String
  pub topic : String
  pub subscription : String
  pub subscription_type : String
  pub subscription_initial_position : String
  pub token : String
  pub operation_timeout : ℕ
  pub connection_timeout : ℕ
  pub nack_redelivery_delay : ℕ

-- `NewPulsarConsumer`: nothing is dialled yet.
unfoldable pub new_pulsar_consumer : (String → String) → PulsarConfig → Result PulsarConsumer
unfolding subscription_type initial_position
new_pulsar_consumer fold cfg =
    if str_eq cfg.topic ""
    then err (errorf "the Pulsar consumer needs a topic" [])
    else if str_eq cfg.subscription ""
    then err (errorf "the Pulsar consumer needs a subscription name" [])
    else (elim (subscription_type fold cfg.subscription_type) [
      | err e ↦ err e
      | ok kind ↦ elim (initial_position fold cfg.subscription_initial_position) [
        | err e ↦ err e
        | ok position ↦ ok no_subscription
      ]
    ])

-- `subscription`, over what `dial` reports, which is asked only for the first call.
unfoldable pub subscription : PulsarConsumer → Result (ℕ × ℕ) → PulsarConsumer × Result ℕ
subscription p dialled =
    if p.closed then (p, err (errorf "the Pulsar consumer is closed" [])) else (elim p.consumer [
      | some c ↦ (p, ok c)
      | none ↦ elim dialled [
        | err e ↦ (p, err e)
        | ok d ↦ (record { closed = p.closed; client = some d.0; consumer = some d.1 }, ok d.1)
      ]
    ])

-- `Close`: the consumer, and the subscription and the client that are closed.
unfoldable pub close : PulsarConsumer → PulsarConsumer × Option ℕ × Option ℕ
close p =
    if p.closed
    then (p, none, none)
    else (record { closed = true; client = none; consumer = none }, p.consumer, p.client)

-- `Consume`: the subscription first, then the loop. The flag is `isClosed` at the time a failed
-- subscription is looked at.
unfoldable pub consume :
    Unmarshal
    → Option Handler
    → PulsarConsumer
    → Result (ℕ × ℕ)
    → Bool
    → List Received
    → PulsarConsumer × PulsarRun
unfolding subscription receive_loop
consume unmarshal none p dialled closed_since received =
    (p, record { answers = []; ended = returned (some err_nil_handler) })
consume unmarshal (some handler) p dialled closed_since received =
    if p.closed
    then (p, record { answers = []; ended = returned none })
    else (let (q, got) = subscription p dialled in
        elim got [
          | ok c ↦ (q, receive_loop unmarshal handler received)
          | err e ↦
              (q, record { answers = []; ended = returned (if closed_since then none else some e) })
        ])
