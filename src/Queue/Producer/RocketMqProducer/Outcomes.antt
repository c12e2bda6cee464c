-- ===== src/Queue/Producer/RocketMqProducer/Outcomes.antt =====
-- When `Send` of queue/producer/rocket.go succeeds.
use cdc_trigger.Prelude.{
  ℕ, ◌≡◌, ◌≢◌, ◌↔◌, inl, inr, Bool, true, false, not, ◌&&◌, ◌||◌, none, some, List, [], arith,
  Option-cases,
}
use cdc_trigger.Errors.{GoError, Result-cases}
use cdc_trigger.Queue.Ledger.{is_none, is_ok, Effect, SendCalls, SendRun, panics, returns}
use cdc_trigger.Queue.Producer.RocketMqProducer.{
  ProducerOption, create_and_start_producer, RocketMq, RocketMqProducer, reconnect, resend, send_on,
  send,
}

-- A message is taken by the first producer, or by the one of the new connection.
abbrev pub is_taken : SendCalls RocketMq → List ProducerOption → Bool
is_taken calls options =
    is_none calls.first_send
    || is_ok (create_and_start_producer options calls.second_dial).0 && is_none calls.second_send

-- There is a producer, or a connection gives one.
abbrev pub is_ready : SendCalls RocketMq → RocketMqProducer → Bool
is_ready calls p =
    not (is_none p.producer) || is_ok (create_and_start_producer p.options calls.first_dial).0

-- Nothing but the tests of `Send`, in terms of what the library answers.
abbrev pub Delivers : SendRun RocketMqProducer → Bool → Type 0
Delivers r b = ((r.outcome ≡ returns none) ↔ (b ≡ true)) × (r.outcome ≢ panics)

resend-Delivers :
    (calls : SendCalls RocketMq) (p : RocketMqProducer) (before : List Effect) (n : ℕ) (e : GoError)
    → p.closed ≡ false
    → Delivers (resend calls p before n e) (
        is_ok (create_and_start_producer p.options calls.second_dial).0
        && is_none calls.second_send)
unfolding resend reconnect
resend-Delivers calls p before n e live =
    elim (Result-cases (create_and_start_producer p.options calls.second_dial).0) [
      | inl (x, down) ↦ (
        (λ h. absurd (ground (arith, live, down, h)), λ h. absurd (ground (arith, down, h))),
        λ h. ground (arith, live, down, h),
      )
      | inr (m, up) ↦ (
        (λ h. ground (arith, live, up, h), λ h. ground (arith, live, up, h)),
        λ h. ground (arith, live, up, h),
      )
    ]

send_on-Delivers :
    (calls : SendCalls RocketMq) (p : RocketMqProducer) (before : List Effect) (n : ℕ)
    → p.closed ≡ false
    → p.producer ≡ some n
    → Delivers (send_on calls p before) (is_taken calls p.options)
unfolding send_on
send_on-Delivers calls p before n live there = elim (Option-cases calls.first_send) [
  | inl sent ↦ ground (arith, there, sent)
  | inr (e, failed) ↦ ground (arith, there, failed, resend-Delivers calls p before n e live)
]

-- `Send` of an event that marshals, on a producer that is not closed, returns nil exactly when there
-- is a producer of the library or a connection that gives one, and it takes the message, or, where
-- it does not, a new connection is made whose producer takes it. It never calls a nil producer.
pub rocket_send-Delivers :
    (calls : SendCalls RocketMq) (p : RocketMqProducer)
    → calls.marshal ≡ none
    → p.closed ≡ false
    → Delivers (send calls p) (is_ready calls p && is_taken calls p.options)
unfolding send reconnect
rocket_send-Delivers calls p marshalled live = elim (Option-cases p.producer) [
  | inr (n, there) ↦
      ground (arith, marshalled, live, there, send_on-Delivers calls p [] n live there)
  | inl missing ↦ elim (Result-cases (create_and_start_producer p.options calls.first_dial).0) [
    | inl (x, down) ↦ (
      (
        λ h. absurd (ground (arith, marshalled, live, missing, down, h)),
        λ h. absurd (ground (arith, missing, down, h)),
      ),
      λ h. ground (arith, marshalled, live, missing, down, h),
    )
    | inr (m, up) ↦
        let r = reconnect p calls.first_dial in
        let open_ : r.producer.closed ≡ false = ground (arith, live, up) in
        let there : r.producer.producer ≡ some m = ground (arith, live, up) in
        let later = send_on-Delivers calls r.producer r.effects m open_ there in
        ground (arith, marshalled, live, missing, up, later)
  ]
]
