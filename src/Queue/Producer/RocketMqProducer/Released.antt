-- ===== src/Queue/Producer/RocketMqProducer/Released.antt =====
-- What queue/producer/rocket.go opens it closes: over any calls of `Send` and `Close`.
use cdc_trigger.Prelude.{
  ℕ, ◌≡◌, refl, ◌∙◌, inl, inr, false, Option, none, some, List, [], ◌∷◌, ◌++◌, arith, ==_iff,
  if◌then◌else◌, Bool-cases, Option-cases,
}
use cdc_trigger.Errors.{GoError, Result, ok, err, Result-cases}
use cdc_trigger.Queue.Ledger.{Effect, replay, one, SendCalls, SendRun}
use cdc_trigger.Queue.Ledger.Replay.{replay-append, after, after-replay}
use cdc_trigger.Queue.Producer.RocketMqProducer.{
  RocketMqConfig, RocketMq, RocketMqProducer, new_rocket_mq_producer, shut, ProducerOption,
  build_options, create_and_start_producer, reconnect, resend, send_on, send, close,
}

-- What a producer keeps open.
abbrev pub held : RocketMqProducer → List ℕ
held r = if r.closed then [] else one r.producer

abbrev on_top : Result ℕ → List ℕ → List ℕ
on_top (err e) open_ = open_
on_top (ok n) open_ = n ∷ open_

create-replay :
    (options : List ProducerOption) (rocket : RocketMq) (open_ : List ℕ)
    → let (started, effects) = create_and_start_producer options rocket in
      replay effects open_ ≡ some (on_top started open_)
unfolding create_and_start_producer
create-replay options rocket open_ = ground (arith, λ (n : ℕ). ==_iff n n)

shut-replay : (producer : Option ℕ) → replay (shut producer) (one producer) ≡ some []
shut-replay none = refl
shut-replay (some n) = ground (arith, ==_iff n n)

reconnect-replay :
    (r : RocketMqProducer) (rocket : RocketMq)
    → let c = reconnect r rocket in replay c.effects (held r) ≡ some (held c.producer)
unfolding reconnect
reconnect-replay r rocket =
    let made = create_and_start_producer r.options rocket in
    let both =
      replay-append (shut r.producer) made.1 (one r.producer) [] (shut-replay r.producer)
      ∙ create-replay r.options rocket [] in
    elim (Bool-cases r.closed) [
      | inl gone ↦ ground (arith, gone)
      | inr live ↦ elim (Result-cases made.0) [
        | inl (e, down) ↦ ground (arith, live, down, both)
        | inr (n, up) ↦ ground (arith, live, up, both)
      ]
    ]

close-replay :
    (r : RocketMqProducer) (rocket : RocketMq)
    → replay (close r rocket).effects (held r) ≡ some (held (close r rocket).producer)
unfolding close
close-replay r rocket = ground (arith, shut-replay r.producer)

-- The effects of a call and the producer after it, over the effects before the call.
abbrev Balances : List ℕ → SendRun RocketMqProducer → Type 0
Balances open_ r = replay r.effects open_ ≡ some (held r.producer)

resend-Balances :
    (calls : SendCalls RocketMq) (p : RocketMqProducer) (before : List Effect) (n : ℕ) (e : GoError)
    (open_ : List ℕ)
    → replay before open_ ≡ some (held p)
    → Balances open_ (resend calls p before n e)
unfolding resend
resend-Balances calls p before n e open_ h =
    let r = reconnect p calls.second_dial in
    let both =
      replay-append before r.effects open_ (held p) h ∙ reconnect-replay p calls.second_dial in
    ground (arith, both)

send_on-Balances :
    (calls : SendCalls RocketMq) (p : RocketMqProducer) (before : List Effect) (open_ : List ℕ)
    → replay before open_ ≡ some (held p)
    → Balances open_ (send_on calls p before)
unfolding send_on
send_on-Balances calls p before open_ h = elim (Option-cases p.producer) [
  | inl missing ↦ ground (arith, missing, h)
  | inr (n, there) ↦ elim (Option-cases calls.first_send) [
    | inl sent ↦ ground (arith, there, sent, h)
    | inr (e, failed) ↦ ground (arith, there, failed, resend-Balances calls p before n e open_ h)
  ]
]

send-Balances :
    (calls : SendCalls RocketMq) (p : RocketMqProducer) → Balances (held p) (send calls p)
unfolding send
send-Balances calls p =
    let r = reconnect p calls.first_dial in
    let up = reconnect-replay p calls.first_dial in
    ground (
      arith,
      up,
      send_on-Balances calls p [] (held p) refl,
      send_on-Balances calls r.producer r.effects (held p) up,
    )

-- The calls that the holder of a producer makes.
pub data Call : Type 0 where
  sends : SendCalls RocketMq → Call
  closes_it : RocketMq → Call

-- The producer after a call, and what the call opened and closed.
abbrev pub call : Call → RocketMqProducer → RocketMqProducer × List Effect
call (sends calls) p = let r = send calls p in (r.producer, r.effects)
call (closes_it rocket) p = let r = close p rocket in (r.producer, r.effects)

call-replay :
    (c : Call) (p : RocketMqProducer) → replay (call c p).1 (held p) ≡ some (held (call c p).0)
call-replay (sends calls) p = send-Balances calls p
call-replay (closes_it rocket) p = close-replay p rocket

-- `NewRocketMQProducer`, and then these calls where it made one.
abbrev pub session : RocketMqConfig → RocketMq → List Call → Result RocketMqProducer × List Effect
session cfg rocket calls =
    let (made, opened) = new_rocket_mq_producer cfg rocket in
    elim made [
      | err e ↦ (err e, opened)
      | ok p ↦ let (q, effects) = after call calls p in (ok q, opened ++ effects)
    ]

abbrev pub kept_open : Result RocketMqProducer → List ℕ
kept_open (err e) = []
kept_open (ok p) = held p

-- From `NewRocketMQProducer` on, over any calls of `Send` and `Close` and whatever the library
-- answers them: a producer of the library is shut down at most once, also one that did not start,
-- and before the next one is made; and what is open at the end is the one that a live
-- `RocketMQProducer` holds, and nothing where it was closed or not made.
pub rocket_session-replay :
    (cfg : RocketMqConfig) (rocket : RocketMq) (calls : List Call)
    → let (ended, effects) = session cfg rocket calls in replay effects [] ≡ some (kept_open ended)
unfolding new_rocket_mq_producer
rocket_session-replay cfg rocket calls =
    let options = build_options cfg in
    let made = create_and_start_producer options rocket in
    let opened = create-replay options rocket [] in
    elim (Result-cases made.0) [
      | inl (e, down) ↦ ground (arith, down, opened)
      | inr (n, up) ↦
          let r : RocketMqProducer = record {
            cfg = cfg;
            options = options;
            producer = some n;
            closed = false;
          } in
          let start : replay made.1 [] ≡ some (held r) = ground (arith, up, opened) in
          let whole =
            replay-append made.1 (after call calls r).1 [] (held r) start
            ∙ after-replay call held (λ q. Unit {0}) (λ c q u. (u, call-replay c q)) calls r tt in
          ground (arith, up, whole)
    ]
