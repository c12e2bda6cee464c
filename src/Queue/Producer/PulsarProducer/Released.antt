-- ===== src/Queue/Producer/PulsarProducer/Released.antt =====
-- What queue/producer/pulsar.go opens it closes: over any calls of `Send` and `Close`.
use cdc_trigger.Prelude.{
  ℕ, ◌≡◌, refl, ◌∙◌, inl, inr, false, Option, none, some, List, [], ◌∷◌, ◌++◌, arith, ==_iff,
  if◌then◌else◌, Bool-cases, Option-cases,
}
use cdc_trigger.Errors.{GoError, Result, ok, err, Result-cases}
use cdc_trigger.Queue.Ledger.{Effect, replay, one, SendCalls, SendRun}
use cdc_trigger.Queue.Ledger.Replay.{replay-append, after, after-replay}
use cdc_trigger.Queue.Producer.PulsarProducer.{
  PulsarConfig, Pulsar, dial, PulsarProducer, new_pulsar_producer, close_option, reconnect, resend,
  send_on, send, close,
}

-- What a producer keeps open: the producer of the library and, under it, the client.
abbrev pub held : PulsarProducer → List ℕ
held p = if p.closed then [] else one p.producer ++ one p.client

abbrev on_top : Result (ℕ × ℕ) → List ℕ → List ℕ
on_top (err e) open_ = open_
on_top (ok (client, producer)) open_ = producer ∷ client ∷ open_

dial-replay :
    (cfg : PulsarConfig) (pulsar : Pulsar) (open_ : List ℕ)
    → replay (dial cfg pulsar).effects open_ ≡ some (on_top (dial cfg pulsar).connected open_)
unfolding dial
dial-replay cfg pulsar open_ = ground (arith, λ (c : ℕ). ==_iff c c)

pub released-replay :
    (producer client : Option ℕ)
    → replay (close_option producer ++ close_option client) (one producer ++ one client) ≡ some []
released-replay none none = refl
released-replay none (some c) = ground (arith, ==_iff c c)
released-replay (some p) none = ground (arith, ==_iff p p)
released-replay (some p) (some c) = ground (arith, ==_iff p p, ==_iff c c)

reconnect-replay :
    (p : PulsarProducer) (pulsar : Pulsar)
    → let r = reconnect p pulsar in replay r.effects (held p) ≡ some (held r.producer)
unfolding reconnect
reconnect-replay p pulsar =
    let d = dial p.cfg pulsar in
    let released = close_option p.producer ++ close_option p.client in
    let both =
      replay-append released d.effects (one p.producer ++ one p.client) []
        (released-replay p.producer p.client)
      ∙ dial-replay p.cfg pulsar [] in
    elim (Bool-cases p.closed) [
      | inl gone ↦ ground (arith, gone)
      | inr live ↦ elim (Result-cases d.connected) [
        | inl (e, down) ↦ ground (arith, live, down, both)
        | inr ((c, n), up) ↦ ground (arith, live, up, both)
      ]
    ]

close-replay :
    (p : PulsarProducer) → replay (close p).effects (held p) ≡ some (held (close p).producer)
unfolding close
close-replay p = ground (arith, released-replay p.producer p.client)

-- The effects of a call and the producer after it, over the effects before the call.
abbrev Balances : List ℕ → SendRun PulsarProducer → Type 0
Balances open_ r = replay r.effects open_ ≡ some (held r.producer)

resend-Balances :
    (calls : SendCalls Pulsar) (p : PulsarProducer) (before : List Effect) (n : ℕ) (e : GoError)
    (open_ : List ℕ)
    → replay before open_ ≡ some (held p)
    → Balances open_ (resend calls p before n e)
unfolding resend
resend-Balances calls p before n e open_ h =
    let r = reconnect p calls.second_dial in
    let both =
      replay-append before r.effects open_ (held p) h ∙ reconnect-replay p calls.second_dial in
    ground (arith, both)

send_on-Balances :
    (calls : SendCalls Pulsar) (p : PulsarProducer) (before : List Effect) (open_ : List ℕ)
    → replay before open_ ≡ some (held p)
    → Balances open_ (send_on calls p before)
unfolding send_on
send_on-Balances calls p before open_ h = elim (Option-cases p.producer) [
  | inl missing ↦ ground (arith, missing, h)
  | inr (n, there) ↦ elim (Option-cases calls.first_send) [
    | inl sent ↦ ground (arith, there, sent, h)
    | inr (e, failed) ↦ ground (arith, there, failed, resend-Balances calls p before n e open_ h)
  ]
]

send-Balances : (calls : SendCalls Pulsar) (p : PulsarProducer) → Balances (held p) (send calls p)
unfolding send
send-Balances calls p =
    let r = reconnect p calls.first_dial in
    let up = reconnect-replay p calls.first_dial in
    ground (
      arith,
      up,
      send_on-Balances calls p [] (held p) refl,
      send_on-Balances calls r.producer r.effects (held p) up,
    )

-- The calls that the holder of a producer makes.
pub data Call : Type 0 where
  sends : SendCalls Pulsar → Call
  closes_it : Call

-- The producer after a call, and what the call opened and closed.
abbrev pub call : Call → PulsarProducer → PulsarProducer × List Effect
call (sends calls) p = let r = send calls p in (r.producer, r.effects)
call closes_it p = let r = close p in (r.producer, r.effects)

call-replay :
    (c : Call) (p : PulsarProducer) → replay (call c p).1 (held p) ≡ some (held (call c p).0)
call-replay (sends calls) p = send-Balances calls p
call-replay closes_it p = close-replay p

-- `NewPulsarProducer`, and then these calls where it made one.
abbrev pub session : PulsarConfig → Pulsar → List Call → Result PulsarProducer × List Effect
session cfg pulsar calls =
    let (made, opened) = new_pulsar_producer cfg pulsar in
    elim made [
      | err e ↦ (err e, opened)
      | ok p ↦ let (q, effects) = after call calls p in (ok q, opened ++ effects)
    ]

abbrev pub kept_open : Result PulsarProducer → List ℕ
kept_open (err e) = []
kept_open (ok p) = held p

-- From `NewPulsarProducer` on, over any calls of `Send` and `Close` and whatever the library answers
-- them: what is closed is always the newest of what is open, so nothing is closed twice and a
-- producer of the library goes before its client; and what is open at the end is the one producer
-- and its client that a live `PulsarProducer` holds, and nothing where it was closed or not made.
pub pulsar_session-replay :
    (cfg : PulsarConfig) (pulsar : Pulsar) (calls : List Call)
    → let (ended, effects) = session cfg pulsar calls in replay effects [] ≡ some (kept_open ended)
unfolding new_pulsar_producer
pulsar_session-replay cfg pulsar calls =
    let d = dial cfg pulsar in
    let opened = dial-replay cfg pulsar [] in
    elim (Result-cases d.connected) [
      | inl (e, down) ↦ ground (arith, down, opened)
      | inr ((c, n), up) ↦
          let p : PulsarProducer = record {
            cfg = cfg;
            client = some c;
            producer = some n;
            closed = false;
          } in
          let start : replay d.effects [] ≡ some (held p) = ground (arith, up, opened) in
          let whole =
            replay-append d.effects (after call calls p).1 [] (held p) start
            ∙ after-replay call held (λ q. Unit {0}) (λ c q u. (u, call-replay c q)) calls p tt in
          ground (arith, up, whole)
    ]
