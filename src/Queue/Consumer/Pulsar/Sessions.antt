-- ===== src/Queue/Consumer/Pulsar/Sessions.antt =====
-- What queue/consumer/pulsar.go opens it closes, over any calls of `subscription` and `Close`.
use cdc_trigger.Prelude.{
  ℕ, String, ◌≡◌, refl, inl, inr, some, List, [], ◌∷◌, ◌++◌, arith, ==_iff, if◌then◌else◌,
  Bool-cases, Option-cases,
}
use cdc_trigger.Errors.{Result, ok, err, Result-cases}
use cdc_trigger.Queue.Ledger.{Effect, replay, one, is_none}
use cdc_trigger.Queue.Ledger.Replay.{after, after-replay}
use cdc_trigger.Queue.Producer.PulsarProducer.Released.{released-replay}
use cdc_trigger.Queue.Consumer.Pulsar.{
  PulsarConsumer, PulsarConfig, no_subscription, new_pulsar_consumer, subscription,
  subscription_type, initial_position, close,
}
use cdc_trigger.Queue.Consumer.Pulsar.PulsarDial.{
  Pulsar, ConsumerOptions, consumer_options, dial, subscription_effects, close_effects,
}

-- What a consumer keeps open: the subscription and, under it, the client, until it is closed.
abbrev pub held : PulsarConsumer → List ℕ
held p = if p.closed then [] else one p.consumer ++ one p.client

-- There is a client exactly where there is a subscription.
abbrev InOrder : PulsarConsumer → Type 0
InOrder p = is_none p.consumer ≡ is_none p.client

abbrev on_top : Result (ℕ × ℕ) → List ℕ → List ℕ
on_top (err e) open_ = open_
on_top (ok (client, consumer)) open_ = consumer ∷ client ∷ open_

dial-replay :
    (fold : String → String) (cfg : PulsarConfig) (pulsar : Pulsar)
    → let d = dial fold cfg pulsar in replay d.effects [] ≡ some (on_top d.connected [])
unfolding dial
dial-replay fold cfg pulsar = ground (arith, λ (c : ℕ). ==_iff c c)

module _ (fold : String → String) (cfg : PulsarConfig) where
  pub data Call : Type 0 where
    asks : Pulsar → Call
    closes_it : Call

  abbrev pub call : Call → PulsarConsumer → PulsarConsumer × List Effect
  call (asks pulsar) p =
      let d = dial fold cfg pulsar in ((subscription p d.connected).0, subscription_effects p d)
  call closes_it p = ((close p).0, close_effects p)

  abbrev Kept : Call → PulsarConsumer → Type 0
  Kept c p = InOrder (call c p).0 × (replay (call c p).1 (held p) ≡ some (held (call c p).0))

  asks-Kept : (pulsar : Pulsar) (p : PulsarConsumer) → InOrder p → Kept (asks pulsar) p
  unfolding subscription subscription_effects
  asks-Kept pulsar p good =
      let d = dial fold cfg pulsar in
      elim (Bool-cases p.closed) [
        | inl gone ↦ (ground (arith, gone, good), ground (arith, gone))
        | inr live ↦ elim (Option-cases p.consumer) [
          | inr (c, there) ↦ (ground (arith, live, there, good), ground (arith, live, there))
          | inl missing ↦ elim (Option-cases p.client) [
            | inr (x, odd) ↦ absurd (ground (arith, missing, odd, good))
            | inl alone ↦ elim (Result-cases d.connected) [
              | inl (e, down) ↦
                  let opened = dial-replay fold cfg pulsar in
                  (
                    ground (arith, live, missing, down, good),
                    ground (arith, live, missing, alone, down, opened),
                  )
              | inr ((x, c), up) ↦
                  let opened = dial-replay fold cfg pulsar in
                  (
                    ground (arith, live, missing, up),
                    ground (arith, live, missing, alone, up, opened),
                  )
            ]
          ]
        ]
      ]

  close-Kept : (p : PulsarConsumer) → InOrder p → Kept closes_it p
  unfolding close close_effects
  close-Kept p good = elim (Bool-cases p.closed) [
    | inl gone ↦ (ground (arith, gone, good), ground (arith, gone))
    | inr live ↦ (ground (arith, live), ground (arith, live, released-replay p.consumer p.client))
  ]

  call-Kept : (c : Call) (p : PulsarConsumer) → InOrder p → Kept c p
  call-Kept (asks pulsar) p good = asks-Kept pulsar p good
  call-Kept closes_it p good = close-Kept p good

-- Over any calls of `subscription` and `Close` on a new Pulsar consumer, whatever the library answers
-- them: what is closed is always the newest of what is open, so nothing is closed twice and a
-- subscription goes before its client; and what is open at the end is the one subscription and its
-- client that the consumer holds, and nothing once it was closed.
pub subscription_session-replay :
    (fold : String → String) (cfg : PulsarConfig) (calls : List (Call fold cfg))
    → let (p, effects) = after (call fold cfg) calls no_subscription in
      replay effects [] ≡ some (held p)
subscription_session-replay fold cfg calls =
    after-replay (call fold cfg) held InOrder (call-Kept fold cfg) calls no_subscription refl

-- The options that `NewPulsarConsumer` checked are those that `dial` later builds: on a
-- configuration that it accepts, `consumerOptions` never fails.
pub new_pulsar_consumer-accepts :
    (fold : String → String) (cfg : PulsarConfig) (p : PulsarConsumer)
    → new_pulsar_consumer fold cfg ≡ ok p
    → (options : ConsumerOptions) × (consumer_options fold cfg ≡ ok options)
unfolding new_pulsar_consumer consumer_options
new_pulsar_consumer-accepts fold cfg p h = elim (Result-cases (consumer_options fold cfg)) [
  | inr made ↦ made
  | inl (e, failed) ↦ elim (Result-cases (subscription_type fold cfg.subscription_type)) [
    | inl (x, bad) ↦ absurd (ground (arith, bad, h))
    | inr (kind, good) ↦
        elim (Result-cases (initial_position fold cfg.subscription_initial_position)) [
          | inl (x, bad) ↦ absurd (ground (arith, good, bad, h))
          | inr (position, fine) ↦ absurd (ground (arith, good, fine, failed))
        ]
  ]
]
