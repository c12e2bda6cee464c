-- ===== src/Queue/Producer/RabbitProducer/Resend.antt =====
-- When `Send` of queue/producer/rabbit.go succeeds, and what it leaves.
use cdc_trigger.Prelude.{
  ℕ, ◌≡◌, ◌↔◌, refl, ◌⊎◌, inl, inr, true, false, Option, none, some, [], ◌∷◌, arith, Option-cases,
  Bool-cases, ==_iff,
}
use cdc_trigger.Errors.{GoError, any_in, Result, ok, err, Result-cases}
use cdc_trigger.Queue.Producer.RabbitProducer.{
  RabbitProducer, current, Reconnected, reconnect, SendCalls, is_unroutable, resend, send,
}

-- The one failure that `Send` makes good: the channel is dead, the broker could have routed the
-- message, a new client is there and takes it.
abbrev pub IsMended : SendCalls → Type 0
IsMended calls =
    (e : GoError) × (h : GoError) × (c : ℕ) × (calls.first_publish ≡ some e)
    × (any_in is_unroutable e ≡ false)
    × (calls.health ≡ some h)
    × (calls.second_dial ≡ ok c)
    × (calls.second_publish ≡ none)

abbrev holding : ℕ → RabbitProducer
holding c = record { client = some c; closed = false }

abbrev dial_next : ℕ → Result ℕ → Reconnected
dial_next c (err e) = record {
  producer = record { client = none; closed = false };
  replaced = err e;
  closes = c ∷ [];
}
dial_next c (ok d) = record { producer = holding d; replaced = ok true; closes = c ∷ [] }

abbrev reconnected : ℕ → Option GoError → Result ℕ → Reconnected
reconnected c none dialled = record { producer = holding c; replaced = ok false; closes = [] }
reconnected c (some h) dialled = dial_next c dialled

reconnect-holding :
    (c : ℕ) (health : Option GoError) (dialled : Result ℕ)
    → reconnect (holding c) c health dialled ≡ reconnected c health dialled
unfolding reconnect
reconnect-holding c none dialled = rw ((==_iff c c).1 refl)
reconnect-holding c (some h) (err e) = rw ((==_iff c c).1 refl)
reconnect-holding c (some h) (ok d) = rw ((==_iff c c).1 refl)

resend-none :
    (calls : SendCalls) (c : ℕ) (e : GoError)
    → ((resend calls (holding c) c e).result ≡ none) ↔ (
        (h : GoError) × (d : ℕ) × (calls.health ≡ some h)
        × (calls.second_dial ≡ ok d)
        × (calls.second_publish ≡ none))
unfolding resend current
resend-none calls c e =
    let shown = reconnect-holding c calls.health calls.second_dial in
    elim (Option-cases calls.health) [
      | inl well ↦ (
        λ x. absurd (ground (arith, shown, well, x)),
        λ (h, d, dead, up, m). absurd (ground (arith, well, dead)),
      )
      | inr (h, dead) ↦ elim (Result-cases calls.second_dial) [
        | inl (y, down) ↦ (
          λ x. absurd (ground (arith, shown, dead, down, x)),
          λ (i, d, k, up, m). absurd (ground (arith, down, up)),
        )
        | inr (d, up) ↦ (
          λ x. (h, d, dead, up, ground (arith, shown, dead, up, x)),
          λ (i, j, k, l, m). ground (arith, shown, dead, up, m),
        )
      ]
    ]

-- With a live client and an event that marshals, `Send` returns nil exactly when the first publish is
-- confirmed, or when it failed on a dead channel for another reason than the routing, and a new
-- client was dialled that confirmed the second one.
pub send_none_iff :
    (calls : SendCalls) (c : ℕ)
    → calls.marshal ≡ none
    → ((send calls (record { client = some c; closed = false })).result ≡ none)
      ↔ ((calls.first_publish ≡ none) ⊎ IsMended calls)
unfolding send current
send_none_iff calls c marshalled = elim (Option-cases calls.first_publish) [
  | inl sent ↦ (λ x. inl sent, λ x. ground (arith, marshalled, sent))
  | inr (e, failed) ↦ elim (Bool-cases (any_in is_unroutable e)) [
    | inl astray ↦ (
      λ x. absurd (ground (arith, marshalled, failed, astray, x)),
      λ x. elim x [
        | inl sent ↦ absurd (ground (arith, failed, sent))
        | inr (e', h, d, f, r, dead, up, m) ↦ absurd (ground (arith, failed, f, astray, r))
      ],
    )
    | inr routed ↦
        let iff = resend-none calls c e in
        (
          λ x.
              let (h, d, dead, up, m) = iff.0 (ground (arith, marshalled, failed, routed, x)) in
              inr (e, h, d, failed, routed, dead, up, m),
          λ x. elim x [
            | inl sent ↦ absurd (ground (arith, failed, sent))
            | inr (e', h, d, f, r, dead, up, m) ↦
                ground (arith, marshalled, failed, routed, iff.1 (h, d, dead, up, m))
          ],
        )
  ]
]
