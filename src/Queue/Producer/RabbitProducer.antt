-- ===== src/Queue/Producer/RabbitProducer.antt =====
-- `RabbitMQProducer` (queue/producer/rabbit.go): one client, replaced when its channel is dead.
-- Each function is one call with nothing else running; clients are named by numbers.
pub mod Resend
use cdc_trigger.Prelude.{
  ℕ, Bool, true, false, Option, none, some, List, [], ◌∷◌, ◌==◌, if◌then◌else◌,
}
use cdc_trigger.Errors.{
  GoError, sentinel, unroutable, errorf, wrapf, wrap_and_print, any_in, Result, ok, err,
}

pub record RabbitProducer : Type 0 where
  pub client : Option ℕ
  pub closed : Bool

abbrev closed_error : GoError
closed_error = errorf "the RabbitMQ producer is closed" []

-- `current`, over what `dial` reports.
unfoldable pub current : RabbitProducer → Result ℕ → RabbitProducer × Result ℕ
current p dialled = if p.closed then (p, err closed_error) else (elim p.client [
  | some c ↦ (p, ok c)
  | none ↦ elim dialled [ err e ↦ (p, err e) | ok c ↦ (record p { client = some c }, ok c) ]
])

abbrev is_client : ℕ → Option ℕ → Bool
is_client stale none = false
is_client stale (some c) = c == stale

-- What `reconnect` leaves, what it reports, and the clients that it closed.
pub record Reconnected : Type 0 where
  pub producer : RabbitProducer
  pub replaced : Result Bool
  pub closes : List ℕ

-- `health` is `stale.err()`.
unfoldable pub reconnect : RabbitProducer → ℕ → Option GoError → Result ℕ → Reconnected
reconnect p stale health dialled =
    if p.closed
    then record { producer = p; replaced = err closed_error; closes = [] }
    else if is_client stale p.client
    then (elim health [
      | none ↦ record { producer = p; replaced = ok false; closes = [] }
      | some h ↦ elim dialled [
        | err e ↦ record {
          producer = record p { client = none };
          replaced = err e;
          closes = stale ∷ [];
        }
        | ok c ↦ record {
          producer = record p { client = some c };
          replaced = ok true;
          closes = stale ∷ [];
        }
      ]
    ])
    else record { producer = p; replaced = ok false; closes = [] }

-- What the calls of one `Send` answer.
pub record SendCalls : Type 0 where
  pub marshal : Option GoError
  pub first_dial : Result ℕ
  pub first_publish : Option GoError
  pub health : Option GoError
  pub second_dial : Result ℕ
  pub third_dial : Result ℕ
  pub second_publish : Option GoError

-- What `Send` leaves and returns, and the clients that it published on, in order.
pub record SendRun : Type 0 where
  pub producer : RabbitProducer
  pub result : Option GoError
  pub publishes : List ℕ
  pub closes : List ℕ

abbrev pub is_unroutable : GoError → Bool
is_unroutable (sentinel unroutable) = true
is_unroutable e = false

-- `Send` after its first publish on `c` failed with `e`.
unfoldable pub resend : SendCalls → RabbitProducer → ℕ → GoError → SendRun
unfolding current reconnect
resend calls p c e =
    let r = reconnect p c calls.health calls.second_dial in
    elim r.replaced [
      | err x ↦ record {
        producer = r.producer;
        result = some (wrap_and_print "%w (reconnect failed: %v)" e x);
        publishes = c ∷ [];
        closes = r.closes;
      }
      | ok replaced ↦
          if replaced
          then (let (q, got) = current r.producer calls.third_dial in
              elim got [
                | err x ↦ record {
                  producer = q;
                  result = some (wrap_and_print "%w (%v)" e x);
                  publishes = c ∷ [];
                  closes = r.closes;
                }
                | ok c' ↦ record {
                  producer = q;
                  result = elim calls.second_publish [
                    | none ↦ none
                    | some x ↦
                        some (wrap_and_print "%w (the retry on the new connection failed: %v)" e x)
                  ];
                  publishes = c ∷ c' ∷ [];
                  closes = r.closes;
                }
              ])
          else record {
            producer = r.producer;
            result = some e;
            publishes = c ∷ [];
            closes = r.closes;
          }
    ]

unfoldable pub send : SendCalls → RabbitProducer → SendRun
unfolding current resend any_in
send calls p = elim calls.marshal [
  | some e ↦ record {
    producer = p;
    result = some (wrapf "failed to marshal event: %w" [] e);
    publishes = [];
    closes = [];
  }
  | none ↦
      let (q, got) = current p calls.first_dial in
      elim got [
        | err e ↦ record { producer = q; result = some e; publishes = []; closes = [] }
        | ok c ↦ elim calls.first_publish [
          | none ↦ record { producer = q; result = none; publishes = c ∷ []; closes = [] }
          | some e ↦
              if any_in is_unroutable e
              then record { producer = q; result = some e; publishes = c ∷ []; closes = [] }
              else resend calls q c e
        ]
      ]
]

-- `Close`: what is left, and the clients that it closed.
unfoldable pub close : RabbitProducer → RabbitProducer × List ℕ
close p =
    if p.closed
    then (p, [])
    else (record { client = none; closed = true }, elim p.client [ none ↦ [] | some c ↦ c ∷ [] ])
