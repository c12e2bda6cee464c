-- ===== src/Queue/Producer/PulsarProducer.antt =====
-- `PulsarProducer` (queue/producer/pulsar.go), with no `dialFn`, which only tests set. Each function
-- is one call with nothing else running; clients and producers of the library are numbers.
pub mod Released
pub mod Outcomes
use cdc_trigger.Prelude.{
  ℕ, String, Bool, true, false, Option, none, some, List, [], ◌∷◌, ◌++◌, ◌*◌, ◌%◌, ◌^◌,
  if◌then◌else◌, str_eq,
}
use cdc_trigger.Errors.{ℤ, GoError, errorf, wrapf, wrap_and_print, Result, ok, err}
use cdc_trigger.Queue.Ledger.{Effect, opens, closes, one, SendCalls, returns, panics, SendRun}

-- The timeouts are 64-bit integers, in two's complement as words.
pub record PulsarConfig : Type 0 where
  pub url : String
  pub topic : String
  pub token : String
  pub operation_timeout : ℕ
  pub connection_timeout : ℕ

-- `pulsar.ClientOptions`, with the durations in nanoseconds, and the token of the authentication.
pub record ClientOptions : Type 0 where
  pub url : String
  pub operation_timeout : ℕ
  pub connection_timeout : ℕ
  pub authentication : Option String

-- The client library: what `NewClient` and `CreateProducer` answer.
pub record Pulsar : Type 0 where
  pub new_client : ClientOptions → Result ℕ
  pub create_producer : ℕ → String → Result ℕ

pub record Dialled : Type 0 where
  pub connected : Result (ℕ × ℕ)
  pub effects : List Effect

unfoldable pub client_options : PulsarConfig → ClientOptions
client_options cfg = record {
  url = cfg.url;
  operation_timeout = cfg.operation_timeout * 1_000_000_000 % 2 ^ 64;
  connection_timeout = cfg.connection_timeout * 1_000_000_000 % 2 ^ 64;
  authentication = if str_eq cfg.token "" then none else some cfg.token;
}

unfoldable pub dial : PulsarConfig → Pulsar → Dialled
unfolding client_options
dial cfg pulsar = elim (pulsar.new_client (client_options cfg)) [
  | err e ↦ record { connected = err e; effects = [] }
  | ok client ↦ elim (pulsar.create_producer client cfg.topic) [
    | err e ↦ record { connected = err e; effects = opens client ∷ closes client ∷ [] }
    | ok producer ↦ record {
      connected = ok (client, producer);
      effects = opens client ∷ opens producer ∷ [];
    }
  ]
]

pub record PulsarProducer : Type 0 where
  pub cfg : PulsarConfig
  pub client : Option ℕ
  pub producer : Option ℕ
  pub closed : Bool

-- A call that changes the producer: what it leaves, reports, opens and closes.
pub record Changed : Type 0 where
  pub producer : PulsarProducer
  pub result : Option GoError
  pub effects : List Effect

-- `NewPulsarProducer`
unfoldable pub new_pulsar_producer : PulsarConfig → Pulsar → Result PulsarProducer × List Effect
unfolding dial
new_pulsar_producer cfg pulsar =
    let d = dial cfg pulsar in
    elim d.connected [
      | err e ↦ (err e, d.effects)
      | ok (client, producer) ↦ (
        ok (record { cfg = cfg; client = some client; producer = some producer; closed = false }),
        d.effects,
      )
    ]

abbrev pub close_option : Option ℕ → List Effect
close_option none = []
close_option (some n) = closes n ∷ []

unfoldable pub reconnect : PulsarProducer → Pulsar → Changed
unfolding dial
reconnect p pulsar =
    if p.closed
    then record {
      producer = p;
      result = some (errorf "the Pulsar producer is closed" []);
      effects = [];
    }
    else (let d = dial p.cfg pulsar in
        let released = close_option p.producer ++ close_option p.client in
        elim d.connected [
          | err e ↦ record {
            producer = record p { client = none; producer = none };
            result = some (wrapf "failed to reconnect to Pulsar: %w" [] e);
            effects = released ++ d.effects;
          }
          | ok (client, producer) ↦ record {
            producer = record p { client = some client; producer = some producer };
            result = none;
            effects = released ++ d.effects;
          }
        ])

-- `Send` after its first message failed with `e` on the producer `sent_on`; `before` are the effects
-- so far.
unfoldable pub resend :
    SendCalls Pulsar → PulsarProducer → List Effect → ℕ → GoError → SendRun PulsarProducer
unfolding reconnect
resend calls p before sent_on e =
    let r = reconnect p calls.second_dial in
    elim r.result [
      | some x ↦ record {
        producer = r.producer;
        outcome = returns (some (wrap_and_print "%w (reconnect failed: %v)" e x));
        effects = before ++ r.effects;
        sends = sent_on ∷ [];
      }
      | none ↦ elim r.producer.producer [
        | none ↦ record {
          producer = r.producer;
          outcome = panics;
          effects = before ++ r.effects;
          sends = sent_on ∷ [];
        }
        | some n ↦ record {
          producer = r.producer;
          outcome = elim calls.second_send [
            | none ↦ returns none
            | some x ↦
                returns
                  (some (wrap_and_print "%w (the retry on the new connection failed: %v)" e x))
          ];
          effects = before ++ r.effects;
          sends = sent_on ∷ n ∷ [];
        }
      ]
    ]

-- `Send` from its first message on.
unfoldable pub send_on : SendCalls Pulsar → PulsarProducer → List Effect → SendRun PulsarProducer
unfolding resend
send_on calls p before = elim p.producer [
  | none ↦ record { producer = p; outcome = panics; effects = before; sends = [] }
  | some n ↦ elim calls.first_send [
    | none ↦ record { producer = p; outcome = returns none; effects = before; sends = n ∷ [] }
    | some e ↦ resend calls p before n e
  ]
]

unfoldable pub send : SendCalls Pulsar → PulsarProducer → SendRun PulsarProducer
unfolding reconnect send_on
send calls p = elim calls.marshal [
  | some e ↦ record { producer = p; outcome = returns (some e); effects = []; sends = [] }
  | none ↦
      if p.closed
      then record {
        producer = p;
        outcome = returns (some (errorf "the Pulsar producer is closed" []));
        effects = [];
        sends = [];
      }
      else (elim p.producer [
        | some n ↦ send_on calls p []
        | none ↦
            let r = reconnect p calls.first_dial in
            elim r.result [
              | some e ↦ record {
                producer = r.producer;
                outcome = returns (some e);
                effects = r.effects;
                sends = [];
              }
              | none ↦ send_on calls r.producer r.effects
            ]
      ])
]

-- `Close`, which always returns nil.
unfoldable pub close : PulsarProducer → Changed
close p = if p.closed then record { producer = p; result = none; effects = [] } else record {
  producer = record p { closed = true };
  result = none;
  effects = close_option p.producer ++ close_option p.client;
}
