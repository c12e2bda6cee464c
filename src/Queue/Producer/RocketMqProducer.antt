-- ===== src/Queue/Producer/RocketMqProducer.antt =====
-- `RocketMQProducer` (queue/producer/rocket.go). Each function is one call with nothing else
-- running; producers of the library are numbers.
pub mod Released
pub mod Outcomes
use cdc_trigger.Prelude.{
  ℕ, String, Bool, true, false, not, ◌&&◌, Option, none, some, List, [], ◌∷◌, ◌++◌, if◌then◌else◌,
  str_eq,
}
use cdc_trigger.Errors.{ℤ, str, GoError, errorf, wrapf, wrap_and_print, Result, ok, err}
use cdc_trigger.Queue.Ledger.{Effect, opens, closes, SendCalls, returns, panics, SendRun}

pub record RocketMqConfig : Type 0 where
  pub servers : List String
  pub topic : String
  pub group : String
  pub retry : ℤ
  pub name_space : String
  pub access_key : String
  pub secret_key : String

-- The options of the library that `buildOptions` uses.
pub data ProducerOption : Type 0 where
  with_ns_resolver : List String → ProducerOption
  with_retry : ℤ → ProducerOption
  with_group_name with_namespace : String → ProducerOption
  with_credentials : String → String → ProducerOption

abbrev when : Bool → ProducerOption → List ProducerOption
when true o = o ∷ []
when false o = []

unfoldable pub build_options : RocketMqConfig → List ProducerOption
build_options cfg =
    with_ns_resolver cfg.servers
    ∷ with_retry cfg.retry
    ∷ (when (not (str_eq cfg.group "")) (with_group_name cfg.group)
        ++ (when (not (str_eq cfg.name_space "")) (with_namespace cfg.name_space)
            ++ when (not (str_eq cfg.access_key "") && not (str_eq cfg.secret_key ""))
                (with_credentials cfg.access_key cfg.secret_key)))

-- The client library: what `NewProducer`, and `Start` and `Shutdown` of a producer answer.
pub record RocketMq : Type 0 where
  pub new_producer : List ProducerOption → Result ℕ
  pub start : ℕ → Option GoError
  pub shutdown : ℕ → Option GoError

unfoldable pub create_and_start_producer : List ProducerOption → RocketMq → Result ℕ × List Effect
create_and_start_producer options rocket = elim (rocket.new_producer options) [
  | err e ↦ (err (wrapf "failed to create RocketMQ producer: %w" [] e), [])
  | ok n ↦ elim (rocket.start n) [
    | some e ↦ (err (wrapf "failed to start RocketMQ producer: %w" [] e), opens n ∷ closes n ∷ [])
    | none ↦ (ok n, opens n ∷ [])
  ]
]

pub record RocketMqProducer : Type 0 where
  pub cfg : RocketMqConfig
  pub options : List ProducerOption
  pub producer : Option ℕ
  pub closed : Bool

-- A call that changes the producer: what it leaves, reports, opens and closes.
pub record Changed : Type 0 where
  pub producer : RocketMqProducer
  pub result : Option GoError
  pub effects : List Effect

-- `NewRocketMQProducer`
unfoldable pub new_rocket_mq_producer :
    RocketMqConfig → RocketMq → Result RocketMqProducer × List Effect
unfolding build_options create_and_start_producer
new_rocket_mq_producer cfg rocket =
    let options = build_options cfg in
    let (started, effects) = create_and_start_producer options rocket in
    elim started [
      | err e ↦ (err e, effects)
      | ok n ↦
          (ok (record { cfg = cfg; options = options; producer = some n; closed = false }), effects)
    ]

abbrev pub shut : Option ℕ → List Effect
shut none = []
shut (some n) = closes n ∷ []

unfoldable pub reconnect : RocketMqProducer → RocketMq → Changed
unfolding create_and_start_producer
reconnect r rocket =
    if r.closed
    then record {
      producer = r;
      result = some (errorf "the RocketMQ producer is closed" []);
      effects = [];
    }
    else (let (started, effects) = create_and_start_producer r.options rocket in
        elim started [
          | err e ↦ record {
            producer = record r { producer = none };
            result = some (wrapf "failed to reconnect to RocketMQ: %w" [] e);
            effects = shut r.producer ++ effects;
          }
          | ok n ↦ record {
            producer = record r { producer = some n };
            result = none;
            effects = shut r.producer ++ effects;
          }
        ])

-- `Send` after its first message failed with `e` on the producer `sent_on`; `before` are the effects
-- so far.
unfoldable pub resend :
    SendCalls RocketMq → RocketMqProducer → List Effect → ℕ → GoError → SendRun RocketMqProducer
unfolding reconnect
resend calls r before sent_on e =
    let send_err =
      wrapf "failed to send message to RocketMQ topic %s: %w" (str r.cfg.topic ∷ []) e in
    let c = reconnect r calls.second_dial in
    elim c.result [
      | some x ↦ record {
        producer = c.producer;
        outcome = returns (some (wrap_and_print "%w (reconnect failed: %v)" send_err x));
        effects = before ++ c.effects;
        sends = sent_on ∷ [];
      }
      | none ↦ elim c.producer.producer [
        | none ↦ record {
          producer = c.producer;
          outcome = panics;
          effects = before ++ c.effects;
          sends = sent_on ∷ [];
        }
        | some n ↦ record {
          producer = c.producer;
          outcome = elim calls.second_send [
            | none ↦ returns none
            | some x ↦
                returns (
                  some
                    (wrap_and_print "%w (the retry on the new connection failed: %v)" send_err x))
          ];
          effects = before ++ c.effects;
          sends = sent_on ∷ n ∷ [];
        }
      ]
    ]

-- `Send` from its first message on.
unfoldable pub send_on :
    SendCalls RocketMq → RocketMqProducer → List Effect → SendRun RocketMqProducer
unfolding resend
send_on calls r before = elim r.producer [
  | none ↦ record { producer = r; outcome = panics; effects = before; sends = [] }
  | some n ↦ elim calls.first_send [
    | none ↦ record { producer = r; outcome = returns none; effects = before; sends = n ∷ [] }
    | some e ↦ resend calls r before n e
  ]
]

unfoldable pub send : SendCalls RocketMq → RocketMqProducer → SendRun RocketMqProducer
unfolding reconnect send_on
send calls r = elim calls.marshal [
  | some e ↦ record { producer = r; outcome = returns (some e); effects = []; sends = [] }
  | none ↦
      if r.closed
      then record {
        producer = r;
        outcome = returns (some (errorf "the RocketMQ producer is closed" []));
        effects = [];
        sends = [];
      }
      else (elim r.producer [
        | some n ↦ send_on calls r []
        | none ↦
            let c = reconnect r calls.first_dial in
            elim c.result [
              | some e ↦ record {
                producer = c.producer;
                outcome = returns (some e);
                effects = c.effects;
                sends = [];
              }
              | none ↦ send_on calls c.producer c.effects
            ]
      ])
]

unfoldable pub close : RocketMqProducer → RocketMq → Changed
close r rocket = if r.closed then record { producer = r; result = none; effects = [] } else record {
  producer = record r { closed = true };
  result = elim r.producer [ none ↦ none | some n ↦ rocket.shutdown n ];
  effects = shut r.producer;
}
