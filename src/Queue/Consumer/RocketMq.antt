-- ===== src/Queue/Consumer/RocketMq.antt =====
-- queue/consumer/rocket.go: the callback that settles a batch, and the phases of a consumption.
use cdc_trigger.Prelude.{
  ℕ, String, ◌≡◌, ◌↔◌, refl, ap, inl, inr, Bool, true, false, not, ◌&&◌, ◌++◌, Option, none, some,
  List, [], ◌∷◌, All, str_eq, if◌then◌else◌, ◌||◌, arith,
}
use cdc_trigger.Errors.{ℤ, GoError, errorf, wrapf, str, Result, ok, err}
use cdc_trigger.Queue.Consumer.{
  Handler, Unmarshal, ack_disposition, retry_disposition, Disposition-cases, process_message,
  err_nil_handler, Stopping,
}

pub data FromWhere : Type 0 where
  from_first_offset from_last_offset : FromWhere

-- `fold` is `strings.ToLower(strings.TrimSpace(name))`.
unfoldable pub consume_from_where : (String → String) → String → Result FromWhere
consume_from_where fold name =
    let n = fold name in
    if str_eq n "" || str_eq n "first_offset" || str_eq n "first" || str_eq n "earliest"
    then ok from_first_offset
    else if str_eq n "last_offset" || str_eq n "last" || str_eq n "latest"
    then ok from_last_offset
    else (err (
        errorf "unsupported consume_from_where %q: use first_offset or last_offset"
          (str name ∷ [])))

pub record RocketMqConfig : Type 0 where
  pub servers : List String
  pub topic : String
  pub group : String
  pub name_space : String
  pub access_key : String
  pub secret_key : String
  pub consume_from_where : String
  pub consume_goroutine_nums : ℤ

-- The options of the library that `buildConsumerOptions` uses.
pub data ConsumerOption : Type 0 where
  with_group_name with_namespace : String → ConsumerOption
  with_ns_resolver : List String → ConsumerOption
  with_clustering_model : ConsumerOption
  with_consume_from_where : FromWhere → ConsumerOption
  with_consume_goroutine_nums : ℤ → ConsumerOption
  with_credentials : String → String → ConsumerOption

abbrev when : Bool → ConsumerOption → List ConsumerOption
when true o = o ∷ []
when false o = []

unfoldable pub build_consumer_options : RocketMqConfig → FromWhere → List ConsumerOption
build_consumer_options cfg from_where =
    with_group_name cfg.group
    ∷ with_ns_resolver cfg.servers
    ∷ with_clustering_model
    ∷ with_consume_from_where from_where
    ∷ with_consume_goroutine_nums cfg.consume_goroutine_nums
    ∷ (when (not (str_eq cfg.name_space "")) (with_namespace cfg.name_space)
        ++ when (not (str_eq cfg.access_key "") && not (str_eq cfg.secret_key ""))
            (with_credentials cfg.access_key cfg.secret_key))

-- `NewRocketMQConsumer`: the options that it keeps.
unfoldable pub new_rocketmq_consumer :
    (String → String) → RocketMqConfig → Result (List ConsumerOption)
unfolding consume_from_where build_consumer_options
new_rocketmq_consumer fold cfg = elim cfg.servers [
  | [] ↦ err (errorf "the RocketMQ consumer needs at least one entry in servers" [])
  | s ∷ rest ↦
      if str_eq cfg.topic ""
      then err (errorf "the RocketMQ consumer needs a topic" [])
      else if str_eq cfg.group ""
      then err (errorf "the RocketMQ consumer needs a group" [])
      else (elim (consume_from_where fold cfg.consume_from_where) [
        | err e ↦ err e
        | ok from_where ↦ ok (build_consumer_options cfg from_where)
      ])
]

pub data ConsumeResult : Type 0 where
  consume_success consume_retry_later : ConsumeResult

-- The callback of `Consume`: the messages given to the handler, in order, and the result for the
-- batch.
unfoldable pub callback : Unmarshal → Handler → List (List ℕ) → List (List ℕ) × ConsumeResult
callback unmarshal handler [] = ([], consume_success)
callback unmarshal handler (m ∷ ms) =
    let rest = callback unmarshal handler ms in
    elim (process_message unmarshal handler m) [
      | retry_disposition ↦ (m ∷ [], consume_retry_later)
      | ack_disposition ↦ (m ∷ rest.0, rest.1)
    ]

-- What the push consumer reports, and the state of things when the waiting is over.
pub record Push : Type 0 where
  pub created : Option GoError
  pub subscribed : Option GoError
  pub started : Option GoError
  pub after_wait : Stopping

pub data PushCall : Type 0 where
  subscribe start shutdown : PushCall

-- `newPushConsumer`, over what the client library reports.
unfoldable pub new_push_consumer : Option GoError → Option GoError
new_push_consumer reported = elim reported [
  | some e ↦ some (wrapf "failed to create the RocketMQ consumer: %w" [] e)
  | none ↦ none
]

-- `Consume`: the calls of the push consumer, and what is returned. A failing `Shutdown` is only
-- logged.
unfoldable pub consume : String → Option Handler → Bool → Push → List PushCall × Option GoError
unfolding new_push_consumer
consume topic none is_closed push = ([], some err_nil_handler)
consume topic (some handler) is_closed push =
    if is_closed then ([], none) else (elim (new_push_consumer push.created) [
      | some e ↦ ([], some e)
      | none ↦ elim push.subscribed [
        | some e ↦ (
          subscribe ∷ [],
          some (wrapf "failed to subscribe to the topic %q: %w" (str topic ∷ []) e),
        )
        | none ↦ elim push.started [
          | some e ↦ (
            subscribe ∷ start ∷ [],
            some (wrapf "failed to start the RocketMQ consumer: %w" [] e),
          )
          | none ↦ (
            subscribe ∷ start ∷ shutdown ∷ [],
            if push.after_wait.is_closed then none else push.after_wait.ctx_err,
          )
        ]
      ]
    ])

-- `Close`, over the flag that `mu` guards: the flag it leaves, and how often it closes `done`.
unfoldable pub close : Bool → Bool × ℕ
close closed = if closed then (true, 0) else (true, 1)

-- A batch is acknowledged exactly when the handler accepts every message of it, or it is no event;
-- then every message was given to the handler.
pub callback_success_iff :
    (unmarshal : Unmarshal) (handler : Handler) (ms : List (List ℕ))
    → (callback unmarshal handler ms ≡ (ms, consume_success))
      ↔ All (λ m. process_message unmarshal handler m ≡ ack_disposition) ms
unfolding callback
callback_success_iff unmarshal handler [] = (λ h. tt, λ h. refl)
callback_success_iff unmarshal handler (m ∷ ms) =
    let ih = callback_success_iff unmarshal handler ms in
    elim (Disposition-cases (process_message unmarshal handler m)) [
      | inl accepted ↦ (
        λ h. (accepted, ih.0 (ground (arith, accepted, h))),
        λ (a, all).
            rw (accepted, callback)
              (ap (λ (r : List (List ℕ) × ConsumeResult). (m ∷ r.0, r.1)) (ih.1 all)),
      )
      | inr rejected ↦ (
        λ h. absurd (ground (arith, rejected, h)),
        λ (a, all). absurd (ground (arith, rejected, a)),
      )
    ]
