-- ===== src/Queue/RabbitTopology/Releases.antt =====
-- What the diallings of queue/producer/rabbit.go and queue/consumer/rabbit.go release.
use cdc_trigger.Prelude.{
  String, ◌≡◌, ◌≢◌, refl, ◌∙◌, ◌⊎◌, inl, inr, Bool, true, false, not, ◌&&◌, Option, none, some,
  List, [], ◌∷◌, ◌++◌, arith, snoc, str_eq, if◌then◌else◌, Bool-cases, Option-cases,
}
use mathlib.Core.List.{append_assoc, append-nil}
use cdc_trigger.Errors.{Value, GoError}
use cdc_trigger.Queue.Amqp.{
  Topology, Amqp, AmqpCall, Dialled, attempt, done, close_both, dial_server, open_channel,
  exchange_declare, queue_declare, queue_bind, confirm_mode, notify_close, notify_return,
  notify_publish, qos, consume_queue, close_channel, close_connection,
}
use cdc_trigger.Queue.Producer.RabbitDial
use cdc_trigger.Queue.Producer.RabbitDial.{declare_and_confirm}
use cdc_trigger.Queue.Consumer.RabbitMq
use cdc_trigger.Queue.Consumer.RabbitMq.Dial
use cdc_trigger.Queue.Consumer.RabbitMq.Dial.{declare_and_subscribe}

-- A call makes something that the given call is to release, releases something, or neither.
pub data Effect : Type 0 where
  opens : AmqpCall → Effect
  releases plain : Effect

abbrev effect : AmqpCall → Effect
effect (dial_server u) = opens close_connection
effect open_channel = opens close_channel
effect close_channel = releases
effect close_connection = releases
effect (exchange_declare n k d a) = plain
effect (queue_declare n d a e w) = plain
effect (queue_bind q k x w) = plain
effect confirm_mode = plain
effect notify_close = plain
effect notify_return = plain
effect notify_publish = plain
effect (qos n) = plain
effect (consume_queue q t a e w) = plain

abbrev keep_release : Effect → AmqpCall → List AmqpCall → List AmqpCall
keep_release releases c rest = c ∷ rest
keep_release (opens r) c rest = rest
keep_release plain c rest = rest

abbrev add_due : Effect → Option GoError → List AmqpCall → List AmqpCall
add_due (opens r) none rest = snoc rest r
add_due (opens r) (some e) rest = rest
add_due releases e rest = rest
add_due plain e rest = rest

-- The releases among some calls.
abbrev pub released : List AmqpCall → List AmqpCall
released [] = []
released (c ∷ cs) = keep_release (effect c) c (released cs)

-- The releases that are due for what the calls opened, the last opened first.
abbrev pub due : Amqp → List AmqpCall → List AmqpCall
due amqp [] = []
due amqp (c ∷ cs) = add_due (effect c) (amqp c) (due amqp cs)

-- A dialling that succeeds releases nothing; one that fails releases what it opened, and `held`.
abbrev Settles : Amqp → List AmqpCall → Dialled → Type 0
Settles amqp held d =
    ((d.result ≡ none) × (released d.calls ≡ []))
    ⊎ ((d.result ≢ none) × (released d.calls ≡ due amqp d.calls ++ held))

module _ (amqp : Amqp) (held : List AmqpCall) (format : String) (args : List Value) where
  attempt-Settles :
      (call : AmqpCall) (rest : Dialled)
      → effect call ≡ plain
      → released held ≡ held
      → due amqp held ≡ []
      → Settles amqp held rest
      → Settles amqp held (attempt amqp call held format args rest)
  attempt-Settles call rest p keeps owes s = elim (Option-cases (amqp call)) [
    | inr (e, failed) ↦ rw (failed, attempt) (inr (λ h. cc, ground (arith, p, keeps, owes, failed)))
    | inl made ↦
        rw (made, attempt)
          (elim s [
            | inl (good, nothing) ↦ inl (good, ground (arith, p, nothing))
            | inr (bad, all) ↦ inr (bad, ground (arith, p, all))
          ])
  ]

if-Settles :
    (amqp : Amqp) (held : List AmqpCall) (b : Bool) (d d' : Dialled)
    → Settles amqp held d
    → Settles amqp held d'
    → Settles amqp held (if b then d else d')
if-Settles amqp held true d d' s s' = s
if-Settles amqp held false d d' s s' = s'

declare_and_confirm-Settles :
    (amqp : Amqp) (t : Topology) → Settles amqp close_both (declare_and_confirm amqp t)
unfolding declare_and_confirm
declare_and_confirm-Settles amqp t =
    let named = not (str_eq t.exchange "") in
    let confirmed =
      attempt-Settles amqp close_both _ _ confirm_mode
        (done (notify_close ∷ notify_return ∷ notify_publish ∷ [])) refl refl refl
        (inl (refl, refl)) in
    let bound =
      if-Settles amqp close_both named _ _
        (attempt-Settles amqp close_both _ _ (queue_bind t.queue t.routing_key t.exchange t.no_wait)
          _ refl refl refl confirmed)
        confirmed in
    let queued =
      attempt-Settles amqp close_both _ _
        (queue_declare t.queue t.durable t.auto_delete t.exclusive t.no_wait) _ refl refl refl
        bound in
    if-Settles amqp close_both named _ _
      (attempt-Settles amqp close_both _ _
        (exchange_declare t.exchange t.exchange_type t.durable t.auto_delete) _ refl refl refl
        queued)
      queued

declare_and_subscribe-Settles :
    (amqp : Amqp) (cfg : RabbitMq.RabbitMqConfig)
    → Settles amqp close_both (declare_and_subscribe amqp cfg)
unfolding declare_and_subscribe
declare_and_subscribe-Settles amqp cfg =
    let t = cfg.topology in
    let named = not (str_eq t.exchange "") in
    let subscribed =
      attempt-Settles amqp close_both _ _
        (consume_queue t.queue cfg.consumer_tag false t.exclusive t.no_wait) (done []) refl refl
        refl (inl (refl, refl)) in
    let paced =
      attempt-Settles amqp close_both _ _ (qos cfg.prefetch) _ refl refl refl subscribed in
    let bound =
      if-Settles amqp close_both named _ _
        (attempt-Settles amqp close_both _ _ (queue_bind t.queue t.routing_key t.exchange t.no_wait)
          _ refl refl refl paced)
        paced in
    let queued =
      attempt-Settles amqp close_both _ _
        (queue_declare t.queue t.durable t.auto_delete t.exclusive t.no_wait) _ refl refl refl
        bound in
    if-Settles amqp close_both named _ _
      (attempt-Settles amqp close_both _ _
        (exchange_declare t.exchange t.exchange_type t.durable t.auto_delete) _ refl refl refl
        queued)
      queued

opening-Settles :
    (amqp : Amqp) (held : List AmqpCall) (format : String) (args : List Value) (call r : AmqpCall)
    (rest : Dialled)
    → effect call ≡ opens r
    → released held ≡ held
    → due amqp held ≡ []
    → Settles amqp (r ∷ held) rest
    → Settles amqp held (attempt amqp call held format args rest)
opening-Settles amqp held format args call r rest p keeps owes s = elim (Option-cases (amqp call)) [
  | inr (e, failed) ↦ rw (failed, attempt) (inr (λ h. cc, ground (arith, p, keeps, owes, failed)))
  | inl made ↦
      rw (made, attempt)
        (elim s [
          | inl (good, nothing) ↦ inl (good, ground (arith, p, nothing))
          | inr (bad, all) ↦
              inr (
                bad,
                ground (arith, p, made, all, append_assoc (due amqp rest.calls) (r ∷ []) held),
              )
        ])
]

-- A dialling that was made leaves nothing behind: `none` is success.
abbrev pub IsReleased : Amqp → Dialled → Type 0
IsReleased amqp d =
    ((d.result ≡ none) × (released d.calls ≡ []))
    ⊎ ((d.result ≢ none) × (released d.calls ≡ due amqp d.calls))

connect-IsReleased :
    (amqp : Amqp) (url f g : String) (rest : Dialled)
    → Settles amqp close_both rest
    → IsReleased amqp (
        attempt amqp
          (dial_server url)
          []
          f
          []
          (attempt amqp open_channel (close_connection ∷ []) g [] rest))
connect-IsReleased amqp url f g rest s =
    let opened =
      opening-Settles amqp (close_connection ∷ []) g [] open_channel close_channel rest refl refl
        refl s in
    let dialled =
      opening-Settles amqp [] f [] (dial_server url) close_connection
        (attempt amqp open_channel (close_connection ∷ []) g [] rest) refl refl refl opened in
    elim dialled [ inl x ↦ inl x | inr (bad, all) ↦ inr (bad, all ∙ append-nil _) ]

-- On both sides a dialling that succeeds closes nothing, and one that fails closes exactly what it
-- opened, the channel before the connection.
pub dials-IsReleased :
    (amqp : Amqp) (p : RabbitDial.RabbitMqConfig) (c : RabbitMq.RabbitMqConfig)
    → IsReleased amqp (RabbitDial.dial amqp p) × IsReleased amqp (Dial.dial amqp c)
unfolding RabbitDial.dial Dial.dial
dials-IsReleased amqp p c = (
  elim (Bool-cases
      (not (str_eq p.topology.exchange "") && str_eq p.topology.exchange_type "headers")) [
        | inl refused ↦ rw refused (inr (λ h. cc, refl))
        | inr fine ↦ rw fine (
            connect-IsReleased amqp p.topology.url _ _ _
              (declare_and_confirm-Settles amqp p.topology))
      ],
  elim (Bool-cases
      (not (str_eq c.topology.exchange "") && str_eq c.topology.exchange_type "headers")) [
        | inl refused ↦ rw refused (inr (λ h. cc, refl))
        | inr fine ↦
            rw fine
              (connect-IsReleased amqp c.topology.url _ _ _ (declare_and_subscribe-Settles amqp c))
      ],
)
