-- ===== src/Queue/RabbitTopology/Agreement.antt =====
-- The two sides of RabbitMQ declare the same topology: queue/producer/rabbit.go and
-- queue/consumer/rabbit.go, whose comments ask for it.
use cdc_trigger.Prelude.{
  String, ◌≡◌, refl, sym, ap, ◌∙◌, Bool, true, false, not, ◌&&◌, none, some, List, [], ◌∷◌, arith,
  str_eq, if◌then◌else◌, Option-cases, inl, inr,
}
use cdc_trigger.Errors.{Value, str, int64, pos, GoError}
use cdc_trigger.Queue.Amqp.{
  Topology, Amqp, AmqpCall, Dialled, attempt, done, close_both, dial_server, open_channel,
  exchange_declare, queue_declare, queue_bind, confirm_mode, notify_close, notify_return,
  notify_publish, qos, consume_queue, close_channel, close_connection,
}
use cdc_trigger.Queue.Producer.RabbitDial
use cdc_trigger.Queue.Producer.RabbitDial.{declare_and_confirm}
use cdc_trigger.Queue.Consumer.RabbitMq
use cdc_trigger.Queue.Consumer.RabbitMq.Dial
use cdc_trigger.Queue.Consumer.RabbitMq.Dial.{declare_and_subscribe}

abbrev declares : AmqpCall → Bool
declares (exchange_declare n k d a) = true
declares (queue_declare n d a e w) = true
declares (queue_bind q k x w) = true
declares (dial_server u) = false
declares open_channel = false
declares close_channel = false
declares close_connection = false
declares confirm_mode = false
declares notify_close = false
declares notify_return = false
declares notify_publish = false
declares (qos n) = false
declares (consume_queue q t a e w) = false

-- The declarations and bindings among some calls.
abbrev pub declarations : List AmqpCall → List AmqpCall
declarations [] = []
declarations (c ∷ cs) = if declares c then c ∷ declarations cs else declarations cs

-- A topology with its defaults filled in.
abbrev completed : Topology → Topology
completed t = record t {
  exchange_type = if str_eq t.exchange_type "" then "direct" else t.exchange_type;
  routing_key = if str_eq t.routing_key "" then t.queue else t.routing_key;
}

-- What a side with this topology is to declare, in the order that the broker needs.
abbrev pub declared : Topology → List AmqpCall
declared t =
    let queue = queue_declare t.queue t.durable t.auto_delete t.exclusive t.no_wait in
    if not (str_eq t.exchange "")
    then exchange_declare t.exchange t.exchange_type t.durable t.auto_delete
      ∷ queue
      ∷ queue_bind t.queue t.routing_key t.exchange t.no_wait
      ∷ []
    else queue ∷ []

-- An attempt that succeeded made its call, and then what follows it.
attempt-none :
    (amqp : Amqp) (call : AmqpCall) (release : List AmqpCall) (f : String) (args : List Value)
    (rest : Dialled)
    → (attempt amqp call release f args rest).result ≡ none
    → ((attempt amqp call release f args rest).calls ≡ call ∷ rest.calls) × (rest.result ≡ none)
attempt-none amqp call release f args rest h = elim (Option-cases (amqp call)) [
  | inr (e, failed) ↦ absurd (ground (arith, failed, h))
  | inl made ↦ (ground (arith, made), ground (arith, made, h))
]

-- The declarations of a dialling, if it succeeded.
abbrev Declares : Dialled → List AmqpCall → Type 0
Declares d cs = d.result ≡ none → declarations d.calls ≡ cs

attempt-Declares :
    (amqp : Amqp) (call : AmqpCall) (release : List AmqpCall) (f : String) (args : List Value)
    (rest : Dialled) (cs : List AmqpCall)
    → Declares rest cs
    → Declares (attempt amqp call release f args rest) (if declares call then call ∷ cs else cs)
attempt-Declares amqp call release f args rest cs h good =
    let (calls, later) = attempt-none amqp call release f args rest good in rw (calls, h later)

if-Declares :
    (b : Bool) (d d' : Dialled) (cs cs' : List AmqpCall)
    → Declares d cs
    → Declares d' cs'
    → Declares (if b then d else d') (if b then cs else cs')
if-Declares true d d' cs cs' s s' = s
if-Declares false d d' cs cs' s s' = s'

module _ (amqp : Amqp) (t : Topology) where
  named : Bool
  named = not (str_eq t.exchange "")

  queue_of : AmqpCall
  queue_of = queue_declare t.queue t.durable t.auto_delete t.exclusive t.no_wait

  bind_of : AmqpCall
  bind_of = queue_bind t.queue t.routing_key t.exchange t.no_wait

  exchange_of : AmqpCall
  exchange_of = exchange_declare t.exchange t.exchange_type t.durable t.auto_delete

  by_name : List AmqpCall
  by_name = if named then bind_of ∷ [] else []

  declared-by_name :
      (if named then exchange_of ∷ queue_of ∷ by_name else queue_of ∷ by_name) ≡ declared t
  unfolding named queue_of bind_of exchange_of by_name
  declared-by_name = ground arith

  -- The declarations in front of `rest`, which declares nothing.
  declaring :
      (f g h : String) (x y z : List Value) (rest : Dialled)
      → Declares rest []
      → let bound = if named then attempt amqp bind_of close_both h z rest else rest in
        let queued = attempt amqp queue_of close_both g y bound in
        Declares
          (if named then attempt amqp exchange_of close_both f x queued else queued)
          (declared t)
  unfolding queue_of bind_of exchange_of by_name
  declaring f g h x y z rest nothing =
      let bound =
        if-Declares named (attempt amqp bind_of close_both h z rest) rest (bind_of ∷ []) []
          (attempt-Declares amqp bind_of close_both h z rest [] nothing) nothing in
      let bound_calls : Dialled =
        if named then attempt amqp bind_of close_both h z rest else rest in
      let queued = attempt-Declares amqp queue_of close_both g y bound_calls by_name bound in
      let queued_calls = attempt amqp queue_of close_both g y bound_calls in
      let all =
        if-Declares named (attempt amqp exchange_of close_both f x queued_calls) queued_calls
          (exchange_of ∷ queue_of ∷ by_name) (queue_of ∷ by_name)
          (attempt-Declares amqp exchange_of close_both f x queued_calls (queue_of ∷ by_name)
            queued)
          queued in
      λ good. all good ∙ declared-by_name

declare_and_confirm-Declares :
    (amqp : Amqp) (t : Topology) → Declares (declare_and_confirm amqp t) (declared t)
unfolding declare_and_confirm named queue_of bind_of exchange_of
declare_and_confirm-Declares amqp t =
    declaring amqp t _ _ _ _ _ _
      (attempt amqp confirm_mode close_both "failed to put the channel in confirm mode: %w" []
        (done (notify_close ∷ notify_return ∷ notify_publish ∷ [])))
      (attempt-Declares amqp confirm_mode close_both _ []
        (done (notify_close ∷ notify_return ∷ notify_publish ∷ [])) [] (λ _. refl))

declare_and_subscribe-Declares :
    (amqp : Amqp) (cfg : RabbitMq.RabbitMqConfig)
    → Declares (declare_and_subscribe amqp cfg) (declared cfg.topology)
unfolding declare_and_subscribe named queue_of bind_of exchange_of
declare_and_subscribe-Declares amqp cfg =
    let t = cfg.topology in
    let subscribe = consume_queue t.queue cfg.consumer_tag false t.exclusive t.no_wait in
    let subscribed =
      attempt amqp subscribe close_both "failed to consume from the queue %q: %w" (str t.queue ∷ [])
        (done []) in
    declaring amqp t _ _ _ _ _ _
      (attempt amqp (qos cfg.prefetch) close_both "failed to set the prefetch count to %d: %w"
        (int64 (pos cfg.prefetch) ∷ []) subscribed)
      (attempt-Declares amqp (qos cfg.prefetch) close_both _ _ subscribed []
        (attempt-Declares amqp subscribe close_both _ _ (done []) [] (λ _. refl)))

-- A refusal declares nothing, and is no success.
guard-Declares :
    (b : Bool) (e : GoError) (d : Dialled) (cs : List AmqpCall)
    → Declares d cs
    → Declares (if b then record { calls = []; result = some e } else d) cs
guard-Declares true e d cs s good = absurd (ground (arith, good))
guard-Declares false e d cs s good = s good

connect-Declares :
    (amqp : Amqp) (url f g : String) (rest : Dialled) (cs : List AmqpCall)
    → Declares rest cs
    → Declares
        (attempt amqp
          (dial_server url)
          []
          f
          []
          (attempt amqp open_channel (close_connection ∷ []) g [] rest))
        cs
connect-Declares amqp url f g rest cs s =
    attempt-Declares amqp (dial_server url) [] f []
      (attempt amqp open_channel (close_connection ∷ []) g [] rest) cs
      (attempt-Declares amqp open_channel (close_connection ∷ []) g [] rest cs s)

produces :
    (amqp : Amqp) (cfg : RabbitDial.RabbitMqConfig)
    → Declares (RabbitDial.dial amqp cfg) (declared cfg.topology)
unfolding RabbitDial.dial
produces amqp cfg =
    guard-Declares
      (not (str_eq cfg.topology.exchange "") && str_eq cfg.topology.exchange_type "headers") _ _
      (declared cfg.topology)
      (connect-Declares amqp cfg.topology.url _ _ (declare_and_confirm amqp cfg.topology) _
        (declare_and_confirm-Declares amqp cfg.topology))

consumes :
    (amqp : Amqp) (cfg : RabbitMq.RabbitMqConfig)
    → Declares (Dial.dial amqp cfg) (declared cfg.topology)
unfolding Dial.dial
consumes amqp cfg =
    guard-Declares
      (not (str_eq cfg.topology.exchange "") && str_eq cfg.topology.exchange_type "headers") _ _
      (declared cfg.topology)
      (connect-Declares amqp cfg.topology.url _ _ (declare_and_subscribe amqp cfg) _
        (declare_and_subscribe-Declares amqp cfg))

-- A producer and a consumer that were configured with the same topology, and that both connect,
-- declare the same exchange, queue and binding, in the same order, with the defaults filled in.
pub dials_agree :
    (here there : Amqp) (p : RabbitDial.RabbitMqConfig) (c : RabbitMq.RabbitMqConfig)
    → p.topology ≡ c.topology
    → (RabbitDial.dial here (RabbitDial.normalize_rabbit_config p)).result ≡ none
    → (Dial.dial there (RabbitMq.normalize_rabbit_config c)).result ≡ none
    → let sent = (RabbitDial.dial here (RabbitDial.normalize_rabbit_config p)).calls in
      let read = (Dial.dial there (RabbitMq.normalize_rabbit_config c)).calls in
      (declarations sent ≡ declarations read)
      × (declarations sent ≡ declared (RabbitDial.normalize_rabbit_config p).topology)
unfolding RabbitDial.normalize_rabbit_config RabbitMq.normalize_rabbit_config
dials_agree here there p c same sends reads =
    let sent = produces here (RabbitDial.normalize_rabbit_config p) sends in
    let read = consumes there (RabbitMq.normalize_rabbit_config c) reads in
    (sent ∙ ap (λ (t : Topology). declared (completed t)) same ∙ sym read, sent)
