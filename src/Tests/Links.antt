-- ===== src/Tests/Links.antt =====
-- The links to RabbitMQ on concrete inputs: the dialling of both sides, and the producer's channel.
use cdc_trigger.Prelude.{ℕ, ◌≡◌, ◌-◌, refl, true, false, none, some, [], ◌∷◌, get_elem?, arith}
use cdc_trigger.Errors.{GoError, external, wrapf, str, sentinel, unroutable}
use cdc_trigger.Queue.Amqp.{Amqp, queue_bind}
use cdc_trigger.Queue.Consumer.RabbitMq
use cdc_trigger.Queue.Consumer.RabbitMq.Dial
use cdc_trigger.Queue.Producer.RabbitDial
use cdc_trigger.Queue.RabbitTopology.Agreement.{declarations, declared, dials_agree}
use cdc_trigger.Queue.RabbitTopology.Releases.{IsReleased, dials-IsReleased}
use cdc_trigger.Queue.Producer.RabbitClient.{
  new_rabbit_client, publish_locked, settle, at_tag, put, remove, mark_returned,
}
use cdc_trigger.Queue.Producer.RabbitDispatch.{
  Link, fresh_link, LinkReach, here, next, publishes, reads_return, reads_confirmation,
  takes_confirmation, includes, on_confirmation,
}
use cdc_trigger.Queue.Producer.RabbitDispatch.Delivered.{LinkReach-delivered}
use cdc_trigger.Tests.Samples.{topology}

abbrev sending : RabbitDial.RabbitMqConfig
sending = record { topology = topology; auto_ack = false }

abbrev receiving : RabbitMq.RabbitMqConfig
receiving = record { topology = topology; prefetch = 10; drop_on_error = false; consumer_tag = "" }

-- The server refuses every binding.
abbrev unbound : Amqp
unbound (queue_bind queue key exchange no_wait) = some (external 403)
unbound call = none

dials-IsReleased_example :
    IsReleased unbound (RabbitDial.dial unbound sending)
    × IsReleased unbound (Dial.dial unbound receiving)
dials-IsReleased_example = dials-IsReleased unbound sending receiving

abbrev willing : Amqp
willing call = none

dials_agree_example :
    let sent = (RabbitDial.dial willing (RabbitDial.normalize_rabbit_config sending)).calls in
    let read = (Dial.dial willing (RabbitMq.normalize_rabbit_config receiving)).calls in
    (declarations sent ≡ declarations read)
    × (declarations sent ≡ declared (RabbitDial.normalize_rabbit_config sending).topology)
unfolding RabbitDial.dial Dial.dial RabbitDial.normalize_rabbit_config
    RabbitMq.normalize_rabbit_config
dials_agree_example = dials_agree willing willing sending receiving refl refl refl

abbrev astray : GoError
astray =
    wrapf "%w: the broker replied %d %s for the exchange %q and the routing key %q (%s)"
      (str "no queue is bound to that exchange with that key" ∷ []) (sentinel unroutable)

-- Two messages are published, the first is sent back, and both are confirmed.
abbrev answered : Link
answered = record {
  world = record {
    client = record { seq = 2; waiters = []; returned = []; dead = none };
    answers = (1, none) ∷ (0, some astray) ∷ [];
    wire = 0 ∷ 1 ∷ [];
    made = 2;
  };
  returns = [];
  confirms = [];
  sent_back = 1 ∷ [];
  confirmed = 2 ∷ 1 ∷ [];
  acked = 2 ∷ 1 ∷ [];
}

both_answered : LinkReach answered
unfolding new_rabbit_client publish_locked put remove at_tag mark_returned settle on_confirmation
both_answered =
    let out =
      next (next here (publishes fresh_link none (omega arith))) (publishes _ none (omega arith)) in
    let back =
      next (next out (reads_return _ 1 [] (omega arith) refl)) (reads_confirmation _ 1 true) in
    let first = next back (takes_confirmation _ 1 true [] refl) in
    next (next first (reads_confirmation _ 2 true)) (takes_confirmation _ 2 true [] refl)

LinkReach-delivered_example :
    (tag : ℕ) × (get_elem? answered.world.wire (tag - 1) ≡ some 1)
    × (includes tag answered.acked ≡ true)
    × (includes tag answered.sent_back ≡ false)
LinkReach-delivered_example = LinkReach-delivered answered 1 both_answered refl
