-- ===== src/Tests/Publishes.antt =====
-- The client and the producer of queue/producer/rabbit.go, run on one or two messages.
use cdc_trigger.Prelude.{◌≡◌, ◌↔◌, ◌≤◌, ◌⊎◌, refl, true, false, none, some, [], ◌∷◌, arith}
use cdc_trigger.Errors.{external, ok, errorf}
use cdc_trigger.Queue.Producer.RabbitClient.{
  at_tag, new_rabbit_client, settle, publish_locked, put, remove,
}
use cdc_trigger.Queue.Producer.RabbitClient.Waiters.{
  World, publishes, ClientReach, here, next, told, ClientReach-at_most_once, fresh_world, confirms,
}
use cdc_trigger.Queue.Producer.RabbitProducer.{SendCalls, send}
use cdc_trigger.Queue.Producer.RabbitProducer.Resend.{send_none_iff, IsMended}

-- Two messages are on the wire, and their publishes wait.
abbrev two_waiting : World
two_waiting = record {
  client = record { seq = 2; waiters = (2, 1) ∷ (1, 0) ∷ []; returned = []; dead = none };
  answers = [];
  wire = 0 ∷ 1 ∷ [];
  made = 2;
}

two_published : ClientReach two_waiting
unfolding new_rabbit_client publish_locked put remove
two_published =
    next (next here (publishes fresh_world none (omega arith))) (publishes _ none (omega arith))

-- The second message is confirmed first.
abbrev one_told : World
one_told = record {
  client = record { seq = 2; waiters = (1, 0) ∷ []; returned = []; dead = none };
  answers = (1, none) ∷ [];
  wire = 0 ∷ 1 ∷ [];
  made = 2;
}

one_confirmed : ClientReach one_told
unfolding settle at_tag remove
one_confirmed = next two_published (confirms two_waiting 2 true)

ClientReach-at_most_once_example : told 1 one_told.answers ≤ 1
ClientReach-at_most_once_example = ClientReach-at_most_once one_told 1 one_confirmed

-- The channel died, and the second connection takes the message.
abbrev mended : SendCalls
mended = record {
  marshal = none;
  first_dial = ok 3;
  first_publish = some (external 5);
  health = some (errorf "the channel is closed" []);
  second_dial = ok 4;
  third_dial = ok 9;
  second_publish = none;
}

send_none_iff_example :
    ((send mended (record { client = some 3; closed = false })).result ≡ none)
    ↔ ((mended.first_publish ≡ none) ⊎ IsMended mended)
send_none_iff_example = send_none_iff mended 3 refl
