-- ===== src/Queue/Producer/RabbitClient.antt =====
-- The bookkeeping of `rabbitClient` (queue/producer/rabbit.go): which publish waits for which
-- confirmation. Each function is what happens under the lock, or what the dispatcher does of it.
pub mod Waiters
pub mod Tags
use Prim.Native.Nat.{◌^◌}
use cdc_trigger.Prelude.{
  ℕ, suc, ◌+◌, ◌-◌, ◌%◌, Bool, true, false, Option, none, some, List, [], ◌∷◌, ◌++◌, map, ◌==◌,
  if◌then◌else◌,
}
use cdc_trigger.Errors.{Value, str, GoError, sentinel, unroutable, errorf, wrapf, Result, ok, err}

-- `map[uint64]V`, by tag
abbrev pub Tagged : Type 0 → Type 0
Tagged V = List (ℕ × V)

module _ {V : Type 0} where
  unfoldable pub at_tag : ℕ → Tagged V → Option V
  at_tag tag [] = none
  at_tag tag ((t, v) ∷ rest) = let later = at_tag tag rest in if t == tag then some v else later

  unfoldable pub remove : ℕ → Tagged V → Tagged V
  remove tag [] = []
  remove tag ((t, v) ∷ rest) =
      let later = remove tag rest in if t == tag then later else (t, v) ∷ later

  unfoldable pub put : ℕ → V → Tagged V → Tagged V
  unfolding remove
  put tag v m = (tag, v) ∷ remove tag m

-- The fields that `mu` guards. A waiter is the channel of one publish, named by a number.
pub record RabbitClient : Type 0 where
  pub seq : ℕ
  pub waiters : Tagged ℕ
  pub returned : Tagged GoError
  pub dead : Option GoError

unfoldable pub new_rabbit_client : RabbitClient
new_rabbit_client = record { seq = 0; waiters = []; returned = []; dead = none }

-- What is sent to waiters: which, and the error or nil.
abbrev pub Answers : Type 0
Answers = List (ℕ × Option GoError)

-- `markReturned`, for a message whose id is a tag; `reply` is what the broker sent back: the code,
-- the text, the exchange and the routing key.
unfoldable pub mark_returned : ℕ → List Value → RabbitClient → RabbitClient
unfolding at_tag put
mark_returned tag reply c = elim (at_tag tag c.waiters) [
  | none ↦ c
  | some w ↦ record c {
    returned =
        put tag
          (wrapf "%w: the broker replied %d %s for the exchange %q and the routing key %q (%s)"
            (reply ++ str "no queue is bound to that exchange with that key" ∷ [])
            (sentinel unroutable))
          c.returned;
  }
]

-- `settle`, of a confirmation with its delivery tag and its `Ack`.
unfoldable pub settle : ℕ → Bool → RabbitClient → RabbitClient × Answers
unfolding at_tag remove
settle tag ack c =
    let rest = record c { waiters = remove tag c.waiters; returned = remove tag c.returned } in
    elim (at_tag tag c.waiters) [
      | none ↦ (rest, [])
      | some w ↦ elim (at_tag tag c.returned) [
        | some e ↦ (rest, (w, some e) ∷ [])
        | none ↦
            if ack
            then (rest, (w, none) ∷ [])
            else (rest, (w, some (errorf "RabbitMQ rejected the message" [])) ∷ [])
      ]
    ]

-- `stop`, whose `stopOnce` lets only the first call through: `dead` is set by it alone.
unfoldable pub stop : GoError → RabbitClient → RabbitClient × Answers
stop e c = elim c.dead [
  | some first ↦ (c, [])
  | none ↦ (
    record { seq = c.seq; waiters = []; returned = []; dead = some e },
    map (λ (tw : ℕ × ℕ). (tw.1, some e)) c.waiters,
  )
]

-- The part of `publish` under the lock, for a new waiter `w`, over what `PublishWithContext`
-- reports: the error it returns, or the tag that the waiter stands under.
unfoldable pub publish_locked : ℕ → Option GoError → RabbitClient → RabbitClient × Result ℕ
unfolding put remove
publish_locked w reported c = elim c.dead [
  | some e ↦ (c, err e)
  | none ↦
      let tag = (c.seq + 1) % 2 ^ 64 in
      let waiting = put tag w c.waiters in
      elim reported [
        | none ↦ (record c { seq = tag; waiters = waiting }, ok tag)
        | some e ↦ (
          record c { seq = (tag + (2 ^ 64 - 1)) % 2 ^ 64; waiters = remove tag waiting },
          err (wrapf "failed to publish to RabbitMQ: %w" [] e),
        )
      ]
]

-- What the AMQP channel of a client says of itself: whether there is one, and whether it is closed.
pub record ChannelState : Type 0 where
  pub is_there : Bool
  pub is_closed : Bool

-- `err`: `done` is closed just after `dead` is set, so it is never closed without it.
unfoldable pub client_err : ChannelState → RabbitClient → Option GoError
client_err channel c = elim c.dead [
  | some e ↦ some e
  | none ↦
      if channel.is_there
      then (if channel.is_closed then some (errorf "the channel is closed" []) else none)
      else some (errorf "the client has no channel" [])
]

-- What ends the wait of a publish: the answer on its waiter, the end of the client, which has then
-- died of an error, or the context.
pub data Waited : Type 0 where
  answered : Option GoError → Waited
  client_done : GoError → Waited
  context_done : GoError → Waited

-- The select at the end of `publish`.
unfoldable pub wait_answer : Waited → Option GoError
wait_answer (answered r) = r
wait_answer (client_done dead) = some dead
wait_answer (context_done e) = some (wrapf "waiting for the publisher confirmation: %w" [] e)

-- `publish`, for a new waiter `w`: the client after its locked section, and what it returns.
unfoldable pub publish :
    ChannelState → ℕ → Option GoError → Waited → RabbitClient → RabbitClient × Option GoError
unfolding client_err publish_locked wait_answer
publish channel w reported waited c = elim (client_err channel c) [
  | some e ↦ (c, some e)
  | none ↦
      let (after, sent) = publish_locked w reported c in
      elim sent [ err e ↦ (after, some e) | ok tag ↦ (after, wait_answer waited) ]
]
