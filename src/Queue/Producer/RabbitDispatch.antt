-- ===== src/Queue/Producer/RabbitDispatch.antt =====
-- `dispatch` of queue/producer/rabbit.go: the one reader of the channels on which the library hands
-- over what the broker sent, and the client together with these channels as steps.
pub mod Known
pub mod Delivered
use cdc_trigger.Prelude.{
  ℕ, suc, ◌+◌, ◌^◌, ◌≤◌, ◌<◌, ◌≡◌, Bool, true, false, Option, none, some, List, [], ◌∷◌, ◌++◌, snoc,
  ◌==◌, if◌then◌else◌,
}
use cdc_trigger.Errors.{Value, GoError}
use cdc_trigger.Queue.Producer.RabbitClient.{
  RabbitClient, Answers, mark_returned, settle, stop, publish_locked,
}
use cdc_trigger.Queue.Producer.RabbitClient.Waiters.{World, fresh_world, on_wire}

-- A returned message: what `strconv.ParseUint` reads in its id, if it can, and what the broker
-- replied.
pub record Return : Type 0 where
  pub message_id : Option ℕ
  pub reply : List Value

-- `markReturned`, of any message.
unfoldable pub take_return : Return → RabbitClient → RabbitClient
unfolding mark_returned
take_return r c = elim r.message_id [ none ↦ c | some tag ↦ mark_returned tag r.reply c ]

-- `drainReturns`, of what the channel holds.
unfoldable pub drain_returns : List Return → RabbitClient → RabbitClient
unfolding take_return
drain_returns [] c = c
drain_returns (r ∷ rs) c = drain_returns rs (take_return r c)

-- The case of `dispatch` for a confirmation.
unfoldable pub on_confirmation : List Return → ℕ → Bool → RabbitClient → RabbitClient × Answers
unfolding drain_returns settle
on_confirmation waiting tag ack c = settle tag ack (drain_returns waiting c)

-- The client with the channels `returns` and `confirms`, and the tags of the messages that the
-- broker has sent back, of those it has confirmed, and of those it has acknowledged among them, as
-- the library read them.
pub record Link : Type 0 where
  pub world : World
  pub returns : List Return
  pub confirms : List (ℕ × Bool)
  pub sent_back : List ℕ
  pub confirmed : List ℕ
  pub acked : List ℕ

abbrev pub includes : ℕ → List ℕ → Bool
includes t [] = false
includes t (x ∷ xs) = if x == t then true else includes t xs

abbrev pub fresh_link : Link
fresh_link = record {
  world = fresh_world;
  returns = [];
  confirms = [];
  sent_back = [];
  confirmed = [];
  acked = [];
}

-- `reads` are the library's: it reads the broker's frames in their order. The broker sends back a
-- message only that was published, and only before it confirms it. `takes` are the dispatcher's.
pub data LinkStep : Link → Link → Type 0 where
  publishes :
      (s : Link) (reported : Option GoError)
      → s.world.client.seq + 1 < 2 ^ 64
      → LinkStep s (record s {
        world = record {
          client = (publish_locked s.world.made reported s.world.client).0;
          answers = s.world.answers;
          wire = on_wire s.world.client.dead reported s.world.made s.world.wire;
          made = suc s.world.made;
        };
      })
  reads_return :
      (s : Link) (tag : ℕ) (reply : List Value)
      → tag ≤ s.world.client.seq
      → includes tag s.confirmed ≡ false
      → LinkStep s (record s {
        returns = snoc s.returns (record { message_id = some tag; reply = reply });
        sent_back = tag ∷ s.sent_back;
      })
  reads_foreign_return :
      (s : Link) (reply : List Value)
      → LinkStep s
          (record s { returns = snoc s.returns (record { message_id = none; reply = reply }) })
  reads_confirmation :
      (s : Link) (tag : ℕ) (ack : Bool)
      → LinkStep s (record s {
        confirms = snoc s.confirms (tag, ack);
        confirmed = tag ∷ s.confirmed;
        acked = if ack then tag ∷ s.acked else s.acked;
      })
  takes_return :
      (s : Link) (r : Return) (rest : List Return)
      → s.returns ≡ r ∷ rest
      → LinkStep s (record s {
        world = record s.world { client = take_return r s.world.client };
        returns = rest;
      })
  takes_confirmation :
      (s : Link) (tag : ℕ) (ack : Bool) (rest : List (ℕ × Bool))
      → s.confirms ≡ (tag, ack) ∷ rest
      → LinkStep s (record s {
        world = record s.world {
          client = (on_confirmation s.returns tag ack s.world.client).0;
          answers = (on_confirmation s.returns tag ack s.world.client).1 ++ s.world.answers;
        };
        returns = [];
        confirms = rest;
      })
  stops :
      (s : Link) (e : GoError)
      → LinkStep s (record s {
        world = record s.world {
          client = (stop e s.world.client).0;
          answers = (stop e s.world.client).1 ++ s.world.answers;
        };
      })

pub data LinkReach : Link → Type 0 where
  here : LinkReach fresh_link
  next : {s t : Link} → LinkReach s → LinkStep s t → LinkReach t
