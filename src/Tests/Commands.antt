-- ===== src/Tests/Commands.antt =====
-- `Listen`, `SetupComponents` and `TaskRunByPrimaryKey` of cmd, run on small inputs.
use mathlib.Core.List.{Permᴰ}
use cdc_trigger.Prelude.{
  ℕ, zero, suc, String, ◌≡◌, ◌≤◌, ◌+◌, ◌*◌, ◌++◌, Option, ◌⊎◌, inl, refl, true, none, some, List,
  [], ◌∷◌, length, arith,
}
use cdc_trigger.Errors.{GoError, Result, external, ok, err}
use cdc_trigger.Task.{LogTask}
use cdc_trigger.Task.Watchers.Routing.{routed}
use cdc_trigger.Cmd.Listen.{
  Pipeline, Step, start, channel_capacity, emit, receive, settle, source_ends, drained, finish,
  Reach, here, next,
}
use cdc_trigger.Cmd.Listen.Order.{Reach-fifo, Reach-closed, flying}
use cdc_trigger.Cmd.Listen.Termination.{Run-terminates, go_on, stay}
use cdc_trigger.Cmd.Listen.Shutdown.{shut_down, cancel_leaves_queue}
use cdc_trigger.Task.Watchers.FanOut.{started}
use cdc_trigger.Queue.Consumer.{ConsumerType}
use cdc_trigger.Cmd.TaskRun.Actions.{TaskConfig}
use cdc_trigger.Cmd.TaskRun.{build_tasks}
use cdc_trigger.Tests.Samples.{users, orders, user_changed}

-- One event was sent and is still in the channel.
abbrev waiting : Pipeline
waiting = record start { emitted = user_changed ∷ []; queue = user_changed ∷ [] }

sent_one : Reach start waiting
sent_one = next here (emit start user_changed refl (omega arith))

Reach-fifo_example :
    (waiting.emitted ≡ waiting.settled ++ (flying waiting.in_flight ++ waiting.queue))
    × (length waiting.queue ≤ channel_capacity)
Reach-fifo_example = Reach-fifo waiting sent_one

-- The event was delivered, and the source then ended by itself.
abbrev pub through : Pipeline
through = record start {
  emitted = user_changed ∷ [];
  settled = user_changed ∷ [];
  chan_closed = true;
  source_result = some none;
  consumer_done = true;
  closed = true;
  returned = some none;
}

pub went_through : Reach start through
went_through =
    next
      (next
        (next
          (next (next sent_one (receive waiting user_changed [] refl refl refl))
            (settle _ user_changed refl))
          (source_ends _ none refl))
        (drained _ refl refl refl refl))
      (finish _ none refl (inl refl) refl refl)

Reach-closed_example :
    (through.in_flight ≡ none) × ((through.cancelled ≡ true) ⊎ (through.settled ≡ through.emitted))
Reach-closed_example = Reach-closed through went_through refl

-- The source ended with the event still in the channel, and the consumer received it.
abbrev ended : Pipeline
ended = record waiting { chan_closed = true; source_result = some none }

abbrev taken : Pipeline
taken = record ended { queue = []; in_flight = some user_changed }

Run-terminates_example :
    (1 ≤ 2 * length ended.queue + 4)
    × (((r : Option GoError) × (taken.returned ≡ some r)) ⊎ ((t : Pipeline) × Step taken t))
Run-terminates_example =
    Run-terminates ended none 1 taken (next sent_one (source_ends waiting none refl)) refl
      (go_on stay (receive ended user_changed [] refl refl refl))

-- The event in the channel is lost.
cancel_leaves_queue_example : Reach waiting (shut_down waiting (external 8))
cancel_leaves_queue_example = cancel_leaves_queue waiting (external 8) refl refl refl refl

abbrev store_made : Result ℕ
store_made = ok 1

abbrev source_made : Result ℕ
source_made = ok 2

abbrev producer_failed : Result ℕ
producer_failed = err (external 3)

abbrev configured : List LogTask
configured = record { main = users; sub = orders ∷ [] } ∷ []

abbrev pub file : String → Result TaskConfig
file path = ok (record { consumer = ConsumerType.redis; tasks = configured })

abbrev pub in_start_order : List LogTask → String → List ℕ
in_start_order tasks table = started 0 (length (routed (build_tasks tasks) table))

pub in_order : (k n : ℕ) → Permᴰ (started k n) (started k n)
in_order k zero = Permᴰ.nil
in_order k (suc n) = Permᴰ.cons refl (in_order (suc k) n)
