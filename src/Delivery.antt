-- ===== src/Delivery.antt =====
-- From the event channel of `Listen` (cmd/clisten.go) to the tasks (task/runner.go), where the queue
-- between the two programs is a Redis list: what the parts do together.
pub mod Counts
pub mod Tasks
use cdc_trigger.Prelude.{ℕ, zero, suc, Option, none, List, [], ◌∷◌, ◌++◌}
use cdc_trigger.Errors.{GoError, pos, ok, err}
use cdc_trigger.Types.{EventData}
use cdc_trigger.Task.Watchers.{Call}
use cdc_trigger.Task.Runner.{Runner, handle}
use cdc_trigger.Queue.Consumer.{Unmarshal, Disposition}
use cdc_trigger.Queue.Producer.{Attempts, Sent, send_with_retry}
use cdc_trigger.Queue.Producer.RedisProducer.{Network, RedisProducer, send}
use cdc_trigger.Queue.RedisQueue.{sends, turns}
use cdc_trigger.Queue.RedisQueue as Lists

-- An event that the consumer goroutine of `Listen` takes from the channel, and what the attempts at
-- it and the waits between them meet.
pub record Forward : Type 0 where
  pub event : EventData
  pub network : ℕ → Network
  pub interrupted : ℕ → Option GoError

-- The calls of `Send` for `k` attempts from index `i` on.
abbrev pub sends_from : List ℕ → (ℕ → Network) → ℕ → ℕ → List Lists.Call
sends_from payload network i zero = []
sends_from payload network i (suc k) =
    sends (ok payload) (network i) ∷ sends_from payload network (suc i) k

module _ (float_overflow : ℕ) (p : RedisProducer) (encode : EventData → List ℕ) where
  -- What `Send` reports does not depend on what the list holds.
  unfoldable pub tries : Forward → Attempts
  unfolding send
  tries f = record {
    send = λ i. (send (λ key v (s : Unit {0}). s) (ok (encode f.event)) (f.network i) p tt).0;
    interrupted = f.interrupted;
  }

  -- `producer.SendWithRetry(ctx, iProducer, event, 3)`, whose error is only logged.
  unfoldable pub forward : Forward → Sent
  unfolding tries
  forward f = send_with_retry float_overflow (tries f) (pos 3)

  -- The calls of `Send` that the goroutine makes for these events, one event after another.
  unfoldable pub forward_calls : List Forward → List Lists.Call
  unfolding forward
  forward_calls [] = []
  forward_calls (f ∷ fs) =
      sends_from (encode f.event) f.network 0 (forward f).sends ++ forward_calls fs

-- The calls of `Send` among the calls of both sides.
abbrev pub sends_of : List Lists.Call → List Lists.Call
sends_of [] = []
sends_of (sends marshalled network ∷ calls) = sends marshalled network ∷ sends_of calls
sends_of (turns n failed ∷ calls) = sends_of calls

-- The runs of tasks, in a block for each message that the consumer hands to `Runner.handle`.
unfoldable pub task_runs :
    Unmarshal → Runner → (EventData → List ℕ) → List (List ℕ × Disposition) → List (List Call)
unfolding handle
task_runs unmarshal r order [] = []
task_runs unmarshal r order ((payload, d) ∷ rest) =
    let more = task_runs unmarshal r order rest in
    elim (unmarshal payload) [
      | err e ↦ more
      | ok event ↦ (handle r none event (order event)).calls ∷ more
    ]
