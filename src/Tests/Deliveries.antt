-- ===== src/Tests/Deliveries.antt =====
-- A change that goes from the channel of `Listen` (cmd/clisten.go) to the tasks.
use cdc_trigger.Prelude.{
  ℕ, zero, suc, ◌≤◌, Bool, arith, String, ◌≡◌, ◌⊎◌, refl, sym, true, none, some, List, [], ◌∷◌,
  ◌++◌, map, reverse, length,
}
use cdc_trigger.Errors.{any_in, ok}
use cdc_trigger.Types.{EventData}
use cdc_trigger.Task.Watchers.Routing.{routed}
use cdc_trigger.Task.Watchers.FanOut.{started}
use cdc_trigger.Task.Runner.Routes.{event_key}
use cdc_trigger.Queue.Consumer.Redis.{normalize_redis_config, consume}
use cdc_trigger.Queue.Producer.{send_with_retry, send_loop, is_retriable}
use cdc_trigger.Queue.Producer.RedisProducer
use cdc_trigger.Queue.RedisQueue.{sends, turns, run, pushes, ends, lost_replies}
use cdc_trigger.Queue.RedisQueue.Taken.{all_of, delivered, lost_count}
use cdc_trigger.Queue.RedisQueue as Queues
use cdc_trigger.Delivery.{Forward, tries, forward, forward_calls, sends_of, task_runs}
use cdc_trigger.Delivery.Counts.{copies, Counted, event_of}
use cdc_trigger.Delivery.Tasks.{InOrder, task_handler, wanted, emitted_reaches_tasks}
use cdc_trigger.Tests.Samples.{tasks, user_changed}
use cdc_trigger.Tests.Routing.{runner, built}
use cdc_trigger.Tests.RedisLists.{memory, plain, unset, flaky, by_time, at_time, reads_time}
use cdc_trigger.Tests.Commands.{through, went_through, in_order}

abbrev sent_once : List Forward
sent_once = record { event = user_changed; network = flaky; interrupted = λ i. none } ∷ []

-- The first attempt pushes the event, the second does not, and the consumer reads meanwhile; the
-- third pushes it twice, and the first of these is lost with the reply that brings it.
abbrev traffic : List Queues.Call
traffic =
    sends (ok (by_time user_changed)) (flaky 0)
    ∷ turns 0 none
    ∷ sends (ok (by_time user_changed)) (flaky 1)
    ∷ turns 0 none
    ∷ sends (ok (by_time user_changed)) (flaky 2)
    ∷ turns 1 none
    ∷ []

pushes_few : (i : ℕ) → pushes (flaky i) ≤ 2
pushes_few zero = omega arith
pushes_few (suc zero) = omega arith
pushes_few (suc (suc i)) = omega arith

mixed : sends_of traffic ≡ forward_calls 0 plain by_time sent_once
unfolding forward_calls forward tries send_with_retry send_loop is_retriable any_in
    RedisProducer.send
mixed = refl

abbrev by_start : EventData → List ℕ
by_start e = started 0 (length (routed tasks (event_key e)))

-- The encoding of this test keeps no table, and serves the events of one table.
abbrev Fit : EventData → Type 0
Fit event = event_key event ≡ event_key user_changed

emitted_reaches_tasks_example :
    let key = (normalize_redis_config unset).key in
    let (last, seen) = run memory plain key [] true traffic (λ (k : String). []) in
    let consumed = consume reads_time (some (task_handler runner by_start)) seen in
    (through.emitted ≡ map event_of sent_once ++ through.queue)
    × ((through.cancelled ≡ true) ⊎ (through.queue ≡ []))
    × (ns : List ℕ) × (taken : List (Bool × EventData)) × (back : List EventData) × Counted 8
        (λ f. (forward 0 plain by_time f).result)
        sent_once
        ns
    × (all_of taken ++ back ≡ copies ns (map event_of sent_once))
    × (lost_count taken ≤ lost_replies traffic)
    × (consumed.ended ≡ ends traffic)
    × InOrder
        (task_runs reads_time runner by_start consumed.handled)
        (map (wanted tasks at_time) (delivered taken))
    × (reverse (memory.contents key last) ≡ map by_time back)
unfolding normalize_redis_config
emitted_reaches_tasks_example =
    emitted_reaches_tasks memory reads_time by_time at_time plain unset [] 0 2 through sent_once
      traffic (λ (k : String). []) none tasks runner by_start Fit (λ event fit. refl)
      (λ event fit. sym fit) refl refl went_through refl refl (refl, tt) (pushes_few, tt) mixed
      built (λ e. in_order 0 (length (routed tasks (event_key e))))
