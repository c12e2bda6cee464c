-- ===== src/Delivery/Tasks.antt =====
-- From the events that `Listen` (cmd/clisten.go) takes from its channel, over a Redis list, to the
-- runs of the tasks in task/runner.go.
use mathlib.Core.Path.{subst}
use mathlib.Core.List.{Perm}
use cdc_trigger.Prelude.{
  ℕ, ◌≤◌, ◌*◌, Bool, All, ◌≡◌, ◌⊎◌, sym, ap, ◌∙◌, true, Option, none, some, List, [], ◌∷◌, ◌++◌,
  map, reverse, length, arith,
}
use cdc_trigger.Errors.{ok}
use cdc_trigger.Types.{EventData}
use cdc_trigger.Task.{ITask}
use cdc_trigger.Task.Watchers.{Call}
use cdc_trigger.Task.Watchers.Routing.{routed}
use cdc_trigger.Task.Watchers.FanOut.{IsSchedule}
use cdc_trigger.Task.Runner.{IConsumer, Runner, new_runner, handle}
use cdc_trigger.Task.Runner.Routes.{event_key, wanted_calls, handle_calls}
use cdc_trigger.Queue.Consumer.{Unmarshal, Handler, process_message}
use cdc_trigger.Queue.Consumer.Redis.{RedisConfig, RedisRun, normalize_redis_config, consume}
use cdc_trigger.Queue.Producer.RedisProducer.{RedisProducer}
use cdc_trigger.Queue.RedisQueue.{ListServer, run, arrivals, pushes, ends, lost_replies}
use cdc_trigger.Queue.RedisQueue as Lists
use cdc_trigger.Queue.RedisQueue.Fifo.{redis_fifo}
use cdc_trigger.Queue.RedisQueue.Taken.{all_of, delivered, lost_count}
use cdc_trigger.Cmd.Listen.{Pipeline, start, Reach}
use cdc_trigger.Cmd.Listen.Order.{Reach-IsOrdered}
use cdc_trigger.Delivery.{Forward, forward, forward_calls, sends_of, task_runs}
use cdc_trigger.Delivery.Counts.{
  All-left, All-delivered, All-copies, taken-split, copies, Counted, event_of, counts,
  counts-Counted, arrivals-sends_of, arrivals-forward_calls,
}

-- The blocks are, in their order, reorderings of the others.
abbrev pub InOrder : List (List Call) → List (List Call) → Type 0
InOrder [] [] = Unit
InOrder [] (c ∷ cs) = ⊥
InOrder (b ∷ bs) [] = ⊥
InOrder (b ∷ bs) (c ∷ cs) = Perm b c × InOrder bs cs

abbrev pub task_handler : Runner → (EventData → List ℕ) → Handler
task_handler r order event = (handle r none event (order event)).error

-- The runs that a change asks of the tasks that watch its table, for the row that the decoded change
-- names.
abbrev pub wanted : List ITask → (EventData → EventData) → EventData → List Call
wanted tasks decoded event = wanted_calls (decoded event) (routed tasks (event_key event))

module _ (unmarshal : Unmarshal) (encode : EventData → List ℕ) (decoded : EventData → EventData)
    (Fit : EventData → Type 0)
    (reads : (event : EventData) → Fit event → unmarshal (encode event) ≡ ok (decoded event))
    (keeps : (event : EventData) → Fit event → event_key (decoded event) ≡ event_key event)
    (handler : Handler) (c : Option IConsumer) (tasks : List ITask) (r : Runner)
    (order : EventData → List ℕ) (built : new_runner c tasks ≡ ok r)
    (scheduled : (e : EventData) → IsSchedule (order e) (length (routed tasks (event_key e)))) where
  task_runs-InOrder :
      (events : List EventData)
      → All Fit events
      → InOrder
          (task_runs unmarshal r order
            (map (λ v. (v, process_message unmarshal handler v)) (map encode events)))
          (map (wanted tasks decoded) events)
  unfolding task_runs
  task_runs-InOrder [] fit = tt
  task_runs-InOrder (e ∷ events) (fit, fits) =
      let here =
        handle_calls c tasks r (decoded e) (order (decoded e)) built (scheduled (decoded e)) in
      rw (reads e fit) (
        subst
            (λ key.
              Perm (handle r none (decoded e) (order (decoded e))).calls
                (wanted_calls (decoded e) (routed tasks key)))
            (keeps e fit) here,
        task_runs-InOrder events fits,
      )

-- What `Listen` has settled when it has closed its components.
closed-settled :
    (l : Pipeline)
    → Reach start l
    → l.closed ≡ true
    → (l.emitted ≡ l.settled ++ l.queue) × ((l.cancelled ≡ true) ⊎ (l.queue ≡ []))
closed-settled l reached shut =
    let v = Reach-IsOrdered reached in
    let done : l.consumer_done ≡ true = ground (arith, v.last, shut) in
    let quiet : l.in_flight ≡ none = ground (arith, v.quiet, done) in
    (ground (arith, v.fifo, quiet), ground (arith, v.complete, done))

-- Where `Listen` has closed its components, `fs` are the events that it settled with what each of
-- their sendings met, and its calls of `Send` mix in any way with the turns of a consumer that
-- nothing asks to stop, replies lost and errors included, on a Redis list with one key that is empty
-- at first and a server that keeps to the laws of `ListServer`; where one call of the client pushes
-- its value at most `most` times, every event of `fs` is one of those (`Fit`) for which decoding what
-- was encoded gives `decoded` of it, with the table it had, and the contexts of the runs are live: the
-- events that the source emitted are
-- those of `fs` and then those left in the channel, which is empty if the context was never
-- cancelled. Each of `fs` has a number of copies, at most `4 * most`, and at least one unless
-- `SendWithRetry` returned an error for it. The copies, in the order of the events, fall into those
-- that were taken from the list and those still in it, the oldest first. Of the taken ones no more
-- are lost than replies to BRPOP were, and the tasks were run for each of the others, in that order:
-- each task that watches the table of the event once for the row that `decoded` of it names. The
-- consumer ended at the first error of BRPOP other than `redis.Nil`, or reads on.
pub emitted_reaches_tasks :
    {S : Type 0} (server : ListServer S) (unmarshal : Unmarshal) (encode : EventData → List ℕ)
    (decoded : EventData → EventData) (p : RedisProducer) (cfg : RedisConfig) (name : List ℕ)
    (float_overflow most : ℕ) (l : Pipeline) (fs : List Forward) (calls : List Lists.Call) (s : S)
    (c : Option IConsumer) (tasks : List ITask) (r : Runner) (order : EventData → List ℕ)
    (Fit : EventData → Type 0)
    → ((event : EventData) → Fit event → unmarshal (encode event) ≡ ok (decoded event))
    → ((event : EventData) → Fit event → event_key (decoded event) ≡ event_key event)
    → p.key ≡ (normalize_redis_config cfg).key
    → server.contents (normalize_redis_config cfg).key s ≡ []
    → Reach start l
    → l.closed ≡ true
    → map event_of fs ≡ l.settled
    → All (λ f. Fit f.event) fs
    → All (λ f. (i : ℕ) → pushes (f.network i) ≤ most) fs
    → sends_of calls ≡ forward_calls float_overflow p encode fs
    → new_runner c tasks ≡ ok r
    → ((e : EventData) → IsSchedule (order e) (length (routed tasks (event_key e))))
    → let key = (normalize_redis_config cfg).key in
      let (last, seen) = run server p key name true calls s in
      let consumed = consume unmarshal (some (task_handler r order)) seen in
      (l.emitted ≡ map event_of fs ++ l.queue)
      × ((l.cancelled ≡ true) ⊎ (l.queue ≡ []))
      × (ns : List ℕ) × (taken : List (Bool × EventData)) × (back : List EventData) × Counted
          (4 * most)
          (λ f. (forward float_overflow p encode f).result)
          fs
          ns
      × (all_of taken ++ back ≡ copies ns (map event_of fs))
      × (lost_count taken ≤ lost_replies calls)
      × (consumed.ended ≡ ends calls)
      × InOrder
          (task_runs unmarshal r order consumed.handled)
          (map (wanted tasks decoded) (delivered taken))
      × (reverse (server.contents key last) ≡ map encode back)
emitted_reaches_tasks server unmarshal encode decoded p cfg name float_overflow most l fs calls s c
      tasks r order Fit reads keeps same empty reached shut events fits bounds mixed built
      scheduled =
    let key = (normalize_redis_config cfg).key in
    let handler = task_handler r order in
    let (all, rest) = closed-settled l reached shut in
    let ns = counts float_overflow p encode fs in
    let (vs, done, arrived, few) =
      redis_fifo server unmarshal handler p cfg name calls s same empty in
    let sent : arrivals calls ≡ map encode (copies ns (map event_of fs)) =
      sym (arrivals-sends_of calls)
      ∙ ap arrivals mixed
      ∙ arrivals-forward_calls float_overflow p encode fs in
    let (taken, back, whole, first, lost, left) =
      taken-split encode vs _ (copies ns (map event_of fs)) (arrived ∙ sent) in
    let taken_fit : All Fit (delivered taken) = All-delivered Fit taken (
      All-left Fit (all_of taken) back (subst (All Fit) (sym whole) (All-copies Fit ns fs fits))) in
    (
      all ∙ ap (λ es. es ++ l.queue) (sym events),
      rest,
      ns,
      taken,
      back,
      counts-Counted float_overflow p encode most fs bounds,
      whole,
      omega (arith, lost, few),
      ap (λ (d : RedisRun). d.ended) done,
      subst
          (λ (d : RedisRun).
            InOrder (task_runs unmarshal r order d.handled)
              (map (wanted tasks decoded) (delivered taken)))
          (sym done)
          (subst
            (λ ws.
              InOrder
                (task_runs unmarshal r order
                  (map (λ v. (v, process_message unmarshal handler v)) ws))
                (map (wanted tasks decoded) (delivered taken)))
            (sym first)
            (task_runs-InOrder unmarshal encode decoded Fit reads keeps handler c tasks r order
              built scheduled (delivered taken) taken_fit)),
      left,
    )
