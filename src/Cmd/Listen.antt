-- ===== src/Cmd/Listen.antt =====
-- `Listen` of cmd/clisten.go: the source goroutine, the goroutine that sends, and the main one,
-- joined by the event channel and the context. Their steps interleave in any order.
pub mod Order
pub mod Shutdown
pub mod Outcome
pub mod Termination
use cdc_trigger.Prelude.{
  ℕ, ◌<◌, ◌≡◌, ◌⊎◌, ◌≢◌, Bool, true, false, Option, none, some, List, [], ◌∷◌, length, snoc,
}
use cdc_trigger.Errors.{GoError}
use cdc_trigger.Types.{EventData}

-- The buffer of `eventDataChan` (source/mysql.go).
abbrev pub channel_capacity : ℕ
channel_capacity = 10240

-- `emitted`, `queue`, `in_flight` and `settled` follow the events: sent to the channel, waiting in
-- it, inside `SendWithRetry`, and returned from it, delivered or logged as failed. `source_result`
-- is what arrives on `sourceErrChan`, `closed` whether `CloseSetupComponents` was called, and
-- `returned` what `Listen` returned.
pub record Pipeline : Type 0 where
  pub emitted : List EventData
  pub queue : List EventData
  pub in_flight : Option EventData
  pub settled : List EventData
  pub chan_closed : Bool
  pub source_result : Option (Option GoError)
  pub cancelled : Bool
  pub consumer_done : Bool
  pub closed : Bool
  pub returned : Option (Option GoError)

abbrev pub start : Pipeline
start = record {
  emitted = [];
  queue = [];
  in_flight = none;
  settled = [];
  chan_closed = false;
  source_result = none;
  cancelled = false;
  consumer_done = false;
  closed = false;
  returned = none;
}

pub data Step : Pipeline → Pipeline → Type 0 where
  -- the send of `OnRow`, where the channel is open and its buffer has room
  emit :
      (p : Pipeline) (event : EventData)
      → p.chan_closed ≡ false
      → length p.queue < channel_capacity
      → Step p (record p { emitted = snoc p.emitted event; queue = snoc p.queue event })
  -- `iSource.Run` returns, having closed the channel
  source_ends :
      (p : Pipeline) (e : Option GoError)
      → p.source_result ≡ none
      → Step p (record p { chan_closed = true; source_result = some e })
  -- the caller's context is cancelled
  cancel : (p : Pipeline) → p.cancelled ≡ false → Step p (record p { cancelled = true })
  -- the consumer's select receives an event
  receive :
      (p : Pipeline) (event : EventData) (rest : List EventData)
      → p.consumer_done ≡ false
      → p.in_flight ≡ none
      → p.queue ≡ event ∷ rest
      → Step p (record p { queue = rest; in_flight = some event })
  -- `SendWithRetry` returns
  settle :
      (p : Pipeline) (event : EventData)
      → p.in_flight ≡ some event
      → Step p (record p { in_flight = none; settled = snoc p.settled event })
  -- the consumer's select finds the channel closed and empty
  drained :
      (p : Pipeline)
      → p.consumer_done ≡ false
      → p.in_flight ≡ none
      → p.queue ≡ []
      → p.chan_closed ≡ true
      → Step p (record p { consumer_done = true })
  -- the consumer's select takes `ctx.Done()`
  interrupted :
      (p : Pipeline)
      → p.consumer_done ≡ false
      → p.in_flight ≡ none
      → p.cancelled ≡ true
      → Step p (record p { consumer_done = true })
  -- the main goroutine receives an error of the source and cancels the context
  source_failed :
      (p : Pipeline) (e : GoError)
      → p.source_result ≡ some (some e)
      → p.cancelled ≡ false
      → Step p (record p { cancelled = true })
  -- `consumerWg.Wait()` is over, before which the context is cancelled if the source reported an
  -- error: the components are closed and `Listen` returns
  finish :
      (p : Pipeline) (e : Option GoError)
      → p.source_result ≡ some e
      → (e ≡ none) ⊎ (p.cancelled ≡ true)
      → p.consumer_done ≡ true
      → p.returned ≡ none
      → Step p (record p { closed = true; returned = some e })

pub data Reach (p : Pipeline) : Pipeline → Type 0 where
  here : Reach p p
  next : {q r : Pipeline} → Reach p q → Step q r → Reach p r
