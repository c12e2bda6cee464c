-- ===== src/Cmd/Listen/Shutdown.antt =====
-- What a cancelled context leaves in the channel of `Listen` (cmd/clisten.go).
use cdc_trigger.Prelude.{◌≡◌, refl, sym, ap, inl, inr, Bool, true, false, none, some, Bool-cases}
use cdc_trigger.Errors.{GoError}
use cdc_trigger.Cmd.Listen.{Pipeline, source_ends, cancel, interrupted, finish, Reach, here, next}

-- The state after the shutdown that a cancelled context with error `e` may bring about.
abbrev pub shut_down : Pipeline → GoError → Pipeline
shut_down p e = record p {
  cancelled = true;
  chan_closed = true;
  source_result = some (some e);
  consumer_done = true;
  closed = true;
  returned = some (some e);
}

cancelled_by : (p : Pipeline) → Reach p (record p { cancelled = true })
cancelled_by p = elim (Bool-cases p.cancelled) [
  | inl gone ↦ rw (ap (λ (b : Bool). record p { cancelled = b }) (sym gone)) here
  | inr alive ↦ next here (cancel p alive)
]

-- From every state that is still running with nothing in flight, a cancelled context lets
-- `Listen` return with the channel, and what was sent or logged, as they stand.
pub cancel_leaves_queue :
    (p : Pipeline) (e : GoError)
    → p.in_flight ≡ none
    → p.source_result ≡ none
    → p.consumer_done ≡ false
    → p.returned ≡ none
    → Reach p (shut_down p e)
cancel_leaves_queue p e flight running working open_ =
    next
      (next (next (cancelled_by p) (interrupted _ working flight refl))
        (source_ends _ (some e) running))
      (finish _ (some e) refl (inr refl) refl open_)
