-- ===== src/Cmd/Listen/Order.antt =====
-- The order of the events through `Listen` (cmd/clisten.go), and when its components are closed.
use mathlib.Core.List.{append_assoc, append-nil}
use cdc_trigger.Prelude.{
  ◌≤◌, ◌≡◌, refl, ap, ◌∙◌, ◌⊎◌, inl, inr, true, false, Option, none, some, List, [], ◌∷◌, ◌++◌,
  length, length-append, snoc, arith,
}
use cdc_trigger.Types.{EventData}
use cdc_trigger.Cmd.Listen.{
  Pipeline, channel_capacity, start, Step, emit, source_ends, cancel, receive, settle, drained,
  interrupted, source_failed, finish, Reach, here, next,
}

-- The event inside `SendWithRetry`, as a list.
abbrev pub flying : Option EventData → List EventData
flying none = []
flying (some event) = event ∷ []

pub record IsOrdered (p : Pipeline) : Type 0 where
  pub fifo : p.emitted ≡ p.settled ++ (flying p.in_flight ++ p.queue)
  pub bounded : length p.queue ≤ channel_capacity
  pub quiet : (p.consumer_done ≡ false) ⊎ (p.in_flight ≡ none)
  pub complete :
      (p.consumer_done ≡ false) ⊎ (p.cancelled ≡ true) ⊎ (p.queue ≡ []) × (p.chan_closed ≡ true)
  pub last : (p.closed ≡ false) ⊎ (p.consumer_done ≡ true)

start-IsOrdered : IsOrdered start
start-IsOrdered = record {
  fifo = refl;
  bounded = omega arith;
  quiet = inl refl;
  complete = inl refl;
  last = inl refl;
}

snoc_assoc :
    (a b c : List EventData) (x : EventData) → snoc (a ++ (b ++ c)) x ≡ a ++ (b ++ snoc c x)
snoc_assoc a b c x = append_assoc a (b ++ c) (x ∷ []) ∙ ap (λ l. a ++ l) (append_assoc b c (x ∷ []))

Step-IsOrdered : {p q : Pipeline} → Step p q → IsOrdered p → IsOrdered q
Step-IsOrdered (emit p event opened room) v = record {
  fifo = ap (λ l. snoc l event) v.fifo ∙ snoc_assoc p.settled (flying p.in_flight) p.queue event;
  bounded = omega (arith, length-append p.queue (event ∷ []));
  quiet = v.quiet;
  complete = ground (arith, v.complete, opened);
  last = v.last;
}
Step-IsOrdered (source_ends p e h) v = record {
  fifo = v.fifo;
  bounded = v.bounded;
  quiet = v.quiet;
  complete = ground (arith, v.complete);
  last = v.last;
}
Step-IsOrdered (cancel p alive) v = record {
  fifo = v.fifo;
  bounded = v.bounded;
  quiet = v.quiet;
  complete = inr (inl refl);
  last = v.last;
}
Step-IsOrdered (receive p event rest h n q) v = record {
  fifo = ground (arith, v.fifo, n, q);
  bounded = omega (arith, v.bounded, ap length q);
  quiet = inl h;
  complete = inl h;
  last = v.last;
}
Step-IsOrdered (settle p event h) v = record {
  fifo = ground (arith, v.fifo, h, append_assoc p.settled (event ∷ []) p.queue);
  bounded = v.bounded;
  quiet = inr refl;
  complete = v.complete;
  last = v.last;
}
Step-IsOrdered (drained p w n q c) v = record {
  fifo = v.fifo;
  bounded = v.bounded;
  quiet = inr n;
  complete = inr (inr (q, c));
  last = inr refl;
}
Step-IsOrdered (interrupted p w n c) v = record {
  fifo = v.fifo;
  bounded = v.bounded;
  quiet = inr n;
  complete = inr (inl c);
  last = inr refl;
}
Step-IsOrdered (source_failed p e h alive) v = record {
  fifo = v.fifo;
  bounded = v.bounded;
  quiet = v.quiet;
  complete = inr (inl refl);
  last = v.last;
}
Step-IsOrdered (finish p e h k c r) v = record {
  fifo = v.fifo;
  bounded = v.bounded;
  quiet = v.quiet;
  complete = v.complete;
  last = inr c;
}

pub Reach-IsOrdered : {p : Pipeline} → Reach start p → IsOrdered p
Reach-IsOrdered here = start-IsOrdered
Reach-IsOrdered (next r st) = Step-IsOrdered st (Reach-IsOrdered r)

-- In every state that `Listen` reaches, the events that were settled, the one in flight and those
-- in the channel are the events that the source sent, in that order: none is lost, repeated or
-- overtaken on the way. The channel holds no more than its buffer.
pub Reach-fifo :
    (p : Pipeline)
    → Reach start p
    → (p.emitted ≡ p.settled ++ (flying p.in_flight ++ p.queue))
      × (length p.queue ≤ channel_capacity)
Reach-fifo p r = let v = Reach-IsOrdered r in (v.fifo, v.bounded)

-- When `Listen` has closed the components no event is inside `SendWithRetry`, and if its context
-- was never cancelled, every event that the source sent has been settled.
pub Reach-closed :
    (p : Pipeline)
    → Reach start p
    → p.closed ≡ true
    → (p.in_flight ≡ none) × ((p.cancelled ≡ true) ⊎ (p.settled ≡ p.emitted))
Reach-closed p r c =
    let v = Reach-IsOrdered r in
    let done : p.consumer_done ≡ true = ground (arith, v.last, c) in
    let quiet : p.in_flight ≡ none = ground (arith, v.quiet, done) in
    (
      quiet,
      elim v.complete [
        | inl running ↦ absurd (ground (arith, running, done))
        | inr (inl stopped) ↦ inl stopped
        | inr (inr (empty, _)) ↦ inr (ground (arith, v.fifo, quiet, empty, append-nil p.settled))
      ],
    )
