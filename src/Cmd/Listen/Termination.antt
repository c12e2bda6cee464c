-- ===== src/Cmd/Listen/Termination.antt =====
-- `Listen` of cmd/clisten.go returns: once the source has ended, what is left to do is bounded, and
-- there is always a step until it is done.
use cdc_trigger.Prelude.{
  ℕ, zero, suc, ◌+◌, ◌*◌, ◌≤◌, ◌≡◌, refl, ap, ◌⊎◌, inl, inr, Bool, true, false, Option, none, some,
  List, [], ◌∷◌, length, arith, Bool-cases, Option-cases,
}
use cdc_trigger.Errors.{GoError}
use cdc_trigger.Types.{EventData}
use cdc_trigger.Cmd.Listen.{
  Pipeline, start, Step, emit, source_ends, cancel, receive, settle, drained, interrupted,
  source_failed, finish, Reach, here, next,
}

-- `n` steps, whichever they are.
pub data Run (p : Pipeline) : ℕ → Pipeline → Type 0 where
  stay : Run p zero p
  go_on : {n : ℕ} {q r : Pipeline} → Run p n q → Step q r → Run p (suc n) r

abbrev flag : Bool → ℕ
flag true = 0
flag false = 1

abbrev pending : {A : Type 0} → Option A → ℕ
pending none = 0
pending (some a) = 1

-- What is left: two steps for each event in the channel, one for that in flight, and at most one
-- each to cancel, to stop the consumer and to return.
abbrev left : Pipeline → ℕ
left p =
    2 * length p.queue
    + pending p.in_flight
    + flag p.cancelled
    + flag p.consumer_done
    + (elim p.returned [ none ↦ 1 | some e ↦ 0 ])

-- The source closed its channel before its result arrived.
abbrev HasEnded : Pipeline → Type 0
HasEnded p = (e : Option GoError) × (p.source_result ≡ some e) × (p.chan_closed ≡ true)

Step-left : {p q : Pipeline} → Step p q → HasEnded p → HasEnded q × (suc (left q) ≤ left p)
Step-left (emit p event opened room) (e, h, c) = absurd (ground (arith, opened, c))
Step-left (source_ends p r open_) (e, h, c) = absurd (ground (arith, open_, h))
Step-left (cancel p alive) v = (v, ground (arith, alive))
Step-left (receive p event rest w n q) v = (v, ground (arith, n, ap length q))
Step-left (settle p event f) v = (v, ground (arith, f))
Step-left (drained p w n q c) v = (v, ground (arith, w))
Step-left (interrupted p w n c) v = (v, ground (arith, w))
Step-left (source_failed p r h alive) v = (v, ground (arith, alive))
Step-left (finish p r h k c open_) v = (v, ground (arith, open_))

Run-left :
    {p : Pipeline} {n : ℕ} {q : Pipeline}
    → Run p n q
    → HasEnded p
    → HasEnded q × (n + left q ≤ left p)
Run-left stay v = (v, omega arith)
Run-left (go_on r st) v =
    let (w, before) = Run-left r v in
    let (x, less) = Step-left st w in (x, omega (arith, before, less))

-- The channel is closed before the result of the source arrives.
abbrev Closes : Pipeline → Type 0
Closes p = (p.source_result ≡ none) ⊎ (p.chan_closed ≡ true)

Step-Closes : {p q : Pipeline} → Step p q → Closes p → Closes q
Step-Closes (emit p event opened room) v = v
Step-Closes (source_ends p r h) v = inr refl
Step-Closes (cancel p alive) v = v
Step-Closes (receive p event rest w n q) v = v
Step-Closes (settle p event f) v = v
Step-Closes (drained p w n q c) v = v
Step-Closes (interrupted p w n c) v = v
Step-Closes (source_failed p r h alive) v = v
Step-Closes (finish p r h k c h') v = v

Reach-Closes : {p : Pipeline} → Reach start p → Closes p
Reach-Closes here = inl refl
Reach-Closes (next r st) = Step-Closes st (Reach-Closes r)

abbrev CanStep : Pipeline → Type 0
CanStep p = (q : Pipeline) × Step p q

can_finish :
    (p : Pipeline) (e : Option GoError)
    → p.source_result ≡ some e
    → p.consumer_done ≡ true
    → p.returned ≡ none
    → CanStep p
can_finish p none h done open_ = (_, finish p none h (inl refl) done open_)
can_finish p (some e) h done open_ = elim (Bool-cases p.cancelled) [
  | inl gone ↦ (_, finish p (some e) h (inr gone) done open_)
  | inr alive ↦ (_, source_failed p e h alive)
]

can_consume :
    (p : Pipeline) (events : List EventData)
    → p.queue ≡ events
    → p.chan_closed ≡ true
    → p.consumer_done ≡ false
    → p.in_flight ≡ none
    → CanStep p
can_consume p [] q c working n = (_, drained p working n q c)
can_consume p (event ∷ rest) q c working n = (_, receive p event rest working n q)

can_step : (p : Pipeline) → HasEnded p → p.returned ≡ none → CanStep p
can_step p (e, h, c) open_ = elim (Option-cases p.in_flight) [
  | inr (event, flies) ↦ (_, settle p event flies)
  | inl quiet ↦ elim (Bool-cases p.consumer_done) [
    | inl done ↦ can_finish p e h done open_
    | inr working ↦ can_consume p p.queue refl c working quiet
  ]
]

left-bound : (p : Pipeline) → left p ≤ 2 * length p.queue + 4
left-bound p = ground arith

-- Once the source of `Listen` has returned, with or without an error: however the consumer, the
-- main goroutine and a cancellation by the caller interleave, they make at most two steps for each
-- event that is left in the channel and four more, and after every one of these steps `Listen` has
-- returned, or another step can be made.
pub Run-terminates :
    (p : Pipeline) (e : Option GoError) (n : ℕ) (q : Pipeline)
    → Reach start p
    → p.source_result ≡ some e
    → Run p n q
    → (n ≤ 2 * length p.queue + 4)
      × (((r : Option GoError) × (q.returned ≡ some r)) ⊎ ((t : Pipeline) × Step q t))
Run-terminates p e n q reached h run =
    let ended : HasEnded p = (e, h, ground (arith, Reach-Closes reached, h)) in
    let (still, spent) = Run-left run ended in
    (
      omega (arith, spent, left-bound p),
      elim (Option-cases q.returned) [
        | inr done ↦ inl done
        | inl open_ ↦ inr (can_step q still open_)
      ],
    )
