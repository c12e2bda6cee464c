-- ===== src/Queue/Consumer/Pulsar/Release.antt =====
-- What queue/consumer/pulsar.go answers and releases.
use cdc_trigger.Prelude.{
  ℕ, ◌≡◌, refl, sym, ◌∙◌, ap, if◌then◌else◌, Bool, true, false, Option, none, some, List, [], ◌∷◌,
  ◌++◌, map, ◌⊎◌, inl, inr,
}
use cdc_trigger.Errors.{Result, ok, err}
use cdc_trigger.Queue.Consumer.{
  Handler, Unmarshal, Disposition, ack_disposition, retry_disposition, process_message,
}
use cdc_trigger.Queue.Consumer.Pulsar.{
  PulsarConsumer, no_subscription, subscription, close, Answer, ack, nack, Received, message,
  PulsarRun, receive_loop,
}

abbrev pub listed : Option ℕ → List ℕ
listed none = []
listed (some n) = n ∷ []

-- The subscription and the client that a call of `subscription` makes: none on a closed consumer,
-- none when there is one already.
abbrev pub opened_by : PulsarConsumer → Result (ℕ × ℕ) → Option (ℕ × ℕ)
opened_by p (err e) = none
opened_by p (ok d) = if p.closed then none else elim p.consumer [ none ↦ some d | some c ↦ none ]

abbrev pub record_opened : Option (ℕ × ℕ) → List ℕ → List ℕ
record_opened none opened = opened
record_opened (some d) opened = d.1 ∷ opened

-- The subscriptions that were made, those that were closed, and the consumer, after any calls of
-- `subscription` and `Close`.
pub data PulsarReach : List ℕ → List ℕ → PulsarConsumer → Type 0 where
  made : PulsarReach [] [] no_subscription
  asked :
      {opened released : List ℕ} {p : PulsarConsumer} (dialled : Result (ℕ × ℕ))
      → PulsarReach opened released p
      → PulsarReach (record_opened (opened_by p dialled) opened) released (subscription p dialled).0
  closed_once :
      {opened released : List ℕ} {p : PulsarConsumer}
      → PulsarReach opened released p
      → PulsarReach opened (listed (close p).1 ++ released) (close p).0

abbrev Balance : Bool → List ℕ → List ℕ → Option ℕ → Type 0
Balance true opened released consumer = opened ≡ released
Balance false opened released consumer = (opened ≡ listed consumer) × (released ≡ [])

abbrev Balanced : List ℕ → List ℕ → PulsarConsumer → Type 0
Balanced opened released p = Balance p.closed opened released p.consumer

asked-Balanced :
    (opened released : List ℕ) (b : Bool) (x c : Option ℕ) (dialled : Result (ℕ × ℕ))
    → let p : PulsarConsumer = record { closed = b; client = x; consumer = c } in
      Balanced opened released p
      → Balanced (record_opened (opened_by p dialled) opened) released (subscription p dialled).0
unfolding subscription
asked-Balanced opened released true x c (ok d) h = h
asked-Balanced opened released true x c (err e) h = h
asked-Balanced opened released false x (some c) (ok d) h = h
asked-Balanced opened released false x (some c) (err e) h = h
asked-Balanced opened released false x none (ok d) h = (ap (λ l. d.1 ∷ l) h.0, h.1)
asked-Balanced opened released false x none (err e) h = h

close-Balanced :
    (opened released : List ℕ) (b : Bool) (x c : Option ℕ)
    → let p : PulsarConsumer = record { closed = b; client = x; consumer = c } in
      Balanced opened released p → Balanced opened (listed (close p).1 ++ released) (close p).0
unfolding close
close-Balanced opened released true x c h = h
close-Balanced opened released false x none h = h.0 ∙ sym h.1
close-Balanced opened released false x (some c) h = h.0 ∙ ap (λ l. c ∷ l) (sym h.1)

Reach-Balanced :
    {opened released : List ℕ} {p : PulsarConsumer}
    → PulsarReach opened released p
    → Balanced opened released p
Reach-Balanced made = (refl, refl)
Reach-Balanced (asked {p = p} dialled h) =
    asked-Balanced _ _ p.closed p.client p.consumer dialled (Reach-Balanced h)
Reach-Balanced (closed_once {p = p} h) =
    close-Balanced _ _ p.closed p.client p.consumer (Reach-Balanced h)

-- After any calls of `subscription` and `Close`, a consumer that is closed has closed every
-- subscription that was made for it, each exactly once, and one that is not closed holds the only
-- subscription that was made, if any, and has closed none.
pub PulsarReach-balance :
    {opened released : List ℕ} {p : PulsarConsumer}
    → PulsarReach opened released p
    → ((p.closed ≡ true) × (opened ≡ released))
      ⊎ ((p.closed ≡ false) × (opened ≡ listed p.consumer) × (released ≡ []))
PulsarReach-balance {opened = os} {released = rs} {p = p} h = go p.closed refl (Reach-Balanced h)
  where
    go :
        (b : Bool)
        → p.closed ≡ b
        → Balance b os rs p.consumer
        → ((p.closed ≡ true) × (os ≡ rs))
          ⊎ ((p.closed ≡ false) × (os ≡ listed p.consumer) × (rs ≡ []))
    go true e bal = inl (e, bal)
    go false e bal = inr (e, bal.0, bal.1)

-- The receptions of these messages, whose acknowledgements all succeed.
abbrev pub receives : List (List ℕ) → List Received → List Received
receives [] rest = rest
receives (m ∷ ms) rest = message m none ∷ receives ms rest

abbrev pub answer_as : Disposition → List ℕ → Answer
answer_as ack_disposition m = ack m
answer_as retry_disposition m = nack m

-- Where the acknowledgements succeed, every message received gets exactly one answer, in the
-- order of arrival: it is acknowledged when the handler accepts it or it is no event, else
-- negatively acknowledged; and the loop goes on.
pub receive_loop-receives :
    (unmarshal : Unmarshal) (handler : Handler) (ms : List (List ℕ)) (rest : List Received)
    → let later = receive_loop unmarshal handler rest in
      receive_loop unmarshal handler (receives ms rest) ≡ record {
        answers = map (λ m. answer_as (process_message unmarshal handler m) m) ms ++ later.answers;
        ended = later.ended;
      }
unfolding receive_loop
receive_loop-receives unmarshal handler [] rest = refl
receive_loop-receives unmarshal handler (m ∷ ms) rest =
    go (process_message unmarshal handler m) refl (receive_loop-receives unmarshal handler ms rest)
  where
    Answered : List (List ℕ) → Type 0
    Answered l = receive_loop unmarshal handler (receives l rest) ≡ record {
      answers =
          map (λ m. answer_as (process_message unmarshal handler m) m) l
          ++ (receive_loop unmarshal handler rest).answers;
      ended = (receive_loop unmarshal handler rest).ended;
    }

    go :
        (d : Disposition)
        → process_message unmarshal handler m ≡ d
        → Answered ms
        → receive_loop unmarshal handler (receives (m ∷ ms) rest) ≡ record {
          answers =
              answer_as d m ∷ map (λ m. answer_as (process_message unmarshal handler m) m) ms
              ++ (receive_loop unmarshal handler rest).answers;
          ended = (receive_loop unmarshal handler rest).ended;
        }
    go ack_disposition h ih =
        rw (h, receive_loop)
          (ap (λ (r : PulsarRun). record { answers = ack m ∷ r.answers; ended = r.ended }) ih)
    go retry_disposition h ih =
        rw (h, receive_loop)
          (ap (λ (r : PulsarRun). record { answers = nack m ∷ r.answers; ended = r.ended }) ih)
