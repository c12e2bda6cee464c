-- ===== src/Delivery/Counts.antt =====
-- How often `Listen` (cmd/clisten.go) pushes each event to the Redis list.
use mathlib.Core.List.{append_assoc, map-append}
use cdc_trigger.Prelude.{
  ℕ, zero, suc, ◌+◌, ◌*◌, Bool, true, false, All, All-append, ◌≤◌, ◌≡◌, ◌⊎◌, inl, inr, refl, sym,
  ap, ◌∙◌, Option, none, some, List, [], ◌∷◌, ◌++◌, map, replicate, arith, Option-cases,
}
use cdc_trigger.Errors.{GoError, pos, ok}
use cdc_trigger.Types.{EventData}
use cdc_trigger.Queue.Producer.{send_with_retry}
use cdc_trigger.Queue.Producer.Retry.{send_with_retry-Account, Ends-none}
use cdc_trigger.Queue.Producer.RedisProducer.{Network, RedisProducer, send}
use cdc_trigger.Queue.RedisQueue.{sends, turns, pushes, payloads, arrivals}
use cdc_trigger.Queue.RedisQueue as Lists
use cdc_trigger.Queue.RedisQueue.Retried.{pushed, pushed_below, pushed_last}
use cdc_trigger.Queue.RedisQueue.Taken.{all_of, delivered, lost_count}
use cdc_trigger.Delivery.{Forward, tries, forward, sends_from, forward_calls, sends_of}

-- Each event as often as its number says.
abbrev pub copies : List ℕ → List EventData → List EventData
copies [] events = []
copies (n ∷ ns) [] = []
copies (n ∷ ns) (e ∷ events) = replicate n e ++ copies ns events

-- One number for each event: at most `bound`, and one at least unless the sending was reported to
-- fail.
abbrev pub Counted : ℕ → (Forward → Option GoError) → List Forward → List ℕ → Type 0
Counted bound report [] [] = Unit
Counted bound report [] (n ∷ ns) = ⊥
Counted bound report (f ∷ fs) [] = ⊥
Counted bound report (f ∷ fs) (n ∷ ns) =
    (n ≤ bound) × ((1 ≤ n) ⊎ ((e : GoError) × (report f ≡ some e))) × Counted bound report fs ns

abbrev pub event_of : Forward → EventData
event_of f = f.event

arrivals-append : (xs ys : List Lists.Call) → arrivals (xs ++ ys) ≡ arrivals xs ++ arrivals ys
arrivals-append [] ys = refl
arrivals-append (sends marshalled network ∷ xs) ys =
    ap (λ l. payloads marshalled network ++ l) (arrivals-append xs ys)
    ∙ sym (append_assoc (payloads marshalled network) (arrivals xs) (arrivals ys))
arrivals-append (turns n failed ∷ xs) ys = arrivals-append xs ys

-- The turns of the consumer add nothing to what arrives.
pub arrivals-sends_of : (calls : List Lists.Call) → arrivals (sends_of calls) ≡ arrivals calls
arrivals-sends_of [] = refl
arrivals-sends_of (sends marshalled network ∷ calls) =
    ap (λ l. payloads marshalled network ++ l) (arrivals-sends_of calls)
arrivals-sends_of (turns n failed ∷ calls) = arrivals-sends_of calls

replicate-append : (m n : ℕ) (v : List ℕ) → replicate m v ++ replicate n v ≡ replicate (m + n) v
replicate-append zero n v = let e : n ≡ 0 + n = omega arith in ap (λ k. replicate k v) e
replicate-append (suc m) n v =
    let e : suc (m + n) ≡ suc m + n = omega arith in
    ap (λ l. v ∷ l) (replicate-append m n v) ∙ ap (λ k. replicate k v) e

arrivals-sends_from :
    (payload : List ℕ) (network : ℕ → Network) (i k : ℕ)
    → arrivals (sends_from payload network i k) ≡ replicate (pushed network i k) payload
arrivals-sends_from payload network i zero = refl
arrivals-sends_from payload network i (suc k) =
    ap (λ l. replicate (pushes (network i)) payload ++ l)
      (arrivals-sends_from payload network (suc i) k)
    ∙ replicate-append (pushes (network i)) (pushed network (suc i) k) payload

map-replicate :
    (encode : EventData → List ℕ) (n : ℕ) (e : EventData)
    → map encode (replicate n e) ≡ replicate n (encode e)
map-replicate encode zero e = refl
map-replicate encode (suc n) e = ap (λ l. encode e ∷ l) (map-replicate encode n e)

module _ (float_overflow : ℕ) (p : RedisProducer) (encode : EventData → List ℕ) where
  -- How often each event reaches the list.
  abbrev pub counts : List Forward → List ℕ
  counts [] = []
  counts (f ∷ fs) = pushed f.network 0 (forward float_overflow p encode f).sends ∷ counts fs

  pub arrivals-forward_calls :
      (fs : List Forward)
      → arrivals (forward_calls float_overflow p encode fs)
        ≡ map encode (copies (counts fs) (map event_of fs))
  unfolding forward_calls
  arrivals-forward_calls [] = refl
  arrivals-forward_calls (f ∷ fs) =
      let k = (forward float_overflow p encode f).sends in
      let n = pushed f.network 0 k in
      arrivals-append (sends_from (encode f.event) f.network 0 k)
        (forward_calls float_overflow p encode fs)
      ∙ ap (λ l. l ++ arrivals (forward_calls float_overflow p encode fs))
          (arrivals-sends_from (encode f.event) f.network 0 k)
      ∙ ap (λ l. replicate n (encode f.event) ++ l) (arrivals-forward_calls fs)
      ∙ ap (λ l. l ++ map encode (copies (counts fs) (map event_of fs)))
          (sym (map-replicate encode n f.event))
      ∙ sym (map-append encode (replicate n f.event) (copies (counts fs) (map event_of fs)))

  answered :
      (f : Forward) (i : ℕ)
      → (tries float_overflow p encode f).send i ≡ none
      → 1 ≤ pushes (f.network i)
  unfolding tries send
  answered f i h =
      elim (f.network i)
          as (λ n.
            (send (λ key v (s : Unit {0}). s) (ok (encode f.event)) n p tt).0 ≡ none
            → 1 ≤ pushes n) [ Network.answers n ↦ λ e. omega arith | Network.lost n e ↦ λ e'. cc ]
        h

  counts-one :
      (most : ℕ) (f : Forward)
      → ((i : ℕ) → pushes (f.network i) ≤ most)
      → let n = pushed f.network 0 (forward float_overflow p encode f).sends in
        (n ≤ 4 * most)
        × ((1 ≤ n) ⊎ ((e : GoError) × ((forward float_overflow p encode f).result ≡ some e)))
  unfolding forward
  counts-one most f bound =
      let env = tries float_overflow p encode f in
      let run = send_with_retry float_overflow env (pos 3) in
      let a = send_with_retry-Account float_overflow env 3 in
      (
        pushed_below f.network most run.sends 4 bound
            (omega (arith, a.counted, a.placed, a.in_range)),
        elim (Option-cases run.result) [
          | inr bad ↦ inr bad
          | inl good ↦ inl (
              omega (
                arith,
                ap (pushed f.network 0) a.counted,
                pushed_last f.network 0 a.failed a.last a.placed
                    (answered f a.last ((Ends-none a.ended).0 good)),
              ))
        ],
      )

  pub counts-Counted :
      (most : ℕ) (fs : List Forward)
      → All (λ f. (i : ℕ) → pushes (f.network i) ≤ most) fs
      → Counted (4 * most) (λ f. (forward float_overflow p encode f).result) fs (counts fs)
  counts-Counted most [] bounds = tt
  counts-Counted most (f ∷ fs) (bound, bounds) =
      let (few, some_or_failed) = counts-one most f bound in
      (few, some_or_failed, counts-Counted most fs bounds)

-- A list of encoded events that comes in two parts, of which the first was taken from the list.
pub taken-split :
    (encode : EventData → List ℕ) (taken : List (Bool × List ℕ)) (ws : List (List ℕ))
    (events : List EventData)
    → all_of taken ++ ws ≡ map encode events
    → (front : List (Bool × EventData)) × (back : List EventData) × (all_of front ++ back ≡ events)
      × (delivered taken ≡ map encode (delivered front))
      × (lost_count front ≡ lost_count taken)
      × (ws ≡ map encode back)
taken-split encode [] ws events h = ([], events, refl, refl, refl, h)
taken-split encode ((arrived, v) ∷ taken) ws [] h = absurd (ground (arith, h))
taken-split encode ((true, v) ∷ taken) ws (e ∷ events) h =
    let (front, back, all, first, lost, rest) =
      taken-split encode taken ws events (ground (arith, h)) in
    ((true, e) ∷ front, back, ap (λ l. e ∷ l) all, ground (arith, h, first), lost, rest)
taken-split encode ((false, v) ∷ taken) ws (e ∷ events) h =
    let (front, back, all, first, lost, rest) =
      taken-split encode taken ws events (ground (arith, h)) in
    ((false, e) ∷ front, back, ap (λ l. e ∷ l) all, first, ap suc lost, rest)

module _ (P : EventData → Type 0) where
  pub All-left : (xs ys : List EventData) → All P (xs ++ ys) → All P xs
  All-left [] ys h = tt
  All-left (x ∷ xs) ys h = (h.0, All-left xs ys h.1)

  pub All-delivered :
      (taken : List (Bool × EventData)) → All P (all_of taken) → All P (delivered taken)
  All-delivered [] h = tt
  All-delivered ((true, x) ∷ taken) h = (h.0, All-delivered taken h.1)
  All-delivered ((false, x) ∷ taken) h = All-delivered taken h.1

  All-replicate : (n : ℕ) (e : EventData) → P e → All P (replicate n e)
  All-replicate zero e h = tt
  All-replicate (suc n) e h = (h, All-replicate n e h)

  pub All-copies :
      (ns : List ℕ) (fs : List Forward)
      → All (λ f. P f.event) fs
      → All P (copies ns (map event_of fs))
  All-copies [] fs h = tt
  All-copies (n ∷ ns) [] h = tt
  All-copies (n ∷ ns) (f ∷ fs) h =
      All-append P (replicate n f.event) (copies ns (map event_of fs)) (All-replicate n f.event h.0)
        (All-copies ns fs h.1)
