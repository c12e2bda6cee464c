-- ===== src/Queue/Producer/RabbitClient/Tags.antt =====
-- The numbers of queue/producer/rabbit.go: the one a publish is given is the place of its message on
-- the wire, so a confirmation is answered to the publish it belongs to.
use cdc_trigger.Prelude.{
  ℕ, zero, suc, ◌+◌, ◌-◌, ◌%◌, ◌≤◌, ◌<◌, ◌≡◌, ◌↔◌, refl, ap, ◌∙◌, inl, inr, Bool, true, Option,
  none, some, List, [], ◌∷◌, snoc, arith, ◌==◌, ==_iff, if◌then◌else◌, Bool-cases, Option-cases,
  length, get_elem?, length-append,
}
use Prim.Native.Nat.{◌^◌}
use cdc_trigger.Errors.{GoError}
use cdc_trigger.Queue.Producer.RabbitClient.{
  Tagged, at_tag, remove, put, RabbitClient, new_rabbit_client, mark_returned, settle, stop,
  publish_locked,
}
use cdc_trigger.Queue.Producer.RabbitClient.Waiters.{
  World, ClientStep, publishes, returns, confirms, stops, ClientReach, here, next, on_wire,
}

pub at_tag-remove :
    {V : Type 0} (tag t : ℕ) (m : Tagged V)
    → at_tag t (remove tag m) ≡ (if tag == t then none else at_tag t m)
unfolding at_tag remove
at_tag-remove tag t [] = ground arith
at_tag-remove tag t ((i, v) ∷ m) = ground (arith, at_tag-remove tag t m)

pub at_tag-put :
    {V : Type 0} (tag t : ℕ) (v : V) (m : Tagged V)
    → at_tag t (put tag v m) ≡ (if tag == t then some v else at_tag t m)
unfolding at_tag put
at_tag-put tag t v m = ground (arith, at_tag-remove tag t m)

-- The number given last is the number of messages on the wire, and a waiter stands under the
-- number of its message.
pub record IsAligned (seq : ℕ) (waiters : Tagged ℕ) (wire : List ℕ) : Type 0 where
  pub counted : seq ≡ length wire
  pub placed :
      (tag w : ℕ)
      → at_tag tag waiters ≡ some w
      → (1 ≤ tag) × (tag ≤ length wire) × (get_elem? wire (tag - 1) ≡ some w)

abbrev pub Aligned : World → Type 0
Aligned s = IsAligned s.client.seq s.client.waiters s.wire

remove-IsAligned :
    (seq t : ℕ) (waiters : Tagged ℕ) (wire : List ℕ)
    → IsAligned seq waiters wire
    → IsAligned seq (remove t waiters) wire
remove-IsAligned seq t waiters wire a = record {
  counted = a.counted;
  placed = λ tag w h. a.placed tag w (ground (arith, at_tag-remove t tag waiters, h));
}

pub get_elem?-snoc :
    (xs : List ℕ) (x i w : ℕ) → get_elem? xs i ≡ some w → get_elem? (snoc xs x) i ≡ some w
get_elem?-snoc [] x i w h = absurd (ground (arith, h))
get_elem?-snoc (y ∷ xs) x zero w h = h
get_elem?-snoc (y ∷ xs) x (suc i) w h = get_elem?-snoc xs x i w h

get_elem?-snoc_last : (xs : List ℕ) (x : ℕ) → get_elem? (snoc xs x) (length xs) ≡ some x
get_elem?-snoc_last [] x = refl
get_elem?-snoc_last (y ∷ xs) x = get_elem?-snoc_last xs x

next_tag : (seq : ℕ) → seq + 1 < 2 ^ 64 → (seq + 1) % 2 ^ 64 ≡ suc seq
next_tag seq h = omega arith

handed_back : (seq : ℕ) → seq + 1 < 2 ^ 64 → ((seq + 1) % 2 ^ 64 + (2 ^ 64 - 1)) % 2 ^ 64 ≡ seq
handed_back seq h = omega arith

put-IsAligned :
    (seq v : ℕ) (waiters : Tagged ℕ) (wire : List ℕ)
    → IsAligned seq waiters wire
    → IsAligned (suc seq) (put (suc seq) v waiters) (snoc wire v)
put-IsAligned seq v waiters wire a = record {
  counted = omega (arith, a.counted, length-append wire (v ∷ []));
  placed = λ tag w h. elim (Bool-cases (suc seq == tag)) [
    | inl new ↦
        let e : suc seq ≡ tag = (==_iff (suc seq) tag).0 new in
        let back : suc (length wire) - 1 ≡ length wire = omega arith in
        let same : v ≡ w = ground (arith, at_tag-put (suc seq) tag v waiters, h, new) in
        rw (← e, ← same, a.counted)
          (
            omega arith,
            omega (arith, length-append wire (v ∷ [])),
            ap (get_elem? (snoc wire v)) back ∙ get_elem?-snoc_last wire v,
          )
    | inr old ↦
        let (low, high, at) =
          a.placed tag w (ground (arith, at_tag-put (suc seq) tag v waiters, h, old)) in
        (
          low,
          omega (arith, high, length-append wire (v ∷ [])),
          get_elem?-snoc wire v (tag - 1) w at,
        )
  ];
}

remove-put-IsAligned :
    (seq t v : ℕ) (waiters : Tagged ℕ) (wire : List ℕ)
    → IsAligned seq waiters wire
    → IsAligned seq (remove t (put t v waiters)) wire
remove-put-IsAligned seq t v waiters wire a = record {
  counted = a.counted;
  placed = λ tag w h.
      a.placed tag w
        (ground (arith, at_tag-remove t tag (put t v waiters), at_tag-put t tag v waiters, h));
}

publish-Aligned :
    (s : World) (reported : Option GoError)
    → s.client.seq + 1 < 2 ^ 64
    → Aligned s
    → let c = (publish_locked s.made reported s.client).0 in
      IsAligned c.seq c.waiters (on_wire s.client.dead reported s.made s.wire)
unfolding publish_locked
publish-Aligned s reported room a = go s.client.dead refl reported
  where
    go :
        (d : Option GoError)
        → s.client.dead ≡ d
        → (rep : Option GoError)
        → let c = (publish_locked s.made rep s.client).0 in
          IsAligned c.seq c.waiters (on_wire d rep s.made s.wire)
    go (some x) e rep = rw (e, publish_locked) a
    go none e none =
        rw (e, publish_locked)
          (rw (next_tag s.client.seq room)
            (put-IsAligned s.client.seq s.made s.client.waiters s.wire a))
    go none e (some x) =
        rw (e, publish_locked)
          (rw (handed_back s.client.seq room) (
            remove-put-IsAligned s.client.seq ((s.client.seq + 1) % 2 ^ 64) s.made s.client.waiters
              s.wire a))

stop-Aligned :
    (s : World) (e : GoError)
    → Aligned s
    → IsAligned (stop e s.client).0.seq (stop e s.client).0.waiters s.wire
unfolding stop at_tag
stop-Aligned s e a = elim (Option-cases s.client.dead) [
  | inr (d, gone) ↦ rw (gone, stop) a
  | inl alive ↦
      rw (alive, stop)
        (record { counted = a.counted; placed = λ tag w h. absurd (ground (arith, h)) })
]

settle-seq :
    (tag : ℕ) (ack : Bool) (c : RabbitClient)
    → ((settle tag ack c).0.seq ≡ c.seq) × ((settle tag ack c).0.waiters ≡ remove tag c.waiters)
unfolding settle
settle-seq tag ack c = (ground arith, ground arith)

step-Aligned : {s t : World} → ClientStep s t → Aligned s → Aligned t
unfolding mark_returned
step-Aligned (publishes s reported room) a = publish-Aligned s reported room a
step-Aligned (returns s tag reply) a = elim (Option-cases (at_tag tag s.client.waiters)) [
  | inl nobody ↦ rw (nobody, mark_returned) a
  | inr (w, waiting) ↦
      rw (waiting, mark_returned) (record { counted = a.counted; placed = a.placed })
]
step-Aligned (confirms s tag ack) a =
    let (seq_kept, removed) = settle-seq tag ack s.client in
    rw (seq_kept, removed) (remove-IsAligned s.client.seq tag s.client.waiters s.wire a)
step-Aligned (stops s e) a = stop-Aligned s e a

pub Reach-Aligned : {s : World} → ClientReach s → Aligned s
unfolding new_rabbit_client at_tag
Reach-Aligned here = record { counted = refl; placed = λ tag w h. absurd (ground (arith, h)) }
Reach-Aligned (next r st) = step-Aligned st (Reach-Aligned r)

-- With fewer than 2^64 publishes, a confirmation that is answered is answered to the publish
-- whose message was the one of that number on the wire, and it reports a delivery exactly when
-- the broker acknowledged a message that it did not return.
pub ClientReach-settle :
    (s : World) (tag w : ℕ) (ack : Bool) (r : Option GoError)
    → ClientReach s
    → (settle tag ack s.client).1 ≡ (w, r) ∷ []
    → (get_elem? s.wire (tag - 1) ≡ some w)
      × ((r ≡ none) ↔ ((ack ≡ true) × (at_tag tag s.client.returned ≡ none)))
unfolding settle
ClientReach-settle s tag w ack r reached answered =
    let placed = (Reach-Aligned reached).placed tag w in
    elim (Option-cases (at_tag tag s.client.waiters)) [
      | inl nobody ↦ absurd (ground (arith, nobody, answered))
      | inr (v, waiting) ↦ (
        (placed (ground (arith, waiting, answered))).2,
        (
          λ h. (ground (arith, waiting, answered, h), ground (arith, waiting, answered, h)),
          λ h. ground (arith, waiting, answered, h.0, h.1),
        ),
      )
    ]
