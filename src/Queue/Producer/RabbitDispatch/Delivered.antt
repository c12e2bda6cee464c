-- ===== src/Queue/Producer/RabbitDispatch/Delivered.antt =====
-- The comment of `dispatch` in queue/producer/rabbit.go: to drain the returns before a confirmation
-- is answered is enough to never report a message that was sent back as delivered.
use cdc_trigger.Prelude.{
  ℕ, ◌-◌, ◌≤◌, ◌≡◌, ◌⊎◌, refl, sym, ap, ◌∙◌, inl, inr, Bool, true, false, Option, none, some, List,
  [], ◌∷◌, ◌++◌, map, snoc, arith, ◌==◌, ==_iff, if◌then◌else◌, Bool-cases, Option-cases, get_elem?,
}
use cdc_trigger.Errors.{GoError}
use cdc_trigger.Queue.Producer.RabbitClient.{
  Tagged, at_tag, RabbitClient, new_rabbit_client, Answers, settle, stop,
}
use cdc_trigger.Queue.Producer.RabbitClient.Waiters.{World, on_wire, ClientReach, ClientStep}
use cdc_trigger.Queue.Producer.RabbitClient.Waiters
use cdc_trigger.Queue.Producer.RabbitClient.Tags.{Aligned, Reach-Aligned, get_elem?-snoc}
use cdc_trigger.Queue.Producer.RabbitDispatch.{
  Return, take_return, drain_returns, on_confirmation, Link, includes, LinkStep, publishes,
  reads_return, reads_foreign_return, reads_confirmation, takes_return, takes_confirmation, stops,
  LinkReach, here, next,
}
use cdc_trigger.Queue.Producer.RabbitDispatch.Known.{
  is_lost, is_known, take-keeps, drain-keeps, settle-keeps, stop-keeps, publish-keeps, publish-seq,
  brings-snoc, returns-seq, drain-seq, drain-waiters, settle-seq, stop-seq,
}

-- Whether the publish of a waiter was answered with nil.
abbrev pub reports : ℕ → Answers → Bool
reports w [] = false
reports w ((v, none) ∷ rest) = if v == w then true else reports w rest
reports w ((v, some e) ∷ rest) = reports w rest

reports-append_mine :
    (w : ℕ) (e : GoError) (m : Tagged ℕ) (rest : Answers)
    → reports w (map (λ (tw : ℕ × ℕ). (tw.1, some e)) m ++ rest) ≡ reports w rest
reports-append_mine w e [] rest = refl
reports-append_mine w e ((t, v) ∷ m) rest = reports-append_mine w e m rest

stop-reports :
    (w : ℕ) (e : GoError) (c : RabbitClient) (rest : Answers)
    → reports w ((stop e c).1 ++ rest) ≡ reports w rest
unfolding stop
stop-reports w e c rest = ground (arith, reports-append_mine w e c.waiters rest)

-- A confirmation that is answered with nil is an acknowledgement, and finds its publish waiting and
-- no return recorded.
settle-reports :
    (w tag : ℕ) (ack : Bool) (c : RabbitClient) (rest : Answers)
    → reports w ((settle tag ack c).1 ++ rest) ≡ true
    → (reports w rest ≡ true)
      ⊎ ((at_tag tag c.waiters ≡ some w) × (is_lost tag c ≡ false) × (ack ≡ true))
unfolding settle
settle-reports w tag ack c rest h = elim (Option-cases (at_tag tag c.waiters)) [
  | inl nobody ↦ inl (ground (arith, nobody, h))
  | inr (v, waiting) ↦ elim (Bool-cases (v == w)) [
    | inl same ↦ elim (Bool-cases (reports w rest)) [
      | inl before ↦ inl before
      | inr now ↦ inr (
        ground (arith, waiting, same, ==_iff v w),
        ground (arith, waiting, same, now, h),
        ground (arith, waiting, same, now, h),
      )
    ]
    | inr other ↦ inl (ground (arith, waiting, other, h))
  ]
]

-- Whether an acknowledgement of the tag waits in the channel.
abbrev awaits : ℕ → List (ℕ × Bool) → Bool
awaits t [] = false
awaits t ((tag, ack) ∷ rest) = if (if ack then tag == t else false) then true else awaits t rest

-- What the dispatcher knows of the messages that were sent back, and of those reported as delivered.
record IsHonest (s : Link) : Type 0 where
  published : (t : ℕ) → includes t s.sent_back ≡ true → t ≤ s.world.client.seq
  known : (t : ℕ) → includes t s.sent_back ≡ true → is_known t s.returns s.world.client ≡ true
  announced : (t : ℕ) → awaits t s.confirms ≡ true → includes t s.acked ≡ true
  within : (t : ℕ) → includes t s.acked ≡ true → includes t s.confirmed ≡ true
  settled :
      (w : ℕ)
      → reports w s.world.answers ≡ true
      → (tag : ℕ) × (get_elem? s.world.wire (tag - 1) ≡ some w)
        × (includes tag s.acked ≡ true)
        × (includes tag s.sent_back ≡ false)

get_elem?-on_wire :
    (dead reported : Option GoError) (v : ℕ) (wire : List ℕ) (i w : ℕ)
    → get_elem? wire i ≡ some w
    → get_elem? (on_wire dead reported v wire) i ≡ some w
get_elem?-on_wire (some d) reported v wire i w h = h
get_elem?-on_wire none (some e) v wire i w h = h
get_elem?-on_wire none none v wire i w h = get_elem?-snoc wire v i w h

awaits-snoc :
    (t tag : ℕ) (ack : Bool) (cs : List (ℕ × Bool))
    → awaits t (snoc cs (tag, ack))
      ≡ (if awaits t cs then true else if ack then tag == t else false)
awaits-snoc t tag ack [] = ground arith
awaits-snoc t tag ack ((u, b) ∷ cs) = ground (arith, awaits-snoc t tag ack cs)

step-IsHonest : {s t : Link} → LinkStep s t → Aligned s.world → IsHonest s → IsHonest t
unfolding on_confirmation
step-IsHonest (publishes s reported room) a h = record {
  published = λ t back.
      omega (arith, h.published t back, publish-seq s.world.made reported s.world.client room);
  known = λ t back. ground (
    arith,
    h.known t back,
    publish-keeps t s.world.made reported s.world.client room (h.published t back),
  );
  announced = h.announced;
  within = h.within;
  settled = λ w told.
      let (tag, at, seen, kept) = h.settled w told in
      (
        tag,
        get_elem?-on_wire s.world.client.dead reported s.world.made s.world.wire (tag - 1) w at,
        seen,
        kept,
      );
}
step-IsHonest (reads_return s tag reply sent early) a h =
    let r : Return = record { message_id = some tag; reply = reply } in
    record {
      published = λ t back. elim (Bool-cases (tag == t)) [
        | inl same ↦ omega (arith, (==_iff tag t).0 same)
        | inr other ↦ h.published t (ground (arith, other, back))
      ];
      known = λ t back. elim (Bool-cases (tag == t)) [
        | inl same ↦ ground (arith, brings-snoc t s.returns r, same)
        | inr other ↦
            ground
              (arith, brings-snoc t s.returns r, other, h.known t (ground (arith, other, back)))
      ];
      announced = h.announced;
      within = h.within;
      settled = λ w told.
          let (other, at, seen, kept) = h.settled w told in
          (other, at, seen, ground (arith, ==_iff tag other, h.within other seen, early, kept));
    }
step-IsHonest (reads_foreign_return s reply) a h = record {
  published = h.published;
  known = λ t back. ground (
    arith,
    brings-snoc t s.returns (record { message_id = none; reply = reply }),
    h.known t back,
  );
  announced = h.announced;
  within = h.within;
  settled = h.settled;
}
step-IsHonest (reads_confirmation s tag ack) a h = record {
  published = h.published;
  known = h.known;
  announced = λ t waits. ground (arith, awaits-snoc t tag ack s.confirms, waits, h.announced t);
  within = λ t acked. ground (arith, acked, h.within t);
  settled = λ w told.
      let (other, at, seen, kept) = h.settled w told in (other, at, ground (arith, seen), kept);
}
step-IsHonest (takes_return s r rest e) a h = record {
  published = λ t back. rw (returns-seq r s.world.client) (h.published t back);
  known = λ t back.
      take-keeps t r rest s.world.client
        (ap (λ (rs : List Return). is_known t rs s.world.client) (sym e) ∙ h.known t back);
  announced = h.announced;
  within = h.within;
  settled = h.settled;
}
step-IsHonest (takes_confirmation s tag ack rest e) a h =
    let c = drain_returns s.returns s.world.client in
    let lost = λ (t : ℕ) (back : includes t s.sent_back ≡ true).
      drain-keeps t s.returns s.world.client (h.known t back) in
    record {
      published = λ t back.
          rw (settle-seq tag ack c, drain-seq s.returns s.world.client) (h.published t back);
      known = λ t back. settle-keeps t tag ack c (lost t back);
      announced = λ t waits. h.announced t (ap (awaits t) e ∙ ground (arith, waits));
      within = h.within;
      settled = λ w told. elim (settle-reports w tag ack c s.world.answers told) [
        | inl before ↦ h.settled w before
        | inr (waiting, good, acked) ↦ (
          tag,
          (a.placed tag w
              (ap (at_tag tag) (sym (drain-waiters s.returns s.world.client)) ∙ waiting)).2,
          h.announced tag (ap (awaits tag) e ∙ ground (arith, acked, ==_iff tag tag)),
          elim (Bool-cases (includes tag s.sent_back)) [
            | inl back ↦ absurd (ground (arith, lost tag back, good))
            | inr kept ↦ kept
          ],
        )
      ];
    }
step-IsHonest (stops s e) a h = record {
  published = λ t back. rw (stop-seq e s.world.client) (h.published t back);
  known = λ t back. ground (arith, h.known t back, stop-keeps t e s.world.client);
  announced = h.announced;
  within = h.within;
  settled = λ w told. h.settled w (sym (stop-reports w e s.world.client s.world.answers) ∙ told);
}

take-ClientReach :
    (q : Return) (s : World)
    → ClientReach s
    → ClientReach (record s { client = take_return q s.client })
unfolding take_return
take-ClientReach q s r = elim (Option-cases q.message_id) [
  | inl foreign ↦ rw (foreign, take_return) r
  | inr (tag, own) ↦ rw (own, take_return) (Waiters.next r (Waiters.returns s tag q.reply))
]

drain-ClientReach :
    (rs : List Return) (s : World)
    → ClientReach s
    → ClientReach (record s { client = drain_returns rs s.client })
unfolding drain_returns
drain-ClientReach [] s r = r
drain-ClientReach (q ∷ rs) s r =
    drain-ClientReach rs (record s { client = take_return q s.client }) (take-ClientReach q s r)

step-ClientReach : {s t : Link} → LinkStep s t → ClientReach s.world → ClientReach t.world
unfolding on_confirmation
step-ClientReach (publishes s reported room) r =
    Waiters.next r (Waiters.publishes s.world reported room)
step-ClientReach (reads_return s tag reply sent early) r = r
step-ClientReach (reads_foreign_return s reply) r = r
step-ClientReach (reads_confirmation s tag ack) r = r
step-ClientReach (takes_return s q rest e) r = take-ClientReach q s.world r
step-ClientReach (takes_confirmation s tag ack rest e) r =
    Waiters.next (drain-ClientReach s.returns s.world r) (
      Waiters.confirms (record s.world { client = drain_returns s.returns s.world.client }) tag ack)
step-ClientReach (stops s e) r = Waiters.next r (Waiters.stops s.world e)

Reach-ClientReach : {s : Link} → LinkReach s → ClientReach s.world
Reach-ClientReach here = Waiters.here
Reach-ClientReach (next r st) = step-ClientReach st (Reach-ClientReach r)

Reach-IsHonest : {s : Link} → LinkReach s → IsHonest s
unfolding new_rabbit_client at_tag
Reach-IsHonest here = record {
  published = λ t back. absurd (ground (arith, back));
  known = λ t back. absurd (ground (arith, back));
  announced = λ t waits. absurd (ground (arith, waits));
  within = λ t acked. absurd (ground (arith, acked));
  settled = λ w told. absurd (ground (arith, told));
}
Reach-IsHonest (next r st) =
    step-IsHonest st (Reach-Aligned (Reach-ClientReach r)) (Reach-IsHonest r)

-- While the library reads frames in the broker's order, the broker sends a message back only before
-- it confirms it, and fewer than 2^64 messages are published: however the library's reading, the
-- dispatcher's taking, publishes and a stop interleave, a publish that was answered with nil is the
-- one of a message on the wire that the broker acknowledged and did not send back.
pub LinkReach-delivered :
    (s : Link) (w : ℕ)
    → LinkReach s
    → reports w s.world.answers ≡ true
    → (tag : ℕ) × (get_elem? s.world.wire (tag - 1) ≡ some w)
      × (includes tag s.acked ≡ true)
      × (includes tag s.sent_back ≡ false)
LinkReach-delivered s w r told = (Reach-IsHonest r).settled w told
