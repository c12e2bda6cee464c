-- ===== src/Queue/Producer/RabbitClient/Waiters.antt =====
-- Whatever the broker answers, the dispatcher of queue/producer/rabbit.go answers each publish at
-- most once, so its send on a channel with room for one never blocks; and it answers the right one.
use cdc_trigger.Prelude.{
  ℕ, suc, ◌+◌, ◌%◌, ◌≤◌, ◌<◌, ◌≡◌, refl, inl, inr, Bool, Option, none, some, List, [], ◌∷◌, ◌++◌,
  map, snoc, arith, ◌==◌, ==_iff, if◌then◌else◌, Bool-cases, Option-cases,
}
use Prim.Native.Nat.{◌^◌}
use cdc_trigger.Errors.{Value, GoError}
use cdc_trigger.Queue.Producer.RabbitClient.{
  Tagged, at_tag, remove, put, RabbitClient, new_rabbit_client, Answers, mark_returned, settle,
  stop, publish_locked,
}

-- How often a waiter is in a list.
abbrev pub times : {V : Type 0} → (V → ℕ) → ℕ → List V → ℕ
times name w [] = 0
times name w (x ∷ xs) = (if name x == w then 1 else 0) + times name w xs

abbrev pub owed : ℕ → Tagged ℕ → ℕ
owed w m = times (λ (tw : ℕ × ℕ). tw.1) w m

abbrev pub told : ℕ → Answers → ℕ
told w m = times (λ (a : ℕ × Option GoError). a.0) w m

owed-remove_le : (w tag : ℕ) (m : Tagged ℕ) → owed w (remove tag m) ≤ owed w m
unfolding remove
owed-remove_le w tag [] = omega arith
owed-remove_le w tag ((t, v) ∷ m) = ground (arith, owed-remove_le w tag m)

-- A waiter that is taken out is owed one answer less.
owed-remove_at :
    (w tag v : ℕ) (m : Tagged ℕ)
    → at_tag tag m ≡ some v
    → (if v == w then 1 else 0) + owed w (remove tag m) ≤ owed w m
unfolding at_tag remove
owed-remove_at w tag v [] h = absurd (ground (arith, h))
owed-remove_at w tag v ((t, u) ∷ m) h = elim (Bool-cases (t == tag)) [
  | inl same ↦ ground (arith, same, h, owed-remove_le w tag m)
  | inr other ↦ ground (arith, other, h, owed-remove_at w tag v m)
]

owed-put_le :
    (w tag v : ℕ) (m : Tagged ℕ) → owed w (put tag v m) ≤ (if v == w then 1 else 0) + owed w m
unfolding put
owed-put_le w tag v m = omega (arith, owed-remove_le w tag m)

owed-remove_put : (w tag v : ℕ) (m : Tagged ℕ) → owed w (remove tag (put tag v m)) ≤ owed w m
unfolding put remove
owed-remove_put w tag v m =
    ground (arith, ==_iff tag tag, owed-remove_le w tag m, owed-remove_le w tag (remove tag m))

-- The client with all that was sent to waiters, the waiters of the messages that reached the wire
-- in their order, and how many waiters were made.
pub record World : Type 0 where
  pub client : RabbitClient
  pub answers : Answers
  pub wire : List ℕ
  pub made : ℕ

-- The waiters of the messages on the wire, with one more if it was published.
abbrev pub on_wire : Option GoError → Option GoError → ℕ → List ℕ → List ℕ
on_wire (some dead) reported w wire = wire
on_wire none (some e) w wire = wire
on_wire none none w wire = snoc wire w

pub data ClientStep : World → World → Type 0 where
  publishes :
      (s : World) (reported : Option GoError)
      → s.client.seq + 1 < 2 ^ 64
      → ClientStep s (record {
        client = (publish_locked s.made reported s.client).0;
        answers = s.answers;
        wire = on_wire s.client.dead reported s.made s.wire;
        made = suc s.made;
      })
  returns :
      (s : World) (tag : ℕ) (reply : List Value)
      → ClientStep s (record s { client = mark_returned tag reply s.client })
  confirms :
      (s : World) (tag : ℕ) (ack : Bool)
      → ClientStep s (record s {
        client = (settle tag ack s.client).0;
        answers = (settle tag ack s.client).1 ++ s.answers;
      })
  stops :
      (s : World) (e : GoError)
      → ClientStep s
          (record s { client = (stop e s.client).0; answers = (stop e s.client).1 ++ s.answers })

abbrev pub fresh_world : World
fresh_world = record { client = new_rabbit_client; answers = []; wire = []; made = 0 }

pub data ClientReach : World → Type 0 where
  here : ClientReach fresh_world
  next : {s t : World} → ClientReach s → ClientStep s t → ClientReach t

abbrev bill : ℕ → World → ℕ
bill w s = told w s.answers + owed w s.client.waiters

-- Waiters are owed and told one answer at most in all, and those not yet made none.
record IsFair (s : World) : Type 0 where
  once : (w : ℕ) → bill w s ≤ 1
  unborn : (w : ℕ) → s.made ≤ w → bill w s ≡ 0

publish-bill :
    (s : World) (reported : Option GoError) (w : ℕ)
    → owed w (publish_locked s.made reported s.client).0.waiters
      ≤ (if s.made == w then 1 else 0) + owed w s.client.waiters
unfolding publish_locked
publish-bill s reported w =
    let tag = (s.client.seq + 1) % 2 ^ 64 in
    ground (
      arith,
      owed-put_le w tag s.made s.client.waiters,
      owed-remove_put w tag s.made s.client.waiters,
    )

told-append : (w : ℕ) (a b : Answers) → told w (a ++ b) ≡ told w a + told w b
told-append w [] b = omega arith
told-append w (x ∷ a) b = omega (arith, told-append w a b)

told-all :
    (w : ℕ) (e : GoError) (m : Tagged ℕ)
    → told w (map (λ (tw : ℕ × ℕ). (tw.1, some e)) m) ≡ owed w m
told-all w e [] = refl
told-all w e ((t, v) ∷ m) = omega (arith, told-all w e m)

settle-bill :
    (s : World) (tag : ℕ) (ack : Bool) (w : ℕ)
    → told w ((settle tag ack s.client).1 ++ s.answers) + owed w (settle tag ack s.client).0.waiters
      ≤ bill w s
unfolding settle
settle-bill s tag ack w = elim (Option-cases (at_tag tag s.client.waiters)) [
  | inl nobody ↦ ground (arith, nobody, owed-remove_le w tag s.client.waiters)
  | inr (v, waiting) ↦ ground (arith, waiting, owed-remove_at w tag v s.client.waiters waiting)
]

stop-bill :
    (s : World) (e : GoError) (w : ℕ)
    → told w ((stop e s.client).1 ++ s.answers) + owed w (stop e s.client).0.waiters ≤ bill w s
unfolding stop
stop-bill s e w = elim (Option-cases s.client.dead) [
  | inr (d, gone) ↦ ground (arith, gone)
  | inl alive ↦ ground (
    arith,
    alive,
    told-append w (map (λ (tw : ℕ × ℕ). (tw.1, some e)) s.client.waiters) s.answers,
    told-all w e s.client.waiters,
  )
]

returns-waiters :
    (tag : ℕ) (reply : List Value) (c : RabbitClient)
    → (mark_returned tag reply c).waiters ≡ c.waiters
unfolding mark_returned
returns-waiters tag reply c = ground arith

step-IsFair : {s t : World} → ClientStep s t → IsFair s → IsFair t
step-IsFair (publishes s reported room) f = record {
  once = λ w. elim (Bool-cases (s.made == w)) [
    | inl new ↦
        let e = (==_iff s.made w).0 new in
        let before = f.unborn w (omega (arith, e)) in
        ground (arith, publish-bill s reported w, before, new)
    | inr old ↦ ground (arith, publish-bill s reported w, f.once w, old)
  ];
  unborn = λ w late.
      let before = f.unborn w (omega arith) in
      ground (arith, publish-bill s reported w, before, late);
}
step-IsFair (returns s tag reply) f = record {
  once = λ w. rw (returns-waiters tag reply s.client) (f.once w);
  unborn = λ w late. rw (returns-waiters tag reply s.client) (f.unborn w late);
}
step-IsFair (confirms s tag ack) f = record {
  once = λ w. omega (arith, settle-bill s tag ack w, f.once w);
  unborn = λ w late. omega (arith, settle-bill s tag ack w, f.unborn w late);
}
step-IsFair (stops s e) f = record {
  once = λ w. omega (arith, stop-bill s e w, f.once w);
  unborn = λ w late. omega (arith, stop-bill s e w, f.unborn w late);
}

Reach-IsFair : {s : World} → ClientReach s → IsFair s
unfolding new_rabbit_client
Reach-IsFair here = record { once = λ w. omega arith; unborn = λ w late. refl }
Reach-IsFair (next r st) = step-IsFair st (Reach-IsFair r)

-- Whatever is published, returned, confirmed or stopped, in any order, no waiter is ever sent a
-- second answer.
pub ClientReach-at_most_once : (s : World) (w : ℕ) → ClientReach s → told w s.answers ≤ 1
ClientReach-at_most_once s w r = omega (arith, (Reach-IsFair r).once w)
