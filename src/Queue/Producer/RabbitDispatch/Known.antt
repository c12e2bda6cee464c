-- ===== src/Queue/Producer/RabbitDispatch/Known.antt =====
-- A message that was sent back stays known to the client of queue/producer/rabbit.go until nobody
-- waits for it: by the channel of the returns, then by what `markReturned` records.
use cdc_trigger.Prelude.{
  ℕ, ◌+◌, ◌%◌, ◌^◌, ◌≤◌, ◌<◌, ◌≡◌, ◌≢◌, refl, ◌∙◌, inl, inr, Bool, true, false, Option, none, some,
  List, [], ◌∷◌, snoc, arith, ◌==◌, ==_iff, if◌then◌else◌, Bool-cases, Option-cases,
}
use cdc_trigger.Errors.{Value, GoError}
use cdc_trigger.Queue.Producer.RabbitClient.{
  at_tag, put, RabbitClient, mark_returned, settle, stop, publish_locked,
}
use cdc_trigger.Queue.Producer.RabbitClient.Tags.{at_tag-remove, at_tag-put}
use cdc_trigger.Queue.Producer.RabbitDispatch.{Return, take_return, drain_returns}

-- Whether the message of a tag is among the returns that wait in the channel.
abbrev pub brings : ℕ → List Return → Bool
brings t [] = false
brings t (r ∷ rs) = elim r.message_id [
  | none ↦ brings t rs
  | some tag ↦ if tag == t then true else brings t rs
]

-- Nobody waits for the message of a tag, or its failure is recorded.
abbrev pub is_lost : ℕ → RabbitClient → Bool
is_lost t c = elim (at_tag t c.waiters) [
  | none ↦ true
  | some w ↦ elim (at_tag t c.returned) [ none ↦ false | some e ↦ true ]
]

pub record-keeps :
    (t tag : ℕ) (e : GoError) (c : RabbitClient)
    → is_lost t c ≡ true
    → is_lost t (record c { returned = put tag e c.returned }) ≡ true
record-keeps t tag e c h = ground (arith, at_tag-put tag t e c.returned, h)

pub mark-keeps :
    (t tag : ℕ) (reply : List Value) (c : RabbitClient)
    → is_lost t c ≡ true
    → is_lost t (mark_returned tag reply c) ≡ true
unfolding mark_returned
mark-keeps t tag reply c h = elim (Option-cases (at_tag tag c.waiters)) [
  | inl nobody ↦ rw (nobody, mark_returned) h
  | inr (w, waiting) ↦ rw (waiting, mark_returned) (record-keeps t tag _ c h)
]

pub mark-records :
    (t : ℕ) (reply : List Value) (c : RabbitClient) → is_lost t (mark_returned t reply c) ≡ true
unfolding mark_returned
mark-records t reply c = ground (arith, at_tag-put t t _ c.returned, ==_iff t t)

-- What the channel or the client knows of a message that was sent back.
abbrev pub is_known : ℕ → List Return → RabbitClient → Bool
is_known t rs c = if brings t rs then true else is_lost t c

pub take-keeps :
    (t : ℕ) (r : Return) (rs : List Return) (c : RabbitClient)
    → is_known t (r ∷ rs) c ≡ true
    → is_known t rs (take_return r c) ≡ true
unfolding take_return
take-keeps t r rs c h = elim (Option-cases r.message_id) [
  | inl foreign ↦ rw (foreign, take_return) (ground (arith, foreign, h))
  | inr (tag, own) ↦ elim (Bool-cases (tag == t)) [
    | inl same ↦
        let e : tag ≡ t = (==_iff tag t).0 same in
        rw (own, take_return) (rw e (ground (arith, mark-records t r.reply c)))
    | inr other ↦ rw (own, take_return) (ground (arith, own, other, h, mark-keeps t tag r.reply c))
  ]
]

pub drain-keeps :
    (t : ℕ) (rs : List Return) (c : RabbitClient)
    → is_known t rs c ≡ true
    → is_lost t (drain_returns rs c) ≡ true
unfolding drain_returns
drain-keeps t [] c h = h
drain-keeps t (r ∷ rs) c h = drain-keeps t rs (take_return r c) (take-keeps t r rs c h)

pub settle-keeps :
    (t tag : ℕ) (ack : Bool) (c : RabbitClient)
    → is_lost t c ≡ true
    → is_lost t (settle tag ack c).0 ≡ true
unfolding settle
settle-keeps t tag ack c h =
    ground (arith, at_tag-remove tag t c.waiters, at_tag-remove tag t c.returned, h)

pub stop-keeps :
    (t : ℕ) (e : GoError) (c : RabbitClient) → is_lost t c ≡ true → is_lost t (stop e c).0 ≡ true
unfolding stop at_tag
stop-keeps t e c h = ground (arith, h)

-- A publish gives its waiter a number that no message had before.
pub publish-keeps :
    (t w : ℕ) (reported : Option GoError) (c : RabbitClient)
    → c.seq + 1 < 2 ^ 64
    → t ≤ c.seq
    → is_lost t c ≡ true
    → is_lost t (publish_locked w reported c).0 ≡ true
unfolding publish_locked
publish-keeps t w reported c room old h =
    let tag = (c.seq + 1) % 2 ^ 64 in
    let new : tag ≢ t = omega arith in
    ground (
      arith,
      new,
      ==_iff tag t,
      at_tag-put tag t w c.waiters,
      at_tag-remove tag t (put tag w c.waiters),
      h,
    )

pub publish-seq :
    (w : ℕ) (reported : Option GoError) (c : RabbitClient)
    → c.seq + 1 < 2 ^ 64
    → c.seq ≤ (publish_locked w reported c).0.seq
unfolding publish_locked
publish-seq w reported c room = ground arith

pub brings-snoc :
    (t : ℕ) (rs : List Return) (r : Return)
    → brings t (snoc rs r) ≡ (if brings t rs then true else brings t (r ∷ []))
brings-snoc t [] r = refl
brings-snoc t (q ∷ rs) r = ground (arith, brings-snoc t rs r)

pub returns-seq : (r : Return) (c : RabbitClient) → (take_return r c).seq ≡ c.seq
unfolding take_return mark_returned
returns-seq r c = ground arith

pub drain-seq : (rs : List Return) (c : RabbitClient) → (drain_returns rs c).seq ≡ c.seq
unfolding drain_returns
drain-seq [] c = refl
drain-seq (r ∷ rs) c = drain-seq rs (take_return r c) ∙ returns-seq r c

pub take-waiters : (r : Return) (c : RabbitClient) → (take_return r c).waiters ≡ c.waiters
unfolding take_return mark_returned
take-waiters r c = ground arith

pub drain-waiters : (rs : List Return) (c : RabbitClient) → (drain_returns rs c).waiters ≡ c.waiters
unfolding drain_returns
drain-waiters [] c = refl
drain-waiters (r ∷ rs) c = drain-waiters rs (take_return r c) ∙ take-waiters r c

pub settle-seq : (tag : ℕ) (ack : Bool) (c : RabbitClient) → (settle tag ack c).0.seq ≡ c.seq
unfolding settle
settle-seq tag ack c = ground arith

pub stop-seq : (e : GoError) (c : RabbitClient) → (stop e c).0.seq ≡ c.seq
unfolding stop
stop-seq e c = ground arith
