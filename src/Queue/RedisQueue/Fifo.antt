-- ===== src/Queue/RedisQueue/Fifo.antt =====
-- From queue/producer/redis.go to queue/consumer/redis.go: the list is a queue.
use mathlib.Core.List.{append_assoc, append-nil}
use cdc_trigger.Prelude.{
  ℕ, ◌+◌, ◌≤◌, String, ◌≡◌, refl, sym, ap, ◌∙◌, inl, inr, Bool, true, false, Option, none, some,
  List, [], ◌∷◌, ◌++◌, map, reverse, snoc-cases, arith, if◌then◌else◌,
}
use cdc_trigger.Errors.{GoError, any_in, wrapf, Result}
use cdc_trigger.Queue.Consumer.{Handler, Unmarshal, process_message, Ended, returned}
use cdc_trigger.Queue.Consumer.Redis.{
  Turn, RedisConfig, is_redis_nil, normalize_redis_config, consume_from, consume,
}
use cdc_trigger.Queue.Producer.RedisProducer.{Network, RedisProducer, send}
use cdc_trigger.Queue.RedisQueue.{
  ListServer, Call, sends, turns, turn_of, failed_turn, lose, run, ends, lost_replies, payloads,
  arrivals,
}
use cdc_trigger.Queue.RedisQueue.Taken.{
  all_of, delivered, lost_count, with_lost, all_of-with_lost, delivered-with_lost,
  lost_count-with_lost, brpop-first, lose-takes,
}
use cdc_trigger.Queue.RedisQueue.Sides.{
  handled_all, consume_from-none, consume_from-idle, consume_from-pop, consume_from-failed,
  send-contents,
}

module _ {S : Type 0} (server : ListServer S) (unmarshal : Unmarshal) (handler : Handler)
    (p : RedisProducer) (key : String) (name : List ℕ) (same : p.key ≡ key) where
  abbrev Went : Bool → List Call → S → S × List Turn
  Went reads calls s = run server p key name reads calls s

  sends-order :
      (marshalled : Result (List ℕ)) (network : Network) (calls : List Call) (s : S)
      → reverse (server.contents key (send server.lpush marshalled network p s).1) ++ arrivals calls
        ≡ reverse (server.contents key s) ++ (payloads marshalled network ++ arrivals calls)
  sends-order marshalled network calls s =
      ap (λ l. l ++ arrivals calls) (send-contents server p key marshalled network s same)
      ∙ append_assoc _ (payloads marshalled network) (arrivals calls)

  -- Once the consumer has ended nothing is taken any more.
  run-stopped :
      (calls : List Call) (s : S)
      → ((Went false calls s).1 ≡ [])
        × (reverse (server.contents key (Went false calls s).0)
            ≡ reverse (server.contents key s) ++ arrivals calls)
  unfolding run
  run-stopped [] s = (refl, sym (append-nil _))
  run-stopped (sends marshalled network ∷ calls) s =
      let (quiet, order) = run-stopped calls (send server.lpush marshalled network p s).1 in
      (quiet, order ∙ sends-order marshalled network calls s)
  run-stopped (turns n failed ∷ calls) s = run-stopped calls s

  -- What a consumer makes of these turns and leaves in the list, when it took these values.
  abbrev Took : List Turn → S → S → List Call → List (Bool × List ℕ) → Ended → ℕ → Type 0
  Took seen last s calls taken how most =
      (consume_from unmarshal handler seen ≡ handled_all unmarshal handler (delivered taken) how)
      × (all_of taken ++ reverse (server.contents key last)
          ≡ reverse (server.contents key s) ++ arrivals calls)
      × (lost_count taken ≤ most)

  -- A turn whose first replies are lost.
  lost-Took :
      (n : ℕ) (s last : S) (seen : List Turn) (calls : List Call) (how : Ended) (most : ℕ)
      → ((taken : List (Bool × List ℕ)) × Took seen last
            (lose server p key name n s)
            calls
            taken
            how
            most)
      → (taken : List (Bool × List ℕ)) × Took seen last s calls taken how (n + most)
  lost-Took n s last seen calls how most (taken, (handled, order, few)) =
      let (vs, short, before) = lose-takes server p key name n s in
      (
        with_lost vs taken,
        (
          handled
              ∙ ap (λ l. handled_all unmarshal handler l how) (sym (delivered-with_lost vs taken)),
          ap (λ l. l ++ reverse (server.contents key last)) (all_of-with_lost vs taken)
              ∙ append_assoc vs (all_of taken) (reverse (server.contents key last))
              ∙ ap (λ l. vs ++ l) order
              ∙ before (arrivals calls),
          omega (arith, lost_count-with_lost vs taken, short, few),
        ),
      )

  -- A turn that reports an error, over what the consumer does when it reads on.
  failed-Took :
      (e : GoError) (nil : Bool) (calls : List Call) (s : S)
      → any_in is_redis_nil e ≡ nil
      → ((taken : List (Bool × List ℕ)) × Took
            (Went true calls s).1
            (Went true calls s).0
            s
            calls
            taken
            (ends calls)
            (lost_replies calls))
      → (taken : List (Bool × List ℕ)) × Took
          (failed_turn e ∷ (Went nil calls s).1)
          (Went nil calls s).0
          s
          calls
          taken
          (if nil then ends calls else returned (some (wrapf "failed to read from Redis: %w" [] e)))
          (lost_replies calls)
  failed-Took e true calls s h (taken, (handled, order, few)) =
      (taken, (consume_from-failed unmarshal handler e _ true h ∙ handled, order, few))
  failed-Took e false calls s h more = (
    [],
    (consume_from-failed unmarshal handler e _ false h, (run-stopped calls s).1, omega arith),
  )

  -- A turn in which a reply arrives.
  replied-Took :
      (calls : List Call) (s : S)
      → ((t : S)
          → (taken : List (Bool × List ℕ)) × Took
              (Went true calls t).1
              (Went true calls t).0
              t
              calls
              taken
              (ends calls)
              (lost_replies calls))
      → let (v, t) = server.brpop key s in
        (taken : List (Bool × List ℕ)) × Took
          (turn_of name v ∷ (Went true calls t).1)
          (Went true calls t).0
          s
          calls
          taken
          (ends calls)
          (lost_replies calls)
  replied-Took calls s later = elim (snoc-cases (server.contents key s)) [
    | inl empty ↦
        let Popped : Type 0 = Option (List ℕ) × S in
        let e = server.brpop-empty key s empty in
        let (taken, (handled, order, few)) = later s in
        (
          taken,
          (
            ap
                  (λ (b : Popped).
                    consume_from unmarshal handler (turn_of name b.0 ∷ (Went true calls b.1).1))
                  e
                ∙ consume_from-idle unmarshal handler name (Went true calls s).1
                ∙ handled,
            ap
                  (λ (b : Popped).
                    all_of taken ++ reverse (server.contents key (Went true calls b.1).0))
                  e
                ∙ order,
            few,
          ),
        )
    | inr (rest, v, full) ↦
        let (popped, left) = server.brpop-snoc key s rest v full in
        let t = (server.brpop key s).1 in
        let (taken, (handled, order, few)) = later t in
        (
          (true, v) ∷ taken,
          (
            ap (λ b. consume_from unmarshal handler (turn_of name b ∷ (Went true calls t).1)) popped
                ∙ consume_from-pop unmarshal handler name v (Went true calls t).1 (delivered taken)
                    (ends calls) handled,
            brpop-first server p key name s rest v _ (arrivals calls) full order,
            few,
          ),
        )
  ]

  run-Took :
      (calls : List Call) (s : S)
      → (taken : List (Bool × List ℕ)) × Took
          (Went true calls s).1
          (Went true calls s).0
          s
          calls
          taken
          (ends calls)
          (lost_replies calls)
  unfolding run
  run-Took [] s = ([], (consume_from-none unmarshal handler, sym (append-nil _), omega arith))
  run-Took (sends marshalled network ∷ calls) s =
      let (taken, (handled, order, few)) =
        run-Took calls (send server.lpush marshalled network p s).1 in
      (taken, (handled, order ∙ sends-order marshalled network calls s, few))
  run-Took (turns n none ∷ calls) s =
      let t = lose server p key name n s in
      lost-Took n s _ _ calls (ends calls) (lost_replies calls)
        (replied-Took calls t (run-Took calls))
  run-Took (turns n (some e) ∷ calls) s =
      let t = lose server p key name n s in
      lost-Took n s _ _ calls _ (lost_replies calls)
        (failed-Took e (any_in is_redis_nil e) calls t refl (run-Took calls t))

-- Where the producer's key is the one that the consumer reads after its normalization, the list is
-- empty at first, and the server keeps to the laws of `ListServer`: over any calls of `Send`, failed
-- ones and ones that push their payload several times included, and turns of a `Consume` that nothing
-- asks to stop, replies to BRPOP that are lost and errors included, the payloads taken from the list
-- and then those still in it, from the oldest on, are those that reached the server, in the order of
-- their arrival. Those whose replies arrived were given to the handler, each once and in their order,
-- the others are no more than the replies that were lost, and the loop ended at the first error that
-- is not `redis.Nil`, or reads on.
pub redis_fifo :
    {S : Type 0} (server : ListServer S) (unmarshal : Unmarshal) (handler : Handler)
    (p : RedisProducer) (cfg : RedisConfig) (name : List ℕ) (calls : List Call) (s : S)
    → p.key ≡ (normalize_redis_config cfg).key
    → server.contents (normalize_redis_config cfg).key s ≡ []
    → let key = (normalize_redis_config cfg).key in
      let (last, seen) = run server p key name true calls s in
      (taken : List (Bool × List ℕ)) × (consume unmarshal (some handler) seen ≡ record {
        handled = map (λ v. (v, process_message unmarshal handler v)) (delivered taken);
        ended = ends calls;
      })
      × (all_of taken ++ reverse (server.contents key last) ≡ arrivals calls)
      × (lost_count taken ≤ lost_replies calls)
unfolding consume
redis_fifo server unmarshal handler p cfg name calls s same empty =
    let key = (normalize_redis_config cfg).key in
    let (taken, (handled, order, few)) =
      run-Took server unmarshal handler p key name same calls s in
    (taken, handled, order ∙ ap (λ l. reverse l ++ arrivals calls) empty, few)
