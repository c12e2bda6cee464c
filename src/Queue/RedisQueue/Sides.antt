-- ===== src/Queue/RedisQueue/Sides.antt =====
-- One call of either side of the Redis list: a `Send` of queue/producer/redis.go, and a turn of
-- `Consume` of queue/consumer/redis.go.
use mathlib.Core.List.{append_assoc, append-nil}
use cdc_trigger.Prelude.{
  ℕ, zero, suc, String, ◌≡◌, refl, sym, ap, ◌∙◌, Bool, true, false, none, some, List, [], ◌∷◌, ◌++◌,
  map, replicate, reverse, arith, if◌then◌else◌,
}
use cdc_trigger.Errors.{GoError, any_in, wrapf, Result, ok, err}
use cdc_trigger.Queue.Consumer.{Handler, Unmarshal, process_message, Ended, reading, returned}
use cdc_trigger.Queue.Consumer.Redis.{Turn, RedisRun, is_redis_nil, after_pop_error, consume_from}
use cdc_trigger.Queue.Producer.RedisProducer.{Network, RedisProducer, push_times, send}
use cdc_trigger.Queue.RedisQueue.{ListServer, turn_of, failed_turn, payloads}

module _ (unmarshal : Unmarshal) (handler : Handler) where
  abbrev pub handled_all : List (List ℕ) → Ended → RedisRun
  handled_all vs how = record {
    handled = map (λ v. (v, process_message unmarshal handler v)) vs;
    ended = how;
  }

  pub consume_from-none : consume_from unmarshal handler [] ≡ handled_all [] reading
  unfolding consume_from
  consume_from-none = refl

  pub consume_from-idle :
      (name : List ℕ) (rest : List Turn)
      → consume_from unmarshal handler (turn_of name none ∷ rest)
        ≡ consume_from unmarshal handler rest
  unfolding consume_from after_pop_error any_in
  consume_from-idle name rest = refl

  pub consume_from-pop :
      (name v : List ℕ) (rest : List Turn) (vs : List (List ℕ)) (how : Ended)
      → consume_from unmarshal handler rest ≡ handled_all vs how
      → consume_from unmarshal handler (turn_of name (some v) ∷ rest) ≡ handled_all (v ∷ vs) how
  unfolding consume_from
  consume_from-pop name v rest vs how h =
      ap
        (λ (r : RedisRun). record {
          handled = (v, process_message unmarshal handler v) ∷ r.handled;
          ended = r.ended;
        })
        h

  -- `redis.Nil` goes round again, and any other error ends the loop.
  pub consume_from-failed :
      (e : GoError) (rest : List Turn) (nil : Bool)
      → any_in is_redis_nil e ≡ nil
      → consume_from unmarshal handler (failed_turn e ∷ rest) ≡ (
          if nil
          then consume_from unmarshal handler rest
          else handled_all [] (returned (some (wrapf "failed to read from Redis: %w" [] e))))
  unfolding consume_from after_pop_error
  consume_from-failed e rest true h = ground (arith, h)
  consume_from-failed e rest false h = ground (arith, h)

module _ {S : Type 0} (server : ListServer S) where
  replicate-last :
      (n : ℕ) (v : List ℕ) (rest : List (List ℕ))
      → (rest ++ (v ∷ [])) ++ replicate n v ≡ rest ++ replicate (suc n) v
  replicate-last n v rest = append_assoc rest (v ∷ []) (replicate n v)

  push_times-contents :
      (key : String) (v : List ℕ) (n : ℕ) (s : S)
      → reverse (server.contents key (push_times server.lpush key v n s))
        ≡ reverse (server.contents key s) ++ replicate n v
  unfolding push_times
  push_times-contents key v zero s = sym (append-nil _)
  push_times-contents key v (suc n) s =
      push_times-contents key v n (server.lpush key v s)
      ∙ ap (λ l. l ++ replicate n v) (ap reverse (server.contents-lpush key v s))
      ∙ replicate-last n v (reverse (server.contents key s))

  pushed-at :
      (own key : String) (v : List ℕ) (n : ℕ) (s : S)
      → own ≡ key
      → reverse (server.contents key (push_times server.lpush own v n s))
        ≡ reverse (server.contents key s) ++ replicate n v
  pushed-at own key v n s k =
      ap (λ j. reverse (server.contents key (push_times server.lpush j v n s))) k
      ∙ push_times-contents key v n s

  -- What a `Send` adds to its list.
  pub send-contents :
      (p : RedisProducer) (key : String) (marshalled : Result (List ℕ)) (network : Network) (s : S)
      → p.key ≡ key
      → reverse (server.contents key (send server.lpush marshalled network p s).1)
        ≡ reverse (server.contents key s) ++ payloads marshalled network
  unfolding send
  send-contents p key (err e) network s k = sym (append-nil _)
  send-contents p key (ok v) (Network.lost n e) s k = pushed-at p.key key v n s k
  send-contents p key (ok v) (Network.answers n) s k = pushed-at p.key key v (suc n) s k
