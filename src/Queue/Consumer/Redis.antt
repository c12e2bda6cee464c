-- ===== src/Queue/Consumer/Redis.antt =====
-- queue/consumer/redis.go: the loop that pops messages, which are gone from Redis once popped.
use cdc_trigger.Prelude.{
  ℕ, String, ◌≡◌, refl, ap, Bool, true, false, Option, none, some, List, [], ◌∷◌, ◌++◌, map, str_eq,
  if◌then◌else◌,
}
use cdc_trigger.Errors.{GoError, sentinel, redis_nil, any_in, wrapf, Result, ok, err}
use cdc_trigger.Queue.Consumer.{
  Handler, Unmarshal, Disposition, process_message, err_nil_handler, Stopping, Ended, reading,
  returned,
}

-- `RedisConfig`, less what only the client reads.
pub record RedisConfig : Type 0 where
  pub key : String
  pub timeout : ℕ

unfoldable pub normalize_redis_config : RedisConfig → RedisConfig
normalize_redis_config cfg =
    if str_eq cfg.key "" then record { key = "cdc-trigger-events"; timeout = cfg.timeout } else cfg

-- `NewRedisConsumer`, over what the ping reports: the configuration it reads with.
unfoldable pub new_redis_consumer : RedisConfig → Option GoError → Result RedisConfig
unfolding normalize_redis_config
new_redis_consumer cfg ping = elim ping [
  | some e ↦ err (wrapf "failed to connect Redis: %w" [] e)
  | none ↦ ok (normalize_redis_config cfg)
]

-- What one turn of the loop sees: the state of things at its top, the answer of BRPOP, and the
-- state of things when that answer is an error.
pub record Turn : Type 0 where
  pub at_top : Stopping
  pub popped : List (List ℕ) × Option GoError
  pub at_error : Stopping

-- The payloads given to `processMessage` with what it made of them, in order.
pub record RedisRun : Type 0 where
  pub handled : List (List ℕ × Disposition)
  pub ended : Ended

abbrev pub is_redis_nil : GoError → Bool
is_redis_nil (sentinel redis_nil) = true
is_redis_nil e = false

-- What `Consume` makes of an error of BRPOP: `reading` goes round again.
unfoldable pub after_pop_error : GoError → Stopping → Ended
after_pop_error e st =
    if any_in is_redis_nil e
    then reading
    else if st.is_closed
    then returned none
    else (elim st.ctx_err [
      | some c ↦ returned (some c)
      | none ↦ returned (some (wrapf "failed to read from Redis: %w" [] e))
    ])

-- `Close`, over the flag that `mu` guards and what the client's own `Close` reports: the flag it
-- leaves, what it returns, and how often it closes the client.
unfoldable pub close : Option GoError → Bool → Bool × Option GoError × ℕ
close reported closed = if closed then (true, none, 0) else (true, reported, 1)

module _ (unmarshal : Unmarshal) where
  -- The loop of `Consume`, over what its turns see.
  unfoldable pub consume_from : Handler → List Turn → RedisRun
  unfolding after_pop_error
  consume_from handler [] = record { handled = []; ended = reading }
  consume_from handler (t ∷ rest) =
      let more = consume_from handler rest in
      if t.at_top.is_closed
      then record { handled = []; ended = returned none }
      else (elim t.at_top.ctx_err [
        | some c ↦ record { handled = []; ended = returned (some c) }
        | none ↦ elim t.popped.1 [
          | some e ↦ elim (after_pop_error e t.at_error) [
            | reading ↦ more
            | returned r ↦ record { handled = []; ended = returned r }
          ]
          | none ↦ elim t.popped.0 [
            | [] ↦ more
            | k ∷ vs ↦ elim vs [
              | [] ↦ more
              | v ∷ others ↦ elim others [
                | o ∷ os ↦ more
                | [] ↦ record {
                  handled = (v, process_message unmarshal handler v) ∷ more.handled;
                  ended = more.ended;
                }
              ]
            ]
          ]
        ]
      ])

  unfoldable pub consume : Option Handler → List Turn → RedisRun
  consume none turns = record { handled = []; ended = returned (some err_nil_handler) }
  consume (some handler) turns = consume_from handler turns

  abbrev running : Stopping
  running = record { is_closed = false; ctx_err = none }

  -- The turns in which BRPOP answers with these messages of the list `key`.
  abbrev pub pops : List ℕ → List (List ℕ) → List Turn → List Turn
  pops key [] rest = rest
  pops key (v ∷ vs) rest =
      record { at_top = running; popped = (key ∷ v ∷ [], none); at_error = running }
      ∷ pops key vs rest

  -- While neither `Close` nor the context stops it, every message that is popped is handed to the
  -- handler once, in the order of the pops, and the loop goes on whatever the handler says of it.
  pub consume-pops :
      (handler : Handler) (key : List ℕ) (vs : List (List ℕ)) (rest : List Turn)
      → consume (some handler) (pops key vs rest) ≡ record {
        handled =
            map (λ v. (v, process_message unmarshal handler v)) vs
            ++ (consume (some handler) rest).handled;
        ended = (consume (some handler) rest).ended;
      }
  unfolding consume consume_from
  consume-pops handler key [] rest = refl
  consume-pops handler key (v ∷ vs) rest =
      ap
        (λ (r : RedisRun). record {
          handled = (v, process_message unmarshal handler v) ∷ r.handled;
          ended = r.ended;
        })
        (consume-pops handler key vs rest)
