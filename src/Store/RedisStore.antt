-- ===== src/Store/RedisStore.antt =====
-- store/redis.go: the store on a Redis server, whose commands are those of the Redis client.
use cdc_trigger.Prelude.{
  ℕ, String, Bool, true, false, Option, none, some, List, [], ◌∷◌, ◌≡◌, arith, ltb,
}
use cdc_trigger.Errors.{GoError, sentinel, redis_nil, any_in, str, errorf, wrapf, Result, ok, err}
use cdc_trigger.Store.{StoreApi, StoreLaws}

-- The commands of the Redis client, over the server's state. `set_command` is SET with no expiry.
pub record RedisClient (E S : Type 0) : Type 0 where
  pub ping : E → Option GoError
  pub exists_command : E → String → S → Result ℕ
  pub get_command : E → String → S → Result (List ℕ)
  pub set_command : E → String → List ℕ → S → Option GoError × S
  pub del_command : E → String → S → Option GoError × S

-- What Redis documents of GET after a SET that succeeded.
pub record RedisLaws {E S : Type 0} (client : RedisClient E S) (Reads : E → Type 0) : Type 0 where
  pub get-set :
      (write read : E) (key : String) (value : List ℕ) (s s' : S)
      → Reads read
      → client.set_command write key value s ≡ (none, s')
      → client.get_command read key s' ≡ ok value

module _ {E S : Type 0} (client : RedisClient E S) where
  unfoldable pub new_redis_store : E → Option GoError
  new_redis_store env = elim (client.ping env) [
    | none ↦ none
    | some e ↦ some (wrapf "failed to connect Redis: %w" [] e)
  ]

  -- A Redis failure counts as an absent key.
  unfoldable pub has : E → String → S → Bool
  has env key s = elim (client.exists_command env key s) [ err e ↦ false | ok n ↦ ltb 0 n ]

  unfoldable pub set : E → String → List ℕ → S → Option GoError × S
  set env key value s = client.set_command env key value s

  abbrev is_redis_nil : GoError → Bool
  is_redis_nil (sentinel redis_nil) = true
  is_redis_nil e = false

  unfoldable pub get : E → String → S → Result (List ℕ)
  get env key s = elim (client.get_command env key s) [
    | ok value ↦ ok value
    | err e ↦ elim (any_in is_redis_nil e) [
      | true ↦ err (errorf "key %s does not exist" (str key ∷ []))
      | false ↦ err e
    ]
  ]

  unfoldable pub delete : E → String → S → Option GoError × S
  delete env key s = client.del_command env key s

  abbrev pub redis_store_api : StoreApi E S
  redis_store_api = record { get = get; has = has; set = set; delete = delete }

  -- Over a Redis that keeps its documented behaviour, the store keeps the promise of `IStore`.
  pub redis_store-StoreLaws :
      {Reads : E → Type 0}
      → RedisLaws client Reads
      → StoreLaws redis_store_api Reads (λ _ _ _. Unit {0})
  unfolding get set
  redis_store-StoreLaws laws = record {
    get-set = λ write read key value s s' fits works written.
        ground (arith, laws.get-set write read key value s s' works written);
  }
