-- ===== src/Store.antt =====
-- store/store.go: the interface `IStore` and the registry of its implementations.
pub mod FileStore
pub mod RedisStore
use cdc_trigger.Prelude.{ℕ, String, ◌≡◌, Option, none, List, [], ◌∷◌, Bool}
use cdc_trigger.Errors.{GoError, Result, ok, err, errorf, str}

-- `IStore` over what its methods act on (`S`, the files or the server) and what the system below
-- answers to one call (`E`).
pub record StoreApi (E S : Type 0) : Type 0 where
  pub get : E → String → S → Result (List ℕ)
  pub has : E → String → S → Bool
  pub set : E → String → List ℕ → S → Option GoError × S
  pub delete : E → String → S → Option GoError × S

-- What a client relies on: after a `Set` that returned nil, a `Get` that the system lets through
-- returns the value. `Reads` says of an answer that reading works, and `Fits` what the system
-- guarantees of its answer to a `Set` in a state.
pub record StoreLaws {E S : Type 0} (api : StoreApi E S) (Reads : E → Type 0)
    (Fits : E → String → S → Type 0) : Type 0 where
  pub get-set :
      (write read : E) (key : String) (value : List ℕ) (s s' : S)
      → Fits write key s
      → Reads read
      → api.set write key value s ≡ (none, s')
      → api.get read key s' ≡ ok value

-- The types that `init` registers, and any other name.
pub data StoreType : Type 0 where
  file redis : StoreType
  unknown : String → StoreType

-- `NewStore`, over what the two constructors report for the configuration.
unfoldable pub new_store : {A : Type 0} → Result A → Result A → StoreType → Result A
new_store new_file new_redis file = new_file
new_store new_file new_redis redis = new_redis
new_store new_file new_redis (unknown name) =
    err (errorf "store type %s is not registered" (str name ∷ []))
