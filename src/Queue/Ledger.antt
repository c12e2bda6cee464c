-- ===== src/Queue/Ledger.antt =====
-- What the reconnecting producers (queue/producer/pulsar.go, queue/producer/rocket.go) take from
-- their client libraries and give back, and what their `Send` calls answer and show.
pub mod Replay
use cdc_trigger.Prelude.{ℕ, Bool, true, false, Option, none, some, List, [], ◌∷◌, ◌==◌}
use cdc_trigger.Errors.{GoError, Result, ok, err}

-- A client or a producer of the library, by a number, is made or closed.
pub data Effect : Type 0 where
  opens : ℕ → Effect
  closes : ℕ → Effect

-- The resources that are open after these effects, the newest first; `none` where one is closed
-- that is not the newest that is open.
abbrev pub replay : List Effect → List ℕ → Option (List ℕ)
replay [] held = some held
replay (opens n ∷ effects) held = replay effects (n ∷ held)
replay (closes n ∷ effects) [] = none
replay (closes n ∷ effects) (m ∷ held) = elim (m == n) [ true ↦ replay effects held | false ↦ none ]

abbrev pub one : Option ℕ → List ℕ
one none = []
one (some n) = n ∷ []

abbrev pub is_none {ℓ} : {A : Type ℓ} → Option A → Bool
is_none none = true
is_none (some a) = false

abbrev pub is_ok {ℓ} : {A : Type ℓ} → Result A → Bool
is_ok (ok a) = true
is_ok (err e) = false

-- What the library's calls of one `Send` answer, in their order: `json.Marshal`, the connection
-- where there is no producer, the first send, the connection after its failure, and the second send.
pub record SendCalls {ℓ} (D : Type ℓ) : Type ℓ where
  pub marshal : Option GoError
  pub first_dial : D
  pub first_send : Option GoError
  pub second_dial : D
  pub second_send : Option GoError

-- What `Send` comes to; a method call on a nil producer panics.
pub data Outcome : Type 0 where
  returns : Option GoError → Outcome
  panics : Outcome

-- What `Send` leaves, comes to, opens and closes, and the producers that it sent on, in order.
pub record SendRun {ℓ} (P : Type ℓ) : Type ℓ where
  pub producer : P
  pub outcome : Outcome
  pub effects : List Effect
  pub sends : List ℕ
