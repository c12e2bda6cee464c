-- ===== src/Cmd/Setup.antt =====
-- cmd/setup.go: the components are created in order, and released when a later one fails.
use cdc_trigger.Prelude.{◌≡◌, refl, ◌⊎◌, inl, inr, List, [], ◌∷◌}
use cdc_trigger.Errors.{GoError, wrapf, Result, ok, err}

pub data Component : Type 0 where
  store source producer : Component

-- What `SetupComponents` returns, and the components that it closed, in order.
pub record SetUp (A B C : Type 0) : Type 0 where
  pub result : Result (A × B × C)
  pub closed : List Component

module _ {A B C : Type 0} (with_store : A → B → B) where
  -- Over what the three constructors report; `with_store` is `iSource.WithStore`. A failing `Close`
  -- is only logged.
  unfoldable pub setup_components : Result A → Result B → Result C → SetUp A B C
  setup_components (err e) new_source new_producer = record {
    result = err (wrapf "failed to create store: %w" [] e);
    closed = [];
  }
  setup_components (ok i_store) (err e) new_producer = record {
    result = err (wrapf "failed to create source: %w" [] e);
    closed = store ∷ [];
  }
  setup_components (ok i_store) (ok i_source) (err e) = record {
    result = err (wrapf "failed to create producer: %w" [] e);
    closed = source ∷ store ∷ [];
  }
  setup_components (ok i_store) (ok i_source) (ok i_producer) = record {
    result = ok (i_store, with_store i_store i_source, i_producer);
    closed = [];
  }

  -- The components that were created before the first failure, the last one first.
  abbrev pub created : Result A → Result B → Result C → List Component
  created (err e) b c = []
  created (ok x) (err e) c = store ∷ []
  created (ok x) (ok y) (err e) = source ∷ store ∷ []
  created (ok x) (ok y) (ok z) = producer ∷ source ∷ store ∷ []

  -- Either every component is there, the source has its store and nothing was closed, or an error
  -- is reported and all that was created has been closed, the last one first.
  pub setup_components_releases :
      (a : Result A) (b : Result B) (c : Result C)
      → ((x : A) × (y : B) × (z : C) × (a ≡ ok x)
          × (b ≡ ok y)
          × (c ≡ ok z)
          × (setup_components a b c ≡ record { result = ok (x, with_store x y, z); closed = [] }))
        ⊎ ((e : GoError) × ((setup_components a b c).result ≡ err e)
            × ((setup_components a b c).closed ≡ created a b c))
  unfolding setup_components
  setup_components_releases (err e) b c = inr (wrapf "failed to create store: %w" [] e, refl, refl)
  setup_components_releases (ok x) (err e) c =
      inr (wrapf "failed to create source: %w" [] e, refl, refl)
  setup_components_releases (ok x) (ok y) (err e) =
      inr (wrapf "failed to create producer: %w" [] e, refl, refl)
  setup_components_releases (ok x) (ok y) (ok z) = inl (x, y, z, refl, refl, refl, refl)

-- `CloseSetupComponents`, in its order; the errors are only logged.
abbrev pub close_setup_components : List Component
close_setup_components = source ∷ store ∷ producer ∷ []
