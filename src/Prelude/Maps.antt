-- ===== src/Prelude/Maps.antt =====
-- Go's `map[string]V` as an association list: a missing key has no value.
use Prim.Native.String.{String}
use mathlib.Core.Path.{◌≡◌, refl}
use mathlib.Core.Option.{Option, none, some}
use mathlib.Core.List.{List, [], ◌∷◌}
use native.Mathlib.Omega.{arith}
use text.Mathlib.Text.{◌==◌}
use text.Mathlib.TextEquality.{eq_iff}
use text.Mathlib.TextPositions.{eq_refl}
use mathlib.Core.Logic.{◌≢◌}
use cdc_trigger.Prelude.Lists.{All}
use cdc_trigger.Prelude.Tests.{if◌then◌else◌}

-- No text stands twice in a list.
abbrev pub Distinct : List String → Type 0
Distinct [] = Unit
Distinct (k ∷ ks) = All (λ j. k ≢ j) ks × Distinct ks

-- A map with values of one type, as its pairs.
abbrev pub Entries {ℓ} : Type ℓ → Type ℓ
Entries V = List (String × V)

module _ {ℓ} {V : Type ℓ} where
  -- `v, found := m[key]`
  unfoldable pub lookup : String → Entries V → Option V
  lookup key [] = none
  lookup key ((name, here) ∷ rest) = if name == key then some here else lookup key rest

  -- `m[key] = value`
  unfoldable pub insert : String → V → Entries V → Entries V
  insert key value [] = (key, value) ∷ []
  insert key value ((name, here) ∷ rest) =
      let later = insert key value rest in
      if name == key then (key, value) ∷ rest else (name, here) ∷ later

  -- `delete(m, key)`
  unfoldable pub erase : String → Entries V → Entries V
  erase key [] = []
  erase key ((name, here) ∷ rest) =
      let later = erase key rest in if name == key then later else (name, here) ∷ later

  pub lookup-insert :
      (key asked : String) (value : V) (entries : Entries V)
      → lookup asked (insert key value entries)
        ≡ (if key == asked then some value else lookup asked entries)
  unfolding lookup insert
  lookup-insert key asked value [] = refl
  lookup-insert key asked value ((name, here) ∷ rest) = ground (
    arith,
    lookup-insert key asked value rest,
    eq_iff name asked,
    eq_iff name key,
    eq_iff key asked,
  )

  pub lookup-insert_self :
      (key : String) (value : V) (entries : Entries V)
      → lookup key (insert key value entries) ≡ some value
  lookup-insert_self key value entries = simp (eq_refl, lookup-insert)

  pub lookup-erase :
      (key asked : String) (entries : Entries V)
      → lookup asked (erase key entries) ≡ (if key == asked then none else lookup asked entries)
  unfolding lookup erase
  lookup-erase key asked [] = ground arith
  lookup-erase key asked ((name, here) ∷ rest) =
      ground
        (arith, lookup-erase key asked rest, eq_iff name asked, eq_iff name key, eq_iff key asked)
