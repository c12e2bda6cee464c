-- ===== src/Errors.antt =====
-- Go's `error` values, and the values of type `any` that the messages and the events hold.
-- An error keeps its format text, what it prints and what it wraps, so `errors.Is` can look inside.
use cdc_trigger.Prelude.{
  ℕ, String, ◌≡◌, refl, ◌⊎◌, inl, inr, Bool, false, ◌||◌, Option, none, some, List, [], ◌∷◌,
}

-- `negsuc n` is -(n + 1).
pub data ℤ : Type 0 where
  pos : ℕ → ℤ
  negsuc : ℕ → ℤ

-- A value of type `any`, by its dynamic type. A float is its 64-bit pattern, a time its instant,
-- and `other` a value of a type that the program only passes on.
pub data Value : Type 0 where
  null : Value
  str : String → Value
  bytes : List ℕ → Value
  int64 : ℤ → Value
  float64 : ℕ → Value
  boolean : Bool → Value
  time : ℕ → Value
  other : ℕ → Value

-- The package-level error variables, which are compared by identity.
pub data Sentinel : Type 0 where
  canceled deadline_exceeded eof redis_nil topic_terminated not_exist : Sentinel
  nil_handler deliveries_closed unroutable : Sentinel

-- The error types of encoding/json that `isRetriable` looks for, and the one it does not.
pub data JsonKind : Type 0 where
  syntax marshaler unsupported_type unsupported_value unmarshal_type : JsonKind

mutual
  pub data GoError : Type 0 where
    sentinel : Sentinel → GoError
    json : JsonKind → GoError
    external : ℕ → GoError
    errorf : String → List Value → GoError
    wrapf : String → List Value → GoError → GoError
    -- wraps the first error and only prints the second
    wrap_and_print : String → GoError → GoError → GoError
    joined : GoErrors → GoError

  pub data GoErrors : Type 0 where
    nil : GoErrors
    cons : GoError → GoErrors → GoErrors

-- `(T, error)`
pub data Result {ℓ} (A : Type ℓ) : Type ℓ where
  ok : A → Result A
  err : GoError → Result A

pub Result-cases {ℓ} :
    {A : Type ℓ} (r : Result A) → ((e : GoError) × (r ≡ err e)) ⊎ ((a : A) × (r ≡ ok a))
Result-cases (err e) = inl (e, refl)
Result-cases (ok a) = inr (a, refl)

infixl 5 ◌>>=◌
abbrev pub ◌>>=◌ {ℓ κ} : {A : Type ℓ} {B : Type κ} → Result A → (A → Result B) → Result B
ok a >>= f = f a
err e >>= f = err e

-- The walk that `errors.Is` and `errors.As` make through what an error wraps.
unfoldable mutual
  pub any_in : (GoError → Bool) → GoError → Bool
  any_in p (sentinel s) = p (sentinel s)
  any_in p (json k) = p (json k)
  any_in p (external n) = p (external n)
  any_in p (errorf f args) = p (errorf f args)
  any_in p (wrapf f args e) = p (wrapf f args e) || any_in p e
  any_in p (wrap_and_print f e printed) = p (wrap_and_print f e printed) || any_in p e
  any_in p (joined es) = p (joined es) || any_in_errors p es

  pub any_in_errors : (GoError → Bool) → GoErrors → Bool
  any_in_errors p nil = false
  any_in_errors p (cons e es) = any_in p e || any_in_errors p es

-- The errors of `errors.Join` that are not nil, in their order.
unfoldable pub present : List (Option GoError) → GoErrors
present [] = nil
present (none ∷ es) = present es
present (some e ∷ es) = cons e (present es)

abbrev join_present : GoErrors → Option GoError
join_present nil = none
join_present (cons e es) = some (joined (cons e es))

-- `errors.Join`
unfoldable pub errors_join : List (Option GoError) → Option GoError
unfolding present
errors_join es = join_present (present es)
