-- ===== src/Task/Watchers/Keys.antt =====
-- `tableKeyOf` and `validateTable` of task/watchers.go: the key names one database and one table.
use Prim.Native.Char.{Char, code}
use Prim.Native.String.{◌++◌ as str_append, ◌∷◌}
use text.Mathlib.TextLemmas.{cons-eq-cons, nil-append, cons-append}
use cdc_trigger.Prelude.{
  String, ◌≡◌, ◌↔◌, refl, sym, ap, ◌∙◌, Bool, true, false, none, arith, str_eq, if◌then◌else◌,
}
use cdc_trigger.Task.{Table}
use cdc_trigger.Task.Watchers.{contains_dot, table_key_of, validate_table}

abbrev dot : Char
dot = "."

dot-append : (s : String) → str_append "." s ≡ dot ∷ s
dot-append s = cons-append dot "" s ∙ ap (λ t. dot ∷ t) (nil-append s)

-- A dot-free text before the first dot is determined by the whole.
before_dot :
    (d e s t : String)
    → contains_dot d ≡ false
    → contains_dot e ≡ false
    → str_append d (str_append "." s) ≡ str_append e (str_append "." t)
    → (d ≡ e) × (s ≡ t)
unfolding contains_dot
before_dot String.[] String.[] s t hd he p =
    let q : dot ∷ s ≡ dot ∷ t =
      sym (nil-append _ ∙ dot-append s) ∙ p ∙ nil-append _ ∙ dot-append t in
    (refl, (cons-eq-cons.0 q).1)
before_dot String.[] (String.◌∷◌ c e) s t hd he p =
    let q : dot ∷ s ≡ c ∷ str_append e (str_append "." t) =
      sym (nil-append _ ∙ dot-append s) ∙ p ∙ cons-append c e _ in
    ground (arith, ap code (cons-eq-cons.0 q).0)
before_dot (String.◌∷◌ c d) String.[] s t hd he p =
    let q : c ∷ str_append d (str_append "." s) ≡ dot ∷ t =
      sym (cons-append c d _) ∙ p ∙ nil-append _ ∙ dot-append t in
    ground (arith, ap code (cons-eq-cons.0 q).0)
before_dot (String.◌∷◌ c d) (String.◌∷◌ c' e) s t hd he p =
    let q : c ∷ str_append d (str_append "." s) ≡ c' ∷ str_append e (str_append "." t) =
      sym (cons-append c d _) ∙ p ∙ cons-append c' e _ in
    let rest = before_dot d e s t (ground arith) (ground arith) (cons-eq-cons.0 q).1 in
    (cons-eq-cons.1 ((cons-eq-cons.0 q).0, rest.0), rest.1)

-- What an accepted declaration guarantees.
pub record IsRoutable (t : Table) : Type 0 where
  pub database_named : str_eq t.database "" ≡ false
  pub table_named : str_eq t.name "" ≡ false
  pub database_plain : contains_dot t.database ≡ false
  pub table_plain : contains_dot t.name ≡ false

-- The column of a declaration that its place in the task makes the key column.
abbrev pub role_column : Table → Bool → String
role_column t main = if main then t.primary_key else t.ref_column

-- What a declaration has to be in its place: the database and the table have names without a dot,
-- and the column of its role has a name.
abbrev pub IsValid : Table → Bool → Type 0
IsValid t main = IsRoutable t × (str_eq (role_column t main) "" ≡ false)

-- `validateTable` accepts a declaration exactly when the database and the table have names
-- without a dot and the column of its role is named.
pub validate_table_iff : (t : Table) (main : Bool) → (validate_table t main ≡ none) ↔ IsValid t main
unfolding validate_table
validate_table_iff t true = (
  λ h. (
    record {
      database_named = ground arith;
      table_named = ground arith;
      database_plain = ground arith;
      table_plain = ground arith;
    },
    ground arith,
  ),
  λ h. ground arith,
)
validate_table_iff t false = (
  λ h. (
    record {
      database_named = ground arith;
      table_named = ground arith;
      database_plain = ground arith;
      table_plain = ground arith;
    },
    ground arith,
  ),
  λ h. ground arith,
)

-- Two declarations that `validateTable` accepts have the same key only if they name the same
-- database and the same table.
pub table_key_of-injective :
    (t u : Table) (t_main u_main : Bool)
    → validate_table t t_main ≡ none
    → validate_table u u_main ≡ none
    → table_key_of t.database t.name ≡ table_key_of u.database u.name
    → (t.database ≡ u.database) × (t.name ≡ u.name)
unfolding table_key_of
table_key_of-injective t u t_main u_main ht hu p =
    before_dot t.database u.database t.name u.name
      ((validate_table_iff t t_main).0 ht).0.database_plain
      ((validate_table_iff u u_main).0 hu).0.database_plain p
