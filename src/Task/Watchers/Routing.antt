-- ===== src/Task/Watchers/Routing.antt =====
-- `indexTasks` of task/watchers.go: what the index routes, and which declarations it accepts.
use mathlib.Core.List.{append-nil, append_assoc}
use cdc_trigger.Prelude.{
  String, ◌≡◌, ◌≢◌, ◌↔◌, refl, ◌∙◌, inl, inr, Bool, true, false, none, List, [], ◌∷◌, ◌++◌, map,
  arith, All, Distinct, snoc, insert, lookup-insert, str_eq, eq_iff, if◌then◌else◌, Bool-cases,
}
use cdc_trigger.Errors.{ok}
use cdc_trigger.Task.{Table, ITask}
use cdc_trigger.Task.Watchers.{
  Watcher, Watchers, of, add, validate_table, is_declared, key_of, main_watcher, sub_watcher,
  index_subs,
}
use cdc_trigger.Task.Watchers.Keys.{IsValid, validate_table_iff}

-- The watchers among the sub tables of a task whose key is `key`, in declaration order.
abbrev pub routed_subs : ITask → List Table → String → List Watcher
routed_subs t [] key = []
routed_subs t (sub ∷ subs) key =
    if str_eq (key_of sub) key
    then sub_watcher t sub ∷ routed_subs t subs key
    else routed_subs t subs key

-- All watchers of a task on `key`: its main table before its sub tables.
abbrev pub routed_task : ITask → String → List Watcher
routed_task t key =
    if str_eq (key_of t.main_table) key
    then main_watcher t ∷ routed_subs t t.sub_tables key
    else routed_subs t t.sub_tables key

-- The specification of the routing: the tasks in their order, each with its own declarations.
abbrev pub routed : List ITask → String → List Watcher
routed [] key = []
routed (t ∷ tasks) key = routed_task t key ++ routed tasks key

of-add :
    (ws : Watchers) (t : Table) (w : Watcher) (key : String)
    → of (add ws t w) key ≡ (if str_eq (key_of t) key then snoc (of ws key) w else of ws key)
unfolding of add
of-add ws t w key =
    ground
      (arith, lookup-insert (key_of t) key (snoc (of ws (key_of t)) w) ws, eq_iff (key_of t) key)

is_declared-insert :
    (declared : List (String × Bool)) (k j : String)
    → is_declared (insert k true declared) j ≡ (if str_eq k j then true else is_declared declared j)
unfolding is_declared
is_declared-insert declared k j = ground (arith, lookup-insert k j true declared)

-- What the inner loop accepts: valid sub tables, none of them declared before.
abbrev pub SubsFit : List (String × Bool) → List Table → Type 0
SubsFit declared [] = Unit
SubsFit declared (sub ∷ subs) =
    (validate_table sub false ≡ none)
    × (is_declared declared (key_of sub) ≡ false)
    × SubsFit (insert (key_of sub) true declared) subs

-- One more watcher at the end of its slice, seen from the rest of the routing.
pub of-add-append :
    (ws : Watchers) (t : Table) (w : Watcher) (key : String) (rest : List Watcher)
    → of (add ws t w) key ++ rest ≡ of ws key ++ (if str_eq (key_of t) key then w ∷ rest else rest)
of-add-append ws t w key rest = elim (Bool-cases (str_eq (key_of t) key)) [
  | inl same ↦ rw (of-add, same) (append_assoc (of ws key) (w ∷ []) rest)
  | inr other ↦ rw (of-add, other)
]

index_subs-cons :
    (t : ITask) (sub : Table) (subs : List Table) (declared : List (String × Bool))
    (ws idx : Watchers)
    → index_subs t (sub ∷ subs) declared ws ≡ ok idx
    → (validate_table sub false ≡ none)
      × (is_declared declared (key_of sub) ≡ false)
      × (index_subs t subs (insert (key_of sub) true declared) (add ws sub (sub_watcher t sub))
          ≡ ok idx)
unfolding index_subs
index_subs-cons t sub subs declared ws idx h = ground arith

pub index_subs-routes :
    (t : ITask) (subs : List Table) (declared : List (String × Bool)) (ws idx : Watchers)
    → index_subs t subs declared ws ≡ ok idx
    → SubsFit declared subs × ((key : String) → of idx key ≡ of ws key ++ routed_subs t subs key)
index_subs-routes t [] declared ws idx h =
    (tt, λ key. unfold index_subs in ground (arith, append-nil (of ws key)))
index_subs-routes t (sub ∷ subs) declared ws idx h =
    let (valid, fresh, rest) = index_subs-cons t sub subs declared ws idx h in
    let (fits, routes) =
      index_subs-routes t subs (insert (key_of sub) true declared) (add ws sub (sub_watcher t sub))
        idx rest in
    (
      (valid, fresh, fits),
      λ key. routes key ∙ of-add-append ws sub (sub_watcher t sub) key (routed_subs t subs key),
    )

pub index_subs_accepts :
    (t : ITask) (subs : List Table) (declared : List (String × Bool)) (ws : Watchers)
    → SubsFit declared subs
    → (idx : Watchers) × (index_subs t subs declared ws ≡ ok idx)
unfolding index_subs
index_subs_accepts t [] declared ws fits = (ws, refl)
index_subs_accepts t (sub ∷ subs) declared ws (valid, fresh, fits) =
    let (idx, e) =
      index_subs_accepts t subs (insert (key_of sub) true declared) (add ws sub (sub_watcher t sub))
        fits in
    (idx, ground arith)

-- What the program asks of a task's declarations: every table valid in its role, no key twice.
pub record IsWellDeclared (t : ITask) : Type 0 where
  pub main_valid : IsValid t.main_table true
  pub subs_valid : All (λ sub. IsValid sub false) t.sub_tables
  pub distinct : Distinct (map key_of (t.main_table ∷ t.sub_tables))

abbrev pub AllFresh : List (String × Bool) → List Table → Type 0
AllFresh declared subs = All (λ sub. is_declared declared (key_of sub) ≡ false) subs

pub AllFresh-insert :
    (declared : List (String × Bool)) (k : String) (subs : List Table)
    → AllFresh (insert k true declared) subs
      ↔ (AllFresh declared subs × All (λ j. k ≢ j) (map key_of subs))
AllFresh-insert declared k [] = (λ h. (tt, tt), λ h. tt)
AllFresh-insert declared k (sub ∷ subs) =
    let here = is_declared-insert declared k (key_of sub) in
    let same = eq_iff k (key_of sub) in
    let ih = AllFresh-insert declared k subs in
    (
      λ h.
          let rest = ih.0 h.1 in
          ((ground (arith, here, h.0), rest.0), (λ e. ground (arith, here, same, h.0, e), rest.1)),
      λ h. (ground (arith, here, same, h.0.0, h.1.0), ih.1 (h.0.1, h.1.1)),
    )

-- The set that the loop carries rejects exactly a repetition.
pub SubsFit-iff :
    (declared : List (String × Bool)) (subs : List Table)
    → SubsFit declared subs
      ↔ (All (λ sub. IsValid sub false) subs × AllFresh declared subs × Distinct (map key_of subs))
SubsFit-iff declared [] = (λ h. (tt, tt, tt), λ h. tt)
SubsFit-iff declared (sub ∷ subs) =
    let ih = SubsFit-iff (insert (key_of sub) true declared) subs in
    let fresh = AllFresh-insert declared (key_of sub) subs in
    let valid_iff = validate_table_iff sub false in
    (
      λ h.
          let (valid, later, distinct) = ih.0 h.2 in
          let (later', apart) = fresh.0 later in
          ((valid_iff.0 h.0, valid), (h.1, later'), (apart, distinct)),
      λ h. (valid_iff.1 h.0.0, h.1.0, ih.1 (h.0.1, fresh.1 (h.1.1, h.2.0), h.2.1)),
    )
