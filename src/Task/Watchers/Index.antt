-- ===== src/Task/Watchers/Index.antt =====
-- `indexTasks` of task/watchers.go as a whole, against the routing that the declarations describe.
use mathlib.Core.List.{append-nil, append_assoc}
use mathlib.Core.Path.{subst}
use cdc_trigger.Prelude.{
  Distinct, ◌≤◌, length, All-append, String, ◌≡◌, ◌≢◌, ◌↔◌, refl, ◌∙◌, ap, inl, inr, true, false,
  none, List, [], ◌∷◌, ◌++◌, map, arith, All, insert, lookup, eq_iff, str_eq, Bool-cases,
}
use cdc_trigger.Errors.{Result, ok, err, ◌>>=◌}
use cdc_trigger.Task.{Table, ITask}
use cdc_trigger.Task.Watchers.{
  Watcher, Watchers, of, add, validate_table, is_declared, key_of, main_watcher, index_subs,
  index_task, index_from, index_tasks, key_column,
}
use cdc_trigger.Task.Watchers.Keys.{IsValid, validate_table_iff}
use cdc_trigger.Task.Watchers.Routing.{
  routed_subs, routed_task, routed, of-add-append, index_subs-routes, index_subs_accepts,
  IsWellDeclared, AllFresh, AllFresh-insert, SubsFit-iff,
}

AllFresh-nil : (subs : List Table) → AllFresh [] subs
unfolding is_declared lookup
AllFresh-nil [] = tt
AllFresh-nil (sub ∷ subs) = (refl, AllFresh-nil subs)

-- The set that a task starts with holds the key of its main table.
AllFresh-main :
    (k : String) (subs : List Table)
    → AllFresh ((k, true) ∷ []) subs ↔ All (λ j. k ≢ j) (map key_of subs)
unfolding insert
AllFresh-main k subs =
    let both = AllFresh-insert [] k subs in (λ h. (both.0 h).1, λ h. both.1 (AllFresh-nil subs, h))

index_task-cases :
    (t : ITask) (ws idx : Watchers)
    → index_task t ws ≡ ok idx
    → (validate_table t.main_table true ≡ none)
      × (index_subs t t.sub_tables
            ((key_of t.main_table, true) ∷ [])
            (add ws t.main_table (main_watcher t))
          ≡ ok idx)
unfolding index_task
index_task-cases t ws idx h = ground arith

index_task-routes :
    (t : ITask) (ws idx : Watchers)
    → index_task t ws ≡ ok idx
    → IsWellDeclared t × ((key : String) → of idx key ≡ of ws key ++ routed_task t key)
index_task-routes t ws idx h =
    let (valid, rest) = index_task-cases t ws idx h in
    let (fits, routes) = index_subs-routes t t.sub_tables _ _ idx rest in
    let (subs_valid, fresh, distinct) = (SubsFit-iff _ t.sub_tables).0 fits in
    (
      record {
        main_valid = (validate_table_iff t.main_table true).0 valid;
        subs_valid = subs_valid;
        distinct = ((AllFresh-main _ t.sub_tables).0 fresh, distinct);
      },
      λ key.
          routes key
          ∙ of-add-append ws t.main_table (main_watcher t) key (routed_subs t t.sub_tables key),
    )

index_task_accepts :
    (t : ITask) (ws : Watchers) → IsWellDeclared t → (idx : Watchers) × (index_task t ws ≡ ok idx)
unfolding index_task
index_task_accepts t ws w =
    let fits =
      (SubsFit-iff ((key_of t.main_table, true) ∷ []) t.sub_tables).1
        (w.subs_valid, (AllFresh-main _ t.sub_tables).1 w.distinct.0, w.distinct.1) in
    let (idx, e) =
      index_subs_accepts t t.sub_tables _ (add ws t.main_table (main_watcher t)) fits in
    let valid = (validate_table_iff t.main_table true).1 w.main_valid in (idx, ground arith)

index_from-cons :
    (t : ITask) (tasks : List ITask) (ws idx : Watchers)
    → index_from (t ∷ tasks) ws ≡ ok idx
    → (mid : Watchers) × (index_task t ws ≡ ok mid) × (index_from tasks mid ≡ ok idx)
unfolding index_from
index_from-cons t tasks ws idx h = go (index_task t ws) refl h
  where
    go :
        (r : Result Watchers)
        → index_task t ws ≡ r
        → (r >>= index_from tasks) ≡ ok idx
        → (mid : Watchers) × (index_task t ws ≡ ok mid) × (index_from tasks mid ≡ ok idx)
    go (ok mid) e rest = (mid, e, rest)
    go (err x) e rest = cc

index_from-routes :
    (tasks : List ITask) (ws idx : Watchers)
    → index_from tasks ws ≡ ok idx
    → All IsWellDeclared tasks × ((key : String) → of idx key ≡ of ws key ++ routed tasks key)
index_from-routes [] ws idx h =
    (tt, λ key. unfold index_from in ground (arith, append-nil (of ws key)))
index_from-routes (t ∷ tasks) ws idx h =
    let (mid, first, rest) = index_from-cons t tasks ws idx h in
    let (here, routes) = index_task-routes t ws mid first in
    let (later, routes') = index_from-routes tasks mid idx rest in
    (
      (here, later),
      λ key.
          routes' key
          ∙ ap (λ l. l ++ routed tasks key) (routes key)
          ∙ append_assoc (of ws key) (routed_task t key) (routed tasks key),
    )

index_from_accepts :
    (tasks : List ITask) (ws : Watchers)
    → All IsWellDeclared tasks
    → (idx : Watchers) × (index_from tasks ws ≡ ok idx)
unfolding index_from
index_from_accepts [] ws h = (ws, refl)
index_from_accepts (t ∷ tasks) ws h =
    let (mid, first) = index_task_accepts t ws h.0 in
    let (idx, rest) = index_from_accepts tasks mid h.1 in (idx, rw first rest)

-- The index that `indexTasks` builds routes every key to the watchers that the declarations
-- describe: task by task in their order, the main table before the sub tables.
pub of-index_tasks :
    (tasks : List ITask) (idx : Watchers)
    → index_tasks tasks ≡ ok idx
    → (key : String) → of idx key ≡ routed tasks key
unfolding index_tasks of lookup
of-index_tasks tasks idx h key = (index_from-routes tasks [] idx h).1 key

-- `indexTasks` accepts the tasks exactly when in each of them every table has a database and a name,
-- both without a dot, the main table a primary key and each sub table a reference column, and no two
-- tables have one key.
pub index_tasks_accepts_iff :
    (tasks : List ITask)
    → ((idx : Watchers) × (index_tasks tasks ≡ ok idx)) ↔ All IsWellDeclared tasks
unfolding index_tasks
index_tasks_accepts_iff tasks =
    (λ (idx, h). (index_from-routes tasks [] idx h).0, λ h. index_from_accepts tasks [] h)

routed_subs-apart :
    (t : ITask) (subs : List Table) (key : String)
    → All (λ j. key ≢ j) (map key_of subs)
    → routed_subs t subs key ≡ []
routed_subs-apart t [] key h = refl
routed_subs-apart t (sub ∷ subs) key h =
    ground (arith, eq_iff (key_of sub) key, h.0, routed_subs-apart t subs key h.1)

routed_subs-le_one :
    (t : ITask) (subs : List Table) (key : String)
    → Distinct (map key_of subs)
    → length (routed_subs t subs key) ≤ 1
routed_subs-le_one t [] key h = omega arith
routed_subs-le_one t (sub ∷ subs) key h = elim (Bool-cases (str_eq (key_of sub) key)) [
  | inl same ↦
      let e = (eq_iff (key_of sub) key).0 same in
      rw same (
        rw (routed_subs-apart t subs key (subst (λ k. All (λ j. k ≢ j) (map key_of subs)) e h.0))
          (omega arith))
  | inr other ↦ rw other (routed_subs-le_one t subs key h.1)
]

-- A task that was accepted is run at most once for a change, whichever table the change is of.
pub routed_task-le_one :
    (t : ITask) (key : String) → IsWellDeclared t → length (routed_task t key) ≤ 1
routed_task-le_one t key w = elim (Bool-cases (str_eq (key_of t.main_table) key)) [
  | inl same ↦
      let e = (eq_iff (key_of t.main_table) key).0 same in
      rw same (
        rw
          (routed_subs-apart t t.sub_tables key
            (subst (λ k. All (λ j. k ≢ j) (map key_of t.sub_tables)) e w.distinct.0))
          (omega arith))
  | inr other ↦ rw other (routed_subs-le_one t t.sub_tables key w.distinct.1)
]

-- The column that a watcher reads the key of the main table's row from.
abbrev HasColumn : Watcher → Type 0
HasColumn w = str_eq (key_column w) "" ≡ false

routed_subs-HasColumn :
    (t : ITask) (subs : List Table) (key : String)
    → All (λ sub. IsValid sub false) subs
    → All HasColumn (routed_subs t subs key)
unfolding key_column
routed_subs-HasColumn t [] key h = tt
routed_subs-HasColumn t (sub ∷ subs) key h = elim (Bool-cases (str_eq (key_of sub) key)) [
  | inl same ↦ rw same (h.0.1, routed_subs-HasColumn t subs key h.1)
  | inr other ↦ rw other (routed_subs-HasColumn t subs key h.1)
]

routed_task-HasColumn :
    (t : ITask) (key : String) → IsWellDeclared t → All HasColumn (routed_task t key)
unfolding key_column
routed_task-HasColumn t key w =
    let subs = routed_subs-HasColumn t t.sub_tables key w.subs_valid in
    elim (Bool-cases (str_eq (key_of t.main_table) key)) [
      | inl same ↦ rw same (w.main_valid.1, subs)
      | inr other ↦ rw other subs
    ]

routed-HasColumn :
    (tasks : List ITask) (key : String)
    → All IsWellDeclared tasks
    → All HasColumn (routed tasks key)
routed-HasColumn [] key h = tt
routed-HasColumn (t ∷ tasks) key h =
    All-append HasColumn (routed_task t key) (routed tasks key) (routed_task-HasColumn t key h.0)
      (routed-HasColumn tasks key h.1)

-- Every watcher of an accepted index names a column to read the row's key from, on every table.
pub of-HasColumn :
    (tasks : List ITask) (idx : Watchers) (key : String)
    → index_tasks tasks ≡ ok idx
    → All (λ w. str_eq (key_column w) "" ≡ false) (of idx key)
of-HasColumn tasks idx key h =
    rw (of-index_tasks tasks idx h key)
      (routed-HasColumn tasks key ((index_tasks_accepts_iff tasks).0 (idx, h)))
