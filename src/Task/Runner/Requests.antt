-- ===== src/Task/Runner/Requests.antt =====
-- The runs of task/runner.go that a caller asks for: what they refuse, and that a run by primary
-- key does what the change of that row does.
use mathlib.Core.List.{Perm}
use cdc_trigger.Prelude.{
  ℕ, ◌<◌, ◌≤◌, String, ◌≡◌, ◌≢◌, ◌↔◌, refl, ap, ◌∙◌, ◌⊎◌, inl, inr, true, false, Option, none, some,
  List, [], ◌∷◌, map, arith, All, length, get_elem?, Option-cases, Bool-cases, zero, suc, lt→ltb,
}
use cdc_trigger.Errors.{Value, GoError, ok, errors_join}
use cdc_trigger.Types.{EventData}
use cdc_trigger.Task.{ITask}
use cdc_trigger.Task.Watchers.{
  Watcher, Outcome, Shared, of, named, contains_dot, run_task, run_task_range, run_each, complete,
  complete_all, table_key_of,
}
use cdc_trigger.Task.Watchers.Routing.{routed}
use cdc_trigger.Task.Watchers.FanOut.{IsSchedule, calls_of, run_each-schedule}
use cdc_trigger.Task.Runner.{
  Runner, IConsumer, new_runner, is_empty, main_pk_val, handle_watcher, handle, run_by_primary_key,
  run_by_time_range,
}
use cdc_trigger.Task.Runner.Routes.{of-new_runner, routed-dot, event_key, contains_dot-append}

module _ (c : Option IConsumer) (tasks : List ITask) (r : Runner)
    (built : new_runner c tasks ≡ ok r) where
  -- The name of a table is accepted exactly when some task watches it, and then stands for all
  -- of the watchers on it.
  pub named_iff :
      (table : String) (ws : List Watcher)
      → (named r.watched table ≡ ok ws) ↔ ((ws ≡ routed tasks table) × (routed tasks table ≢ []))
  unfolding named
  named_iff table ws = (
    λ h.
        let shown = of-new_runner c tasks r built table in
        (ground (arith, shown), λ none_there. ground (arith, shown, none_there)),
    λ (e, some_there).
        let shown = of-new_runner c tasks r built table in
        elim (Bool-cases (contains_dot table)) [
          | inl dotted ↦ ground (arith, shown, dotted, e, some_there)
          | inr plain ↦ absurd (some_there (routed-dot tasks table plain))
        ],
  )

  -- A run by primary key with no usable value, or of a table that no task watches, or whose
  -- context is done, calls no task and reports an error.
  pub run_by_primary_key_refuses :
      (ctx_err : Option GoError) (table : String) (value : Value) (order : List ℕ)
      → (is_empty value ≡ true) ⊎ (routed tasks table ≡ []) ⊎ (ctx_err ≢ none)
      → ((run_by_primary_key r ctx_err table value order).calls ≡ [])
        × ((run_by_primary_key r ctx_err table value order).error ≢ none)
  unfolding run_by_primary_key named run_each
  run_by_primary_key_refuses ctx_err table value order why =
      let shown = of-new_runner c tasks r built table in
      (ground (arith, shown), λ e. ground (arith, shown))

  -- A run by time range of an empty range, or of a table that no task watches, or whose context is
  -- done, calls no task and reports an error.
  pub run_by_time_range_refuses :
      (ctx_err : Option GoError) (table : String) (start end : ℕ) (order : List ℕ)
      → (end ≤ start) ⊎ (routed tasks table ≡ []) ⊎ (ctx_err ≢ none)
      → ((run_by_time_range r ctx_err table start end order).calls ≡ [])
        × ((run_by_time_range r ctx_err table start end order).error ≢ none)
  unfolding run_by_time_range named run_each
  run_by_time_range_refuses ctx_err table start end order why =
      let shown = of-new_runner c tasks r built table in
      (ground (arith, shown), λ e. ground (arith, shown))

  -- A range that is not empty, of a table that some task watches, is run under a live context by
  -- every task watching the table, once each, whatever the schedule, and their errors are reported.
  pub run_by_time_range_calls :
      (table : String) (start end : ℕ) (order : List ℕ)
      → start < end
      → routed tasks table ≢ []
      → IsSchedule order (length (routed tasks table))
      → ((run_by_time_range r none table start end order).error
          ≡ errors_join (map (λ w. (run_task_range w table start end).error) (routed tasks table)))
        × Perm
            (run_by_time_range r none table start end order).calls
            (calls_of (routed tasks table) (λ w. run_task_range w table start end))
  unfolding run_by_time_range
  run_by_time_range_calls table start end order fits watched p =
      let found = (named_iff table (routed tasks table)).1 (refl, watched) in
      rw (lt→ltb start end fits) (
        rw (found, run_by_time_range)
          (run_each-schedule (routed tasks table) (λ w. run_task_range w table start end) order p))

-- Two runs agree if their functions agree on the watchers.
complete-agree :
    (ws : List Watcher) (f g : Watcher → Outcome) (i : ℕ) (s : Shared)
    → All (λ w. f w ≡ g w) ws
    → complete ws f i s ≡ complete ws g i s
unfolding complete
complete-agree ws f g i s h = elim (Option-cases (get_elem? ws i)) [
  | inl e ↦ rw (e, complete)
  | inr (w, e) ↦ rw (e, complete) (rw (All-at ws i w e h))
]
  where
    All-at :
        (ws : List Watcher) (i : ℕ) (w : Watcher)
        → get_elem? ws i ≡ some w
        → All (λ w. f w ≡ g w) ws
        → f w ≡ g w
    All-at [] i w e h = cc
    All-at (v ∷ ws) zero w e h = cc (h.0, e)
    All-at (v ∷ ws) (suc i) w e h = All-at ws i w e h.1

complete_all-agree :
    (ws : List Watcher) (f g : Watcher → Outcome) (order : List ℕ) (s : Shared)
    → All (λ w. f w ≡ g w) ws
    → complete_all ws f order s ≡ complete_all ws g order s
unfolding complete_all
complete_all-agree ws f g [] s h = refl
complete_all-agree ws f g (i ∷ order) s h =
    ap (complete_all ws f order) (complete-agree ws f g i s h)
    ∙ complete_all-agree ws f g order (complete ws g i s) h

run_each-agree :
    (ctx_err : Option GoError) (ws : List Watcher) (f g : Watcher → Outcome) (order : List ℕ)
    → All (λ w. f w ≡ g w) ws
    → run_each ctx_err ws f order ≡ run_each ctx_err ws g order
unfolding run_each
run_each-agree (some e) ws f g order h = refl
run_each-agree none ws f g order h = rw (complete_all-agree ws f g order _ h)

handle_watcher-run_task :
    (event : EventData) (key : String) (value : Value) (ws : List Watcher)
    → All (λ w. main_pk_val w event ≡ (value, true)) ws
    → All (λ w. handle_watcher event key w ≡ run_task w key value) ws
unfolding handle_watcher
handle_watcher-run_task event key value [] h = tt
handle_watcher-run_task event key value (w ∷ ws) h =
    (rw h.0, handle_watcher-run_task event key value ws h.1)

-- A change that names the same row to every watcher of its table is handled exactly as a run by
-- primary key of that table for that row: the same calls, and the same report.
pub handle-run_by_primary_key :
    (r : Runner) (ctx_err : Option GoError) (event : EventData) (value : Value) (order : List ℕ)
    → of r.watched (event_key event) ≢ []
    → is_empty value ≡ false
    → All (λ w. main_pk_val w event ≡ (value, true)) (of r.watched (event_key event))
    → handle r ctx_err event order ≡ run_by_primary_key r ctx_err (event_key event) value order
unfolding handle run_by_primary_key named table_key_of
handle-run_by_primary_key r ctx_err event value order watched usable same =
    go (of r.watched key) refl watched same
  where
    key : String
    key = event_key event

    go :
        (ws : List Watcher)
        → of r.watched key ≡ ws
        → ws ≢ []
        → All (λ w. main_pk_val w event ≡ (value, true)) ws
        → handle r ctx_err event order ≡ run_by_primary_key r ctx_err key value order
    go [] e h a = absurd (h refl)
    go (w ∷ ws) e h a =
        let agree = handle_watcher-run_task event key value (w ∷ ws) a in
        ground (
          arith,
          e,
          usable,
          contains_dot-append event.row.database event.row.table,
          run_each-agree ctx_err (w ∷ ws) (handle_watcher event key) (λ v. run_task v key value)
              order agree,
        )
