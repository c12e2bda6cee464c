-- ===== src/Task/Runner/Exclusion.antt =====
-- Several goroutines calling `Run` of one runner of task/runner.go: at most one consumes.
use cdc_trigger.Prelude.{ℕ, suc, ◌≡◌, ◌⊎◌, true, false, arith}
use cdc_trigger.Errors.{ok}
use cdc_trigger.Task.Runner.{Runner, IConsumer, run_begin, run_end}

-- The runner, and how many `Run` calls are inside `consumer.Consume`.
pub record Running : Type 0 where
  pub runner : Runner
  pub active : ℕ

-- The locked sections of `Run` interleave; the consumption between them is not a step.
pub data RunStep : Running → Running → Type 0 where
  begin :
      (s : Running) (c : IConsumer) (r : Runner)
      → run_begin s.runner ≡ ok (c, r)
      → RunStep s (record { runner = r; active = suc s.active })
  finish :
      (s : Running) (n : ℕ)
      → s.active ≡ suc n
      → RunStep s (record { runner = run_end s.runner; active = n })

pub data RunReach (s : Running) : Running → Type 0 where
  here : RunReach s s
  next : {t u : Running} → RunReach s t → RunStep t u → RunReach s u

-- The flag is set exactly while one consumption is active, and there is never a second one.
pub record IsExclusive (s : Running) : Type 0 where
  pub flagged :
      (s.runner.consuming ≡ false) × (s.active ≡ 0) ⊎ (s.runner.consuming ≡ true) × (s.active ≡ 1)

RunStep-IsExclusive : {s t : Running} → RunStep s t → IsExclusive s → IsExclusive t
unfolding run_begin run_end
RunStep-IsExclusive (begin s c r h) v = record { flagged = ground arith }
RunStep-IsExclusive (finish s n h) v = record { flagged = ground arith }

-- From an idle runner no interleaving of `Run` calls has two of them consuming at once, and the
-- flag tells whether one is.
pub RunReach-IsExclusive : {s t : Running} → IsExclusive s → RunReach s t → IsExclusive t
RunReach-IsExclusive v here = v
RunReach-IsExclusive v (next r st) = RunStep-IsExclusive st (RunReach-IsExclusive v r)
