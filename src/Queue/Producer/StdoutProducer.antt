-- ===== src/Queue/Producer/StdoutProducer.antt =====
-- `StdoutProducer` (queue/producer/stdout.go).
use cdc_trigger.Prelude.{ℕ, Option, none, some, List, [], ◌∷◌}
use cdc_trigger.Errors.{GoError, wrapf, Result, ok, err}

-- `Send`, over what `json.MarshalIndent` gives for the event: what it returns, and the lines that it
-- prints.
unfoldable pub send : Result (List ℕ) → Option GoError × List (List ℕ)
send marshalled = elim marshalled [
  | err e ↦ (some (wrapf "failed to marshal event: %w" [] e), [])
  | ok payload ↦ (none, payload ∷ [])
]
