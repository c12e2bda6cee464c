-- ===== src/Store/FileStore/Removal.antt =====
-- `Has` and `Delete` of store/file.go.
use cdc_trigger.Prelude.{ℕ, String, Option, none, some, List, str_eq, if◌then◌else◌}
use cdc_trigger.Errors.{GoError}
use cdc_trigger.Store.FileStore.{FileStore, Io}

-- What a path holds after a `Delete` with this result.
abbrev pub left_after : Option GoError → String → String → Option (List ℕ) → Option (List ℕ)
left_after none path j before = if str_eq path j then none else before
left_after (some e) path j before = before

-- What `Delete` returns: nil for a file that is not there, and else what `os.Remove` reports.
abbrev pub delete_result : Io → Option (List ℕ) → Option GoError
delete_result io none = none
delete_result io (some content) = io.remove
