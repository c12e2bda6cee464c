-- ===== src/Config.antt =====
-- config/config.go: the configuration of `cdc-trigger` and its loading.
use cdc_trigger.Prelude.{String, [], ◌∷◌}
use cdc_trigger.Errors.{str, wrapf, Result, ok, err}
use cdc_trigger.Store.{StoreType}
use cdc_trigger.Source.Lifecycle.{SourceType, MysqlConfig}
use cdc_trigger.Queue.Producer.{ProducerType}

-- `Config`: the types that select the components, and the section of the source.
pub record Config : Type 0 where
  pub store : StoreType
  pub source : SourceType
  pub mysql : MysqlConfig
  pub producer : ProducerType

-- `Load`, over what the reader makes of the file at a path.
unfoldable pub load : (String → Result Config) → String → Result Config
load load_file path = elim (load_file path) [
  | err e ↦ err (wrapf "failed to load configuration from %s: %w" (str path ∷ []) e)
  | ok cfg ↦ ok cfg
]
