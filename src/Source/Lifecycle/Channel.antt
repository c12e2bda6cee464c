-- ===== src/Source/Lifecycle/Channel.antt =====
-- Whatever calls meet a `MySQLSource` (source/mysql.go), its channel is closed at most once.
use cdc_trigger.Prelude.{ℕ, suc, ◌≡◌, ◌≢◌, ◌⊎◌, true, false, none, some, List, [], ◌∷◌, arith}
use cdc_trigger.Errors.{ok}
use cdc_trigger.Source.Lifecycle.{
  MysqlConfig, Release, canal, event_data_chan, MySqlSource, new_mysql_source, with_store,
  run_begin, stop, close, RunEnd, run_end,
}

-- One call of the source, from any goroutine; each is one section under the lock.
pub data SourceStep : MySqlSource → MySqlSource → Type 0 where
  configure : (s : MySqlSource) → SourceStep s (with_store s)
  start : (s t : MySqlSource) → run_begin s ≡ ok t → SourceStep s t
  ends : (s : MySqlSource) (how : RunEnd) → SourceStep s (run_end how s).1
  closes : (s : MySqlSource) → SourceStep s (close s).1

pub data SourceReach (s : MySqlSource) : MySqlSource → Type 0 where
  here : SourceReach s s
  next : {t u : MySqlSource} → SourceReach s t → SourceStep t u → SourceReach s u

-- How often the event channel was closed.
abbrev pub chan_closes : List Release → ℕ
chan_closes [] = 0
chan_closes (canal ∷ rs) = chan_closes rs
chan_closes (event_data_chan ∷ rs) = suc (chan_closes rs)

-- Each close of the channel comes directly behind a close of the canal.
abbrev pub IsCanalFirst : List Release → Type 0
IsCanalFirst [] = Unit
IsCanalFirst (canal ∷ rs) = IsCanalFirst rs
IsCanalFirst (event_data_chan ∷ []) = ⊥
IsCanalFirst (event_data_chan ∷ event_data_chan ∷ rs) = ⊥
IsCanalFirst (event_data_chan ∷ canal ∷ rs) = IsCanalFirst rs

-- The flag tells whether the channel was closed, which happens once at most, and directly behind a
-- close of the canal.
pub record IsOrderly (s : MySqlSource) : Type 0 where
  pub channel :
      (s.chan_closed ≡ false) × (chan_closes s.releases ≡ 0)
      ⊎ (s.chan_closed ≡ true) × (chan_closes s.releases ≡ 1)
  pub canal_first : IsCanalFirst s.releases

stop-IsOrderly : (s : MySqlSource) → IsOrderly s → IsOrderly (stop s)
unfolding stop
stop-IsOrderly s v = record {
  channel = ground (arith, v.channel);
  canal_first = ground (arith, v.canal_first);
}

run_end-IsOrderly : (how : RunEnd) (s : MySqlSource) → IsOrderly s → IsOrderly (run_end how s).1
unfolding run_end
run_end-IsOrderly (RunEnd.context_done e) s v = stop-IsOrderly s v
run_end-IsOrderly (RunEnd.canal_done none) s v = stop-IsOrderly s v
run_end-IsOrderly (RunEnd.canal_done (some e)) s v = stop-IsOrderly s v

SourceStep-IsOrderly : {s t : MySqlSource} → SourceStep s t → IsOrderly s → IsOrderly t
unfolding with_store run_begin close
SourceStep-IsOrderly (configure s) v = record { channel = v.channel; canal_first = v.canal_first }
SourceStep-IsOrderly (start s t h) v = record { channel = ground arith; canal_first = ground arith }
SourceStep-IsOrderly (ends s how) v = run_end-IsOrderly how s v
SourceStep-IsOrderly (closes s) v = stop-IsOrderly s v

-- From a new source, no sequence of `WithStore`, `Run`, `stop` and `Close`, however they
-- interleave, closes the event channel twice, and a close of it comes directly behind one of the canal.
pub SourceReach-IsOrderly :
    (cfg : MysqlConfig) (s t : MySqlSource)
    → new_mysql_source cfg none ≡ ok s
    → SourceReach s t
    → IsOrderly t
unfolding new_mysql_source
SourceReach-IsOrderly cfg s t new here = record {
  channel = ground arith;
  canal_first = ground arith;
}
SourceReach-IsOrderly cfg s t new (next r st) =
    SourceStep-IsOrderly st (SourceReach-IsOrderly cfg s _ new r)

-- `Run` is refused while it runs, and ends with the source stopped and its channel closed. A
-- later `Run` is not refused, and starts with that channel still closed.
pub run_begin-run_end :
    (s t : MySqlSource) (how : RunEnd)
    → run_begin s ≡ ok t
    → ((u : MySqlSource) → run_begin t ≢ ok u)
      × ((run_end how t).1.running ≡ false)
      × ((run_end how t).1.chan_closed ≡ true)
      × (run_begin (run_end how t).1 ≡ ok (record (run_end how t).1 { running = true }))
unfolding run_begin run_end stop
run_begin-run_end s t (RunEnd.context_done e) h =
    (λ u x. ground arith, ground arith, ground arith, ground arith)
run_begin-run_end s t (RunEnd.canal_done none) h =
    (λ u x. ground arith, ground arith, ground arith, ground arith)
run_begin-run_end s t (RunEnd.canal_done (some e)) h =
    (λ u x. ground arith, ground arith, ground arith, ground arith)

-- `Close` of a source that is not running does nothing: the canal that `NewMySQLSource` created
-- stays open.
pub close-not_running : (s : MySqlSource) → s.running ≡ false → close s ≡ (none, s)
unfolding close stop
close-not_running s h = ground arith
