-- ===== src/Tests/Restarting.antt =====
-- A restart of source/mysql.go over the file store.
use Prim.Native.Nat.{◌+◌, ◌-◌}
use cdc_trigger.Prelude.{◌≡◌, refl, true, false, none, [], ◌∷◌, ◌++◌, arith, lookup, insert, erase}
use cdc_trigger.Store.FileStore.{
  Files, set, set_steps, set_from, clean_up, stat, file_path, get, file_store_api,
}
use cdc_trigger.Store.FileStore.Laws.{file_store-StoreLaws, TempFits, ReadWorks}
use cdc_trigger.Source.Rows.{Turns, on_row, on_row_from}
use cdc_trigger.Source.Position.{load_position, save_position, stored_position}
use cdc_trigger.Source.Restarts.{
  Binlog, Progress, on_pos_synced, RestartReach, rows_sent, synced, ends, restart, here, next,
}
use cdc_trigger.Source.Restarts.Covered.{Emits, StartsAt, restarts_skip_nothing}
use cdc_trigger.Tests.Stores.{disk, calm, codec, codec_laws}
use cdc_trigger.Tests.Sources.{decoders, update}
use cdc_trigger.Tests.Samples.{text_ne}

-- The same update again and again, at the positions 4, 5, 6, and so on.
abbrev log : Binlog
log = record {
  entry = λ k. update;
  at = λ k. record { name = "mysql-bin.1"; pos = k + 4 };
  index_of = λ p. p.pos - 4;
}

abbrev undisturbed : Turns
undisturbed = record { now = λ k. 9; cancelled = λ k. none }

abbrev begun_at_4 : Files
begun_at_4 = ("cdc-trigger-_cdc_trigger_position", 4 ∷ []) ∷ []

abbrev began : Progress Files
began = record { position = 0; emitted = []; stored = begun_at_4; running = true }

abbrev sent_first : Progress Files
sent_first = record began {
  position = 1;
  emitted = [] ++ (on_row decoders undisturbed update).sent;
}

abbrev saved_5 : Files
saved_5 = (on_pos_synced (file_store_api disk) codec calm (log.at 1) begun_at_4).1

abbrev saved_first : Progress Files
saved_first = record sent_first { stored = saved_5 }

abbrev killed : Progress Files
killed = record saved_first { running = false }

abbrev restarted : Progress Files
restarted = record killed {
  position = log.index_of (load_position (file_store_api disk) codec calm saved_5 none);
  running = true;
}

starts_at_4 : StartsAt (file_store_api disk) codec ReadWorks decoders log 0 0 begun_at_4
unfolding load_position stored_position get file_path lookup
starts_at_4 = λ read master reads. ground (arith, reads)

position_is_1 : restarted.position ≡ 1
unfolding load_position stored_position get file_path lookup insert erase on_pos_synced
    save_position set set_steps set_from clean_up stat
position_is_1 = refl

went :
    RestartReach (file_store_api disk) codec ReadWorks (TempFits disk) decoders log began restarted
unfolding on_row on_row_from on_pos_synced save_position set set_steps set_from clean_up stat
    file_path lookup insert erase
went =
    next
      (next
        (next (next here (rows_sent began undisturbed refl refl)) (
          synced sent_first calm saved_5 refl
            (λ temp named same.
              text_ne "tmp-1" "cdc-trigger-_cdc_trigger_position" refl
                (ground (arith, named, same)))
            refl))
        (ends saved_first))
      (restart killed calm none refl refl)

restarts_skip_nothing_example : Emits decoders log 0 restarted.emitted
restarts_skip_nothing_example =
    restarts_skip_nothing (file_store_api disk) codec ReadWorks (TempFits disk) decoders log 0 0
      begun_at_4 restarted (file_store-StoreLaws disk) codec_laws
      (λ k. (refl, λ e. absurd (omega (arith, e)))) (λ k. omega arith) starts_at_4 went
      (omega arith) (omega (arith, position_is_1))
