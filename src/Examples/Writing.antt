-- ===== src/Examples/Writing.antt =====
-- The record writer at concrete inputs.
use transaction_log.Common.{
  Outcome, [], arith, dropped, err, false, map_err, ok, panicked, stuck, subst, true, ℕ, ◌∷◌, ◌≡◌,
  ◌≢◌,
}
use transaction_log.RecordWriter.Body.{Body, return, write, write_all, collect}
use transaction_log.RecordWriter.Writer
use transaction_log.RecordWriter.Writer.{RecordOutputError, unusable}
use transaction_log.RecordWriter.Serialize.{after_write, write-after_write}
use transaction_log.RecordWriter.Flushing.{OutputDone, flush_buffer-OutputDone}
use transaction_log.RecordWriter.Refusing.{
  flush, sync_data, write_record, step, run_calls, failed_call-refuses,
}
use transaction_log.Examples.Devices.{
  Tracked, tracked, tracked_sync, Sink, sink, sink-IsOutput, checksum, sample_id, reserved_memory,
  length-reserved_memory,
}

-- A closure that writes two bytes, then a third, and answers with its own error if that fails.
abbrev two_writes : Body ℕ
two_writes = write (1 ∷ 2 ∷ []) (λ r. write_all (3 ∷ []) (λ s. return (map_err (λ e. 9) s)))

abbrev idle : Sink
idle = record { taken = 5 ∷ []; stall = 2 }

write-after_write_example :
    Writer.write checksum reserved_memory sample_id two_writes (Writer.open_writer idle (8 ∷ []))
    ≡ (
      (after_write checksum sample_id (8 ∷ []) (collect two_writes [] false)).0,
      Writer.open_writer idle
          (after_write checksum sample_id (8 ∷ []) (collect two_writes [] false)).1,
    )
write-after_write_example =
    write-after_write checksum sample_id reserved_memory two_writes idle (8 ∷ [])
      (length-reserved_memory (8 ∷ []))

flush_buffer-OutputDone_example :
    let w = Writer.open_writer idle (1 ∷ 2 ∷ 3 ∷ 4 ∷ []) in
    let result = Writer.flush_buffer sink 6 w in
    OutputDone (λ d. d.taken) (λ d. d.stall) (1 ∷ 2 ∷ 3 ∷ 4 ∷ []) [] w result.1 result.0
flush_buffer-OutputDone_example =
    flush_buffer-OutputDone sink-IsOutput 6 idle (1 ∷ 2 ∷ 3 ∷ 4 ∷ []) (omega arith)

abbrev memory : Tracked
memory = record { held = 5 ∷ 6 ∷ []; flushed = 5 ∷ []; synced = []; broken = false }

-- A writer whose destination cannot synchronize.
abbrev failing : Writer.RecordWriter Tracked
failing = Writer.open_writer (record memory { broken = true }) (8 ∷ [])

failing-fails : (step tracked sync_data failing).0 ≢ ok tt
unfolding step Writer.sync_data tracked tracked_sync
failing-fails e =
    subst
      (λ (r : Outcome RecordOutputError (Unit {0})). elim r [
        | ok u ↦ ⊥
        | err x ↦ Unit {0}
        | dropped ↦ ⊥
        | panicked ↦ ⊥
        | stuck ↦ ⊥
      ])
      e tt

failed_call-refuses_example :
    let broken = (step tracked sync_data failing).1 in
    run_calls tracked (flush ∷ write_record (record { bytes = 1 ∷ [] }) ∷ []) broken
    ≡ (err unusable ∷ err unusable ∷ [], broken)
failed_call-refuses_example =
    failed_call-refuses tracked sync_data (flush ∷ write_record (record { bytes = 1 ∷ [] }) ∷ [])
      failing failing-fails
