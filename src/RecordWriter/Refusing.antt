-- ===== src/RecordWriter/Refusing.antt =====
-- A writer after a call that did not succeed.
use transaction_log.Common.{
  Bool, Exec, List, Outcome, [], ap, arith, dropped, err, false, map_err, ok, panicked, refl, stuck,
  true, ℕ, ◌∙◌, ◌∷◌, ◌≡◌, ◌≢◌,
}
use transaction_log.Io.Error.{IoError}
use transaction_log.Io.Output.{Output}
use transaction_log.Io.WriteLoop.{write_loop}
use transaction_log.Record.View.{Record}
use transaction_log.RecordWriter.Writer
use transaction_log.RecordWriter.Writer.{RecordWriter, RecordOutputError, io, unusable, settle}

-- The calls a caller can make of a writer of existing records.
pub data Call : Type 0 where
  write_record : Record → Call
  flush_buffer : (fuel : ℕ) → Call
  flush : Call
  sync_data : Call

abbrev all_refused : List Call → List (Outcome RecordOutputError (Unit {0}))
all_refused [] = []
all_refused (c ∷ cs) = err unusable ∷ all_refused cs

module _ {D : Type 0} (o : Output D) where
  unfoldable pub step : Call → Exec (RecordWriter D) RecordOutputError (Unit {0})
  step (write_record r) w = Writer.write_record r w
  step (flush_buffer fuel) w = Writer.flush_buffer o fuel w
  step flush w = Writer.flush o w
  step sync_data w = Writer.sync_data o w

  -- The answers of the calls in their order, and the writer after them.
  unfoldable pub run_calls :
      List Call → RecordWriter D → List (Outcome RecordOutputError (Unit {0})) × RecordWriter D
  run_calls [] w = ([], w)
  run_calls (c ∷ cs) w = let (r, x) = step c w in let (rs, y) = run_calls cs x in (r ∷ rs, y)

  step-down : (c : Call) (w : RecordWriter D) → w.usable ≡ false → step c w ≡ (err unusable, w)
  unfolding step Writer.write_record Writer.flush_buffer Writer.flush Writer.sync_data
  step-down (write_record r) w h = ground arith
  step-down (flush_buffer fuel) w h = ground arith
  step-down flush w h = ground arith
  step-down sync_data w h = ground arith

  run_calls-down :
      (cs : List Call) (w : RecordWriter D)
      → w.usable ≡ false
      → run_calls cs w ≡ (all_refused cs, w)
  unfolding run_calls
  run_calls-down [] w h = refl
  run_calls-down (c ∷ cs) w h =
      ap (λ p. ((p.0 ∷ (run_calls cs p.1).0), (run_calls cs p.1).1)) (step-down c w h)
      ∙ ap (λ p. (err unusable ∷ p.0, p.1)) (run_calls-down cs w h)

-- A settled failure leaves the writer down.
settle-down :
    {D : Type 0} (r : Outcome IoError (Unit {0})) (left : List ℕ) (w : RecordWriter D) (d : D)
    → let result = settle (map_err io r) d left w in result.0 ≢ ok tt → result.1.usable ≡ false
settle-down (ok u) left w d h = absurd (h refl)
settle-down (err x) left w d h = refl
settle-down dropped left w d h = refl
settle-down panicked left w d h = refl
settle-down stuck left w d h = refl

module _ {D : Type 0} (o : Output D) where
  step-failed :
      (c : Call) (d : D) (b : List ℕ) (usable : Bool)
      → let w : RecordWriter D = record { destination = d; buffer = b; usable = usable } in
        (step o c w).0 ≢ ok tt → (step o c w).1.usable ≡ false
  unfolding step Writer.write_record Writer.flush_buffer Writer.flush Writer.sync_data
  step-failed (write_record r) d b false h = refl
  step-failed (write_record r) d b true h = absurd (h refl)
  step-failed (flush_buffer fuel) d b false h = refl
  step-failed (flush_buffer fuel) d [] true h = absurd (h refl)
  step-failed (flush_buffer fuel) d (b ∷ bs) true h =
      settle-down (write_loop o fuel (b ∷ bs) d).0 [] (Writer.open_writer d (b ∷ bs))
        (write_loop o fuel (b ∷ bs) d).1 h
  step-failed flush d b false h = refl
  step-failed flush d b true h =
      settle-down (o.flush d).0 b (Writer.open_writer d b) (o.flush d).1 h
  step-failed sync_data d b false h = refl
  step-failed sync_data d b true h =
      settle-down (o.sync_data d).0 b (Writer.open_writer d b) (o.sync_data d).1 h

  -- Over any destination: once a `write_record`, `flush_buffer`, `flush` or `sync_data` has not
  -- succeeded, whether it failed, was dropped, panicked or ran out of fuel, every later one of
  -- them, in any number and order, is refused as unusable, and the writer stays as that call left
  -- it.
  pub failed_call-refuses :
      (first : Call) (later : List Call) (w : RecordWriter D)
      → (step o first w).0 ≢ ok tt
      → run_calls o later (step o first w).1 ≡ (all_refused later, (step o first w).1)
  failed_call-refuses first later w h =
      run_calls-down o later (step o first w).1
        (step-failed first w.destination w.buffer w.usable h)
