-- ===== src/RecordWriter/Writer.antt =====
-- record_writer.rs, record_output_error.rs and record_write_error.rs: records are collected in a
-- buffer and handed to the destination. The mode is a marker type in Rust; here each mode's
-- operation is its own function.
use transaction_log.Common.{
  Bool, Exec, List, Outcome, [], dropped, err, false, if◌then◌else◌, map_err, ok, panicked, stuck,
  true, ℕ, ◌++◌, ◌∷◌,
}
use transaction_log.Io.Error.{IoError}
use transaction_log.Io.Output.{Output}
use transaction_log.Io.WriteLoop.{write_loop}
use transaction_log.Record.RecordId.{RecordId}
use transaction_log.Record.View.{Record}
use transaction_log.RecordWriter.Builder
use transaction_log.RecordWriter.Builder.{RecordBuildError, RecordBuilder}
use transaction_log.RecordWriter.Body.{Body, run}

pub data RecordOutputError : Type 0 where
  io : IoError → RecordOutputError
  unusable : RecordOutputError

pub data RecordWriteError (E : Type 0) : Type 0 where
  build : RecordBuildError → RecordWriteError E
  serialize : E → RecordWriteError E
  output : RecordOutputError → RecordWriteError E

pub record RecordWriter (D : Type 0) : Type 0 where
  pub destination : D
  pub buffer : List ℕ
  pub usable : Bool

-- A writer that may be used.
abbrev pub open_writer : {D : Type 0} → D → List ℕ → RecordWriter D
open_writer d buffer = record { destination = d; buffer = buffer; usable = true }

-- `with_mode`, for `for_serialization` and `for_records`
unfoldable pub with_mode : {D : Type 0} → D → RecordWriter D
with_mode destination = record { destination = destination; buffer = []; usable = true }

pub into_inner : {D : Type 0} → RecordWriter D → D
into_inner w = w.destination

unfoldable pub check_usable : {D : Type 0} → RecordWriter D → Outcome RecordOutputError (Unit {0})
check_usable w = if w.usable then ok tt else err unusable

-- The end of `write`, once the closure has answered: its own failure counts only if the builder
-- has none.
unfoldable pub conclude :
    {E : Type 0}
    → (List ℕ → ℕ)
    → RecordId
    → Outcome E (Unit {0})
    → RecordBuilder
    → Outcome (RecordWriteError E) (Unit {0}) × List ℕ
unfolding Builder.check_error Builder.drop_builder
conclude crc32c id (err e) b = elim (Builder.check_error b) [
  | err x ↦ (err (build x), Builder.drop_builder b)
  | _ ↦ (err (serialize e), Builder.drop_builder b)
]
conclude crc32c id (ok u) b =
    let (r, buffer) = Builder.finish crc32c id b in (map_err build r, buffer)
conclude crc32c id dropped b = (dropped, Builder.drop_builder b)
conclude crc32c id panicked b = (panicked, Builder.drop_builder b)
conclude crc32c id stuck b = (stuck, Builder.drop_builder b)

-- `write` of the serialization mode.
unfoldable pub write :
    {D E : Type 0}
    → (crc32c : List ℕ → ℕ) → (reserved : List ℕ → List ℕ) → RecordId
    → Body E
    → Exec (RecordWriter D) (RecordWriteError E) (Unit {0})
unfolding conclude check_usable
write crc32c reserved id write_body w = elim w.usable [
  | false ↦ (err (output unusable), w)
  | true ↦
      let (answer, b) = run write_body (Builder.new reserved w.buffer) in
      let (r, buffer) = conclude crc32c id answer b in (r, record w { buffer = buffer })
]

-- `write_record` of the mode for existing records.
unfoldable pub write_record :
    {D : Type 0} → Record → Exec (RecordWriter D) RecordOutputError (Unit {0})
write_record r w =
    if w.usable then (ok tt, record w { buffer = w.buffer ++ r.bytes }) else (err unusable, w)

-- The state behind an awaited call: usable again only after its success.
abbrev pub settle :
    {D : Type 0}
    → Outcome RecordOutputError (Unit {0})
    → D
    → List ℕ
    → RecordWriter D
    → Outcome RecordOutputError (Unit {0}) × RecordWriter D
settle (ok u) d buffer w = (ok u, record { destination = d; buffer = buffer; usable = true })
settle r d buffer w = (r, record w { destination = d; usable = false })

module _ {D : Type 0} (o : Output D) where
  unfoldable pub flush_buffer : ℕ → Exec (RecordWriter D) RecordOutputError (Unit {0})
  flush_buffer fuel w = elim w.usable [
    | false ↦ (err unusable, w)
    | true ↦ elim w.buffer [
      | [] ↦ (ok tt, w)
      | b ∷ bs ↦
          let (r, d) = write_loop o fuel w.buffer w.destination in settle (map_err io r) d [] w
    ]
  ]

  unfoldable pub flush : Exec (RecordWriter D) RecordOutputError (Unit {0})
  flush w = elim w.usable [
    | false ↦ (err unusable, w)
    | true ↦ let (r, d) = o.flush w.destination in settle (map_err io r) d w.buffer w
  ]

  unfoldable pub sync_data : Exec (RecordWriter D) RecordOutputError (Unit {0})
  sync_data w = elim w.usable [
    | false ↦ (err unusable, w)
    | true ↦ let (r, d) = o.sync_data w.destination in settle (map_err io r) d w.buffer w
  ]
