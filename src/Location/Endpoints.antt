-- ===== src/Location/Endpoints.antt =====
-- record_start_location.rs and record_end_location.rs: where a record begins and where it ends.
use transaction_log.Common.{ℕ, Option, if◌then◌else◌, none, some}
use transaction_log.Record.RecordId
use transaction_log.Record.RecordId.{RecordId}
use transaction_log.Record.RecordLength.{RecordLength}
use transaction_log.Location.LogFilePosition.{LogFilePosition, advance, start_of_file}
use transaction_log.Location.LogFileId
use transaction_log.Location.LogFileId.{LogFileId, from_record_id, record_count_through}

pub record RecordStartLocation : Type 0 where
  pub record_id : RecordId
  pub position : LogFilePosition

pub record RecordEndLocation : Type 0 where
  pub record_id : RecordId
  pub position : LogFilePosition

-- `log_file_id` of both types
unfoldable pub start_file : RecordStartLocation → LogFileId
start_file l = from_record_id l.record_id

unfoldable pub end_file : RecordEndLocation → LogFileId
end_file l = from_record_id l.record_id

-- `none` is a panic of the position or of the sequence number, here and below.
unfoldable pub to_end : RecordStartLocation → RecordLength → Option RecordEndLocation
unfolding advance
to_end l n = elim (advance l.position n) [
  | some p ↦ some (record { record_id = l.record_id; position = p })
  | none ↦ none
]

unfoldable pub next_record_start : RecordEndLocation → Option RecordStartLocation
unfolding end_file
next_record_start l = elim (RecordId.next l.record_id) [
  | none ↦ none
  | some next_id ↦
      let position = if LogFileId.eq (from_record_id next_id) (end_file l) then l.position else 0 in
      some (record { record_id = next_id; position = position })
]

unfoldable pub to_next : RecordStartLocation → RecordLength → Option RecordStartLocation
unfolding to_end next_record_start
to_next l n = elim (to_end l n) [ some e ↦ next_record_start e | none ↦ none ]

-- `map_or(START, |end| end.position())` and `map_or(0, |end| LogFileId::record_count_through(…))`:
-- what an end says of its file, and what holds where there is none.
abbrev pub position_of : Option RecordEndLocation → LogFilePosition
position_of (some end) = end.position
position_of none = start_of_file

abbrev pub count_of : Option RecordEndLocation → ℕ
count_of (some end) = record_count_through end.record_id
count_of none = 0
