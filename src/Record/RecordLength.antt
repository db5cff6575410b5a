-- ===== src/Record/RecordLength.antt =====
-- record_length.rs and record_length_error.rs: the encoded length of one record.
use transaction_log.Common.{Outcome, err, if◌then◌else◌, ltb, ok, ℕ, ◌||◌, ◌≤◌}
use transaction_log.Record.Protocol.{min_record_len, max_record_len}

-- A transparent wrapper of a `u64`.
abbrev pub RecordLength : Type 0
RecordLength = ℕ

pub record RecordLengthError : Type 0 where
  pub value : ℕ

abbrev pub minimum : RecordLength
minimum = min_record_len

abbrev pub maximum : RecordLength
maximum = max_record_len

-- What `new` has established of a length.
pub record IsRecordLength (n : ℕ) : Type 0 where
  pub least : minimum ≤ n
  pub most : n ≤ maximum

unfoldable pub new : ℕ → Outcome RecordLengthError RecordLength
new value =
    if ltb value minimum || ltb maximum value then err (record { value = value }) else ok value
