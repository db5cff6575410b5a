-- ===== src/Location/LogFileNumber.antt =====
-- log_file_number.rs and log_file_number_error.rs: the files of a stream hold 100,000 records each.
use transaction_log.Common.{
  Option, Outcome, err, if◌then◌else◌, ltb, none, ok, some, ℕ, ◌+◌, ◌/◌, ◌≤◌,
}
use transaction_log.Record.RecordId.{SequenceNumber, u64_max}

abbrev pub records_per_file : ℕ
records_per_file = 100_000

-- A transparent wrapper of a `u64`.
abbrev pub LogFileNumber : Type 0
LogFileNumber = ℕ

pub record LogFileNumberError : Type 0 where
  pub value : ℕ

-- `MIN` and `MAX`
abbrev pub minimum : LogFileNumber
minimum = 0

abbrev pub maximum : LogFileNumber
maximum = u64_max / records_per_file

-- What `new` has established of a number.
abbrev pub IsLogFileNumber : ℕ → Type 0
IsLogFileNumber n = n ≤ maximum

unfoldable pub new : ℕ → Outcome LogFileNumberError LogFileNumber
new value = if ltb maximum value then err (record { value = value }) else ok value

unfoldable pub from_sequence_number : SequenceNumber → LogFileNumber
from_sequence_number n = n / records_per_file

-- `none` is the failed assertion "log file number overflow".
unfoldable pub next : LogFileNumber → Option LogFileNumber
next n = if ltb n maximum then some (n + 1) else none
