-- ===== src/Location/LogFilePosition.antt =====
-- log_file_position.rs: byte offsets in a log file. `none` is the panic of a checked operation.
use transaction_log.Common.{Option, if◌then◌else◌, leb, none, some, ℕ, ◌+◌, ◌-◌}
use transaction_log.Record.RecordId.{u64_max}
use transaction_log.Record.RecordLength.{RecordLength}

-- A transparent wrapper of a `u64`.
abbrev pub LogFilePosition : Type 0
LogFilePosition = ℕ

-- `START`
abbrev pub start_of_file : LogFilePosition
start_of_file = 0

unfoldable pub advance : LogFilePosition → RecordLength → Option LogFilePosition
advance p n = if leb (p + n) u64_max then some (p + n) else none

unfoldable pub retreat : LogFilePosition → RecordLength → Option LogFilePosition
retreat p n = if leb n p then some (p - n) else none
