-- ===== src/StreamInitializer/Planning.antt =====
-- The files of a stream are validated: from what was loaded and discovered to a plan.
use transaction_log.Common.{List, Option, Outcome, none, some, ℕ}
use transaction_log.Record.StreamId.{StreamId}
use transaction_log.Location.LogFileNumber.{IsLogFileNumber}
use transaction_log.Location.LogFileId
use transaction_log.Location.LogFileId.{LogFileId}
use transaction_log.Storage.Provider.{StreamCheckpoint, Provider}
use transaction_log.StreamInitializer.Initializer.{
  InitializationState, InitializationError, checkpoint_end,
}
use transaction_log.StreamInitializer.Faults.{PairFault}
use transaction_log.StreamInitializer.Walking.{Plans}

-- The number of the last file, if there is one, is valid.
abbrev pub ValidMaximum : Option LogFileId → Type 0
ValidMaximum none = Unit {0}
ValidMaximum (some m) = IsLogFileNumber m.file_number

-- What `new`, `load_checkpoint` and `discover_log_files` make up.
abbrev pub discovered :
    {H : Type 0} → StreamId → Option LogFileId → Option StreamCheckpoint → InitializationState H
discovered stream maximum c = record {
  stream_id = stream;
  checkpoint = c;
  maximum_log_file = maximum;
  recovered_end = none;
  active_pair = none;
  first_file_to_remove = none;
}

module _ {W H : Type 0} (crc32c : List ℕ → ℕ) (provider : Provider W H) (reserve : ℕ → ℕ → ℕ → ℕ)
    (fuel : ℕ) (stream : StreamId) where
  abbrev Planned :
      Option LogFileId
      → Option StreamCheckpoint
      → Outcome InitializationError (InitializationState H) × W
      → Type 0
  Planned o c x = Plans (PairFault crc32c provider reserve fuel) stream (o, checkpoint_end c) x.0
