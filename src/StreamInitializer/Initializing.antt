-- ===== src/StreamInitializer/Initializing.antt =====
-- What `initialize` answers, whatever the calls of the storage do.
use transaction_log.Common.{Exec, List, Outcome, ℕ, ◌>>=◌}
use transaction_log.Record.StreamId.{StreamId}
use transaction_log.Location.LogFileId.{LogFileId}
use transaction_log.Storage.Provider.{Provider}
use transaction_log.StreamInitializer.Initializer.{
  InitializedStream, InitializationState, InitializationError, discover_log_files, validate_files,
}
use transaction_log.StreamInitializer.Faults.{Fault, IsTyped}
use transaction_log.StreamInitializer.Finishing.{Initializes, cleaned}

module _ {W H : Type 0} (crc32c : List ℕ → ℕ) {provider : Provider W H} (typed : IsTyped provider)
    (reserve : ℕ → ℕ → ℕ → ℕ) (fuel : ℕ) (stream : StreamId) where
  abbrev Panic : Type 0
  Panic = Fault crc32c provider reserve fuel

  abbrev Post : Outcome InitializationError (InitializedStream H) × W → Type 0
  Post x = Initializes provider stream Panic x.1 x.0

  abbrev Rest : Type 0
  Rest = InitializationState H → Exec W InitializationError (InitializedStream H)

  abbrev validated : Rest
  validated s =
      validate_files crc32c provider reserve fuel s >>= cleaned crc32c provider reserve fuel stream

  -- The stages behind `load_checkpoint`.
  abbrev loaded : Rest
  loaded s = discover_log_files crc32c provider reserve fuel s >>= λ x.
      validate_files crc32c provider reserve fuel x >>= cleaned crc32c provider reserve fuel stream
