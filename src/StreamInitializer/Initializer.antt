-- ===== src/StreamInitializer/Initializer.antt =====
-- stream_initializer.rs and initialized_stream.rs.
use transaction_log.Common.{
  Bool, Exec, List, Option, Outcome, [], dropped, err, false, if◌then◌else◌, leb, lift, map_err,
  none, not, ok, panicked, pure, some, stuck, throw, true, wrap_err, ℕ, ◌&&◌, ◌==◌, ◌>>=◌, ◌>>◌,
  ◌∷◌,
}
use transaction_log.Io.Error.{IoError, not_found}
use transaction_log.Record.StreamId.{StreamId}
use transaction_log.Location.LogFileId
use transaction_log.Location.LogFileId.{LogFileId, LogFileIdRangeError, first, next, iter_to}
use transaction_log.Location.Endpoints.{RecordEndLocation, end_file}
use transaction_log.IndexedLog.Writer.{end_eq}
use transaction_log.PairValidator.Validator as Pair
use transaction_log.PairValidator.Validator.{
  IndexedLogValidationError, ValidatedFilePair, complete, partial,
}
use transaction_log.Storage.Paths.{Name, FilePath, log_file_path}
use transaction_log.Storage.Provider.{StorageError, StreamCheckpoint, Provider}

pub record InitializedStream (H : Type 0) : Type 0 where
  pub file_id : LogFileId
  pub log : H
  pub index : H
  pub end : Option RecordEndLocation

pub record InitializationState (H : Type 0) : Type 0 where
  pub stream_id : StreamId
  pub checkpoint : Option StreamCheckpoint
  pub maximum_log_file : Option LogFileId
  pub recovered_end : Option RecordEndLocation
  pub active_pair : Option (InitializedStream H)
  pub first_file_to_remove : Option LogFileId

-- `anyhow::Error`, by what it is made of: other modules' errors, and one for each message.
pub data InitializationError : Type 0 where
  storage : StorageError → InitializationError
  validation : IndexedLogValidationError → InitializationError
  range : LogFileIdRangeError → InitializationError
  other_stream no_log_files maximum_below_checkpoint : InitializationError

-- The equality of paths.
name_eq : Name → Name → Bool
name_eq [] [] = true
name_eq [] (b ∷ bs) = false
name_eq (a ∷ as') [] = false
name_eq (a ∷ as') (b ∷ bs) = a == b && name_eq as' bs

unfoldable pub path_eq : FilePath → FilePath → Bool
unfolding name_eq
path_eq [] [] = true
path_eq [] (b ∷ bs) = false
path_eq (a ∷ as') [] = false
path_eq (a ∷ as') (b ∷ bs) = name_eq a b && path_eq as' bs

abbrev pub is_not_found : IoError → Bool
is_not_found not_found = true
is_not_found e = false

abbrev pub checkpoint_end : Option StreamCheckpoint → Option RecordEndLocation
checkpoint_end none = none
checkpoint_end (some c) = some c.end

-- `filter(|end| end.log_file_id() == file_id)`
abbrev pub trusted_in : LogFileId → Option RecordEndLocation → Option RecordEndLocation
trusted_in file_id none = none
trusted_in file_id (some end) = if LogFileId.eq (end_file end) file_id then some end else none

-- `map_or(LogFileId::first(stream), |end| end.log_file_id())`
abbrev pub first_file : StreamId → Option RecordEndLocation → LogFileId
first_file stream none = first stream
first_file stream (some end) = end_file end

-- `map_or(LogFileId::first(stream), |end| end.log_file_id().next())`: `none` is a panic.
abbrev pub next_file : StreamId → Option RecordEndLocation → Option LogFileId
next_file stream none = some (first stream)
next_file stream (some end) = next (end_file end)

-- `end.or(other)`
abbrev pub or_end : Option RecordEndLocation → Option RecordEndLocation → Option RecordEndLocation
or_end (some end) other = some end
or_end none other = other

unfoldable pub new : {H : Type 0} → StreamId → InitializationState H
new stream = record {
  stream_id = stream;
  checkpoint = none;
  maximum_log_file = none;
  recovered_end = none;
  active_pair = none;
  first_file_to_remove = none;
}

-- The `ensure!` of `load_checkpoint`.
unfoldable pub check_stream :
    StreamId → Option StreamCheckpoint → Outcome InitializationError (Unit {0})
check_stream stream none = ok tt
check_stream stream (some c) =
    if c.end.record_id.stream_id == stream then ok tt else err other_stream

-- The `bail!` and the `ensure!` of `discover_log_files`.
unfoldable pub check_maximum :
    Option RecordEndLocation → Option LogFileId → Outcome InitializationError (Unit {0})
unfolding end_file
check_maximum none maximum = ok tt
check_maximum (some end) none = err no_log_files
check_maximum (some end) (some maximum) =
    if leb (end_file end).file_number maximum.file_number
    then ok tt
    else err maximum_below_checkpoint

-- `(file_id != maximum).then(|| file_id.next())`: `panicked` is the overflow of the file number.
unfoldable pub removed_after :
    LogFileId → LogFileId → Outcome InitializationError (Option LogFileId)
unfolding next LogFileId.eq
removed_after file_id maximum =
    if not (LogFileId.eq file_id maximum)
    then elim (next file_id) [ none ↦ panicked | some f ↦ ok (some f) ]
    else ok none

-- `self.checkpoint != Some(checkpoint)`
unfoldable pub checkpoint_changes : Option StreamCheckpoint → RecordEndLocation → Bool
unfolding end_eq
checkpoint_changes checkpoint end = not (end_eq (checkpoint_end checkpoint) (some end))

unfoldable pub finish :
    {H : Type 0} → InitializationState H → Outcome InitializationError (InitializedStream H)
finish s = elim s.active_pair [ some pair ↦ ok pair | none ↦ panicked ]

module _ {W H : Type 0} (crc32c : List ℕ → ℕ) (provider : Provider W H) (reserve : ℕ → ℕ → ℕ → ℕ)
    (fuel : ℕ) where
  -- A step on the state; a step that fails has no state, since `initialize` drops it.
  abbrev Step : Type 0
  Step = InitializationState H → Exec W InitializationError (InitializationState H)

  unfoldable pub load_checkpoint : Step
  unfolding check_stream
  load_checkpoint s = do
    checkpoint ← wrap_err storage (provider.read_checkpoint s.stream_id)
    lift (check_stream s.stream_id checkpoint)
    pure (record s { checkpoint = checkpoint })

  unfoldable pub discover_log_files : Step
  unfolding check_maximum
  discover_log_files s = do
    maximum ← wrap_err storage (provider.maximum_log_file s.stream_id)
    lift (check_maximum (checkpoint_end s.checkpoint) maximum)
    pure (record s { maximum_log_file = maximum })

  -- The arm of a partial file, which is the last one.
  unfoldable pub stop_at : LogFileId → LogFileId → Option RecordEndLocation → H → H → Step
  unfolding removed_after
  stop_at maximum file_id end l i s = do
    removed ← lift (removed_after file_id maximum)
    pure (record s {
      recovered_end = or_end end s.recovered_end;
      active_pair = some (record { file_id = file_id; log = l; index = i; end = end });
      first_file_to_remove = removed;
    })

  -- The arm of a storage error: a missing log without trusted records ends the stream.
  unfoldable pub missing_at : LogFileId → Option RecordEndLocation → FilePath → IoError → Step
  unfolding path_eq log_file_path
  missing_at file_id last_trusted path source s =
      if elim last_trusted [ none ↦ true | some end ↦ false ]
        && (is_not_found source && path_eq path (log_file_path provider.root file_id))
      then pure (record s { first_file_to_remove = some file_id })
      else throw (validation (Pair.storage (StorageError.io path source)))

  -- The `match` on the answer for one file, given the rest of the loop.
  unfoldable pub after_pair :
      Step
      → LogFileId
      → LogFileId
      → Option RecordEndLocation
      → InitializationState H
      → Outcome IndexedLogValidationError (ValidatedFilePair H)
      → W
      → Outcome InitializationError (InitializationState H) × W
  unfolding stop_at missing_at
  after_pair loop maximum file_id last_trusted s (ok (complete end)) =
      loop (record s { recovered_end = some end })
  after_pair loop maximum file_id last_trusted s (ok (partial end l i)) =
      stop_at maximum file_id end l i s
  after_pair loop maximum file_id last_trusted s
        (err (Pair.storage (StorageError.io path source))) =
      missing_at file_id last_trusted path source s
  after_pair loop maximum file_id last_trusted s (err e) = throw (validation e)
  after_pair loop maximum file_id last_trusted s dropped = lift dropped
  after_pair loop maximum file_id last_trusted s panicked = lift panicked
  after_pair loop maximum file_id last_trusted s stuck = lift stuck

  -- `for file_id in …`
  unfoldable pub validate_each : LogFileId → Option RecordEndLocation → List LogFileId → Step
  unfolding after_pair Pair.validate
  validate_each maximum checkpoint [] s w = (ok s, w)
  validate_each maximum checkpoint (file_id ∷ files) s w =
      let last_trusted = trusted_in file_id checkpoint in
      let (r, w') = Pair.validate crc32c provider reserve fuel file_id last_trusted w in
      after_pair (validate_each maximum checkpoint files) maximum file_id last_trusted s r w'

  unfoldable pub validate_files : Step
  unfolding validate_each iter_to first
  validate_files s = elim s.maximum_log_file [
    | none ↦ pure s
    | some maximum ↦
        let checkpoint = checkpoint_end s.checkpoint in
        lift (map_err range (iter_to (first_file s.stream_id checkpoint) maximum)) >>= λ files.
        validate_each maximum checkpoint files s
  ]

  unfoldable pub remove_later_files : Step
  remove_later_files s = elim s.first_file_to_remove [
    | none ↦ pure s
    | some f ↦ elim s.maximum_log_file [
      | none ↦ lift panicked
      | some maximum ↦ wrap_err storage (provider.remove_log_and_index f maximum) >> pure s
    ]
  ]

  unfoldable pub advance_checkpoint : Step
  unfolding checkpoint_changes
  advance_checkpoint s = elim s.recovered_end [
    | none ↦ pure s
    | some end ↦
        if checkpoint_changes s.checkpoint end
        then wrap_err storage (provider.write_checkpoint (record { end = end })) >> pure s
        else pure s
  ]

  unfoldable pub prepare_active_pair : Step
  unfolding next first
  prepare_active_pair s = elim s.active_pair [
    | some pair ↦ pure s
    | none ↦ elim (next_file s.stream_id s.recovered_end) [
      | none ↦ lift panicked
      | some file_id ↦ wrap_err storage (provider.create_log_and_index file_id) >>= λ files.
          pure (record s {
            active_pair =
                some (record { file_id = file_id; log = files.0; index = files.1; end = none });
          })
    ]
  ]

  unfoldable pub initialize : StreamId → Exec W InitializationError (InitializedStream H)
  unfolding new load_checkpoint discover_log_files validate_files remove_later_files
      advance_checkpoint prepare_active_pair finish
  initialize stream = do
    loaded ← load_checkpoint (new stream)
    discovered ← discover_log_files loaded
    validated ← validate_files discovered
    cleaned ← remove_later_files validated
    advanced ← advance_checkpoint cleaned
    prepared ← prepare_active_pair advanced
    lift (finish prepared)
