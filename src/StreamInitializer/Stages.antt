-- ===== src/StreamInitializer/Stages.antt =====
-- Each stage of `initialize` by the state that it finds.
use transaction_log.Common.{
  List, arith, err, false, none, ok, pure, some, true, wrap_err, ℕ, ◌>>=◌, ◌>>◌, ◌≡◌,
}
use transaction_log.Location.LogFileId.{LogFileId, LogFileIdRangeError, iter_to}
use transaction_log.Location.Endpoints.{RecordEndLocation}
use transaction_log.Storage.Provider.{Provider}
use transaction_log.StreamInitializer.Initializer.{
  InitializedStream, InitializationState, range, storage, checkpoint_end, first_file, next_file,
  checkpoint_changes, validate_each, validate_files, remove_later_files, advance_checkpoint,
  prepare_active_pair, finish,
}

pub finish-some :
    {H : Type 0} (s : InitializationState H) (pair : InitializedStream H)
    → s.active_pair ≡ some pair
    → finish s ≡ ok pair
unfolding finish
finish-some s pair e = ground arith

module _ {W H : Type 0} (crc32c : List ℕ → ℕ) (provider : Provider W H) (reserve : ℕ → ℕ → ℕ → ℕ)
    (fuel : ℕ) (s : InitializationState H) (w : W) where
  pub prepare-active :
      (pair : InitializedStream H)
      → s.active_pair ≡ some pair
      → prepare_active_pair crc32c provider reserve fuel s w ≡ (ok s, w)
  unfolding prepare_active_pair
  prepare-active pair e = ground arith

  pub prepare-create :
      (file_id : LogFileId)
      → s.active_pair ≡ none
      → next_file s.stream_id s.recovered_end ≡ some file_id
      → prepare_active_pair crc32c provider reserve fuel s w
        ≡ (wrap_err storage (provider.create_log_and_index file_id) >>= λ files. pure (record s {
          active_pair =
              some (record { file_id = file_id; log = files.0; index = files.1; end = none });
        }))
            w
  unfolding prepare_active_pair
  prepare-create file_id e n = ground arith

  pub advance-none :
      s.recovered_end ≡ none → advance_checkpoint crc32c provider reserve fuel s w ≡ (ok s, w)
  unfolding advance_checkpoint
  advance-none e = ground arith

  pub advance-same :
      (end : RecordEndLocation)
      → s.recovered_end ≡ some end
      → checkpoint_changes s.checkpoint end ≡ false
      → advance_checkpoint crc32c provider reserve fuel s w ≡ (ok s, w)
  unfolding advance_checkpoint
  advance-same end e c = ground arith

  pub advance-write :
      (end : RecordEndLocation)
      → s.recovered_end ≡ some end
      → checkpoint_changes s.checkpoint end ≡ true
      → advance_checkpoint crc32c provider reserve fuel s w
        ≡ (wrap_err storage (provider.write_checkpoint (record { end = end })) >> pure s) w
  unfolding advance_checkpoint
  advance-write end e c = ground arith

  pub remove-none :
      s.first_file_to_remove ≡ none
      → remove_later_files crc32c provider reserve fuel s w ≡ (ok s, w)
  unfolding remove_later_files
  remove-none e = ground arith

  pub remove-some :
      (f maximum : LogFileId)
      → s.first_file_to_remove ≡ some f
      → s.maximum_log_file ≡ some maximum
      → remove_later_files crc32c provider reserve fuel s w
        ≡ (wrap_err storage (provider.remove_log_and_index f maximum) >> pure s) w
  unfolding remove_later_files
  remove-some f maximum e m = ground arith

  pub validate-none :
      s.maximum_log_file ≡ none → validate_files crc32c provider reserve fuel s w ≡ (ok s, w)
  unfolding validate_files
  validate-none e = ground arith

  pub validate-some :
      (maximum : LogFileId) (files : List LogFileId)
      → s.maximum_log_file ≡ some maximum
      → iter_to (first_file s.stream_id (checkpoint_end s.checkpoint)) maximum ≡ ok files
      → validate_files crc32c provider reserve fuel s w
        ≡ validate_each crc32c provider reserve fuel maximum (checkpoint_end s.checkpoint) files s w
  unfolding validate_files
  validate-some maximum files e i = ground arith

  pub validate-range :
      (maximum : LogFileId) (e : LogFileIdRangeError)
      → s.maximum_log_file ≡ some maximum
      → iter_to (first_file s.stream_id (checkpoint_end s.checkpoint)) maximum ≡ err e
      → validate_files crc32c provider reserve fuel s w ≡ (err (range e), w)
  unfolding validate_files
  validate-range maximum e m i = ground arith
