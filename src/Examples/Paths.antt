-- ===== src/Examples/Paths.antt =====
-- Paths at concrete inputs.
use transaction_log.Common.{[], arith, refl, ◌∷◌, ◌≡◌, ◌≢◌}
use transaction_log.Record.StreamId.{StreamId}
use transaction_log.Location.LogFileId.{LogFileId}
use transaction_log.Storage.Paths.{Name, log_or_index_file_path, checkpoint_file_path, digits}
use transaction_log.Storage.Distinct.{
  log_or_index_file_path-injective, checkpoint_file_path-injective,
}

abbrev seventh : LogFileId
seventh = record { stream_id = 7; file_number = 123 }

-- "000000000000123"
seventh_number :
    digits 15 123 ≡ 48 ∷ 48 ∷ 48 ∷ 48 ∷ 48 ∷ 48 ∷ 48 ∷ 48 ∷ 48 ∷ 48 ∷ 48 ∷ 48 ∷ 49 ∷ 50 ∷ 51 ∷ []
unfolding digits
seventh_number = refl

abbrev log_extension : Name
log_extension = 108 ∷ 111 ∷ 103 ∷ []

abbrev one_stream : StreamId
one_stream = 7

abbrev another_stream : StreamId
another_stream = 8

log_or_index_file_path-injective_example : (seventh ≡ seventh) × (log_extension ≡ log_extension)
log_or_index_file_path-injective_example =
    log_or_index_file_path-injective [] seventh seventh log_extension log_extension (omega arith)
      (omega arith) (omega arith) (omega arith) refl

checkpoint_file_path-injective_example :
    (checkpoint_file_path [] one_stream ≡ checkpoint_file_path [] another_stream
      → one_stream ≡ another_stream)
    × (checkpoint_file_path [] one_stream ≢ log_or_index_file_path [] seventh log_extension)
checkpoint_file_path-injective_example =
    checkpoint_file_path-injective [] one_stream another_stream seventh log_extension (omega arith)
      (omega arith)
