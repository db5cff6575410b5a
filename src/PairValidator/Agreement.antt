-- ===== src/PairValidator/Agreement.antt =====
-- What it is for a recovered log and its index to agree.
use transaction_log.Common.{
  List, Option, Outcome, [], drop, dropped, err, ok, panicked, some, stuck, take, ℕ, ◌*◌, ◌++◌, ◌<◌,
  ◌≡◌, ◌≢◌, ◌≤◌,
}
use transaction_log.Io.File.{Parts, content, IsFile, KeptBy}
use transaction_log.IndexWriter.Writer.{index_entry_len}
use transaction_log.Location.LogFileNumber.{records_per_file}
use transaction_log.Location.LogFileId.{LogFileId}
use transaction_log.Location.Endpoints.{RecordEndLocation, position_of, count_of}
use transaction_log.LogValidator.Findings.{Exhausts}
use transaction_log.LogValidator.Validator.{ValidatedLogFile}
use transaction_log.LogValidator.Validating.{Recovers}
use transaction_log.IndexValidator.Entries.{Agrees, encode_ends}
use transaction_log.PairValidator.Validator.{
  IndexedLogValidationError, storage, log, index, ValidatedFilePair, complete, partial,
}
use transaction_log.Storage.Provider.{Provider}

-- Where a file's cursor is, and what is in front of it and behind it.
abbrev pub Place : {W : Type 0} → Parts W → (front rest : List ℕ) → ℕ → W → Type 0
Place p front rest n w = (p.front w ≡ front) × (p.rest w ≡ rest) × (p.stalls w ≤ n)

-- Every open file keeps the laws, and its calls touch no other open file.
pub record IsFiles {W H : Type 0} (provider : Provider W H) (parts : H → Parts W) : Type 0 where
  pub files : (h : H) → IsFile (provider.file h) (parts h)
  pub apart :
      (a b : H) (front rest : List ℕ) (n : ℕ)
      → a ≢ b
      → KeptBy (provider.file a) (Place (parts b) front rest n)

-- The records that survive are in the log, their entries in the index, and nothing else behind the
-- trusted ones.
pub record Agreed {W : Type 0} (crc32c : List ℕ → ℕ) (l i : Parts W) (f : LogFileId)
    (t : Option RecordEndLocation) (before after : W) (end : Option RecordEndLocation)
    : Type 0 where
  pub found : ValidatedLogFile
  pub records : Recovers crc32c l f t before after found
  pub end_found : end ≡ found.validated_end
  pub trusted : Agrees t (content i before)
  pub entries :
      content i after
      ≡ take (count_of t * index_entry_len) (content i before) ++ encode_ends found.suffix_ends

module _ {W H : Type 0} (crc32c : List ℕ → ℕ) (parts : H → Parts W) (f : LogFileId)
    (t : Option RecordEndLocation) (l i : H) (before : W) where
  -- The trusted records and entries are as they were.
  abbrev pub Trusted : W → Type 0
  Trusted after =
      (take (position_of t) (content (parts l) after)
        ≡ take (position_of t) (content (parts l) before))
      × (take (count_of t * index_entry_len) (content (parts i) after)
          ≡ take (count_of t * index_entry_len) (content (parts i) before))

  -- What the validation of two open files leaves, by its answer.
  abbrev pub PairValidates : W → Outcome IndexedLogValidationError (ValidatedFilePair H) → Type 0
  PairValidates after (ok (complete end)) =
      Agreed crc32c (parts l) (parts i) f t before after (some end)
      × (count_of (some end) ≡ records_per_file)
  PairValidates after (ok (partial end l' i')) =
      Agreed crc32c (parts l) (parts i) f t before after end
      × (count_of end < records_per_file)
      × (l' ≡ l)
      × (i' ≡ i)
      × ((parts l).rest after ≡ [])
      × ((parts i).rest after ≡ [])
  PairValidates after (err (storage e)) = ⊥
  PairValidates after (err (log e)) = Trusted after
  PairValidates after (err (index e)) = Trusted after
  PairValidates after dropped = Trusted after
  PairValidates after panicked =
      Exhausts crc32c f (count_of t) (drop (position_of t) (content (parts l) before))
  PairValidates after stuck = ⊥
