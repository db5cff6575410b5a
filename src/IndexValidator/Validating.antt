-- ===== src/IndexValidator/Validating.antt =====
-- `validate` of the index: what it answers, and what it leaves in the file.
use transaction_log.Common.{
  Bool-cases, List, Option, Outcome, [], after_call, ap, append-nil, arith, continue, drop-all,
  dropped, err, inl, inr, length, length-take, ltb, ltb→le, ltb→lt, map_err, ok, panicked, refl,
  stuck, subst, sym, take, take-all, take-append, wrap_err, ℕ, ◌*◌, ◌++◌, ◌+◌, ◌<◌, ◌>>◌, ◌∙◌, ◌≡◌,
  ◌≤◌,
}
use transaction_log.Io.Error.{IoError}
use transaction_log.Io.Output.{Passed}
use transaction_log.Io.File.{Sought, Resized, ValidationFile, Parts, content, IsFile}
use transaction_log.IndexWriter.Writer
use transaction_log.IndexWriter.Writer.{index_entry_len}
use transaction_log.Location.LogFileNumber.{records_per_file}
use transaction_log.Location.LogFilePosition.{LogFilePosition}
use transaction_log.Location.Endpoints.{RecordEndLocation, count_of}
use transaction_log.IndexValidator.Validator.{
  IndexFileValidationError, io, trusted_index_mismatch, too_many_entries, write, check_trusted,
  write_suffix, replace_suffix, validate,
}
use transaction_log.IndexValidator.Entries.{Agrees, encode_ends, trusted-le}
use transaction_log.IndexValidator.Checking.{Mismatch, Checks, check_trusted-Checks}
use transaction_log.IndexValidator.Replacing.{Adds, write_suffix-Adds}

module _ {F : Type 0} (parts : Parts F) (t : Option RecordEndLocation) (ends : List LogFilePosition)
    (before : F) where
  -- Where the entries of the trusted records end.
  abbrev start : ℕ
  start = count_of t * index_entry_len

  abbrev Kept : F → Type 0
  Kept after = take start (content parts after) ≡ take start (content parts before)

  -- What `validate` leaves, by its answer.
  abbrev pub IndexValidates : F → Outcome IndexFileValidationError (Unit {0}) → Type 0
  IndexValidates after (ok u) =
      Agrees t (content parts before)
      × (count_of t + length ends ≤ records_per_file)
      × (content parts after ≡ take start (content parts before) ++ encode_ends ends)
  IndexValidates after (err (too_many_entries n m)) =
      (content parts after ≡ content parts before)
      × (n ≡ count_of t + length ends)
      × (m ≡ records_per_file)
      × (m < n)
  IndexValidates after (err (trusted_index_mismatch i expected actual)) =
      (content parts after ≡ content parts before)
      × Mismatch t (content parts before) i expected actual
  IndexValidates after (err (io e)) = Kept after
  IndexValidates after (err (write (Writer.io e))) = Kept after
  IndexValidates after (err (write Writer.unusable)) = ⊥
  IndexValidates after dropped = Kept after
  IndexValidates after panicked = ⊥
  IndexValidates after stuck = ⊥

module _ {F : Type 0} {calls : ValidationFile F} {parts : Parts F} (laws : IsFile calls parts)
    (fuel : ℕ) (t : Option RecordEndLocation) (ends : List LogFilePosition) (before : F)
    (agrees : Agrees t (content parts before))
    (few : count_of t + length ends ≤ records_per_file) where
  abbrev Post : F → Outcome IndexFileValidationError (Unit {0}) → Type 0
  Post = IndexValidates parts t ends before

  -- A file that begins with the trusted entries.
  begins-Kept :
      (y : F) (bytes : List ℕ)
      → content parts y ≡ take (start parts t ends before) (content parts before) ++ bytes
      → Kept parts t ends before y
  begins-Kept y bytes e =
      let s = start parts t ends before in
      let c = content parts before in
      ap (take s) e
      ∙ take-append s (take s c) bytes (omega (arith, length-take s c, trusted-le t c agrees))

  synced-Post :
      (y : F) (z : F) (r : Outcome IoError (Unit {0}))
      → content parts z ≡ content parts y
      → content parts y
        ≡ take (start parts t ends before) (content parts before) ++ encode_ends ends
      → Passed parts.front parts.stalls y z r
      → Post z (map_err io r)
  synced-Post y z (ok u) same e h = (agrees, few, same ∙ e)
  synced-Post y z (err x) same e h = begins-Kept z (encode_ends ends) (same ∙ e)
  synced-Post y z dropped same e h = begins-Kept z (encode_ends ends) (same ∙ e)
  synced-Post y z panicked same e h = h
  synced-Post y z stuck same e h = h

  written_then :
      (r : Outcome IndexFileValidationError (Unit {0})) (y : F)
      → Adds parts (take (start parts t ends before) (content parts before)) (encode_ends ends) y r
      → let x = continue r (λ u. wrap_err io calls.output.sync_data) y in Post x.1 x.0
  written_then (ok u) y h =
      synced-Post y (calls.output.sync_data y).1 (calls.output.sync_data y).0 (laws.sync_keeps y) h
        (laws.writes.synced y)
  written_then (err (write (Writer.io e))) y (k, h) = begins-Kept y (take k (encode_ends ends)) h
  written_then (err (write Writer.unusable)) y h = h
  written_then (err (io e)) y h = absurd h
  written_then (err (trusted_index_mismatch i e a)) y h = absurd h
  written_then (err (too_many_entries n m)) y h = absurd h
  written_then dropped y (k, h) = begins-Kept y (take k (encode_ends ends)) h
  written_then panicked y h = h
  written_then stuck y h = h

  replace_suffix-Post :
      (y : F)
      → content parts y ≡ content parts before
      → length ends * index_entry_len + parts.stalls y ≤ fuel
      → let x = replace_suffix calls fuel (start parts t ends before) ends y in Post x.1 x.0
  unfolding replace_suffix
  replace_suffix-Post y same enough =
      let s = start parts t ends before in
      let c = content parts before in
      let le : s ≤ length (content parts y) =
        omega (arith, trusted-le t c agrees, ap length same) in
      let short = length-take s c in
      after_call io (Resized parts s y (calls.set_len s y).1) Post (calls.set_len s y).0
        (calls.set_len s y).1
        (λ u.
          wrap_err io (calls.seek s)
          >> (write_suffix calls fuel ends >> wrap_err io calls.output.sync_data))
        (laws.resized s y le) (λ e l. l ∙ ap (take s) same) (λ l. l ∙ ap (take s) same) (λ l. l)
        (λ l. l)
        (λ u l.
          let y1 = (calls.set_len s y).1 in
          let cut : content parts y1 ≡ take s c = l.0 ∙ ap (take s) same in
          after_call io (Sought parts s y1 (calls.seek s y1).1) Post (calls.seek s y1).0
            (calls.seek s y1).1
            (λ u. write_suffix calls fuel ends >> wrap_err io calls.output.sync_data)
            (laws.sought s y1 (omega (arith, ap length cut, short, trusted-le t c agrees)))
            (λ e k. begins-Kept (calls.seek s y1).1 [] (k ∙ cut ∙ sym (append-nil (take s c))))
            (λ k. begins-Kept (calls.seek s y1).1 [] (k ∙ cut ∙ sym (append-nil (take s c))))
            (λ k. k) (λ k. k)
            (λ u k.
              let y2 = (calls.seek s y1).1 in
              let x = write_suffix calls fuel ends y2 in
              written_then x.0 x.1 (
                subst (λ f. Adds parts f (encode_ends ends) x.1 x.0)
                  (k.0 ∙ ap (take s) cut ∙ take-all s (take s c) (omega (arith, short)))
                  (write_suffix-Adds laws fuel ends y2
                    (k.1 ∙ drop-all s (content parts y1) (omega (arith, ap length cut, short)))
                    (omega (arith, l.1, k.2))))))

module _ {F : Type 0} {calls : ValidationFile F} {parts : Parts F} (laws : IsFile calls parts)
    (fuel : ℕ) (t : Option RecordEndLocation) (ends : List LogFilePosition) (before : F) where
  checked_then :
      (r : Outcome IndexFileValidationError (Unit {0})) (y : F)
      → count_of t + length ends ≤ records_per_file
      → length ends * index_entry_len + parts.stalls before ≤ fuel
      → Checks parts before t y r
      → let x = continue r (λ u. replace_suffix calls fuel (start parts t ends before) ends) y in
        IndexValidates parts t ends before x.1 x.0
  checked_then (ok u) y few enough (agrees, same, stalls) =
      replace_suffix-Post laws fuel t ends before agrees few y same (omega arith)
  checked_then (err (io e)) y few enough same = ap (take (start parts t ends before)) same
  checked_then (err (trusted_index_mismatch i e a)) y few enough h = h
  checked_then (err (too_many_entries n m)) y few enough h = absurd h
  checked_then (err (write e)) y few enough h = absurd h
  checked_then dropped y few enough same = ap (take (start parts t ends before)) same
  checked_then panicked y few enough h = h
  checked_then stuck y few enough h = h

  -- On an index file that keeps the documented laws, with fuel for each new byte and each
  -- interruption, `validate` ends without a panic. On success the last trusted entry was the
  -- trusted position, there are at most 100,000 entries, and the file is its trusted entries
  -- followed by exactly the given ones. Too many entries and a trusted entry that differs or is
  -- missing are reported with what was found, and leave the content as it is. Any other failure
  -- and a dropped call keep the trusted entries.
  pub validate-IndexValidates :
      length ends * index_entry_len + parts.stalls before ≤ fuel
      → let x = validate calls fuel t ends before in IndexValidates parts t ends before x.1 x.0
  unfolding validate
  validate-IndexValidates enough =
      elim (Bool-cases (ltb records_per_file (count_of t + length ends))) [
        | inl many ↦
            rw many (refl, refl, refl, ltb→lt records_per_file (count_of t + length ends) many)
        | inr few ↦
            let x = check_trusted calls fuel t before in
            rw few (
              checked_then x.0 x.1 (ltb→le records_per_file (count_of t + length ends) few) enough
                (check_trusted-Checks laws fuel before t))
      ]
