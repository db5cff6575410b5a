-- ===== src/LogValidator/Validating.antt =====
-- `validate`: what it reports of a log file, and what it leaves of it.
use transaction_log.Common.{
  List, Option, Outcome, [], after_call, ap, ap₂, arith, drop, dropped, err, inl, inr, length,
  length-append, length-drop, none, ok, panicked, pure, refl, some, stuck, suc, sym, take, take-all,
  take-take, wrap_err, zero, ℕ, ◌*◌, ◌++◌, ◌+◌, ◌>>◌, ◌∙◌, ◌∷◌, ◌≡◌, ◌≢◌, ◌≤◌, ◌⊎◌,
}
use transaction_log.Io.Error.{IoError}
use transaction_log.Io.File.{Resized, ValidationFile, Parts, content, IsFile}
use transaction_log.Io.Output.{Passed}
use transaction_log.Record.RecordLength
use transaction_log.Record.View.{Record}
use transaction_log.Record.RecordId.{IsRecordId}
use transaction_log.RecordReader.Reader
use transaction_log.RecordReader.Reader.{RecordReader}
use transaction_log.Location.LogFilePosition.{LogFilePosition}
use transaction_log.Location.LogFileId
use transaction_log.Location.LogFileId.{LogFileId}
use transaction_log.Location.Endpoints.{RecordEndLocation, end_file, position_of, count_of}
use transaction_log.IndexedLog.Invariant.{length-bytes_of, size_of, bytes_of, end_at}
use transaction_log.LogValidator.Scan.{
  LogTailError, LogFileValidationError, invalid_start, another_file, outside_extent, io, read,
}
use transaction_log.LogValidator.Findings.{Finds, Exhausts}
use transaction_log.LogValidator.Validator.{ValidatedLogFile, cut_tail, repair}

-- A trusted endpoint is of a record that there can be.
abbrev pub IsTrusted : Option RecordEndLocation → Type 0
IsTrusted none = Unit {0}
IsTrusted (some end) = IsRecordId end.record_id

-- Its position may be that of its record's end.
abbrev pub InExtent : Option RecordEndLocation → ℕ → Type 0
InExtent t file_end =
    (position_of t ≤ file_end)
    × (count_of t * RecordLength.minimum ≤ position_of t)
    × (position_of t ≤ count_of t * RecordLength.maximum)

-- What a validated file is: the records that follow the trusted ones, found in it, and nothing else
-- left behind them.
pub record Recovers {F : Type 0} (crc32c : List ℕ → ℕ) (parts : Parts F) (f : LogFileId)
    (t : Option RecordEndLocation) (before after : F) (v : ValidatedLogFile) : Type 0 where
  pub extent : InExtent t (length (content parts before))
  pub finds :
      Finds crc32c f
        (count_of t)
        (position_of t)
        []
        (drop (position_of t) (content parts before))
        (record {
          validated_end = v.validated_end;
          suffix_ends = v.suffix_ends;
          tail_error = v.removed_tail;
        })
  pub file :
      content parts after ≡ take (position_of t + size_of finds.records) (content parts before)

module _ {F : Type 0} (crc32c : List ℕ → ℕ) (parts : Parts F) (f : LogFileId)
    (t : Option RecordEndLocation) (before : F) where
  -- What `validate` leaves, by its answer.
  abbrev pub Validates : F → Outcome LogFileValidationError ValidatedLogFile → Type 0
  Validates after (ok v) = Recovers crc32c parts f t before after v
  Validates after (err (invalid_start another_file)) =
      (content parts after ≡ content parts before)
      × (end : RecordEndLocation) × (t ≡ some end)
      × (end_file end ≢ f)
  Validates after (err (invalid_start outside_extent)) =
      (content parts after ≡ content parts before)
      × (InExtent t (length (content parts before)) → ⊥)
  Validates after (err (read e)) =
      (content parts after ≡ content parts before) × (x : IoError) × (e ≡ Reader.io x)
  Validates after (err (io e)) =
      take (position_of t) (content parts after) ≡ take (position_of t) (content parts before)
  Validates after dropped =
      take (position_of t) (content parts after) ≡ take (position_of t) (content parts before)
  Validates after panicked =
      Exhausts crc32c f (count_of t) (drop (position_of t) (content parts before))
  Validates after stuck = ⊥

position_of-end_at : (f : LogFileId) (n p : ℕ) → (1 ≤ n) ⊎ (p ≡ 0) → position_of (end_at f n p) ≡ p
position_of-end_at f zero p h = ground arith
position_of-end_at f (suc n) p h = refl

-- All that was found is there, and with nothing behind it that is the whole.
pub found_all :
    (p : ℕ) (c rest : List ℕ) (records : List Record)
    → p ≤ length c
    → drop p c ≡ bytes_of records ++ rest
    → p + size_of records ≤ length c
found_all p c rest records le e = omega (
  arith,
  ap length e,
  length-drop p c,
  length-append (bytes_of records) rest,
  length-bytes_of records,
)

found_whole :
    (p : ℕ) (c rest : List ℕ) (records : List Record)
    → p ≤ length c
    → drop p c ≡ bytes_of records ++ rest
    → rest ≡ []
    → c ≡ take (p + size_of records) c
found_whole p c rest records le e nothing = sym (
    take-all (p + size_of records) c (
      omega (
        arith,
        ap length e,
        ap length nothing,
        length-drop p c,
        length-append (bytes_of records) rest,
        length-bytes_of records,
      )))

found_start :
    (n p : ℕ) (records : List Record)
    → (1 ≤ n) ⊎ (p ≡ 0)
    → (1 ≤ n + length records) ⊎ (p + size_of records ≡ 0)
found_start n p [] h = ground arith
found_start n p (r ∷ rs) h = inl (omega arith)

-- Where the records end that were trusted or found.
pub found_position :
    (f : LogFileId) (t end : Option RecordEndLocation) (records : List Record)
    → end ≡ end_at f (count_of t + length records) (position_of t + size_of records)
    → position_of end ≡ position_of t + size_of records
unfolding LogFileId.record_count_through
found_position f none end records e =
    ap position_of e ∙ position_of-end_at f _ _ (found_start 0 0 records (inr refl))
found_position f (some last) end records e =
    ap position_of e
    ∙ position_of-end_at f _ _
        (found_start (count_of (some last)) last.position records (inl (omega arith)))

-- What a longer front keeps.
front_kept : (n m : ℕ) (a b : List ℕ) → n ≤ m → take m a ≡ take m b → take n a ≡ take n b
front_kept n m a b le e = sym (take-take n m a le) ∙ ap (take n) e ∙ take-take n m b le

module _ {F : Type 0} (crc32c : List ℕ → ℕ) {calls : ValidationFile F} {parts : Parts F}
    (laws : IsFile calls parts) (reserve : ℕ → ℕ → ℕ → ℕ)
    (reserves : (capacity len additional : ℕ) → len + additional ≤ reserve capacity len additional)
    (fuel : ℕ) (f : LogFileId) (t : Option RecordEndLocation) (before : F) where
  abbrev Post : F → Outcome LogFileValidationError ValidatedLogFile → Type 0
  Post = Validates crc32c parts f t before

  -- The synchronization at the end.
  synced-Post :
      (v : ValidatedLogFile) (y : F)
      → Recovers crc32c parts f t before y v
      → let x = (wrap_err io calls.output.sync_data >> pure v) y in Post x.1 x.0
  synced-Post v y h =
      let kept =
        ap (take (position_of t)) (laws.sync_keeps y ∙ h.file)
        ∙ take-take (position_of t) (position_of t + size_of h.finds.records) (content parts before)
            (omega arith) in
      after_call io (Passed parts.front parts.stalls y (calls.output.sync_data y).1) Post
        (calls.output.sync_data y).0 (calls.output.sync_data y).1 (λ u z. (ok v, z))
        (laws.writes.synced y) (λ e l. kept) (λ l. kept) (λ l. l) (λ l. l)
        (λ u l. record { extent = h.extent; finds = h.finds; file = laws.sync_keeps y ∙ h.file })

  -- The tail is cut off, where there is one.
  pub repair-Post :
      (ends : List LogFilePosition) (end : Option RecordEndLocation) (tail : Option LogTailError)
      (y : F)
      → InExtent t (length (content parts before))
      → content parts y ≡ content parts before
      → Finds crc32c f
          (count_of t)
          (position_of t)
          []
          (drop (position_of t) (content parts before))
          (record { validated_end = end; suffix_ends = ends; tail_error = tail })
      → let x =
          repair crc32c calls reserve fuel
            (record { validated_end = end; suffix_ends = ends; tail_error = tail })
            y in
        Post x.1 x.0
  unfolding repair cut_tail
  repair-Post ends end none y extent same h =
      synced-Post (record { validated_end = end; suffix_ends = ends; removed_tail = none }) y
        (record {
          extent = extent;
          finds = h;
          file =
              same
              ∙ found_whole (position_of t) (content parts before) h.rest h.records extent.0 h.cut
                  h.tail;
        })
  repair-Post ends end (some e) y extent same h =
      let le : position_of end ≤ length (content parts y) = omega (
        arith,
        found_position f t end h.records h.end,
        ap length same,
        found_all (position_of t) (content parts before) h.rest h.records extent.0 h.cut,
      ) in
      let kept =
        λ (z : F)
            (l : take (position_of end) (content parts z)
              ≡ take (position_of end) (content parts y)).
          front_kept (position_of t) (position_of end) (content parts z) (content parts y)
            (omega (arith, found_position f t end h.records h.end)) l
          ∙ ap (take (position_of t)) same in
      let k = λ (u : Unit {0}).
        wrap_err io calls.output.sync_data
        >> pure (record { validated_end = end; suffix_ends = ends; removed_tail = some e }) in
      after_call io (Resized parts (position_of end) y (calls.set_len (position_of end) y).1) Post
        (calls.set_len (position_of end) y).0 (calls.set_len (position_of end) y).1 k
        (laws.resized (position_of end) y le) (λ e l. kept _ l) (λ l. kept _ l) (λ l. l) (λ l. l)
        (λ u l.
          synced-Post (record { validated_end = end; suffix_ends = ends; removed_tail = some e }) _
            (record {
              extent = extent;
              finds = h;
              file = l.0 ∙ ap₂ take (found_position f t end h.records h.end) same;
            }))
