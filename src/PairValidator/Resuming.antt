-- ===== src/PairValidator/Resuming.antt =====
-- A log that was recovered as a whole goes on as an indexed log.
use transaction_log.Common.{
  All, All-append-front, All-append-rest, All-drop, All-take, IsByte, List, Option, [], ap,
  append-nil, append_assoc, ap₂, arith, drop, from_le_bytes-lt, length, length-take, none, ok, refl,
  some, subst, sym, take, take-append, to_le_bytes, ℕ, ◌*◌, ◌++◌, ◌+◌, ◌<◌, ◌^◌, ◌∙◌, ◌∷◌, ◌≡◌, ◌≢◌,
  ◌≤◌,
}
use transaction_log.Io.File.{Parts, content}
use transaction_log.Record.Protocol.{max_record_len}
use transaction_log.Record.RecordId.{u64_max}
use transaction_log.Record.Frame.{IsFrame}
use transaction_log.Record.Protocol.Read
use transaction_log.Record.View.{Record}
use transaction_log.IndexWriter.Writer.{index_entry_len}
use transaction_log.Location.LogFileNumber
use transaction_log.Location.LogFileNumber.{records_per_file, IsLogFileNumber}
use transaction_log.Location.LogFileId.{LogFileId}
use transaction_log.Location.Endpoints.{RecordEndLocation}
use transaction_log.IndexedLog.Invariant.{
  size_of, bytes_of, length-bytes_of, entries, end_at, IsIndexed,
}
use transaction_log.IndexedLog.Opening.{IsRecovered, from_initialized-IsIndexed}
use transaction_log.IndexedLog.Writer.{IndexedLogWriter, from_initialized}
use transaction_log.LogValidator.Findings.{Ordered, Tail, ends_of}
use transaction_log.LogValidator.Scan.{LogTailError}
use transaction_log.IndexValidator.Entries.{encode_ends}
use transaction_log.PairValidator.Validator.{partial, validate_files}
use transaction_log.PairValidator.Agreement.{IsFiles, Agreed, PairValidates}
use transaction_log.PairValidator.Validating.{validate_files-PairValidates}
use transaction_log.Storage.Provider.{Provider}

encode_ends-entries :
    (p : ℕ) (records : List Record) → encode_ends (ends_of p records) ≡ entries p records
encode_ends-entries p [] = refl
encode_ends-entries p (r ∷ rs) =
    ap (λ x. to_le_bytes index_entry_len (p + length r.bytes) ++ x)
      (encode_ends-entries (p + length r.bytes) rs)

-- A frame of bytes is no longer than its length field can say.
frame_small :
    (crc32c : List ℕ → ℕ) (frame : List ℕ)
    → IsFrame crc32c frame
    → All IsByte frame
    → length frame ≤ max_record_len
unfolding Read.length
frame_small crc32c frame h b =
    let two : length (take 2 (drop 0 frame)) ≡ 2 =
      omega (arith, length-take 2 (drop 0 frame), h.least) in
    omega (
      arith,
      h.framed,
      ap (λ k. 256 ^ k) two,
      from_le_bytes-lt (take 2 (drop 0 frame))
          (All-take IsByte 2 (drop 0 frame) (All-drop IsByte 0 frame b)),
    )

Ordered-small :
    (crc32c : List ℕ → ℕ) (f : LogFileId) (n : ℕ) (records : List Record) (rest : List ℕ)
    → Ordered crc32c f n records
    → All IsByte (bytes_of records ++ rest)
    → All (λ r. length r.bytes ≤ max_record_len) records
Ordered-small crc32c f n [] rest h b = tt
Ordered-small crc32c f n (r ∷ rs) rest h b =
    let b' = subst (All IsByte) (append_assoc r.bytes (bytes_of rs) rest) b in
    (
      frame_small crc32c r.bytes h.1 (All-append-front IsByte r.bytes (bytes_of rs ++ rest) b'),
      Ordered-small crc32c f (n + 1) rs rest h.2
          (All-append-rest IsByte r.bytes (bytes_of rs ++ rest) b'),
    )

module _ {W : Type 0} {crc32c : List ℕ → ℕ} (l i : Parts W) (f : LogFileId) (before after : W)
    (end : Option RecordEndLocation) (h : Agreed crc32c l i f none before after end) where
  abbrev done : List Record
  done = h.records.finds.records

  recovered_log : content l after ≡ bytes_of done
  recovered_log =
      h.records.file
      ∙ ap (take (0 + size_of done)) h.records.finds.cut
      ∙ take-append (0 + size_of done) (bytes_of done) h.records.finds.rest
          (omega (arith, length-bytes_of done))

  recovered_index : content i after ≡ entries 0 done
  recovered_index = h.entries ∙ ap encode_ends h.records.finds.ends ∙ encode_ends-entries 0 done

  pub resumed-IsRecovered :
      f.file_number < LogFileNumber.maximum
      → l.rest after ≡ []
      → i.rest after ≡ []
      → All IsByte (content l before)
      → IsRecovered l.front i.front f after after done
  resumed-IsRecovered lt no_rest no_rest' bytes = record {
    file = omega arith;
    within = omega (arith, h.records.finds.within);
    addressable = omega (arith, h.records.finds.within);
    small =
        Ordered-small crc32c f 0 done h.records.finds.rest h.records.finds.ordered
          (subst (All IsByte) h.records.finds.cut bytes);
    log_file =
        sym (append-nil (l.front after))
        ∙ ap (λ x. l.front after ++ x) (sym no_rest)
        ∙ recovered_log;
    index_file =
        sym (append-nil (i.front after))
        ∙ ap (λ x. i.front after ++ x) (sym no_rest')
        ∙ recovered_index;
  }

  pub resumed-end : end ≡ end_at f (length done) (size_of done)
  resumed-end =
      let n : 0 + length done ≡ length done = omega arith in
      let p : 0 + size_of done ≡ size_of done = omega arith in
      h.end_found ∙ h.records.finds.end ∙ ap₂ (end_at f) n p

module _ {W H : Type 0} (crc32c : List ℕ → ℕ) {provider : Provider W H} {parts : H → Parts W}
    (laws : IsFiles provider parts) (reserve : ℕ → ℕ → ℕ → ℕ)
    (reserves : (capacity len additional : ℕ) → len + additional ≤ reserve capacity len additional)
    (fuel : ℕ) (f : LogFileId) (l i : H) (before after : W) (end : Option RecordEndLocation)
    (l' i' : H) (other : l ≢ i) where
  -- On an open log and an open index that are two files with the documented laws, neither touched
  -- by the calls of the other, the log made of bytes and its length fitting a u64, for a file that
  -- is not the last there can be, and with fuel for each byte, each of 100,000 entries and each
  -- interruption: where the validation from the file's beginning finds room in the pair, the log
  -- began with valid records with the file's ids in order, as many as there are up to the end of
  -- the log, the cap of the file, an invalid record or another id; and the writer that begins on
  -- the pair does so without a panic and holds the invariant of an indexed log, with exactly these
  -- records in the log, as its synchronized records, and nothing in its buffers.
  pub validate_files-IsIndexed :
      f.file_number < LogFileNumber.maximum
      → length (content (parts l) before) ≤ u64_max
      → length (content (parts l) before) + (parts l).stalls before < fuel
      → records_per_file * index_entry_len + (parts i).stalls before ≤ fuel
      → All IsByte (content (parts l) before)
      → validate_files crc32c provider reserve fuel f none l i before
        ≡ (ok (partial end l' i'), after)
      → (done : List Record) × (rest : List ℕ) × (tail : Option LogTailError)
        × (w : IndexedLogWriter W W) × (content (parts l) before ≡ bytes_of done ++ rest)
        × Ordered crc32c f 0 done
        × Tail crc32c f (length done) rest tail
        × (from_initialized f after after end ≡ some w)
        × IsIndexed (parts l).front (parts i).front done done [] w
  validate_files-IsIndexed lt small enough enough' bytes e =
      let p : PairValidates crc32c parts f none l i before after (ok (partial end l' i')) =
        subst (λ x. PairValidates crc32c parts f none l i before x.1 x.0) e
          (validate_files-PairValidates crc32c laws reserve reserves fuel f none l i before other
            (omega arith) tt small enough enough') in
      let h = p.0 in
      let finds = h.records.finds in
      let tail = h.found.removed_tail in
      let done = finds.records in
      let o =
        from_initialized-IsIndexed f after after done
          (resumed-IsRecovered (parts l) (parts i) f before after end h lt p.4 p.5 bytes) in
      (
        done,
        finds.rest,
        tail,
        o.0,
        finds.cut,
        finds.ordered,
        subst (λ n. Tail crc32c f n finds.rest tail)
            (let n : 0 + length done ≡ length done = omega arith in n) finds.tail,
        ap (from_initialized f after after) (resumed-end (parts l) (parts i) f before after end h)
            ∙ o.1,
        o.2,
      )
