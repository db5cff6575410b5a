-- ===== src/LogValidator/Looping.antt =====
-- The rounds of the scan, up to the end of the file, its cap or the first invalid record.
use transaction_log.Common.{
  ==→eq, ==→ne, Bool, Bool-cases, List, Outcome, ap, arith, drop, dropped, err, false,
  if◌then◌else◌, inl, inr, length, length-append, length-nil, ltb, ltb→le, ltb→lt, none, ok,
  panicked, refl, some, stuck, subst, suc, sym, true, zero, ℕ, ◌++◌, ◌+◌, ◌<◌, ◌==◌, ◌∙◌, ◌≡◌, ◌≢◌,
  ◌≤◌,
}
use transaction_log.Io.Error.{IoError}
use transaction_log.Io.Source.{Source, IsSource}
use transaction_log.RecordReader.Reader
use transaction_log.RecordReader.Reader.{
  RecordReadError, truncated_header, invalid_length, invalid_stream_id, truncated_record,
  crc_mismatch, reader_failed, RecordReader, frame_length, wait_to_read,
}
use transaction_log.RecordReader.Inspect.{classify}
use transaction_log.RecordReader.Batch.{unread}
use transaction_log.RecordReader.Rounds.{Awaits}
use transaction_log.RecordReader.Waiting.{wait_to_read-Awaits}
use transaction_log.RecordReader.Failing.{classify-ne-reader_failed}
use transaction_log.RecordReader.Keeping.{wait_to_read-Keeps}
use transaction_log.Location.LogFileNumber.{records_per_file}
use transaction_log.Location.LogFilePosition.{LogFilePosition}
use transaction_log.Location.LogFileId.{LogFileId}
use transaction_log.IndexedLog.Invariant.{end_at}
use transaction_log.LogValidator.Scan.{
  Accepted, Call, LogFileValidationError, LogScanResult, record_error, extra_data, found,
  accept_batch, after_batch, after_wait, at_cap, scan_round, scan_loop,
}
use transaction_log.LogValidator.Findings.{Finds-found}
use transaction_log.LogValidator.Scanning.{At, Good, Loops, accept_batch-more}

at_cap-end :
    (f : LogFileId) (file_end n p : ℕ) (s : Accepted)
    → s.validated_end ≡ end_at f n p
    → n ≡ records_per_file
    → at_cap file_end s ≡ ok (found s (if ltb p file_end then some extra_data else none))
unfolding at_cap
at_cap-end f file_end zero p s e h = absurd (omega arith)
at_cap-end f file_end (suc n) p s e h = ground arith

pending-le-unread :
    {F : Type 0} (pending : F → List ℕ) (r : RecordReader F)
    → length (pending r.source) ≤ length (unread pending r)
pending-le-unread pending r = omega (
  arith,
  length-append (drop r.batch_offset r.batch) (r.buffer ++ pending r.source),
  length-append r.buffer (pending r.source),
)

module _ {F : Type 0} (crc32c : List ℕ → ℕ) {source : Source F} {pending : F → List ℕ}
    {stalls : F → ℕ} (laws : IsSource source pending stalls) (reserve : ℕ → ℕ → ℕ → ℕ)
    (reserves : (capacity len additional : ℕ) → len + additional ≤ reserve capacity len additional)
    (f : LogFileId) (Q : F → Type 0)
    (reads : (room : ℕ) (x : F) → Q x → Q (source.read_buf room x).1) (file_end fuel : ℕ)
    (enough : (x : F) → Q x → file_end + stalls x < fuel) where
  abbrev K : ℕ → ℕ → List LogFilePosition → List ℕ → Accepted → RecordReader F → Type 0
  K = At crc32c pending f Q file_end

  abbrev G :
      ℕ
      → ℕ
      → List LogFilePosition
      → List ℕ
      → Outcome LogFileValidationError LogScanResult × RecordReader F
      → Type 0
  G = Good crc32c pending f Q file_end

  -- The rounds for a batch, before the loop goes on.
  abbrev batch : (Accepted → Call F LogScanResult) → Accepted → Call F LogScanResult
  batch loop s x =
      after_batch loop (accept_batch (suc records_per_file) f s x).0
        (accept_batch (suc records_per_file) f s x).1

  tail_found :
      (n p : ℕ) (acc : List LogFilePosition) (bytes : List ℕ) (s : Accepted) (r r' : RecordReader F)
      (e : RecordReadError)
      → K n p acc bytes s r
      → Awaits crc32c source pending r r' (err e)
      → Q r'.source
      → n < records_per_file
      → ((x : IoError) → e ≢ Reader.io x)
      → G n p acc bytes (ok (found s (some (record_error e))), r')
  tail_found n p acc bytes s r r' e g (a, u, inl c) q lt no_io = (
    Finds-found crc32c f n p acc bytes s (some (record_error e)) g.end g.ends g.place.within
        (lt, ap (classify crc32c) (sym g.left) ∙ c),
    q,
  )
  tail_found n p acc bytes s r r' e g (a, u, inr (x, i, _, _)) q lt no_io = absurd (no_io x i)

  at_cap-Good :
      (n p : ℕ) (acc : List LogFilePosition) (bytes : List ℕ) (s : Accepted) (r : RecordReader F)
      → K n p acc bytes s r
      → n ≡ records_per_file
      → G n p acc bytes (at_cap file_end s, r)
  at_cap-Good n p acc bytes s r g full =
      subst (λ x. G n p acc bytes (x, r)) (sym (at_cap-end f file_end n p s g.end full))
        (elim (Bool-cases (ltb p file_end)) [
          | inl more ↦ rw more (
            Finds-found crc32c f n p acc bytes s (some extra_data) g.end g.ends g.place.within
                (full, λ e. absurd (omega (arith, g.size, ap length e, ltb→lt p file_end more))),
            g.kept,
          )
          | inr over ↦ rw over (
            Finds-found crc32c f n p acc bytes s none g.end g.ends g.place.within
                (length-nil bytes (omega (arith, g.size, ltb→le p file_end over))),
            g.kept,
          )
        ])

  after_wait-Good :
      (loop : Accepted → Call F LogScanResult) (n p : ℕ) (acc : List LogFilePosition)
      (bytes : List ℕ) (s : Accepted) (r r' : RecordReader F) (ready : Outcome RecordReadError Bool)
      → Loops crc32c pending f Q file_end loop (n + 1)
      → K n p acc bytes s r
      → n < records_per_file
      → Awaits crc32c source pending r r' ready
      → Q r'.source
      → G n p acc bytes (after_wait (batch loop s) s ready r')
  unfolding after_wait
  after_wait-Good loop n p acc bytes s r r' (ok false) ih g lt (a, u) q =
      (Finds-found crc32c f n p acc bytes s none g.end g.ends g.place.within (sym g.left ∙ u), q)
  after_wait-Good loop n p acc bytes s r r' (ok true) ih g lt (h, some_left, a, u) q =
      accept_batch-more crc32c pending f Q file_end loop records_per_file n p acc bytes s r' ih
        (omega arith)
        (record {
          place = g.place;
          size = g.size;
          fits = g.fits;
          count = g.count;
          end = g.end;
          ends = g.ends;
          reading = h;
          left = u ∙ g.left;
          going = a;
          kept = q;
        })
        some_left lt
  after_wait-Good loop n p acc bytes s r r' (err (Reader.io x)) ih g lt a q = ((x, refl), q)
  after_wait-Good loop n p acc bytes s r r' (err reader_failed) ih g lt (a, u, inl c) q =
      absurd (classify-ne-reader_failed crc32c (unread pending r) c)
  after_wait-Good loop n p acc bytes s r r' (err reader_failed) ih g lt (a, u, inr (x, e, _, _)) q =
      cc
  after_wait-Good loop n p acc bytes s r r' (err (truncated_header k)) ih g lt a q =
      tail_found n p acc bytes s r r' (truncated_header k) g a q lt (λ x e. cc)
  after_wait-Good loop n p acc bytes s r r' (err (invalid_length k)) ih g lt a q =
      tail_found n p acc bytes s r r' (invalid_length k) g a q lt (λ x e. cc)
  after_wait-Good loop n p acc bytes s r r' (err (invalid_stream_id k)) ih g lt a q =
      tail_found n p acc bytes s r r' (invalid_stream_id k) g a q lt (λ x e. cc)
  after_wait-Good loop n p acc bytes s r r' (err (truncated_record k m)) ih g lt a q =
      tail_found n p acc bytes s r r' (truncated_record k m) g a q lt (λ x e. cc)
  after_wait-Good loop n p acc bytes s r r' (err (crc_mismatch k m)) ih g lt a q =
      tail_found n p acc bytes s r r' (crc_mismatch k m) g a q lt (λ x e. cc)
  after_wait-Good loop n p acc bytes s r r' dropped ih g lt a q = (tt, q)
  after_wait-Good loop n p acc bytes s r r' panicked ih g lt a q = absurd a
  after_wait-Good loop n p acc bytes s r r' stuck ih g lt a q = absurd a

  scan_round-cap :
      (loop : Accepted → Call F LogScanResult) (s : Accepted) (r : RecordReader F)
      → (s.count == records_per_file) ≡ true
      → scan_round crc32c source reserve fuel f file_end loop s r ≡ (at_cap file_end s, r)
  unfolding scan_round
  scan_round-cap loop s r e = ground arith

  scan_round-wait :
      (loop : Accepted → Call F LogScanResult) (s : Accepted) (r : RecordReader F)
      → (s.count == records_per_file) ≡ false
      → let x = wait_to_read crc32c source reserve fuel r in
        scan_round crc32c source reserve fuel f file_end loop s r
        ≡ after_wait (batch loop s) s x.0 x.1
  unfolding scan_round
  scan_round-wait loop s r e = ground arith

  scan_round-Good :
      (loop : Accepted → Call F LogScanResult) (n p : ℕ) (acc : List LogFilePosition)
      (bytes : List ℕ) (s : Accepted) (r : RecordReader F)
      → Loops crc32c pending f Q file_end loop (n + 1)
      → K n p acc bytes s r
      → G n p acc bytes (scan_round crc32c source reserve fuel f file_end loop s r)
  scan_round-Good loop n p acc bytes s r ih g = elim (Bool-cases (s.count == records_per_file)) [
    | inl full ↦
        subst (G n p acc bytes) (sym (scan_round-cap loop s r full))
          (at_cap-Good n p acc bytes s r g (sym g.count ∙ ==→eq s.count records_per_file full))
    | inr more ↦
        let x = wait_to_read crc32c source reserve fuel r in
        let lt : n < records_per_file =
          omega (arith, g.place.within, g.count, ==→ne s.count records_per_file more) in
        let le : length (pending r.source) + stalls r.source < fuel =
          omega (
            arith,
            enough r.source g.kept,
            g.size,
            ap length g.left,
            pending-le-unread pending r,
          ) in
        subst (G n p acc bytes) (sym (scan_round-wait loop s r more)) (
          after_wait-Good loop n p acc bytes s r x.1 x.0 ih g lt
            (wait_to_read-Awaits crc32c laws reserve reserves fuel r g.reading g.going le)
            (wait_to_read-Keeps crc32c source reserve Q reads fuel r g.kept))
  ]

  pub scan_loop-Good :
      (rounds start : ℕ)
      → records_per_file < start + rounds
      → Loops crc32c pending f Q file_end
          (scan_loop crc32c source reserve rounds fuel f file_end)
          start
  unfolding scan_loop
  scan_loop-Good zero start m n p acc bytes s r le g = absurd (omega (arith, g.place.within))
  scan_loop-Good (suc rounds) start m n p acc bytes s r le g =
      scan_round-Good (scan_loop crc32c source reserve rounds fuel f file_end) n p acc bytes s r
        (scan_loop-Good rounds (n + 1) (omega arith)) g
