-- ===== src/LogValidator/Scanning.antt =====
-- The scan of a log file: a batch after another, a record after another.
use transaction_log.Common.{
  Bool-cases, List, List-cases, Outcome, [], ap, arith, false, inl, inr, length, length-append, ltb,
  ltb→le, ltb→lt, lt→ltb, refl, some, subst, suc, sym, zero, ℕ, ◌*◌, ◌++◌, ◌+◌, ◌<◌, ◌∙◌, ◌∷◌, ◌≡◌,
  ◌≢◌, ◌≤◌,
}
use transaction_log.Record.RecordId
use transaction_log.Record.RecordId.{RecordId, u64_max, eq→≡, eq_refl}
use transaction_log.Record.Frame.{IsFrame}
use transaction_log.Record.View
use transaction_log.Record.View.{Record}
use transaction_log.RecordReader.Reader.{RecordReader, active, try_read_next}
use transaction_log.RecordReader.Batch.{
  unread, IsReading, HandsOut, try_read_next-HandsOut, try_read_next-none,
}
use transaction_log.RecordReader.Keeping.{try_read_next-source}
use transaction_log.Location.LogFileNumber.{records_per_file}
use transaction_log.Location.LogFilePosition.{LogFilePosition}
use transaction_log.Location.LogFileId.{LogFileId}
use transaction_log.IndexedLog.Invariant.{id_at, end_at}
use transaction_log.LogValidator.Scan.{
  Accepted, Batch, Call, LogFileValidationError, LogScanResult, next_start, unexpected_record_id,
  accept, after_take, accept_batch, after_batch,
}
use transaction_log.LogValidator.Findings.{Finds-found, Reports, Reports-accept, IsPlace}
use transaction_log.LogValidator.Accepting.{
  accept_batch-full, accept_batch-some, next_start-some, next_start-none, accept-none, accept-other,
  accept-same,
}

-- A scan that has come to `n` records that end at `p`, with the ends `acc`, and some bytes to go.
pub record Going {F : Type 0} (crc32c : List ℕ → ℕ) (pending : F → List ℕ) (f : LogFileId)
    (Q : F → Type 0) (file_end n p : ℕ) (acc : List LogFilePosition) (bytes : List ℕ) (s : Accepted)
    (r : RecordReader F) : Type 0 where
  pub place : IsPlace f n p
  pub size : file_end ≡ p + length bytes
  pub fits : file_end ≤ u64_max
  pub count : s.count ≡ n
  pub end : s.validated_end ≡ end_at f n p
  pub ends : s.suffix_ends ≡ acc
  pub reading : IsReading crc32c r
  pub left : unread pending r ≡ bytes
  pub going : r.state ≡ active
  pub kept : Q r.source

other_id : (a b : RecordId) → RecordId.eq a b ≡ false → a ≢ b
other_id a b ne e = let t = ap (λ x. RecordId.eq x b) e ∙ eq_refl b in cc (ne, t)

module _ {F : Type 0} (crc32c : List ℕ → ℕ) (pending : F → List ℕ) (f : LogFileId) (Q : F → Type 0)
    (file_end : ℕ) where
  abbrev pub At : ℕ → ℕ → List LogFilePosition → List ℕ → Accepted → RecordReader F → Type 0
  At n p acc bytes s r = Going crc32c pending f Q file_end n p acc bytes s r

  -- A report on the bytes to go, and what the reads have kept of the source.
  abbrev pub Good :
      ℕ
      → ℕ
      → List LogFilePosition
      → List ℕ
      → Outcome LogFileValidationError LogScanResult × RecordReader F
      → Type 0
  Good n p acc bytes x = Reports crc32c f n p acc bytes x.0 × Q x.1.source

  -- The rest of the scan after a batch.
  abbrev pub and_then :
      (Accepted → Call F LogScanResult)
      → Outcome LogFileValidationError Batch × RecordReader F
      → Outcome LogFileValidationError LogScanResult × RecordReader F
  and_then k x = after_batch k x.0 x.1

  advanced :
      (n p : ℕ) (acc : List LogFilePosition) (bytes : List ℕ) (s : Accepted) (rec : Record)
      (r : RecordReader F)
      → IsPlace f n p
      → n < records_per_file
      → f.file_number * records_per_file + n ≤ u64_max
      → file_end ≡ p + length (rec.bytes ++ bytes)
      → file_end ≤ u64_max
      → s.count ≡ n
      → s.suffix_ends ≡ acc
      → IsReading crc32c r
      → unread pending r ≡ bytes
      → r.state ≡ active
      → Q r.source
      → At
          (n + 1)
          (p + length rec.bytes)
          (acc ++ ((p + length rec.bytes) ∷ []))
          bytes
          (record {
            count = s.count + 1;
            validated_end =
                some (record { record_id = id_at f n; position = p + length rec.bytes });
            suffix_ends = s.suffix_ends ++ ((p + length rec.bytes) ∷ []);
          })
          r
  advanced n p acc bytes s rec r place lt le size fits count ends reading left going q = record {
    place = record {
      file = place.file;
      within = omega arith;
      addressable = omega arith;
      start = inl (omega arith);
    };
    size = omega (arith, length-append rec.bytes bytes);
    fits = fits;
    count = omega arith;
    end = ap (λ y. end_at f y (p + length rec.bytes)) (let z : suc n ≡ n + 1 = omega arith in z);
    ends = ap (λ x. x ++ ((p + length rec.bytes) ∷ [])) ends;
    reading = reading;
    left = left;
    going = going;
    kept = q;
  }

  accept-Good :
      (loop : Accepted → Call F Batch) (k : Accepted → Call F LogScanResult) (n p : ℕ)
      (acc : List LogFilePosition) (bytes : List ℕ) (s : Accepted) (rec : Record)
      (r : RecordReader F)
      → IsFrame crc32c rec.bytes
      → n < records_per_file
      → IsPlace f n p
      → file_end ≡ p + length (rec.bytes ++ bytes)
      → file_end ≤ u64_max
      → s.count ≡ n
      → s.validated_end ≡ end_at f n p
      → s.suffix_ends ≡ acc
      → IsReading crc32c r
      → unread pending r ≡ bytes
      → r.state ≡ active
      → Q r.source
      → ((s' : Accepted)
          → At (n + 1) (p + length rec.bytes) (acc ++ ((p + length rec.bytes) ∷ [])) bytes s' r
          → Good
              (n + 1)
              (p + length rec.bytes)
              (acc ++ ((p + length rec.bytes) ∷ []))
              bytes
              (and_then k (loop s' r)))
      → Good n p acc (rec.bytes ++ bytes) (and_then k (accept loop f s rec r))
  unfolding after_batch
  accept-Good loop k n p acc bytes s rec r v lt place size fits count end ends reading left going q
        next =
      let id = id_at f n in
      let bytes' = rec.bytes ++ bytes in
      let at = λ (e : s.validated_end ≡ end_at f n p). ap (λ x. next_start f x) e in
      elim (Bool-cases (ltb u64_max (f.file_number * records_per_file + n))) [
        | inl over ↦
            let e =
              accept-none loop f s rec r (at end ∙ next_start-none f n p place (ltb→lt _ _ over)) in
            subst (λ x. Good n p acc bytes' (and_then k x)) (sym e)
              (
                record {
                  records = [];
                  next = rec;
                  more = bytes;
                  cut = refl;
                  ordered = tt;
                  valid = v;
                  last = omega (
                    arith,
                    ltb→lt u64_max (f.file_number * records_per_file + n) over,
                    place.addressable,
                  );
                },
                q,
              )
        | inr le ↦
            let start = at end ∙ next_start-some f n p place (ltb→le _ _ le) in
            elim (Bool-cases (RecordId.eq (View.id rec) id)) [
              | inr ne ↦
                  subst (λ x. Good n p acc bytes' (and_then k x))
                    (sym (accept-other loop f s rec r id p start ne))
                    (
                      Finds-found crc32c f n p acc bytes' s
                          (some (unexpected_record_id id (View.id rec))) end ends place.within
                          (lt, refl, other_id (View.id rec) id ne, rec, bytes, refl, v, refl),
                      q,
                    )
              | inl same ↦
                  let small : p + length rec.bytes ≤ u64_max =
                    omega (arith, length-append rec.bytes bytes) in
                  subst (λ x. Good n p acc bytes' (and_then k x))
                    (sym (accept-same loop f s rec r id p start same small))
                    (let good = next _ (
                        advanced n p acc bytes s rec r place lt (ltb→le _ _ le) size fits count ends
                          reading left going q) in
                      (
                        Reports-accept crc32c f n p acc rec bytes _ (eq→≡ (View.id rec) id same) v
                            good.0,
                        good.1,
                      ))
            ]
      ]

  -- What a loop does from `start` records on.
  abbrev pub Loops : (Accepted → Call F LogScanResult) → ℕ → Type 0
  Loops k start =
      (n p : ℕ) (acc : List LogFilePosition) (bytes : List ℕ) (s : Accepted) (r : RecordReader F)
      → start ≤ n
      → At n p acc bytes s r
      → Good n p acc bytes (k s r)

  -- A record is there to be taken.
  take-Good :
      (loop : Accepted → Call F Batch) (k : Accepted → Call F LogScanResult) (n p : ℕ)
      (acc : List LogFilePosition) (bytes : List ℕ) (s : Accepted) (r : RecordReader F)
      → At n p acc bytes s r
      → r.batch ≢ []
      → n < records_per_file
      → ((p' : ℕ) (acc' : List LogFilePosition) (bytes' : List ℕ) (s' : Accepted)
            (r' : RecordReader F)
          → At (n + 1) p' acc' bytes' s' r'
          → Good (n + 1) p' acc' bytes' (and_then k (loop s' r')))
      → let x = try_read_next r in
        Good n p acc bytes (and_then k (after_take (accept loop f s) s x.0 x.1))
  unfolding after_take
  take-Good loop k n p acc bytes s r g some_left lt next =
      let x = try_read_next r in
      let h : HandsOut crc32c pending r x =
        try_read_next-HandsOut crc32c pending r g.reading (λ e. let t = sym g.going ∙ e in cc)
          some_left in
      let rec : Record = record { bytes = h.frame } in
      let bytes' = unread pending x.1 in
      let cut : h.frame ++ bytes' ≡ bytes = sym h.stream ∙ g.left in
      let good =
        accept-Good loop k n p acc bytes' s rec x.1 h.valid lt g.place
          (g.size ∙ ap (λ y. p + length y) (sym cut)) g.fits g.count g.end g.ends h.keeps refl
          (h.same_state ∙ g.going) (subst Q (sym (try_read_next-source r)) g.kept)
          (λ s' a. next _ _ _ s' x.1 a) in
      subst (λ y. Good n p acc bytes (and_then k (after_take (accept loop f s) s y x.1)))
        (sym h.answer) (subst (λ y. Good n p acc y (and_then k (accept loop f s rec x.1))) cut good)

  -- The rounds of the inner loop.
  accept_batch-Good :
      (k : Accepted → Call F LogScanResult) (start : ℕ)
      → Loops k start
      → (fuel n p : ℕ) (acc : List LogFilePosition) (bytes : List ℕ) (s : Accepted)
        (r : RecordReader F)
      → start ≤ n
      → records_per_file < n + fuel
      → At n p acc bytes s r
      → Good n p acc bytes (and_then k (accept_batch fuel f s r))
  unfolding accept_batch after_batch after_take
  accept_batch-Good k start ih zero n p acc bytes s r le m g =
      absurd (omega (arith, g.place.within))
  accept_batch-Good k start ih (suc fuel) n p acc bytes s r le m g =
      let Result = λ (x : Outcome LogFileValidationError Batch × RecordReader F).
        Good n p acc bytes (and_then k x) in
      elim (Bool-cases (ltb s.count records_per_file)) [
        | inr full ↦
            subst Result (sym (accept_batch-full fuel f s r full)) (ih n p acc bytes s r le g)
        | inl more ↦
            subst Result (sym (accept_batch-some fuel f s r more)) (elim (List-cases r.batch) [
              | inl e ↦
                  subst (λ x. Result (after_take (accept (accept_batch fuel f) f s) s x.0 x.1))
                    (sym (try_read_next-none r (λ d. let t = sym g.going ∙ d in cc) e))
                    (ih n p acc bytes s r le g)
              | inr some_left ↦
                  take-Good (accept_batch fuel f) k n p acc bytes s r g some_left
                    (omega (arith, g.count, ltb→lt s.count records_per_file more))
                    (λ p' acc' bytes' s' r' g'.
                      accept_batch-Good k start ih fuel (n + 1) p' acc' bytes' s' r' (omega arith)
                        (omega arith) g')
            ])
      ]

  -- The rounds for a batch that is not empty take a record before they go on.
  pub accept_batch-more :
      (k : Accepted → Call F LogScanResult) (fuel n p : ℕ) (acc : List LogFilePosition)
      (bytes : List ℕ) (s : Accepted) (r : RecordReader F)
      → Loops k (n + 1)
      → records_per_file < n + suc fuel
      → At n p acc bytes s r
      → r.batch ≢ []
      → n < records_per_file
      → Good n p acc bytes (and_then k (accept_batch (suc fuel) f s r))
  accept_batch-more k fuel n p acc bytes s r ih m g some_left lt =
      subst (λ x. Good n p acc bytes (and_then k x))
        (sym
          (accept_batch-some fuel f s r (lt→ltb s.count records_per_file (omega (arith, g.count)))))
        (take-Good (accept_batch fuel f) k n p acc bytes s r g some_left lt
          (λ p' acc' bytes' s' r' g'.
            accept_batch-Good k (n + 1) ih fuel (n + 1) p' acc' bytes' s' r' (omega arith)
              (omega arith) g'))
