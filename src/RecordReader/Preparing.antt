-- ===== src/RecordReader/Preparing.antt =====
-- `prepare_batch` fills the batch with valid frames from the front of the buffer.
use transaction_log.Common.{
  ==→eq, ==→ne, Bool, Bool-cases, List, Option, Outcome, [], ap, append_assoc, arith, continue,
  drop, dropped, err, false, flatten, inl, inr, length, length-take, none, ok, panicked, pure, refl,
  stuck, subst, suc, sym, take, take-append, take-append-drop, true, ℕ, ◌++◌, ◌==◌, ◌∙◌, ◌≡◌, ◌≢◌,
}
use transaction_log.RecordReader.Reader.{RecordReadError, RecordReader, scan, prepare_batch}
use transaction_log.RecordReader.Inspect.{inspect}
use transaction_log.RecordReader.Scan.{Caches, Waits, Stops, Scanned, scan-Scanned}
use transaction_log.RecordReader.Batch.{unread, unread-empty, IsReading}

-- What `prepare_batch` leaves of a reader with an empty batch: a batch of valid frames from the front
-- of the same unread bytes, or an unchanged buffer that wants more bytes or has an error in front.
abbrev pub Prepares :
    {S : Type 0} (crc32c : List ℕ → ℕ) (pending : S → List ℕ) (before after : RecordReader S)
    → Outcome RecordReadError Bool
    → Type 0
Prepares crc32c pending before after (ok true) =
    IsReading crc32c after
    × (after.batch ≢ [])
    × (after.state ≡ before.state)
    × (unread pending after ≡ unread pending before)
Prepares crc32c pending before after (ok false) =
    (after.batch ≡ [])
    × (after.buffer ≡ before.buffer)
    × (after.source ≡ before.source)
    × (after.state ≡ before.state)
    × Caches after.pending_length after.buffer
    × Waits after.pending_length after.buffer
    × (inspect crc32c after.buffer ≡ ok none)
Prepares crc32c pending before after (err e) =
    (after.batch ≡ [])
    × (after.buffer ≡ before.buffer)
    × (after.source ≡ before.source)
    × (inspect crc32c after.buffer ≡ err e)
Prepares crc32c pending before after dropped = ⊥
Prepares crc32c pending before after panicked = ⊥
Prepares crc32c pending before after stuck = ⊥

module _ {S : Type 0} (crc32c : List ℕ → ℕ) (pending : S → List ℕ) (r : RecordReader S) where
  -- Nothing validated.
  prepared_none :
      (p : Option ℕ) (v : Outcome RecordReadError (Unit {0}))
      → r.batch ≡ []
      → Caches p r.buffer
      → Stops crc32c p r.buffer v
      → let result = continue v (λ _. pure false) (record r { pending_length = p }) in
        Prepares crc32c pending r result.1 result.0
  prepared_none p (ok u) b c (i, w) = (b, refl, refl, refl, c, w, i)
  prepared_none p (err e) b c t = (b, refl, refl, t)
  prepared_none p dropped b c t = t
  prepared_none p panicked b c t = t
  prepared_none p stuck b c t = t

  pub prepare_batch-Prepares :
      r.batch ≡ []
      → Caches r.pending_length r.buffer
      → Prepares crc32c pending r (prepare_batch crc32c r).1 (prepare_batch crc32c r).0
  unfolding prepare_batch
  prepare_batch-Prepares b c =
      let s = scan crc32c (suc (length r.buffer)) r.buffer 0 r.pending_length in
      let h : Scanned crc32c r.buffer 0 s =
        scan-Scanned crc32c r.buffer (suc (length r.buffer)) 0 r.pending_length (omega arith)
          (omega arith) c in
      elim (Bool-cases (s.validated_len == 0)) [
        | inl none_yet ↦ rw none_yet (
            prepared_none s.pending_length s.validation b
              (subst (λ n. Caches s.pending_length (drop n r.buffer))
                (==→eq s.validated_len 0 none_yet) h.caches)
              (subst (λ n. Stops crc32c s.pending_length (drop n r.buffer) s.validation)
                (==→eq s.validated_len 0 none_yet) h.stops))
        | inr some_yet ↦ rw some_yet (
          record {
            frames = h.frames;
            valid = h.valid;
            left =
                ap (take s.validated_len) h.cut
                ∙ take-append s.validated_len (flatten h.frames) (drop s.validated_len r.buffer)
                    (omega (arith, h.reach));
            place = inr (
                omega (
                  arith,
                  h.within,
                  ==→ne s.validated_len 0 some_yet,
                  length-take s.validated_len r.buffer,
                ));
            caches = h.caches;
          },
          (λ e.
              ==→ne s.validated_len 0 some_yet
                (omega (arith, h.within, ap length e, length-take s.validated_len r.buffer))),
          refl,
          sym (
                append_assoc (take s.validated_len r.buffer) (drop s.validated_len r.buffer)
                  (pending r.source))
              ∙ ap (λ x. x ++ pending r.source) (take-append-drop s.validated_len r.buffer)
              ∙ sym (unread-empty pending r b),
        )
      ]
