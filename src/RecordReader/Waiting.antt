-- ===== src/RecordReader/Waiting.antt =====
-- The loop of `wait_to_read`, against the description of the whole input.
use transaction_log.Common.{
  Bool, Exec, List, Option, Outcome, [], ap, arith, dropped, err, false, inl, inr, length, le→ltb,
  none, ok, panicked, refl, some, stuck, subst, suc, sym, true, zero, ℕ, ◌+◌, ◌-◌, ◌<◌, ◌∙◌, ◌≡◌,
  ◌≢◌, ◌≤◌,
}
use transaction_log.Io.Source.{Source, IsSource}
use transaction_log.Record.Protocol.{header_len}
use transaction_log.RecordReader.Reader.{
  RecordReadError, RecordReader, active, prepare_batch, receive, after_prepare, fill, wait_to_read,
}
use transaction_log.RecordReader.Inspect.{inspect, classify}
use transaction_log.RecordReader.Scan.{Waits}
use transaction_log.RecordReader.Batch.{unread-empty, IsReading}
use transaction_log.RecordReader.Preparing.{Prepares, prepare_batch-Prepares}
use transaction_log.RecordReader.Rounds.{
  Awaits, Awaits-after, IsFilling, classify-inspect-err, same-unread, Enough, Loops,
  after_read-Awaits,
}

module _ {S : Type 0} (crc32c : List ℕ → ℕ) {s : Source S} {pending : S → List ℕ} {stalls : S → ℕ}
    (laws : IsSource s pending stalls) (reserve : ℕ → ℕ → ℕ → ℕ)
    (reserves : (capacity len additional : ℕ)
      → len + additional ≤ reserve capacity len additional) where
  -- The number of bytes that the next round wants in the buffer.
  abbrev wanted : Option ℕ → ℕ
  wanted p = elim p [ some n ↦ n | none ↦ header_len ]

  Waits-lt : (p : Option ℕ) (buffer : List ℕ) → Waits p buffer → length buffer < wanted p
  Waits-lt none buffer w = w
  Waits-lt (some n) buffer w = w

  receive-Awaits :
      (loop : Exec (RecordReader S) RecordReadError Bool) (fuel : ℕ) (r : RecordReader S)
      → Loops crc32c laws fuel loop
      → IsFilling r
      → Waits r.pending_length r.buffer
      → inspect crc32c r.buffer ≡ ok none
      → Enough crc32c laws (suc fuel) r.source
      → Awaits crc32c s pending r (receive s reserve loop r).1 (receive s reserve loop r).0
  unfolding receive
  receive-Awaits loop fuel r ih f w i m =
      let short = Waits-lt r.pending_length r.buffer w in
      let capacity =
        reserve r.capacity (length r.buffer) (wanted r.pending_length - length r.buffer) in
      let enough =
        reserves r.capacity (length r.buffer) (wanted r.pending_length - length r.buffer) in
      rw (le→ltb (wanted r.pending_length) (length r.buffer) (omega arith)) (
        after_read-Awaits crc32c laws loop fuel (capacity - length r.buffer) capacity
          (s.read_buf (capacity - length r.buffer) r.source).1
          (s.read_buf (capacity - length r.buffer) r.source).0 r ih f w i m (omega arith)
          (laws.took (capacity - length r.buffer) r.source) refl)

  after_prepare-Awaits :
      (loop : Exec (RecordReader S) RecordReadError Bool) (fuel : ℕ) (r r' : RecordReader S)
      (prepared : Outcome RecordReadError Bool)
      → Loops crc32c laws fuel loop
      → IsFilling r
      → Enough crc32c laws (suc fuel) r.source
      → Prepares crc32c pending r r' prepared
      → let result = after_prepare crc32c s reserve loop prepared r' in
        Awaits crc32c s pending r result.1 result.0
  unfolding after_prepare
  after_prepare-Awaits loop fuel r r' (ok true) ih f m (h, n, a, u) = (h, n, a ∙ f.going, u)
  after_prepare-Awaits loop fuel r r' (ok false) ih f m (b, e, k, a, c, w, i) =
      Awaits-after crc32c s pending r r' _ _ (same-unread pending r r' f.empty b e k) (
        receive-Awaits loop fuel r' ih (record { empty = b; caches = c; going = a ∙ f.going }) w i
          (subst (Enough crc32c laws (suc fuel)) (sym k) m))
  after_prepare-Awaits loop fuel r r' (err x) ih f m (b, e, k, i) = (
    refl,
    same-unread pending r r' f.empty b e k,
    inl (
        ap (classify crc32c)
          (sym (same-unread pending r r' f.empty b e k) ∙ unread-empty pending r' b)
        ∙ classify-inspect-err crc32c r'.buffer (pending r'.source) i),
  )
  after_prepare-Awaits loop fuel r r' dropped ih f m h = absurd h
  after_prepare-Awaits loop fuel r r' panicked ih f m h = h
  after_prepare-Awaits loop fuel r r' stuck ih f m h = h

  fill-Awaits :
      (fuel : ℕ) (r : RecordReader S)
      → IsFilling r
      → Enough crc32c laws fuel r.source
      → Awaits crc32c s pending r (fill crc32c s reserve fuel r).1 (fill crc32c s reserve fuel r).0
  unfolding fill
  fill-Awaits zero r f m = absurd (omega arith)
  fill-Awaits (suc fuel) r f m =
      after_prepare-Awaits (fill crc32c s reserve fuel) fuel r (prepare_batch crc32c r).1
        (prepare_batch crc32c r).0 (fill-Awaits fuel) f m
        (prepare_batch-Prepares crc32c pending r f.empty f.caches)

  wait_to_read-fill :
      (fuel : ℕ) (r : RecordReader S)
      → r.state ≡ active
      → r.batch ≡ []
      → wait_to_read crc32c s reserve fuel r ≡ fill crc32c s reserve fuel r
  unfolding wait_to_read
  wait_to_read-fill fuel r going b = ground arith

  wait_to_read-again :
      (fuel : ℕ) (r : RecordReader S)
      → r.state ≡ active
      → r.batch ≢ []
      → wait_to_read crc32c s reserve fuel r ≡ (ok true, r)
  unfolding wait_to_read
  wait_to_read-again fuel r going b = ground arith

  -- On an active reader, `wait_to_read` ends without a panic within more rounds than the source
  -- has bytes and interruptions. However the source cuts its bytes into reads, `true` comes with a
  -- non-empty batch of valid frames from the front of the unread bytes, `false` only at their end,
  -- and an error is the one that the description of the input finds at their front, or the one
  -- that the source answered to the last call of it, which is not an interruption; no answer, nor
  -- a dropped call, loses a byte.
  pub wait_to_read-Awaits :
      (fuel : ℕ) (r : RecordReader S)
      → IsReading crc32c r
      → r.state ≡ active
      → length (pending r.source) + stalls r.source < fuel
      → Awaits crc32c s pending r
          (wait_to_read crc32c s reserve fuel r).1
          (wait_to_read crc32c s reserve fuel r).0
  wait_to_read-Awaits fuel r h going m = elim h.place [
    | inl p ↦
        subst (λ x. Awaits crc32c s pending r x.1 x.0) (sym (wait_to_read-fill fuel r going p.0))
          (fill-Awaits fuel r (record { empty = p.0; caches = h.caches; going = going }) m)
    | inr p ↦
        let some_left : r.batch ≢ [] = λ e. absurd (omega (arith, ap length e)) in
        subst (λ x. Awaits crc32c s pending r x.1 x.0)
          (sym (wait_to_read-again fuel r going some_left)) (h, some_left, going, refl)
  ]
