-- ===== src/RecordReader/Rounds.antt =====
-- One round of the loop of `wait_to_read`, from the answer of the source on.
use transaction_log.Common.{
  Bool, Exec, List, Option, Outcome, [], ap, append-nil, append_assoc, ap₂, arith, drop, drop-nil,
  dropped, err, false, inl, inr, length, length-append, none, ok, panicked, refl, some, stuck, suc,
  sym, true, ℕ, ◌++◌, ◌+◌, ◌<◌, ◌∙◌, ◌∷◌, ◌≡◌, ◌≢◌, ◌⊎◌,
}
use transaction_log.Io.Error.{
  IoError, interrupted, write_zero, not_found, unexpected_eof, invalid_input, other,
}
use transaction_log.Io.Source.{Source, IsSource, Took}
use transaction_log.RecordReader.Reader.{
  RecordReadError, io, RecordReader, ReaderState, active, finished, failed, truncated, after_read,
}
use transaction_log.RecordReader.Inspect.{
  declared_short, cut_short, inspect, inspect-nil, inspect-append, declared-append, declared-some,
  at_end, classify,
}
use transaction_log.RecordReader.Scan.{Caches, Waits}
use transaction_log.RecordReader.Batch.{unread, unread-empty, IsReading}

-- An error that the source itself has answered, to the reader's last call of it. Interruptions are not
-- among them: the reader calls again.
abbrev pub Raised : {S : Type 0} (s : Source S) (after : RecordReader S) → RecordReadError → Type 0
Raised {S} s after e =
    (x : IoError) × (e ≡ io x)
    × (x ≢ interrupted)
    × ((room : ℕ) × (called : S) × (s.read_buf room called ≡ (err x, after.source)))

-- What `wait_to_read` has done to a reader, by its answer. `true` is a batch from the front of the
-- same unread bytes; `false` is the end of the input; an error is the one that the unread bytes have
-- in front, or the source's own; in every case no byte is lost.
abbrev pub Awaits :
    {S : Type 0} (crc32c : List ℕ → ℕ) (s : Source S) (pending : S → List ℕ)
    (before after : RecordReader S)
    → Outcome RecordReadError Bool
    → Type 0
Awaits crc32c s pending before after (ok true) =
    IsReading crc32c after
    × (after.batch ≢ [])
    × (after.state ≡ active)
    × (unread pending after ≡ unread pending before)
Awaits crc32c s pending before after (ok false) =
    (after.state ≡ finished) × (unread pending before ≡ [])
Awaits crc32c s pending before after (err e) =
    (after.state ≡ failed)
    × (unread pending after ≡ unread pending before)
    × ((classify crc32c (unread pending before) ≡ err e) ⊎ Raised s after e)
Awaits crc32c s pending before after dropped =
    IsReading crc32c after × (after.state ≡ active) × (unread pending after ≡ unread pending before)
Awaits crc32c s pending before after panicked = ⊥
Awaits crc32c s pending before after stuck = ⊥

module _ {S : Type 0} (crc32c : List ℕ → ℕ) (s : Source S) (pending : S → List ℕ) where
  -- A round that kept the unread bytes, before the rest of the loop.
  pub Awaits-after :
      (r r' after : RecordReader S) (answer : Outcome RecordReadError Bool)
      → unread pending r' ≡ unread pending r
      → Awaits crc32c s pending r' after answer
      → Awaits crc32c s pending r after answer
  Awaits-after r r' after (ok true) e (h, n, a, u) = (h, n, a, u ∙ e)
  Awaits-after r r' after (ok false) e (a, u) = (a, sym e ∙ u)
  Awaits-after r r' after (err x) e (a, u, inl c) =
      (a, u ∙ e, inl (ap (classify crc32c) (sym e) ∙ c))
  Awaits-after r r' after (err x) e (a, u, inr c) = (a, u ∙ e, inr c)
  Awaits-after r r' after dropped e (h, a, u) = (h, a, u ∙ e)
  Awaits-after r r' after panicked e h = h
  Awaits-after r r' after stuck e h = h

-- A reader between two rounds of the loop.
pub record IsFilling {S : Type 0} (r : RecordReader S) : Type 0 where
  pub empty : r.batch ≡ []
  pub caches : Caches r.pending_length r.buffer
  pub going : r.state ≡ active

pub classify-inspect-err :
    (crc32c : List ℕ → ℕ) (buffer more : List ℕ) {e : RecordReadError}
    → inspect crc32c buffer ≡ err e
    → classify crc32c (buffer ++ more) ≡ err e
unfolding classify
classify-inspect-err crc32c [] more h = absurd (cc (h, inspect-nil crc32c))
classify-inspect-err crc32c (b ∷ bs) more {e} h =
    ap (at_end (b ∷ (bs ++ more))) (inspect-append crc32c (b ∷ bs) more (err e) h (λ x. cc))

-- The input ends in the buffer.
classify-truncated :
    (crc32c : List ℕ → ℕ) (b : ℕ) (bs : List ℕ) (p : Option ℕ)
    → inspect crc32c (b ∷ bs) ≡ ok none
    → Caches p (b ∷ bs)
    → Waits p (b ∷ bs)
    → classify crc32c (b ∷ bs) ≡ err (truncated p (length (b ∷ bs)))
unfolding classify truncated cut_short
classify-truncated crc32c b bs none i c w =
    ap (at_end (b ∷ bs)) i ∙ ap (λ d. err (cut_short (b ∷ bs) d)) (declared_short (b ∷ bs) w)
classify-truncated crc32c b bs (some n) i c w =
    ap (at_end (b ∷ bs)) i ∙ ap (λ d. err (cut_short (b ∷ bs) d)) c

Caches-append : (p : Option ℕ) (buffer more : List ℕ) → Caches p buffer → Caches p (buffer ++ more)
Caches-append none buffer more c = tt
Caches-append (some n) buffer more c = declared-append buffer more (declared-some buffer n c).0 ∙ c

-- The unread bytes of readers with an empty batch and the same buffer and source.
pub same-unread :
    {S : Type 0} (pending : S → List ℕ) (r r' : RecordReader S)
    → r.batch ≡ []
    → r'.batch ≡ []
    → r'.buffer ≡ r.buffer
    → r'.source ≡ r.source
    → unread pending r' ≡ unread pending r
same-unread pending r r' b b' e k =
    unread-empty pending r' b' ∙ ap₂ (λ x y. x ++ pending y) e k ∙ sym (unread-empty pending r b)

module _ {S : Type 0} (crc32c : List ℕ → ℕ) {s : Source S} {pending : S → List ℕ} {stalls : S → ℕ}
    (laws : IsSource s pending stalls) where
  -- The rounds that are left are enough for the bytes and interruptions to come.
  abbrev pub Enough : ℕ → S → Type 0
  Enough fuel source = length (pending source) + stalls source < fuel

  abbrev pub Loops : ℕ → Exec (RecordReader S) RecordReadError Bool → Type 0
  Loops fuel loop =
      (x : RecordReader S)
      → IsFilling x
      → Enough fuel x.source
      → Awaits crc32c s pending x (loop x).1 (loop x).0

  -- The end of the input.
  after_end :
      (loop : Exec (RecordReader S) RecordReadError Bool) (source source' : S) (buffer : List ℕ)
      (capacity capacity' : ℕ) (p : Option ℕ) (batch : List ℕ) (offset : ℕ) (now : ReaderState)
      → batch ≡ []
      → Caches p buffer
      → Waits p buffer
      → inspect crc32c buffer ≡ ok none
      → pending source ≡ []
      → pending source' ≡ pending source
      → let r : RecordReader S = record {
        source = source;
        buffer = buffer;
        capacity = capacity;
        pending_length = p;
        batch = batch;
        batch_offset = offset;
        state = now;
      } in
        let result =
          after_read loop (ok []) (record r { capacity = capacity'; source = source' }) in
        Awaits crc32c s pending r result.1 result.0
  unfolding after_read
  after_end loop source source' [] capacity capacity' p batch offset now b c w i e k = (
    refl,
    unread-empty pending
          (record {
            source = source;
            buffer = [];
            capacity = capacity;
            pending_length = p;
            batch = batch;
            batch_offset = offset;
            state = now;
          })
          b
        ∙ e,
  )
  after_end loop source source' (x ∷ xs) capacity capacity' p batch offset now b c w i e k = (
    refl,
    ap (λ t. drop offset batch ++ ((x ∷ xs) ++ t)) k,
    inl (
        ap (classify crc32c) (
          unread-empty pending
            (record {
              source = source;
              buffer = x ∷ xs;
              capacity = capacity;
              pending_length = p;
              batch = batch;
              batch_offset = offset;
              state = now;
            })
            b
          ∙ ap (λ t. (x ∷ xs) ++ t) e
          ∙ append-nil (x ∷ xs))
        ∙ classify-truncated crc32c x xs p i c w),
  )

  pub after_read-Awaits :
      (loop : Exec (RecordReader S) RecordReadError Bool) (fuel room capacity : ℕ) (source : S)
      (received : Outcome IoError (List ℕ)) (r : RecordReader S)
      → Loops fuel loop
      → IsFilling r
      → Waits r.pending_length r.buffer
      → inspect crc32c r.buffer ≡ ok none
      → Enough (suc fuel) r.source
      → 0 < room
      → Took pending stalls room r.source source received
      → s.read_buf room r.source ≡ (received, source)
      → let result = after_read loop received (record r { capacity = capacity; source = source }) in
        Awaits crc32c s pending r result.1 result.0
  unfolding after_read
  after_read-Awaits loop fuel room capacity source (ok []) r ih f w i m h (e, k, t) call =
      after_end loop r.source source r.buffer r.capacity capacity r.pending_length r.batch
        r.batch_offset r.state f.empty f.caches w i
        (elim e [ inl no_room ↦ absurd (omega arith) | inr over ↦ over ]) k
  after_read-Awaits loop fuel room capacity source (ok (x ∷ xs)) r ih f w i m h (le, k, t) call =
      Awaits-after crc32c s pending r
        (record r { source = source; buffer = r.buffer ++ (x ∷ xs); capacity = capacity }) _ _
        (unread-empty pending
            (record r { source = source; buffer = r.buffer ++ (x ∷ xs); capacity = capacity })
            f.empty
          ∙ append_assoc r.buffer (x ∷ xs) (pending source)
          ∙ ap (λ y. r.buffer ++ y) (sym k)
          ∙ sym (unread-empty pending r f.empty))
        (ih (record r { source = source; buffer = r.buffer ++ (x ∷ xs); capacity = capacity })
          (record {
            empty = f.empty;
            caches = Caches-append r.pending_length r.buffer (x ∷ xs) f.caches;
            going = f.going;
          })
          (omega (arith, ap length k, length-append (x ∷ xs) (pending source))))
  after_read-Awaits loop fuel room capacity source (err interrupted) r ih f w i m h (k, t) call =
      Awaits-after crc32c s pending r (record r { source = source; capacity = capacity }) _ _
        (ap (λ y. drop r.batch_offset r.batch ++ (r.buffer ++ y)) k)
        (ih (record r { source = source; capacity = capacity })
          (record { empty = f.empty; caches = f.caches; going = f.going })
          (omega (arith, ap length k)))
  after_read-Awaits loop fuel room capacity source (err write_zero) r ih f w i m h (k, t) call = (
    refl,
    ap (λ y. drop r.batch_offset r.batch ++ (r.buffer ++ y)) k,
    inr (write_zero, refl, (λ e. cc), (room, r.source, call)),
  )
  after_read-Awaits loop fuel room capacity source (err not_found) r ih f w i m h (k, t) call = (
    refl,
    ap (λ y. drop r.batch_offset r.batch ++ (r.buffer ++ y)) k,
    inr (not_found, refl, (λ e. cc), (room, r.source, call)),
  )
  after_read-Awaits loop fuel room capacity source (err unexpected_eof) r ih f w i m h (k, t) call =
      (
        refl,
        ap (λ y. drop r.batch_offset r.batch ++ (r.buffer ++ y)) k,
        inr (unexpected_eof, refl, (λ e. cc), (room, r.source, call)),
      )
  after_read-Awaits loop fuel room capacity source (err invalid_input) r ih f w i m h (k, t) call =
      (
        refl,
        ap (λ y. drop r.batch_offset r.batch ++ (r.buffer ++ y)) k,
        inr (invalid_input, refl, (λ e. cc), (room, r.source, call)),
      )
  after_read-Awaits loop fuel room capacity source (err other) r ih f w i m h (k, t) call = (
    refl,
    ap (λ y. drop r.batch_offset r.batch ++ (r.buffer ++ y)) k,
    inr (other, refl, (λ e. cc), (room, r.source, call)),
  )
  after_read-Awaits loop fuel room capacity source dropped r ih f w i m h (k, t) call = (
    record {
      frames = [];
      valid = tt;
      left = ap (drop r.batch_offset) f.empty ∙ drop-nil r.batch_offset;
      place = inl (f.empty, refl);
      caches = f.caches;
    },
    f.going,
    ap (λ y. drop r.batch_offset r.batch ++ (r.buffer ++ y)) k,
  )
  after_read-Awaits loop fuel room capacity source panicked r ih f w i m h k call = k
  after_read-Awaits loop fuel room capacity source stuck r ih f w i m h k call = k
