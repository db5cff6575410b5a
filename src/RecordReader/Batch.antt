-- ===== src/RecordReader/Batch.antt =====
-- The batch: `prepare_batch` fills it with valid frames, and `try_read_next` hands them out.
use transaction_log.Common.{
  All, List, Option, Outcome, [], ap, append-nil, append_assoc, arith, drop, drop-add, drop-append,
  drop-nil, eq→==, err, flatten, inl, inr, length, length-append, length-drop, le→ltb, ne→==, none,
  ok, refl, some, subst, sym, take, take-append, take-append_le, true, ℕ, ◌++◌, ◌+◌, ◌<◌, ◌==◌, ◌∙◌,
  ◌∷◌, ◌≡◌, ◌≢◌, ◌⊎◌,
}
use transaction_log.Record.Protocol.{header_len}
use transaction_log.Record.Protocol.Read
use transaction_log.Record.Frame.{IsFrame}
use transaction_log.Record.View.{Record}
use transaction_log.RecordReader.Reader.{
  RecordReadError, reader_failed, RecordReader, failed, take_record, try_read_next,
}
use transaction_log.RecordReader.Inspect.{at_end, classify, IsFrame-inspect, Read-length-take}
use transaction_log.RecordReader.Scan.{Caches}

-- What the reader has not handed out yet: the rest of the batch, the buffer, and the source's bytes.
abbrev pub unread : {S : Type 0} → (S → List ℕ) → RecordReader S → List ℕ
unread pending r = drop r.batch_offset r.batch ++ (r.buffer ++ pending r.source)

pub unread-empty :
    {S : Type 0} (pending : S → List ℕ) (r : RecordReader S)
    → r.batch ≡ []
    → unread pending r ≡ r.buffer ++ pending r.source
unread-empty pending r b =
    ap (λ x. x ++ (r.buffer ++ pending r.source))
      (ap (drop r.batch_offset) b ∙ drop-nil r.batch_offset)

-- The batch holds valid frames from its offset on, and is dropped with its last record; a pending
-- length belongs to the record at the front of the buffer.
pub record IsReading {S : Type 0} (crc32c : List ℕ → ℕ) (r : RecordReader S) : Type 0 where
  pub frames : List (List ℕ)
  pub valid : All (IsFrame crc32c) frames
  pub left : drop r.batch_offset r.batch ≡ flatten frames
  pub place : ((r.batch ≡ []) × (frames ≡ [])) ⊎ (r.batch_offset < length r.batch)
  pub caches : Caches r.pending_length r.buffer

-- One record was handed out: a valid frame, the next of the bytes that were unread.
pub record HandsOut {S : Type 0} (crc32c : List ℕ → ℕ) (pending : S → List ℕ) (r : RecordReader S)
    (result : Outcome RecordReadError (Option Record) × RecordReader S) : Type 0 where
  pub frame : List ℕ
  pub answer : result.0 ≡ ok (some (record { bytes = frame }))
  pub valid : IsFrame crc32c frame
  pub stream : unread pending r ≡ frame ++ unread pending result.1
  pub found : classify crc32c (unread pending r) ≡ ok (some (length frame))
  pub keeps : IsReading crc32c result.1
  pub same_state : result.1.state ≡ r.state

-- The header at the front of a frame gives its length.
header-frame :
    (crc32c : List ℕ → ℕ) (frame more : List ℕ)
    → IsFrame crc32c frame
    → Read.length (Read.header_unchecked (frame ++ more)) ≡ length frame
unfolding Read.header_unchecked
header-frame crc32c frame more h =
    ap Read.length (take-append_le header_len frame more (omega arith))
    ∙ Read-length-take header_len frame (omega arith)
    ∙ h.framed

pub classify-frame :
    (crc32c : List ℕ → ℕ) (frame more : List ℕ)
    → IsFrame crc32c frame
    → classify crc32c (frame ++ more) ≡ ok (some (length frame))
unfolding classify
classify-frame crc32c [] more h = absurd (omega (arith, h.least))
classify-frame crc32c (b ∷ bs) more h =
    ap (at_end (b ∷ (bs ++ more))) (IsFrame-inspect crc32c (b ∷ bs) more h)

module _ {S : Type 0} (r : RecordReader S) where
  pub try_read_next-failed : r.state ≡ failed → try_read_next r ≡ (err reader_failed, r)
  unfolding try_read_next
  try_read_next-failed h = ground arith

  pub try_read_next-none : r.state ≢ failed → r.batch ≡ [] → try_read_next r ≡ (ok none, r)
  unfolding try_read_next
  try_read_next-none h e = ground arith

  try_read_next-take_record : r.state ≢ failed → r.batch ≢ [] → try_read_next r ≡ take_record r
  unfolding try_read_next
  try_read_next-take_record h e = ground arith

module _ {S : Type 0} (crc32c : List ℕ → ℕ) (pending : S → List ℕ) (r : RecordReader S) where
  -- The last frame of the batch.
  take_record-last :
      (frame : List ℕ)
      → IsFrame crc32c frame
      → drop r.batch_offset r.batch ≡ frame
      → Caches r.pending_length r.buffer
      → HandsOut crc32c pending r (take_record r)
  unfolding take_record
  take_record-last frame h e c =
      let size : Read.length (Read.header_unchecked (drop r.batch_offset r.batch)) ≡ length frame =
        ap (λ x. Read.length (Read.header_unchecked x)) (e ∙ sym (append-nil frame))
        ∙ header-frame crc32c frame [] h in
      let full : (r.batch_offset + length frame == length r.batch) ≡ true =
        eq→== _ _ (omega (arith, length-drop r.batch_offset r.batch, ap length e, h.least)) in
      rw (size, full)
        (record {
          frame = frame;
          answer = ap (λ x. ok (some (record { bytes = x }))) e;
          valid = h;
          stream = ap (λ x. x ++ (r.buffer ++ pending r.source)) e;
          found =
              ap (λ x. classify crc32c (x ++ (r.buffer ++ pending r.source))) e
              ∙ classify-frame crc32c frame _ h;
          keeps = record {
            frames = [];
            valid = tt;
            left = refl;
            place = inl (refl, refl);
            caches = c;
          };
          same_state = refl;
        })

  -- A frame with others behind it.
  take_record-inner :
      (frame next : List ℕ) (frames : List (List ℕ))
      → IsFrame crc32c frame
      → All (IsFrame crc32c) (next ∷ frames)
      → drop r.batch_offset r.batch ≡ frame ++ flatten (next ∷ frames)
      → Caches r.pending_length r.buffer
      → HandsOut crc32c pending r (take_record r)
  unfolding take_record
  take_record-inner frame next frames h hs e c =
      let behind = flatten (next ∷ frames) in
      let size : Read.length (Read.header_unchecked (drop r.batch_offset r.batch)) ≡ length frame =
        ap (λ x. Read.length (Read.header_unchecked x)) e ∙ header-frame crc32c frame behind h in
      let fits : r.batch_offset + length frame < length r.batch = omega (
        arith,
        length-drop r.batch_offset r.batch,
        ap length e,
        length-append frame behind,
        length-append next (flatten frames),
        hs.0.least,
        h.least,
      ) in
      let bytes : take (length frame) (drop r.batch_offset r.batch) ≡ frame =
        ap (take (length frame)) e ∙ take-append (length frame) frame behind refl in
      let rest : drop (r.batch_offset + length frame) r.batch ≡ behind =
        drop-add r.batch_offset (length frame) r.batch
        ∙ ap (drop (length frame)) e
        ∙ drop-append (length frame) frame behind refl in
      rw
        (
          size,
          ne→== (r.batch_offset + length frame) (length r.batch) (omega arith),
          le→ltb (length r.batch) (r.batch_offset + length frame) (omega arith),
        )
        (record {
          frame = frame;
          answer = ap (λ x. ok (some (record { bytes = x }))) bytes;
          valid = h;
          stream =
              ap (λ x. x ++ (r.buffer ++ pending r.source)) (e ∙ ap (λ x. frame ++ x) (sym rest))
              ∙ append_assoc frame (drop (r.batch_offset + length frame) r.batch)
                  (r.buffer ++ pending r.source);
          found =
              ap (λ x. classify crc32c (x ++ (r.buffer ++ pending r.source))) e
              ∙ ap (classify crc32c) (append_assoc frame behind (r.buffer ++ pending r.source))
              ∙ classify-frame crc32c frame _ h;
          keeps = record {
            frames = next ∷ frames;
            valid = hs;
            left = rest;
            place = inr fits;
            caches = c;
          };
          same_state = refl;
        })

  take_record-HandsOut :
      (frames : List (List ℕ))
      → All (IsFrame crc32c) frames
      → drop r.batch_offset r.batch ≡ flatten frames
      → r.batch_offset < length r.batch
      → Caches r.pending_length r.buffer
      → HandsOut crc32c pending r (take_record r)
  take_record-HandsOut [] h e some_left c =
      absurd (omega (arith, length-drop r.batch_offset r.batch, ap length e))
  take_record-HandsOut (frame ∷ []) h e some_left c =
      take_record-last frame h.0 (e ∙ append-nil frame) c
  take_record-HandsOut (frame ∷ next ∷ frames) h e some_left c =
      take_record-inner frame next frames h.0 h.1 e c

  -- A reader that has not failed, with a batch that is not empty, hands out the next record of the
  -- bytes that are unread, and keeps its state and its invariant.
  pub try_read_next-HandsOut :
      IsReading crc32c r
      → r.state ≢ failed
      → r.batch ≢ []
      → HandsOut crc32c pending r (try_read_next r)
  try_read_next-HandsOut h going some_left =
      subst (HandsOut crc32c pending r) (sym (try_read_next-take_record r going some_left))
        (elim h.place [
          | inl p ↦ absurd (some_left p.0)
          | inr p ↦ take_record-HandsOut h.frames h.valid h.left p h.caches
        ])
