-- ===== src/RecordReader/Inspect.antt =====
-- What the first bytes of a stream are to a reader, described without buffers: the length of a
-- valid frame at their front, an error, or too few bytes to tell.
use transaction_log.Common.{
  List, Option, Outcome, [], ap, arith, dropped, err, from_le_bytes, if◌then◌else◌, length,
  length-append, length-take, ltb, none, ok, panicked, refl, some, stuck, sym, take, take-all,
  take-append_le, take-drop-take, ℕ, ◌++◌, ◌<◌, ◌==◌, ◌∙◌, ◌∷◌, ◌≡◌, ◌≢◌, ◌≤◌,
}
use transaction_log.Record.Protocol.{header_len, min_record_len}
use transaction_log.Record.Protocol.Read
use transaction_log.Record.StreamId
use transaction_log.Record.Frame.{IsFrame}
use transaction_log.RecordReader.Reader.{
  RecordReadError, crc_mismatch, truncated_header, truncated_record, frame_length,
}

-- The header, as the reader reads it from unbuffered bytes.
abbrev pub declared : List ℕ → Outcome RecordReadError (Option ℕ)
declared bytes = frame_length none bytes

pub declared_short : (bytes : List ℕ) → length bytes < header_len → declared bytes ≡ ok none
unfolding frame_length
declared_short bytes h = ground arith

-- The checksum of the first `n` bytes.
unfoldable pub checked : (List ℕ → ℕ) → ℕ → List ℕ → Outcome RecordReadError (Option ℕ)
checked crc32c n bytes =
    let stored = Read.crc (take n bytes) in
    let computed = Read.compute_crc crc32c (take n bytes) in
    if ltb (length bytes) n
    then ok none
    else if stored == computed
    then ok (some n)
    else err (crc_mismatch stored computed)

-- `ok none` asks for more bytes.
abbrev pub after_declared :
    (List ℕ → ℕ) → List ℕ → Outcome RecordReadError (Option ℕ) → Outcome RecordReadError (Option ℕ)
after_declared crc32c bytes (ok (some n)) = checked crc32c n bytes
after_declared crc32c bytes r = r

unfoldable pub inspect : (List ℕ → ℕ) → List ℕ → Outcome RecordReadError (Option ℕ)
inspect crc32c bytes = after_declared crc32c bytes (declared bytes)

-- The error of an input that ends inside a record.
unfoldable pub cut_short : List ℕ → Outcome RecordReadError (Option ℕ) → RecordReadError
cut_short bytes (ok (some n)) = truncated_record n (length bytes)
cut_short bytes r = truncated_header (length bytes)

abbrev pub at_end : List ℕ → Outcome RecordReadError (Option ℕ) → Outcome RecordReadError (Option ℕ)
at_end bytes (ok none) = err (cut_short bytes (declared bytes))
at_end bytes r = r

pub inspect-nil : (crc32c : List ℕ → ℕ) → inspect crc32c [] ≡ ok none
unfolding inspect
inspect-nil crc32c = ap (after_declared crc32c []) (declared_short [] (omega arith))

-- What a whole input has at its front: `ok none` is its end.
unfoldable pub classify : (List ℕ → ℕ) → List ℕ → Outcome RecordReadError (Option ℕ)
classify crc32c [] = ok none
classify crc32c (b ∷ bs) = at_end (b ∷ bs) (inspect crc32c (b ∷ bs))

-- The fields of the header are there in its first twelve bytes.
pub Read-length-take :
    (m : ℕ) (bytes : List ℕ) → 2 ≤ m → Read.length (take m bytes) ≡ Read.length bytes
unfolding Read.length
Read-length-take m bytes h = ap from_le_bytes (take-drop-take 0 2 m bytes (omega arith))

Read-stream_id-take :
    (m : ℕ) (bytes : List ℕ) → 4 ≤ m → Read.stream_id (take m bytes) ≡ Read.stream_id bytes
unfolding Read.stream_id
Read-stream_id-take m bytes h = ap from_le_bytes (take-drop-take 2 2 m bytes (omega arith))

-- More bytes do not change what a complete header declares.
pub declared-append :
    (bytes more : List ℕ) → header_len ≤ length bytes → declared (bytes ++ more) ≡ declared bytes
unfolding frame_length
declared-append bytes more h =
    ground (arith, take-append_le header_len bytes more h, length-append bytes more)

pub declared-some :
    (bytes : List ℕ) (n : ℕ)
    → declared bytes ≡ ok (some n)
    → (header_len ≤ length bytes)
      × (min_record_len ≤ n)
      × (n ≡ Read.length bytes)
      × StreamId.IsStreamId (Read.stream_id bytes)
unfolding frame_length
declared-some bytes n h =
    ground (arith, Read-length-take header_len bytes, Read-stream_id-take header_len bytes)

pub declared-none : (bytes : List ℕ) → declared bytes ≡ ok none → length bytes < header_len
unfolding frame_length
declared-none bytes h = ground arith

-- A header is complete or not, and right or not; nothing else can happen.
pub declared_returns :
    (bytes : List ℕ)
    → (declared bytes ≢ dropped) × (declared bytes ≢ panicked) × (declared bytes ≢ stuck)
unfolding frame_length
declared_returns bytes = (ground arith, ground arith, ground arith)

declared_complete : (bytes : List ℕ) → declared bytes ≢ ok none → header_len ≤ length bytes
unfolding frame_length
declared_complete bytes ne = ground arith

module _ (crc32c : List ℕ → ℕ) where
  checked-append :
      (n : ℕ) (bytes more : List ℕ)
      → n ≤ length bytes
      → checked crc32c n (bytes ++ more) ≡ checked crc32c n bytes
  unfolding checked
  checked-append n bytes more h =
      ground (arith, take-append_le n bytes more h, length-append bytes more)

  checked-some :
      (n m : ℕ) (bytes : List ℕ)
      → checked crc32c n bytes ≡ ok (some m)
      → (m ≡ n)
        × (n ≤ length bytes)
        × (Read.crc (take n bytes) ≡ Read.compute_crc crc32c (take n bytes))
  unfolding checked
  checked-some n m bytes h = ground arith

  checked_enough : (n : ℕ) (bytes : List ℕ) → checked crc32c n bytes ≢ ok none → n ≤ length bytes
  unfolding checked
  checked_enough n bytes h = ground arith

  pub checked_short : (n : ℕ) (bytes : List ℕ) → length bytes < n → checked crc32c n bytes ≡ ok none
  unfolding checked
  checked_short n bytes h = ground arith

  pub checked_mismatch :
      (n : ℕ) (bytes : List ℕ)
      → n ≤ length bytes
      → Read.crc (take n bytes) ≢ Read.compute_crc crc32c (take n bytes)
      → checked crc32c n bytes
        ≡ err (crc_mismatch (Read.crc (take n bytes)) (Read.compute_crc crc32c (take n bytes)))
  unfolding checked
  checked_mismatch n bytes h e = ground arith

  pub checked_frame :
      (n : ℕ) (bytes : List ℕ)
      → n ≤ length bytes
      → Read.crc (take n bytes) ≡ Read.compute_crc crc32c (take n bytes)
      → checked crc32c n bytes ≡ ok (some n)
  unfolding checked
  checked_frame n bytes h e = ground arith

  after_declared-append :
      (bytes more : List ℕ) (d r : Outcome RecordReadError (Option ℕ))
      → after_declared crc32c bytes d ≡ r
      → r ≢ ok none
      → after_declared crc32c (bytes ++ more) d ≡ r
  after_declared-append bytes more (ok (some n)) r e ne =
      checked-append n bytes more (checked_enough n bytes (λ x. ne (sym e ∙ x))) ∙ e
  after_declared-append bytes more (ok none) r e ne = e
  after_declared-append bytes more (err x) r e ne = e
  after_declared-append bytes more dropped r e ne = e
  after_declared-append bytes more panicked r e ne = e
  after_declared-append bytes more stuck r e ne = e

  -- What is found at the front of some bytes, valid or not, is found in every extension of them.
  pub inspect-append :
      (bytes more : List ℕ) (r : Outcome RecordReadError (Option ℕ))
      → inspect crc32c bytes ≡ r
      → r ≢ ok none
      → inspect crc32c (bytes ++ more) ≡ r
  unfolding inspect
  inspect-append bytes more r e ne =
      let there : header_len ≤ length bytes =
        declared_complete bytes (λ d. ne (sym e ∙ ap (after_declared crc32c bytes) d)) in
      ap (after_declared crc32c (bytes ++ more)) (declared-append bytes more there)
      ∙ after_declared-append bytes more (declared bytes) r e ne

  found-IsFrame :
      (bytes : List ℕ) (n : ℕ) (d : Outcome RecordReadError (Option ℕ))
      → declared bytes ≡ d
      → after_declared crc32c bytes d ≡ ok (some n)
      → IsFrame crc32c (take n bytes) × (n ≤ length bytes) × (min_record_len ≤ n)
  found-IsFrame bytes n (ok (some m)) e c =
      let (header, least, size, stream) = declared-some bytes m e in
      let (same, enough, sum) = checked-some m n bytes c in
      rw same (
        record {
          least = omega (arith, length-take m bytes);
          framed = Read-length-take m bytes (omega arith) ∙ omega (arith, length-take m bytes);
          stream = rw (Read-stream_id-take m bytes (omega arith)) stream;
          checksum = sum;
        },
        enough,
        least,
      )
  found-IsFrame bytes n (ok none) e c = cc
  found-IsFrame bytes n (err x) e c = cc
  found-IsFrame bytes n dropped e c = cc
  found-IsFrame bytes n panicked e c = cc
  found-IsFrame bytes n stuck e c = cc

  -- What is found without an error is a valid frame.
  pub inspect-IsFrame :
      (bytes : List ℕ) (n : ℕ)
      → inspect crc32c bytes ≡ ok (some n)
      → IsFrame crc32c (take n bytes) × (n ≤ length bytes) × (min_record_len ≤ n)
  unfolding inspect
  inspect-IsFrame bytes n e = found-IsFrame bytes n (declared bytes) refl e

  declared-IsFrame :
      (frame : List ℕ) → IsFrame crc32c frame → declared frame ≡ ok (some (length frame))
  unfolding frame_length
  declared-IsFrame frame h =
      ground (arith, Read-length-take header_len frame, Read-stream_id-take header_len frame)

  -- A valid frame is found, whatever follows it.
  pub IsFrame-inspect :
      (frame more : List ℕ)
      → IsFrame crc32c frame
      → inspect crc32c (frame ++ more) ≡ ok (some (length frame))
  unfolding inspect
  IsFrame-inspect frame more h =
      inspect-append frame more (ok (some (length frame)))
        (ap (after_declared crc32c frame) (declared-IsFrame frame h)
          ∙ checked_frame (length frame) frame (omega arith)
              (rw (take-all (length frame) frame (omega arith)) h.checksum))
        (λ x. cc)
