-- ===== src/RecordReader/Scan.antt =====
-- The loop of `prepare_batch` splits the valid frames off the buffer, up to the first bytes that are
-- no complete valid frame.
use transaction_log.Common.{
  ==→eq, ==→ne, All, Bool-cases, List, Option, Outcome, [], ap, append_assoc, arith, drop, drop-add,
  dropped, err, flatten, inl, inr, length, length-append, length-drop, length-take, ltb, ltb→le,
  ltb→lt, none, ok, panicked, refl, some, stuck, suc, sym, take, take-append-drop, zero, ℕ, ◌++◌,
  ◌+◌, ◌-◌, ◌<◌, ◌==◌, ◌∙◌, ◌∷◌, ◌≡◌, ◌≤◌,
}
use transaction_log.Record.Protocol.{header_len}
use transaction_log.Record.Protocol.Read
use transaction_log.Record.Frame.{IsFrame}
use transaction_log.RecordReader.Reader.{
  RecordReadError, frame_length, Scan, check_frame, round, scan,
}
use transaction_log.RecordReader.Inspect.{
  declared, after_declared, inspect, inspect-IsFrame, declared-some, declared-none,
  declared_returns, checked_short, checked_frame, checked_mismatch,
}

-- A pending length is the one that the header at the front declares.
abbrev pub Caches : Option ℕ → List ℕ → Type 0
Caches none rest = Unit {0}
Caches (some n) rest = declared rest ≡ ok (some n)

-- More bytes are wanted than there are: a header's, or those of the pending record.
abbrev pub Waits : Option ℕ → List ℕ → Type 0
Waits none rest = length rest < header_len
Waits (some n) rest = length rest < n

-- The loop stopped for want of bytes, or at an error.
abbrev pub Stops : (List ℕ → ℕ) → Option ℕ → List ℕ → Outcome RecordReadError (Unit {0}) → Type 0
Stops crc32c pending rest (ok u) = (inspect crc32c rest ≡ ok none) × Waits pending rest
Stops crc32c pending rest (err e) = inspect crc32c rest ≡ err e
Stops crc32c pending rest dropped = ⊥
Stops crc32c pending rest panicked = ⊥
Stops crc32c pending rest stuck = ⊥

-- The loop from offset `from` on, in a buffer.
pub record Scanned (crc32c : List ℕ → ℕ) (buffer : List ℕ) (from : ℕ) (s : Scan) : Type 0 where
  pub frames : List (List ℕ)
  pub valid : All (IsFrame crc32c) frames
  pub cut : drop from buffer ≡ flatten frames ++ drop s.validated_len buffer
  pub reach : s.validated_len ≡ from + length (flatten frames)
  pub within : s.validated_len ≤ length buffer
  pub caches : Caches s.pending_length (drop s.validated_len buffer)
  pub stops : Stops crc32c s.pending_length (drop s.validated_len buffer) s.validation

frame_length-declared :
    (pending : Option ℕ) (rest : List ℕ)
    → Caches pending rest
    → frame_length pending rest ≡ declared rest
frame_length-declared none rest h = refl
frame_length-declared (some n) rest h = unfold frame_length in sym h

module _ (crc32c : List ℕ → ℕ) (buffer : List ℕ) where
  inspect-declared :
      (rest : List ℕ) (d : Outcome RecordReadError (Option ℕ))
      → declared rest ≡ d
      → inspect crc32c rest ≡ after_declared crc32c rest d
  unfolding inspect
  inspect-declared rest d e = ap (after_declared crc32c rest) e

  -- Nothing more is validated.
  stop :
      (from : ℕ) (s : Scan)
      → s.validated_len ≡ from
      → from ≤ length buffer
      → Caches s.pending_length (drop from buffer)
      → Stops crc32c s.pending_length (drop from buffer) s.validation
      → Scanned crc32c buffer from s
  stop from s e h c t = record {
    frames = [];
    valid = tt;
    cut = ap (λ n. drop n buffer) (sym e);
    reach = omega arith;
    within = omega arith;
    caches = rw e c;
    stops = rw e t;
  }

  -- One more frame is validated.
  step :
      (from n : ℕ) (s : Scan)
      → inspect crc32c (drop from buffer) ≡ ok (some n)
      → Scanned crc32c buffer (from + n) s
      → Scanned crc32c buffer from s
  step from n s e h =
      let rest = drop from buffer in
      let (valid, enough, least) = inspect-IsFrame crc32c rest n e in
      record {
        frames = take n rest ∷ h.frames;
        valid = (valid, h.valid);
        cut =
            sym (take-append-drop n rest)
            ∙ ap (λ t. take n rest ++ t) (sym (drop-add from n buffer) ∙ h.cut)
            ∙ sym (append_assoc (take n rest) (flatten h.frames) (drop s.validated_len buffer));
        reach = omega (arith, length-append (take n rest) (flatten h.frames), length-take n rest);
        within = h.within;
        caches = h.caches;
        stops = h.stops;
      }

  check_frame-Scanned :
      (loop : ℕ → Option ℕ → Scan) (fuel from n : ℕ)
      → ((next : ℕ)
          → next ≤ length buffer
          → length buffer < next + fuel
          → Scanned crc32c buffer next (loop next none))
      → from ≤ length buffer
      → length buffer < from + suc fuel
      → declared (drop from buffer) ≡ ok (some n)
      → Scanned crc32c buffer from (check_frame crc32c loop (drop from buffer) from n)
  unfolding check_frame
  check_frame-Scanned loop fuel from n ih h hf d =
      let rest = drop from buffer in
      let found = inspect-declared rest (ok (some n)) d in
      let here : length rest ≡ length buffer - from = length-drop from buffer in
      let header = declared-some rest n d in
      elim (Bool-cases (ltb (length rest) n)) [
        | inl short ↦
            let few = ltb→lt (length rest) n short in
            rw short (stop from _ refl h d (found ∙ checked_short crc32c n rest few, few))
        | inr full ↦
            let enough = ltb→le (length rest) n full in
            rw full
              (elim (Bool-cases (Read.crc (take n rest) == Read.compute_crc crc32c (take n rest))) [
                | inl same ↦ rw same (
                    step from n (loop (from + n) none)
                      (found ∙ checked_frame crc32c n rest enough (==→eq _ _ same))
                      (ih (from + n) (omega arith) (omega (arith, header.1))))
                | inr different ↦ rw different (
                    stop from _ refl h d
                      (found ∙ checked_mismatch crc32c n rest enough (==→ne _ _ different)))
              ])
      ]

  round-Scanned :
      (loop : ℕ → Option ℕ → Scan) (fuel from : ℕ) (pending : Option ℕ)
      (d : Outcome RecordReadError (Option ℕ))
      → ((next : ℕ)
          → next ≤ length buffer
          → length buffer < next + fuel
          → Scanned crc32c buffer next (loop next none))
      → from ≤ length buffer
      → length buffer < from + suc fuel
      → Caches pending (drop from buffer)
      → frame_length pending (drop from buffer) ≡ d
      → Scanned crc32c buffer from (round crc32c loop (drop from buffer) from pending d)
  unfolding round
  round-Scanned loop fuel from pending (ok (some n)) ih h hf c e =
      check_frame-Scanned loop fuel from n ih h hf
        (sym (frame_length-declared pending (drop from buffer) c) ∙ e)
  round-Scanned loop fuel from none (ok none) ih h hf c e =
      stop from _ refl h tt
        (inspect-declared (drop from buffer) (ok none) e, declared-none (drop from buffer) e)
  round-Scanned loop fuel from (some m) (ok none) ih h hf c e =
      absurd (cc (c, frame_length-declared (some m) (drop from buffer) c))
  round-Scanned loop fuel from pending (err x) ih h hf c e = stop from _ refl h c (
      inspect-declared (drop from buffer) (err x)
        (sym (frame_length-declared pending (drop from buffer) c) ∙ e))
  round-Scanned loop fuel from pending dropped ih h hf c e = absurd (
      (declared_returns (drop from buffer)).0
        (sym (frame_length-declared pending (drop from buffer) c) ∙ e))
  round-Scanned loop fuel from pending panicked ih h hf c e = absurd (
      (declared_returns (drop from buffer)).1
        (sym (frame_length-declared pending (drop from buffer) c) ∙ e))
  round-Scanned loop fuel from pending stuck ih h hf c e = absurd (
      (declared_returns (drop from buffer)).2
        (sym (frame_length-declared pending (drop from buffer) c) ∙ e))

  -- With fuel beyond the bytes left, the loop ends with a description of all of them.
  pub scan-Scanned :
      (fuel from : ℕ) (pending : Option ℕ)
      → from ≤ length buffer
      → length buffer < from + fuel
      → Caches pending (drop from buffer)
      → Scanned crc32c buffer from (scan crc32c fuel buffer from pending)
  unfolding scan
  scan-Scanned zero from pending h hf c = absurd (omega arith)
  scan-Scanned (suc fuel) from pending h hf c =
      round-Scanned (scan crc32c fuel buffer) fuel from pending
        (frame_length pending (drop from buffer))
        (λ next hn hnf. scan-Scanned fuel next none hn hnf tt) h hf c refl
