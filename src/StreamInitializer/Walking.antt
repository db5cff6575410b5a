-- ===== src/StreamInitializer/Walking.antt =====
-- The loop over the files: where it stops, and what is then to be removed.
use transaction_log.Common.{
  Option, Outcome, ap, arith, dropped, err, inl, inr, none, ok, panicked, refl, some, stuck, subst,
  sym, ℕ, ◌+◌, ◌<◌, ◌∙◌, ◌≡◌, ◌≢◌, ◌≤◌, ◌⊎◌,
}
use transaction_log.Record.StreamId.{StreamId}
use transaction_log.Location.LogFileNumber
use transaction_log.Location.LogFileNumber.{IsLogFileNumber}
use transaction_log.Location.LogFileId
use transaction_log.Location.LogFileId.{LogFileId, next}
use transaction_log.Location.Endpoints.{RecordEndLocation, end_file}
use transaction_log.StreamInitializer.Initializer.{
  checkpoint_end, InitializedStream, InitializationState, InitializationError, trusted_in,
  next_file, or_end, removed_after,
}

abbrev pub at : StreamId → ℕ → LogFileId
at stream n = record { stream_id = stream; file_number = n }

abbrev pub InStream : StreamId → Option RecordEndLocation → Type 0
InStream stream none = Unit {0}
InStream stream (some end) = end.record_id.stream_id ≡ stream

-- The end of a file's records, if it has any, is one of the file.
abbrev pub EndIn : LogFileId → Option RecordEndLocation → Type 0
EndIn f none = Unit {0}
EndIn f (some end) = end_file end ≡ f

abbrev pub AtMost : Option LogFileId → ℕ → Type 0
AtMost none n = Unit {0}
AtMost (some m) n = m.file_number ≤ n

-- Nothing is active or to be removed yet, and the file `n` is the next one: the first, one with
-- trusted records, or the one behind the end of the records so far.
pub record IsWalking {H : Type 0} (stream : StreamId) (n m : ℕ)
    (checkpoint : Option RecordEndLocation) (s : InitializationState H) : Type 0 where
  pub stream_id : s.stream_id ≡ stream
  pub maximum : s.maximum_log_file ≡ some (at stream m)
  pub trusted : checkpoint_end s.checkpoint ≡ checkpoint
  pub inactive : s.active_pair ≡ none
  pub keeps_all : s.first_file_to_remove ≡ none
  pub end_stream : InStream stream s.recovered_end
  pub place :
      ((s.recovered_end ≡ none)
        × (n ≤ m)
        × ((n ≡ 0) ⊎ (trusted_in (at stream n) checkpoint ≢ none)))
      ⊎ ((end : RecordEndLocation) × (s.recovered_end ≡ some end)
          × (next (end_file end) ≡ some (at stream n)))

-- No file is behind number `n`, or those from number `k` to the last one are to be removed.
abbrev pub Removal : {H : Type 0} → StreamId → ℕ → ℕ → InitializationState H → Type 0
Removal stream n k s =
    ((s.first_file_to_remove ≡ none) × AtMost s.maximum_log_file n)
    ⊎ ((m : ℕ) × (s.first_file_to_remove ≡ some (at stream k))
        × (s.maximum_log_file ≡ some (at stream m)))

-- The file that goes on, open or to be created, and no file behind it that is not to be removed.
pub record IsPlanned {H : Type 0} (stream : StreamId)
    (known : Option LogFileId × Option RecordEndLocation) (s : InitializationState H) : Type 0 where
  pub number : ℕ
  pub valid : IsLogFileNumber number
  pub stream_id : s.stream_id ≡ stream
  pub maximum : s.maximum_log_file ≡ known.0
  pub trusted : checkpoint_end s.checkpoint ≡ known.1
  pub end_stream : InStream stream s.recovered_end
  pub going_on :
      ((pair : InitializedStream H) × (s.active_pair ≡ some pair)
        × (pair.file_id ≡ at stream number)
        × EndIn pair.file_id pair.end
        × ((end : RecordEndLocation) → pair.end ≡ some end → s.recovered_end ≡ some end)
        × Removal stream number (number + 1) s)
      ⊎ ((s.active_pair ≡ none)
          × (next_file stream s.recovered_end ≡ some (at stream number))
          × Removal stream number number s)

-- What the loop may answer. It panics only for the reason `Fault`.
abbrev pub Plans :
    {H : Type 0} (Fault : Type 0)
    → StreamId
    → Option LogFileId × Option RecordEndLocation
    → Outcome InitializationError (InitializationState H)
    → Type 0
Plans Fault stream known (ok s) = IsPlanned stream known s
Plans Fault stream known (err e) = Unit {0}
Plans Fault stream known dropped = Unit {0}
Plans Fault stream known panicked = Fault
Plans Fault stream known stuck = Fault

pub removed_after-last : (stream m : ℕ) → removed_after (at stream m) (at stream m) ≡ ok none
unfolding removed_after LogFileId.eq
removed_after-last stream m = ground arith

pub removed_after-more :
    (stream n m : ℕ)
    → n < m
    → IsLogFileNumber m
    → removed_after (at stream n) (at stream m) ≡ ok (some (at stream (n + 1)))
unfolding removed_after LogFileId.eq next
removed_after-more stream n m h v = ground arith

pub next-at :
    (stream n : ℕ) → n < LogFileNumber.maximum → next (at stream n) ≡ some (at stream (n + 1))
unfolding next
next-at stream n h = ground arith

next-valid : (f : LogFileId) (stream n : ℕ) → next f ≡ some (at stream n) → IsLogFileNumber n
unfolding next
next-valid f stream n e = ground arith

same_stream :
    (end : RecordEndLocation) (stream n : ℕ)
    → end_file end ≡ at stream n
    → end.record_id.stream_id ≡ stream
unfolding end_file LogFileId.from_record_id
same_stream end stream n e = ap (λ f. f.stream_id) e

next_file-none :
    (stream n : ℕ) (checkpoint : Option RecordEndLocation)
    → (n ≡ 0) ⊎ (trusted_in (at stream n) checkpoint ≢ none)
    → trusted_in (at stream n) checkpoint ≡ none
    → next_file stream none ≡ some (at stream n)
unfolding LogFileId.first
next_file-none stream n checkpoint (inl zero_n) e = ap (λ k. some (at stream k)) (sym zero_n)
next_file-none stream n checkpoint (inr trusted) e = absurd (trusted e)

in_stream :
    (stream n : ℕ) (end : Option RecordEndLocation) (before : Option RecordEndLocation)
    → EndIn (at stream n) end
    → InStream stream before
    → InStream stream (or_end end before)
in_stream stream n none before h i = i
in_stream stream n (some e) before h i = same_stream e stream n h

or_end-some :
    (end before : Option RecordEndLocation) (e : RecordEndLocation)
    → end ≡ some e
    → or_end end before ≡ some e
or_end-some none before e h = cc
or_end-some (some end) before e h = h

module _ {H : Type 0} (stream m : ℕ) (valid : IsLogFileNumber m)
    (checkpoint : Option RecordEndLocation) where
  -- The loop has come through all files.
  pub walked :
      (n : ℕ) (s : InitializationState H)
      → n ≡ m + 1
      → IsWalking stream n m checkpoint s
      → IsPlanned stream (some (at stream m), checkpoint) s
  walked n s e h = elim h.place [
    | inl (a, le, b) ↦ absurd (omega arith)
    | inr (end, a, b) ↦ record {
      number = n;
      valid = next-valid (end_file end) stream n b;
      stream_id = h.stream_id;
      maximum = h.maximum;
      trusted = h.trusted;
      end_stream = h.end_stream;
      going_on = inr (
        h.inactive,
        ap (next_file stream) a ∙ b,
        inl (h.keeps_all, subst (λ x. AtMost x n) (sym h.maximum) (omega arith)),
      );
    }
  ]

  -- The file `n` is full.
  pub completed :
      (n : ℕ) (end : RecordEndLocation) (s : InitializationState H)
      → end_file end ≡ at stream n
      → n < LogFileNumber.maximum
      → IsWalking stream n m checkpoint s
      → IsWalking stream (n + 1) m checkpoint (record s { recovered_end = some end })
  completed n end s e lt h = record {
    stream_id = h.stream_id;
    maximum = h.maximum;
    trusted = h.trusted;
    inactive = h.inactive;
    keeps_all = h.keeps_all;
    end_stream = same_stream end stream n e;
    place = inr (end, refl, ap next e ∙ next-at stream n lt);
  }

  -- The file `n` is missing.
  pub missing :
      (n : ℕ) (s : InitializationState H)
      → n ≤ m
      → trusted_in (at stream n) checkpoint ≡ none
      → IsWalking stream n m checkpoint s
      → IsPlanned stream
          (some (at stream m), checkpoint)
          (record s { first_file_to_remove = some (at stream n) })
  missing n s le untrusted h = record {
    number = n;
    valid = omega arith;
    stream_id = h.stream_id;
    maximum = h.maximum;
    trusted = h.trusted;
    end_stream = h.end_stream;
    going_on = inr (
      h.inactive,
      elim h.place [
        | inl (a, b, c) ↦ ap (next_file stream) a ∙ next_file-none stream n checkpoint c untrusted
        | inr (end, a, b) ↦ ap (next_file stream) a ∙ b
      ],
      inr (m, refl, h.maximum),
    );
  }

  -- The file `n` has room.
  pub stopped :
      (n : ℕ) (end : Option RecordEndLocation) (l i : H) (first : Option LogFileId)
      (s : InitializationState H)
      → IsLogFileNumber n
      → EndIn (at stream n) end
      → ((first ≡ none) × (m ≤ n)) ⊎ (first ≡ some (at stream (n + 1)))
      → IsWalking stream n m checkpoint s
      → IsPlanned stream
          (some (at stream m), checkpoint)
          (record s {
            recovered_end = or_end end s.recovered_end;
            active_pair = some (record { file_id = at stream n; log = l; index = i; end = end });
            first_file_to_remove = first;
          })
  stopped n end l i first s le e r h = record {
    number = n;
    valid = le;
    stream_id = h.stream_id;
    maximum = h.maximum;
    trusted = h.trusted;
    end_stream = in_stream stream n end s.recovered_end e h.end_stream;
    going_on = inl (
      record { file_id = at stream n; log = l; index = i; end = end },
      refl,
      refl,
      e,
      or_end-some end s.recovered_end,
      elim r [
        | inl (none_left, last) ↦ inl (none_left, subst (λ x. AtMost x n) (sym h.maximum) last)
        | inr more ↦ inr (m, more, h.maximum)
      ],
    );
  }
