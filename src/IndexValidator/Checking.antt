-- ===== src/IndexValidator/Checking.antt =====
-- The test of the trusted entry.
use transaction_log.Common.{
  ==→eq, Bool-cases, List, Option, Outcome, after_call, ap, ap₂, arith, continue, drop, dropped,
  err, false, from_le_bytes, inl, inr, length, lift, ltb, ltb→le, ltb→lt, none, ok, panicked, pure,
  refl, some, stuck, sym, take, take-append-drop, wrap_err, ℕ, ◌*◌, ◌++◌, ◌+◌, ◌-◌, ◌==◌, ◌>>=◌,
  ◌∙◌, ◌≡◌, ◌≢◌, ◌≤◌,
}
use transaction_log.Io.File.{Sought, Measured, Filled, ValidationFile, Parts, content, IsFile}
use transaction_log.IndexWriter.Writer.{index_entry_len}
use transaction_log.Location.LogFilePosition.{LogFilePosition}
use transaction_log.Location.Endpoints.{RecordEndLocation, count_of}
use transaction_log.IndexValidator.Validator.{
  IndexFileValidationError, io, trusted_index_mismatch, too_many_entries, write, check_entry,
  read_entry, read_index_at, check_trusted,
}
use transaction_log.IndexValidator.Entries.{entry_at, entry_at-none, entry_at-there, Agrees}

-- What a trusted entry is that another position was found in, or none.
pub record Mismatch (t : Option RecordEndLocation) (bytes : List ℕ) (entry_index expected : ℕ)
    (actual : Option LogFilePosition) : Type 0 where
  pub end : RecordEndLocation
  pub trusted : t ≡ some end
  pub index : entry_index ≡ count_of t - 1
  pub position : expected ≡ end.position
  pub found : actual ≡ entry_at bytes entry_index
  pub differs : actual ≢ some expected

other_position : (actual expected : ℕ) → (actual == expected) ≡ false → some actual ≢ some expected
other_position actual expected h e = ground arith

module _ {F : Type 0} (parts : Parts F) (before : F) where
  -- The answer of the read of one entry.
  abbrev Reads : ℕ → F → Outcome IndexFileValidationError (Option LogFilePosition) → Type 0
  Reads i after (ok a) =
      (a ≡ entry_at (content parts before) i)
      × (content parts after ≡ content parts before)
      × (parts.stalls after ≤ parts.stalls before)
  Reads i after (err (io e)) = content parts after ≡ content parts before
  Reads i after (err e) = ⊥
  Reads i after dropped = content parts after ≡ content parts before
  Reads i after panicked = ⊥
  Reads i after stuck = ⊥

  -- The answer of the test.
  abbrev pub Checks :
      Option RecordEndLocation → F → Outcome IndexFileValidationError (Unit {0}) → Type 0
  Checks t after (ok u) =
      Agrees t (content parts before)
      × (content parts after ≡ content parts before)
      × (parts.stalls after ≤ parts.stalls before)
  Checks t after (err (io e)) = content parts after ≡ content parts before
  Checks t after (err (trusted_index_mismatch i expected actual)) =
      (content parts after ≡ content parts before)
      × Mismatch t (content parts before) i expected actual
  Checks t after (err (too_many_entries n m)) = ⊥
  Checks t after (err (write e)) = ⊥
  Checks t after dropped = content parts after ≡ content parts before
  Checks t after panicked = ⊥
  Checks t after stuck = ⊥

  -- The comparison with the entry that was read.
  compared :
      (end : RecordEndLocation) (a : Option LogFilePosition) (after : F)
      → a ≡ entry_at (content parts before) (count_of (some end) - 1)
      → content parts after ≡ content parts before
      → parts.stalls after ≤ parts.stalls before
      → Checks (some end) after (check_entry (count_of (some end) - 1) end.position a)
  unfolding check_entry
  compared end none after e same stalls = (
    same,
    record {
      end = end;
      trusted = refl;
      index = refl;
      position = refl;
      found = e;
      differs = λ x. cc;
    },
  )
  compared end (some actual) after e same stalls = elim (Bool-cases (actual == end.position)) [
    | inl equal ↦ rw equal (sym e ∙ ap some (==→eq actual end.position equal), same, stalls)
    | inr other ↦ rw other (
      same,
      record {
        end = end;
        trusted = refl;
        index = refl;
        position = refl;
        found = e;
        differs = λ x. other_position actual end.position other x;
      },
    )
  ]

  read_then :
      (end : RecordEndLocation) (r : Outcome IndexFileValidationError (Option LogFilePosition))
      (y : F)
      → Reads (count_of (some end) - 1) y r
      → let x = continue r (λ a. lift (check_entry (count_of (some end) - 1) end.position a)) y in
        Checks (some end) x.1 x.0
  read_then end (ok a) y (e, same, stalls) = compared end a y e same stalls
  read_then end (err (io e)) y h = h
  read_then end (err (trusted_index_mismatch i e a)) y h = absurd h
  read_then end (err (too_many_entries n m)) y h = h
  read_then end (err (write e)) y h = h
  read_then end dropped y h = h
  read_then end panicked y h = h
  read_then end stuck y h = h

module _ {F : Type 0} {calls : ValidationFile F} {parts : Parts F} (laws : IsFile calls parts)
    (fuel : ℕ) (before : F) where
  read_entry-Reads :
      (i n : ℕ) (y : F)
      → n ≡ length (content parts before)
      → content parts y ≡ content parts before
      → parts.stalls y ≤ parts.stalls before
      → let x = read_entry calls fuel (i * index_entry_len) n y in Reads parts before i x.1 x.0
  unfolding read_entry
  read_entry-Reads i n y measured same stalls =
      elim (Bool-cases (ltb n (i * index_entry_len + index_entry_len))) [
        | inl short ↦
            let c = content parts before in
            rw short (
              sym (
                  entry_at-none c i
                    (omega (arith, ltb→lt n (i * index_entry_len + index_entry_len) short))),
              same,
              stalls,
            )
        | inr long ↦
            let c = content parts before in
            let at = i * index_entry_len in
            let le : at ≤ length (content parts y) =
              omega (arith, ltb→le n (at + index_entry_len) long, ap length same) in
            rw long (
              after_call io (Sought parts at y (calls.seek at y).1) (Reads parts before i)
                (calls.seek at y).0 (calls.seek at y).1
                (λ u. wrap_err io (calls.read_exact index_entry_len) >>= λ bytes.
                  pure (some (from_le_bytes bytes)))
                (laws.sought at y le) (λ e l. l ∙ same) (λ l. l ∙ same) (λ l. l) (λ l. l)
                (λ u l.
                  let z = (calls.seek at y).1 in
                  let same' =
                    ap₂ (λ a b. a ++ b) l.0 l.1 ∙ take-append-drop at (content parts y) ∙ same in
                  after_call io
                    (Filled parts index_entry_len z (calls.read_exact index_entry_len z).1)
                    (Reads parts before i) (calls.read_exact index_entry_len z).0
                    (calls.read_exact index_entry_len z).1
                    (λ bytes. pure (some (from_le_bytes bytes))) (laws.filled index_entry_len z)
                    (λ e l. l ∙ same') (λ l. l ∙ same') (λ l. l) (λ l. l)
                    (λ bytes k. (
                      ap (λ b. some (from_le_bytes b))
                            (k.0 ∙ ap (take index_entry_len) (l.1 ∙ ap (drop at) same))
                          ∙ sym (
                              entry_at-there c i
                                (omega (arith, ltb→le n (at + index_entry_len) long))),
                      k.3 ∙ same',
                      omega (arith, k.2, l.2),
                    ))))
      ]

  read_index_at-Reads :
      (i : ℕ) → let x = read_index_at calls fuel i before in Reads parts before i x.1 x.0
  unfolding read_index_at
  read_index_at-Reads i =
      after_call io (Measured parts before (calls.file_length before).1) (Reads parts before i)
        (calls.file_length before).0 (calls.file_length before).1
        (read_entry calls fuel (i * index_entry_len)) (laws.measured before) (λ e l. l) (λ l. l)
        (λ l. l) (λ l. l)
        (λ n l.
          read_entry-Reads i n (calls.file_length before).1 l.0 (ap₂ (λ a b. a ++ b) l.1 l.2) l.3)

  pub check_trusted-Checks :
      (t : Option RecordEndLocation)
      → let x = check_trusted calls fuel t before in Checks parts before t x.1 x.0
  unfolding check_trusted
  check_trusted-Checks none = (tt, refl, omega arith)
  check_trusted-Checks (some end) =
      let x = read_index_at calls fuel (count_of (some end) - 1) before in
      read_then parts before end x.0 x.1 (read_index_at-Reads (count_of (some end) - 1))
