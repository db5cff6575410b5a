-- ===== src/RecordWriter/Serialize.antt =====
-- `write` of the serialization mode: one complete record in the buffer, or no change to it.
use transaction_log.Common.{
  Bool, List, Outcome, [], ap, arith, drop, dropped, err, false, if◌then◌else◌, length, ok,
  panicked, stuck, sym, take, take-all, take-append-drop, true, ℕ, ◌%◌, ◌++◌, ◌+◌, ◌^◌, ◌∙◌, ◌≡◌,
  ◌≤◌,
}
use transaction_log.Record.Protocol.{header_len, min_record_len, max_record_len}
use transaction_log.Record.Protocol.Write
use transaction_log.Record.RecordId.{RecordId}
use transaction_log.Record.Frame.{encode}
use transaction_log.Record.Codec.{write-encode}
use transaction_log.RecordWriter.Builder
use transaction_log.RecordWriter.Builder.{RecordBuilder, payload_too_large}
use transaction_log.RecordWriter.Body.{Body, Collected, run, collect}
use transaction_log.RecordWriter.Building.{Builds, run-collect}
use transaction_log.RecordWriter.Writer
use transaction_log.RecordWriter.Writer.{
  RecordWriter, open_writer, RecordWriteError, build, serialize, conclude,
}

-- The result and the buffer after `write`, from what the closure collected.
abbrev pub after_write :
    {E : Type 0}
    → (List ℕ → ℕ)
    → RecordId
    → List ℕ
    → Collected E
    → Outcome (RecordWriteError E) (Unit {0}) × List ℕ
after_write crc32c id buffer c = elim c.answer [
  | ok u ↦
      if c.refused
      then (err (build payload_too_large), buffer)
      else (ok u, buffer ++ encode crc32c id c.payload)
  | err e ↦ (if c.refused then err (build payload_too_large) else err (serialize e), buffer)
  | dropped ↦ (dropped, buffer)
  | panicked ↦ (panicked, buffer)
  | stuck ↦ (stuck, buffer)
]

module _ (crc32c : List ℕ → ℕ) (id : RecordId) where
  encoded_memory :
      {buffer : List ℕ} {room : ℕ} {payload : List ℕ} (b : RecordBuilder)
      → Builds buffer room payload false b
      → take (b.payload_len + min_record_len) (
          Write.crc crc32c
            (b.payload_len + min_record_len)
            (Write.header ((b.payload_len + min_record_len) % 2 ^ 16) id b.memory))
        ≡ encode crc32c id payload
  encoded_memory {payload} b h =
      let low : (b.payload_len + min_record_len) % 2 ^ 16 ≡ length payload + min_record_len =
        omega arith in
      let size : b.payload_len + min_record_len ≡ length payload + min_record_len = omega arith in
      let rest = drop (length payload) (drop header_len b.memory) in
      rw (low, size)
        (write-encode crc32c id payload rest b.memory (
          sym (take-append-drop (length payload) (drop header_len b.memory))
          ∙ ap (λ t. t ++ rest) h.holds))

  finish-encode :
      {buffer : List ℕ} {room : ℕ} {payload : List ℕ} (b : RecordBuilder)
      → Builds buffer room payload false b
      → Builder.finish crc32c id b ≡ (ok tt, buffer ++ encode crc32c id payload)
  unfolding Builder.finish
  finish-encode b h = ground (arith, encoded_memory b h)

  finish-refused :
      {buffer : List ℕ} {room : ℕ} {payload : List ℕ} (b : RecordBuilder)
      → Builds buffer room payload true b
      → Builder.finish crc32c id b ≡ (err payload_too_large, buffer)
  unfolding Builder.finish
  finish-refused b h = ground (arith, take-all (length b.buffer) b.buffer)

  drop-kept :
      {buffer : List ℕ} {room : ℕ} {payload : List ℕ} {refused : Bool} (b : RecordBuilder)
      → Builds buffer room payload refused b
      → Builder.drop_builder b ≡ buffer
  unfolding Builder.drop_builder
  drop-kept b h = ground (arith, take-all (length b.buffer) b.buffer)

  conclude-after_write :
      {E : Type 0} {buffer : List ℕ} {room : ℕ} {payload : List ℕ} (answer : Outcome E (Unit {0}))
      (refused : Bool) (b : RecordBuilder)
      → Builds buffer room payload refused b
      → conclude crc32c id answer b
        ≡ after_write crc32c id buffer
            (record { answer = answer; payload = payload; refused = refused })
  unfolding conclude
  conclude-after_write (ok u) true b h = rw (finish-refused b h)
  conclude-after_write (ok u) false b h = rw (finish-encode b h)
  conclude-after_write (err x) true b h = ground (arith, drop-kept b h)
  conclude-after_write (err x) false b h = ground (arith, drop-kept b h)
  conclude-after_write dropped refused b h = rw (drop-kept b h)
  conclude-after_write panicked refused b h = rw (drop-kept b h)
  conclude-after_write stuck refused b h = rw (drop-kept b h)

  new-Builds :
      (reserved : List ℕ → List ℕ) (buffer : List ℕ)
      → max_record_len ≤ length (reserved buffer)
      → Builds buffer (length (reserved buffer)) [] false (Builder.new reserved buffer)
  unfolding Builder.new
  new-Builds reserved buffer h = ground arith

  -- On a usable writer `write` does what its closure's writes ask for: if the closure succeeds and
  -- none of its writes was refused for its size, the buffer gains exactly the encoding of the id and
  -- the accepted payload, and else it is unchanged and the result is the size error, the closure's
  -- error or its panic. The destination stays, and so does the usability.
  pub write-after_write :
      {D E : Type 0} (reserved : List ℕ → List ℕ) (body : Body E) (d : D) (buffer : List ℕ)
      → max_record_len ≤ length (reserved buffer)
      → Writer.write crc32c reserved id body (open_writer d buffer) ≡ (
        (after_write crc32c id buffer (collect body [] false)).0,
        open_writer d (after_write crc32c id buffer (collect body [] false)).1,
      )
  unfolding Writer.write
  write-after_write reserved body d buffer room =
      let (e, h) =
        run-collect buffer (length (reserved buffer)) body [] false (Builder.new reserved buffer)
          (new-Builds reserved buffer room) in
      let c = collect body [] false in
      let result = run body (Builder.new reserved buffer) in
      ap (λ p. (p.0, open_writer d p.1))
        (conclude-after_write result.0 c.refused result.1 h
          ∙ ap
              (λ a.
                after_write crc32c id buffer
                  (record { answer = a; payload = c.payload; refused = c.refused }))
              e)
