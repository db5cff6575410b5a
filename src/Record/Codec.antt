-- ===== src/Record/Codec.antt =====
-- The writer's stores produce the described encoding, and the getters read it back.
use transaction_log.Common.{
  List, ap, append_assoc, arith, drop, drop-add, drop-append, from_le_bytes-to_le_bytes, length,
  length-append, refl, sym, take, take-append, to_le_bytes, ℕ, ◌++◌, ◌+◌, ◌-◌, ◌<◌, ◌^◌, ◌∙◌, ◌≡◌,
  ◌≤◌,
}
use transaction_log.Record.Protocol.{header_len, crc_len, min_record_len, max_payload_len}
use transaction_log.Record.Protocol.Read
use transaction_log.Record.Protocol.Write
use transaction_log.Record.RecordId.{RecordId, IsRecordId}
use transaction_log.Record.Frame.{
  header_bytes, content, encode, IsFrame, length-content, length-encode, length-header_bytes,
}
use transaction_log.Record.View
use transaction_log.Record.View.{Record}

-- The three stores of the header replace the first twelve bytes of the memory.
header-header_bytes :
    (n : ℕ) (id : RecordId) (memory : List ℕ)
    → Write.header n id memory ≡ header_bytes n id ++ drop header_len memory
unfolding Write.header header_bytes
header-header_bytes n id memory =
    ap (λ t. header_bytes n id ++ t) (sym (drop-add 4 8 memory ∙ ap (drop 8) (drop-add 2 2 memory)))

-- The trailer behind a content `c`, whatever stood there before.
take-crc :
    (crc32c : List ℕ → ℕ) (n : ℕ) (c rest : List ℕ)
    → n ≡ length c + crc_len
    → take n (Write.crc crc32c n (c ++ rest)) ≡ c ++ to_le_bytes crc_len (crc32c c)
unfolding Write.crc
take-crc crc32c n c rest h =
    let k : n - crc_len ≡ length c = omega arith in
    let trailer = to_le_bytes crc_len (crc32c c) in
    let behind = drop (length c + length trailer) (c ++ rest) in
    rw (k, take-append (length c) c rest refl)
      (ap (take n) (sym (append_assoc c trailer behind))
        ∙ take-append n (c ++ trailer) behind (omega (arith, length-append c trailer)))

-- Over memory that holds `body` from byte 12 on, header and trailer complete the encoding.
pub write-encode :
    (crc32c : List ℕ → ℕ) (id : RecordId) (body rest memory : List ℕ)
    → drop header_len memory ≡ body ++ rest
    → take (length body + min_record_len) (
        Write.crc crc32c
          (length body + min_record_len)
          (Write.header (length body + min_record_len) id memory))
      ≡ encode crc32c id body
unfolding encode content
write-encode crc32c id body rest memory h =
    let n = length body + min_record_len in
    ap (λ m. take n (Write.crc crc32c n m))
      (header-header_bytes n id memory
        ∙ ap (λ t. header_bytes n id ++ t) h
        ∙ sym (append_assoc (header_bytes n id) body rest))
    ∙ take-crc crc32c n (header_bytes n id ++ body) rest
        (omega (arith, length-append (header_bytes n id) body, length-header_bytes n id))

module _ (crc32c : List ℕ → ℕ) (id : RecordId) (body : List ℕ) where
  Read-length-encode :
      length body ≤ max_payload_len
      → Read.length (encode crc32c id body) ≡ length body + min_record_len
  unfolding encode content header_bytes Read.length
  Read-length-encode h = omega arith

  Read-stream_id-encode : IsRecordId id → Read.stream_id (encode crc32c id body) ≡ id.stream_id
  unfolding encode content header_bytes Read.stream_id
  Read-stream_id-encode h = omega arith

  Read-sequence_number-encode :
      IsRecordId id → Read.sequence_number (encode crc32c id body) ≡ id.sequence_number
  unfolding encode content header_bytes Read.sequence_number
  Read-sequence_number-encode h = from_le_bytes-to_le_bytes 8 id.sequence_number (omega arith)

  content-encode :
      take (length (encode crc32c id body) - crc_len) (encode crc32c id body) ≡ content id body
  unfolding encode
  content-encode =
      take-append _ (content id body) _
        (omega (arith, length-encode crc32c id body, length-content id body))

  Read-crc-encode :
      crc32c (content id body) < 2 ^ 32
      → Read.crc (encode crc32c id body) ≡ crc32c (content id body)
  unfolding Read.crc encode
  Read-crc-encode h =
      rw
        (drop-append
          (length (content id body ++ to_le_bytes crc_len (crc32c (content id body))) - crc_len)
          (content id body) (to_le_bytes crc_len (crc32c (content id body)))
          (omega (arith, length-encode crc32c id body, length-content id body)))
        (from_le_bytes-to_le_bytes 4 (crc32c (content id body)) (omega arith))

  Read-compute_crc-encode :
      Read.compute_crc crc32c (encode crc32c id body) ≡ crc32c (content id body)
  unfolding Read.compute_crc
  Read-compute_crc-encode = ap crc32c content-encode

  -- The encoding of a valid id and a payload of at most 65,519 bytes, with a checksum of 32 bits, is a
  -- frame that a reader accepts.
  pub encode-IsFrame :
      IsRecordId id
      → length body ≤ max_payload_len
      → crc32c (content id body) < 2 ^ 32
      → IsFrame crc32c (encode crc32c id body)
  encode-IsFrame hid hb hc = record {
    least = omega (arith, length-encode crc32c id body);
    framed = omega (arith, length-encode crc32c id body, Read-length-encode hb);
    stream = omega (arith, Read-stream_id-encode hid, hid.stream);
    checksum = Read-crc-encode hc ∙ sym Read-compute_crc-encode;
  }

  -- The getters of the encoding of a valid id and a payload give back the id, the payload and the
  -- length of the whole.
  pub View-encode :
      IsRecordId id
      → (View.id (record { bytes = encode crc32c id body }) ≡ id)
        × (View.body (record { bytes = encode crc32c id body }) ≡ body)
        × (View.length (record { bytes = encode crc32c id body }) ≡ length body + min_record_len)
  unfolding View.id View.body View.length encode content header_bytes
  View-encode hid = (
    (λ i. record {
      stream_id = Read-stream_id-encode hid i;
      sequence_number = Read-sequence_number-encode hid i;
    }),
    take-append (length (encode crc32c id body) - crc_len - header_len) body
        (to_le_bytes crc_len (crc32c (content id body)))
        (omega (arith, length-encode crc32c id body)),
    length-encode crc32c id body,
  )
