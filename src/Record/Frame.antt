-- ===== src/Record/Frame.antt =====
-- The encoded record described on its own: its fields one after the other, and what makes bytes one
-- valid frame. `crc32c` stands for the checksum crate's function.
use transaction_log.Common.{
  List, arith, length, length-append, refl, to_le_bytes, ℕ, ◌++◌, ◌+◌, ◌≡◌, ◌≤◌,
}
use transaction_log.Record.Protocol.{
  length_len, stream_id_len, sequence_number_len, crc_len, min_record_len,
}
use transaction_log.Record.Protocol.Read
use transaction_log.Record.StreamId.{IsStreamId}
use transaction_log.Record.RecordId.{RecordId}

unfoldable pub header_bytes : ℕ → RecordId → List ℕ
header_bytes record_len id =
    to_le_bytes length_len record_len
    ++ (to_le_bytes stream_id_len id.stream_id
        ++ to_le_bytes sequence_number_len id.sequence_number)

unfoldable pub content : RecordId → List ℕ → List ℕ
content id body = header_bytes (length body + min_record_len) id ++ body

module _ (crc32c : List ℕ → ℕ) where
  -- Header, body and trailer.
  unfoldable pub encode : RecordId → List ℕ → List ℕ
  encode id body = content id body ++ to_le_bytes crc_len (crc32c (content id body))

  -- What a reader accepts as one record.
  pub record IsFrame (frame : List ℕ) : Type 0 where
    pub least : min_record_len ≤ length frame
    pub framed : Read.length frame ≡ length frame
    pub stream : IsStreamId (Read.stream_id frame)
    pub checksum : Read.crc frame ≡ Read.compute_crc crc32c frame

pub length-header_bytes : (n : ℕ) (id : RecordId) → length (header_bytes n id) ≡ 12
unfolding header_bytes
length-header_bytes n id = refl

pub length-content : (id : RecordId) (body : List ℕ) → length (content id body) ≡ 12 + length body
unfolding content
length-content id body = omega (
  arith,
  length-append (header_bytes (length body + min_record_len) id) body,
  length-header_bytes (length body + min_record_len) id,
)

pub length-encode :
    (crc32c : List ℕ → ℕ) (id : RecordId) (body : List ℕ)
    → length (encode crc32c id body) ≡ length body + min_record_len
unfolding encode
length-encode crc32c id body = omega (
  arith,
  length-append (content id body) (to_le_bytes crc_len (crc32c (content id body))),
  length-content id body,
)
