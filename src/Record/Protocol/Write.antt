-- ===== src/Record/Protocol/Write.antt =====
-- record_protocol.rs, module `write`: stores into the memory from a record's first byte on, which
-- may hold anything before.
use transaction_log.Common.{List, drop, length, take, to_le_bytes, ℕ, ◌++◌, ◌+◌, ◌-◌}
use transaction_log.Record.Protocol.{
  length_offset, stream_id_offset, sequence_number_offset, length_len, stream_id_len,
  sequence_number_len, crc_len,
}
use transaction_log.Record.RecordId.{RecordId}

-- A store of bytes at an offset, and no change elsewhere.
unfoldable pub store : ℕ → List ℕ → List ℕ → List ℕ
store offset bytes memory = take offset memory ++ (bytes ++ drop (offset + length bytes) memory)

unfoldable pub header : ℕ → RecordId → List ℕ → List ℕ
unfolding store
header record_len id memory =
    let memory₁ = store length_offset (to_le_bytes length_len record_len) memory in
    let memory₂ = store stream_id_offset (to_le_bytes stream_id_len id.stream_id) memory₁ in
    store sequence_number_offset (to_le_bytes sequence_number_len id.sequence_number) memory₂

unfoldable pub crc : (List ℕ → ℕ) → ℕ → List ℕ → List ℕ
unfolding store
crc crc32c record_len memory =
    let content_len = record_len - crc_len in
    let content = take content_len memory in
    store content_len (to_le_bytes crc_len (crc32c content)) memory
