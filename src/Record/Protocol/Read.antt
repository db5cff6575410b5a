-- ===== src/Record/Protocol/Read.antt =====
-- record_protocol.rs, module `read`: fields of encoded bytes. `crc32c` is the checksum function of
-- the crate of that name.
use transaction_log.Common.{List, drop, from_le_bytes, take, ℕ, ◌-◌, length as list_length}
use transaction_log.Record.Protocol.{
  length_len, stream_id_len, sequence_number_len, length_offset, stream_id_offset,
  sequence_number_offset, header_len, crc_len,
}

-- `read_field::<width>(header, offset)`
abbrev read_field : ℕ → List ℕ → ℕ → List ℕ
read_field width header offset = take width (drop offset header)

unfoldable pub length : List ℕ → ℕ
length header = from_le_bytes (read_field length_len header length_offset)

unfoldable pub stream_id : List ℕ → ℕ
stream_id header = from_le_bytes (read_field stream_id_len header stream_id_offset)

unfoldable pub sequence_number : List ℕ → ℕ
sequence_number header =
    from_le_bytes (read_field sequence_number_len header sequence_number_offset)

-- The trailer of a frame that has one.
unfoldable pub crc : List ℕ → ℕ
crc frame = from_le_bytes (take crc_len (drop (list_length frame - crc_len) frame))

unfoldable pub compute_crc : (List ℕ → ℕ) → List ℕ → ℕ
compute_crc crc32c frame = crc32c (take (list_length frame - crc_len) frame)

-- The first `HEADER_LEN` bytes of a frame that has them.
unfoldable pub header_unchecked : List ℕ → List ℕ
header_unchecked frame = take header_len frame
