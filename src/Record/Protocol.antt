-- ===== src/Record/Protocol.antt =====
-- record_protocol.rs: the encoded layout. Children: `Read` and `Write`, its two modules.
pub mod Read
pub mod Write
use transaction_log.Common.{ℕ, ◌+◌, ◌-◌, ◌^◌}

abbrev pub length_len : ℕ
length_len = 2

abbrev pub stream_id_len : ℕ
stream_id_len = 2

abbrev pub sequence_number_len : ℕ
sequence_number_len = 8

abbrev pub length_offset : ℕ
length_offset = 0

abbrev pub stream_id_offset : ℕ
stream_id_offset = length_offset + length_len

abbrev pub sequence_number_offset : ℕ
sequence_number_offset = stream_id_offset + stream_id_len

abbrev pub header_len : ℕ
header_len = sequence_number_offset + sequence_number_len

abbrev pub crc_len : ℕ
crc_len = 4

abbrev pub min_record_len : ℕ
min_record_len = header_len + crc_len

abbrev pub max_record_len : ℕ
max_record_len = 2 ^ 16 - 1

abbrev pub max_payload_len : ℕ
max_payload_len = max_record_len - min_record_len
