-- ===== src/Record/View.antt =====
-- record.rs and record_header.rs: the fields of a validated record, read from its bytes.
use transaction_log.Common.{List, drop, take, ℕ, ◌-◌, length as list_length}
use transaction_log.Record.Protocol.{header_len, crc_len}
use transaction_log.Record.Protocol.Read
use transaction_log.Record.StreamId.{StreamId}
use transaction_log.Record.RecordId.{RecordId, SequenceNumber}
use transaction_log.Record.RecordLength.{RecordLength}

-- `from_validated_bytes` is the constructor.
pub record Record : Type 0 where
  pub bytes : List ℕ

pub record RecordHeader : Type 0 where
  pub length : RecordLength
  pub id : RecordId

unfoldable pub length : Record → RecordLength
length r = list_length r.bytes

unfoldable pub stream_id : Record → StreamId
unfolding Read.stream_id Read.header_unchecked
stream_id r = Read.stream_id (Read.header_unchecked r.bytes)

unfoldable pub sequence_number : Record → SequenceNumber
unfolding Read.sequence_number Read.header_unchecked
sequence_number r = Read.sequence_number (Read.header_unchecked r.bytes)

unfoldable pub id : Record → RecordId
unfolding stream_id sequence_number
id r = record { stream_id = stream_id r; sequence_number = sequence_number r }

unfoldable pub get_header : Record → RecordHeader
unfolding length id
get_header r = record { length = length r; id = id r }

unfoldable pub crc : Record → ℕ
unfolding Read.crc
crc r = Read.crc r.bytes

-- `bytes[HEADER_LEN..len - CRC_LEN]`
unfoldable pub body : Record → List ℕ
body r = take (list_length r.bytes - crc_len - header_len) (drop header_len r.bytes)
