-- ===== src/Record.antt =====
-- The record library: identities, lengths, the encoded layout and the view of a validated record
-- (services/transaction-log-exports/src/record).
pub mod StreamId
pub mod RecordId
pub mod RecordLength
pub mod Protocol
pub mod Frame
pub mod View
pub mod Codec
pub mod Canonical
