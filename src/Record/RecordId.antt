-- ===== src/Record/RecordId.antt =====
-- record_id.rs and sequence_number.rs: the stream and the number in it that identify a record.
use transaction_log.Common.{
  Bool, Option, arith, false, if◌then◌else◌, ltb, none, some, true, ℕ, ◌&&◌, ◌+◌, ◌-◌, ◌<◌, ◌==◌,
  ◌^◌, ◌≡◌,
}
use transaction_log.Record.StreamId.{StreamId, IsStreamId}

-- A transparent wrapper of a `u64`.
abbrev pub SequenceNumber : Type 0
SequenceNumber = ℕ

-- `u64::MAX`, the largest sequence number
abbrev pub u64_max : ℕ
u64_max = 2 ^ 64 - 1

pub record RecordId : Type 0 where
  pub stream_id : StreamId
  pub sequence_number : SequenceNumber

-- The types of the two fields as ranges.
pub record IsRecordId (id : RecordId) : Type 0 where
  pub stream : IsStreamId id.stream_id
  pub sequence : id.sequence_number < 2 ^ 64

-- The derived `PartialEq`.
unfoldable pub eq : RecordId → RecordId → Bool
eq a b = a.stream_id == b.stream_id && a.sequence_number == b.sequence_number

-- `next`; `none` is the panic "record sequence number overflow".
unfoldable pub next : RecordId → Option RecordId
next id =
    if ltb id.sequence_number u64_max
    then some (record id { sequence_number = id.sequence_number + 1 })
    else none

pub eq→≡ : (a b : RecordId) → eq a b ≡ true → a ≡ b
unfolding eq
eq→≡ a b h = ground arith

pub eq_refl : (a : RecordId) → eq a a ≡ true
unfolding eq
eq_refl a = ground arith

pub eq-false : (a b : RecordId) → a.sequence_number < b.sequence_number → eq a b ≡ false
unfolding eq
eq-false a b h = ground arith

pub next-some :
    (a b : RecordId)
    → next a ≡ some b
    → (b.stream_id ≡ a.stream_id) × (b.sequence_number ≡ a.sequence_number + 1)
unfolding next
next-some a b h = ground arith
