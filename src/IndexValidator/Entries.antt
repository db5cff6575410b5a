-- ===== src/IndexValidator/Entries.antt =====
-- The entries of an index file, and what they say of the trusted end.
use transaction_log.Common.{
  Bool-cases, List, Option, [], arith, drop, from_le_bytes, if◌then◌else◌, inl, inr, length,
  length-append, length-to_le_bytes, ltb, ltb→le, none, refl, some, take, to_le_bytes, ℕ, ◌*◌, ◌++◌,
  ◌+◌, ◌-◌, ◌<◌, ◌∷◌, ◌≡◌, ◌≤◌,
}
use transaction_log.IndexWriter.Writer.{index_entry_len}
use transaction_log.Location.LogFilePosition.{LogFilePosition}
use transaction_log.Location.LogFileId
use transaction_log.Location.Endpoints.{RecordEndLocation, count_of}

abbrev pub encode_ends : List LogFilePosition → List ℕ
encode_ends [] = []
encode_ends (p ∷ ps) = to_le_bytes index_entry_len p ++ encode_ends ps

-- The entry number `i`, where the file reaches so far.
abbrev pub entry_at : List ℕ → ℕ → Option LogFilePosition
entry_at bytes i =
    if ltb (length bytes) (i * index_entry_len + index_entry_len)
    then none
    else some (from_le_bytes (take index_entry_len (drop (i * index_entry_len) bytes)))

-- The entry of the last trusted record is that record's end.
abbrev pub Agrees : Option RecordEndLocation → List ℕ → Type 0
Agrees none bytes = Unit {0}
Agrees (some end) bytes = entry_at bytes (count_of (some end) - 1) ≡ some end.position

pub length-encode_ends :
    (ends : List LogFilePosition) → length (encode_ends ends) ≡ length ends * index_entry_len
length-encode_ends [] = refl
length-encode_ends (p ∷ ps) = omega (
  arith,
  length-append (to_le_bytes index_entry_len p) (encode_ends ps),
  length-to_le_bytes index_entry_len p,
  length-encode_ends ps,
)

entry_at-some :
    (bytes : List ℕ) (i p : ℕ)
    → entry_at bytes i ≡ some p
    → i * index_entry_len + index_entry_len ≤ length bytes
entry_at-some bytes i p e =
    elim (Bool-cases (ltb (length bytes) (i * index_entry_len + index_entry_len))) [
      | inl short ↦ ground arith
      | inr long ↦ ltb→le (length bytes) (i * index_entry_len + index_entry_len) long
    ]

pub entry_at-none :
    (bytes : List ℕ) (i : ℕ)
    → length bytes < i * index_entry_len + index_entry_len
    → entry_at bytes i ≡ none
entry_at-none bytes i h = ground arith

pub entry_at-there :
    (bytes : List ℕ) (i : ℕ)
    → i * index_entry_len + index_entry_len ≤ length bytes
    → entry_at bytes i
      ≡ some (from_le_bytes (take index_entry_len (drop (i * index_entry_len) bytes)))
entry_at-there bytes i h = ground arith

-- The file reaches behind the entries of the trusted records.
pub trusted-le :
    (t : Option RecordEndLocation) (bytes : List ℕ)
    → Agrees t bytes
    → count_of t * index_entry_len ≤ length bytes
unfolding LogFileId.record_count_through
trusted-le none bytes h = omega arith
trusted-le (some end) bytes h =
    omega (arith, entry_at-some bytes (count_of (some end) - 1) end.position h)
