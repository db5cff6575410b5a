-- ===== src/Record/StreamId.antt =====
-- stream_id.rs and stream_id_error.rs: the ids of the logical streams. The Rust type is a
-- transparent wrapper of a `u16`, so the model's type is the number.
use transaction_log.Common.{
  List, Outcome, [], err, if◌then◌else◌, ltb, ok, suc, zero, ℕ, ◌+◌, ◌-◌, ◌∷◌, ◌≤◌,
}

abbrev pub StreamId : Type 0
StreamId = ℕ

-- `StreamIdError`
pub record StreamIdError : Type 0 where
  pub value : ℕ

-- `COUNT`, `MIN` and `MAX`
abbrev pub count : ℕ
count = 4096

abbrev pub minimum : StreamId
minimum = 0

abbrev pub maximum : StreamId
maximum = count - 1

-- What `new` has established of an id.
abbrev pub IsStreamId : ℕ → Type 0
IsStreamId id = id ≤ maximum

unfoldable pub new : ℕ → Outcome StreamIdError StreamId
new value = if ltb maximum value then err (record { value = value }) else ok value

-- The inclusive range `first..=last`, given by its first id and the number of ids.
up_from : ℕ → ℕ → List StreamId
up_from zero first = []
up_from (suc n) first = first ∷ up_from n (first + 1)

-- `all`: the ids from `MIN` to `MAX`, in ascending order.
pub all : List StreamId
unfolding up_from
all = up_from (maximum + 1 - minimum) minimum
