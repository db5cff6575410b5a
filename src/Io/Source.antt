-- ===== src/Io/Source.antt =====
-- `AsyncRead`: a source of bytes.
use transaction_log.Common.{
  Exec, List, Outcome, [], dropped, err, length, ok, panicked, stuck, ℕ, ◌++◌, ◌<◌, ◌∷◌, ◌≡◌, ◌≤◌,
  ◌⊎◌,
}
use transaction_log.Io.Error.{IoError, interrupted}

-- `read_buf` with room for at most the given number of bytes.
pub record Source (S : Type 0) : Type 0 where
  pub read_buf : ℕ → Exec S IoError (List ℕ)

-- What one read does: `pending` is what the source still holds.
abbrev pub Took :
    {S : Type 0} (pending : S → List ℕ) (stalls : S → ℕ) (room : ℕ) (before after : S)
    → Outcome IoError (List ℕ)
    → Type 0
Took pending stalls room before after (ok []) =
    ((room ≡ 0) ⊎ (pending before ≡ []))
    × (pending after ≡ pending before)
    × (stalls after ≤ stalls before)
Took pending stalls room before after (ok (b ∷ bs)) =
    (length (b ∷ bs) ≤ room)
    × (pending before ≡ (b ∷ bs) ++ pending after)
    × (stalls after ≤ stalls before)
Took pending stalls room before after (err interrupted) =
    (pending after ≡ pending before) × (stalls after < stalls before)
Took pending stalls room before after (err e) =
    (pending after ≡ pending before) × (stalls after ≤ stalls before)
Took pending stalls room before after dropped =
    (pending after ≡ pending before) × (stalls after ≤ stalls before)
Took pending stalls room before after panicked = ⊥
Took pending stalls room before after stuck = ⊥

-- The documented behaviour of a read: it hands over the next bytes, none only at the end or into no
-- room, and takes none where it fails or is dropped.
pub record IsSource {S : Type 0} (s : Source S) (pending : S → List ℕ) (stalls : S → ℕ)
    : Type 0 where
  pub took :
      (room : ℕ) (x : S) → Took pending stalls room x (s.read_buf room x).1 (s.read_buf room x).0
