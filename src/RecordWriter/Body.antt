-- ===== src/RecordWriter/Body.antt =====
-- The closure `write_body` of `RecordWriter::write`. It sees the builder only through `io::Write`,
-- and may use each answer for what it does next.
use transaction_log.Common.{
  Bool, Exec, List, Outcome, err, false, leb, length, not, ok, true, ℕ, ◌&&◌, ◌++◌, ◌+◌,
}
use transaction_log.Io.Error.{IoError, invalid_input}
use transaction_log.Record.Protocol.{max_payload_len}
use transaction_log.RecordWriter.Builder
use transaction_log.RecordWriter.Builder.{RecordBuilder}

pub data Body (E : Type 0) : Type 0 where
  return : Outcome E (Unit {0}) → Body E
  write : List ℕ → (Outcome IoError ℕ → Body E) → Body E
  write_all : List ℕ → (Outcome IoError (Unit {0}) → Body E) → Body E
  flush : (Outcome IoError (Unit {0}) → Body E) → Body E

-- The run of a closure on a builder.
unfoldable pub run : {E : Type 0} → Body E → Exec RecordBuilder E (Unit {0})
run (return r) b = (r, b)
run (write bytes k) b = let (r, b') = Builder.write bytes b in run (k r) b'
run (write_all bytes k) b = let (r, b') = Builder.write_all bytes b in run (k r) b'
run (flush k) b = let (r, b') = Builder.flush b in run (k r) b'

-- What a closure asks for, with no memory in sight: its answer, the payload that was accepted, and
-- whether some write was refused for its size.
pub record Collected (E : Type 0) : Type 0 where
  pub answer : Outcome E (Unit {0})
  pub payload : List ℕ
  pub refused : Bool

-- A write is accepted if none was refused before and the payload stays within its bound.
abbrev pub accepts : List ℕ → Bool → List ℕ → Bool
accepts payload refused bytes = not refused && leb (length payload + length bytes) max_payload_len

unfoldable pub collect : {E : Type 0} → Body E → List ℕ → Bool → Collected E
collect (return r) payload refused = record { answer = r; payload = payload; refused = refused }
collect (write bytes k) payload refused = elim (accepts payload refused bytes) [
  | true ↦ collect (k (ok (length bytes))) (payload ++ bytes) refused
  | false ↦ collect (k (err invalid_input)) payload true
]
collect (write_all bytes k) payload refused = elim (accepts payload refused bytes) [
  | true ↦ collect (k (ok tt)) (payload ++ bytes) refused
  | false ↦ collect (k (err invalid_input)) payload true
]
collect (flush k) payload false = collect (k (ok tt)) payload false
collect (flush k) payload true = collect (k (err invalid_input)) payload true
