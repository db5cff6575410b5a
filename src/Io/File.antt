-- ===== src/Io/File.antt =====
-- validation_file.rs: the calls on an open file that recovery needs.
use transaction_log.Common.{
  Exec, List, Outcome, [], drop, dropped, err, length, ok, panicked, stuck, take, ℕ, ◌++◌, ◌≡◌, ◌≤◌,
}
use transaction_log.Io.Error.{IoError}
use transaction_log.Io.Output.{Output, IsOutput}
use transaction_log.Io.Source.{Source, IsSource}

-- `AsyncRead`, `AsyncWrite` with `AsyncSyncData`, `AsyncSeek` from the start, the two calls of
-- `ValidationFile`, and `AsyncReadExt::read_exact`.
pub record ValidationFile (F : Type 0) : Type 0 where
  pub source : Source F
  pub output : Output F
  pub seek : ℕ → Exec F IoError (Unit {0})
  pub file_length : Exec F IoError ℕ
  pub set_len : ℕ → Exec F IoError (Unit {0})
  pub read_exact : ℕ → Exec F IoError (List ℕ)

-- A file is the bytes in front of its cursor and those behind it.
pub record Parts (F : Type 0) : Type 0 where
  pub front : F → List ℕ
  pub rest : F → List ℕ
  pub stalls : F → ℕ

abbrev pub content : {F : Type 0} → Parts F → F → List ℕ
content p f = p.front f ++ p.rest f

-- What one call has done, by its answer: on failure, the call may have done a part of it.
abbrev pub Sought :
    {F : Type 0} (p : Parts F) (position : ℕ) (before after : F)
    → Outcome IoError (Unit {0})
    → Type 0
Sought p position before after (ok u) =
    (p.front after ≡ take position (content p before))
    × (p.rest after ≡ drop position (content p before))
    × (p.stalls after ≤ p.stalls before)
Sought p position before after (err e) = content p after ≡ content p before
Sought p position before after dropped = content p after ≡ content p before
Sought p position before after panicked = ⊥
Sought p position before after stuck = ⊥

abbrev pub Measured : {F : Type 0} (p : Parts F) (before after : F) → Outcome IoError ℕ → Type 0
Measured p before after (ok n) =
    (n ≡ length (content p before))
    × (p.front after ≡ p.front before)
    × (p.rest after ≡ p.rest before)
    × (p.stalls after ≤ p.stalls before)
Measured p before after (err e) = content p after ≡ content p before
Measured p before after dropped = content p after ≡ content p before
Measured p before after panicked = ⊥
Measured p before after stuck = ⊥

abbrev pub Resized :
    {F : Type 0} (p : Parts F) (size : ℕ) (before after : F) → Outcome IoError (Unit {0}) → Type 0
Resized p size before after (ok u) =
    (content p after ≡ take size (content p before)) × (p.stalls after ≤ p.stalls before)
Resized p size before after (err e) = take size (content p after) ≡ take size (content p before)
Resized p size before after dropped = take size (content p after) ≡ take size (content p before)
Resized p size before after panicked = ⊥
Resized p size before after stuck = ⊥

abbrev pub Filled :
    {F : Type 0} (p : Parts F) (room : ℕ) (before after : F) → Outcome IoError (List ℕ) → Type 0
Filled p room before after (ok bytes) =
    (bytes ≡ take room (p.rest before))
    × (room ≤ length (p.rest before))
    × (p.stalls after ≤ p.stalls before)
    × (content p after ≡ content p before)
Filled p room before after (err e) = content p after ≡ content p before
Filled p room before after dropped = content p after ≡ content p before
Filled p room before after panicked = ⊥
Filled p room before after stuck = ⊥

-- The documented behaviour: reads and synchronization keep the content, a write replaces what it
-- covers and extends the file at its end, and a shorter
-- length cuts the tail off, of which a failed call may do a part.
pub record IsFile {F : Type 0} (f : ValidationFile F) (p : Parts F) : Type 0 where
  pub reads : IsSource f.source p.rest p.stalls
  pub reads_keep : (room : ℕ) (x : F) → content p (f.source.read_buf room x).1 ≡ content p x
  pub writes : IsOutput f.output p.front p.stalls
  pub writes_end : (bytes : List ℕ) (x : F) → p.rest x ≡ [] → p.rest (f.output.write bytes x).1 ≡ []
  pub flush_keeps : (x : F) → content p (f.output.flush x).1 ≡ content p x
  pub sync_keeps : (x : F) → content p (f.output.sync_data x).1 ≡ content p x
  pub sought :
      (position : ℕ) (x : F)
      → position ≤ length (content p x)
      → Sought p position x (f.seek position x).1 (f.seek position x).0
  pub measured : (x : F) → Measured p x (f.file_length x).1 (f.file_length x).0
  pub resized :
      (size : ℕ) (x : F)
      → size ≤ length (content p x)
      → Resized p size x (f.set_len size x).1 (f.set_len size x).0
  pub filled : (room : ℕ) (x : F) → Filled p room x (f.read_exact room x).1 (f.read_exact room x).0

-- What every call of a file keeps.
pub record KeptBy {F : Type 0} (f : ValidationFile F) (Q : F → Type 0) : Type 0 where
  pub read_buf : (room : ℕ) (x : F) → Q x → Q (f.source.read_buf room x).1
  pub write : (bytes : List ℕ) (x : F) → Q x → Q (f.output.write bytes x).1
  pub flush : (x : F) → Q x → Q (f.output.flush x).1
  pub sync_data : (x : F) → Q x → Q (f.output.sync_data x).1
  pub seek : (position : ℕ) (x : F) → Q x → Q (f.seek position x).1
  pub file_length : (x : F) → Q x → Q (f.file_length x).1
  pub set_len : (size : ℕ) (x : F) → Q x → Q (f.set_len size x).1
  pub read_exact : (room : ℕ) (x : F) → Q x → Q (f.read_exact room x).1
