-- ===== src/Io/Output.antt =====
-- `AsyncWrite` and `AsyncSyncData`: a destination of bytes.
use transaction_log.Common.{
  Exec, List, OnOk, Outcome, dropped, err, length, ok, panicked, stuck, take, ℕ, ◌++◌, ◌<◌, ◌≡◌,
  ◌≤◌,
}
use transaction_log.Io.Error.{IoError, interrupted}

-- One call each; `dropped` is a caller that gives up waiting for it.
pub record Output (D : Type 0) : Type 0 where
  pub write : List ℕ → Exec D IoError ℕ
  pub flush : Exec D IoError (Unit {0})
  pub sync_data : Exec D IoError (Unit {0})

-- What `before` has turned into by one `write` of `bytes`, given its result.
abbrev pub Wrote :
    {D : Type 0} (accepted : D → List ℕ) (stalls : D → ℕ) (bytes : List ℕ) (before after : D)
    → Outcome IoError ℕ
    → Type 0
Wrote accepted stalls bytes before after (ok n) =
    (n ≤ length bytes)
    × (accepted after ≡ accepted before ++ take n bytes)
    × (stalls after ≤ stalls before)
Wrote accepted stalls bytes before after (err interrupted) =
    (accepted after ≡ accepted before) × (stalls after < stalls before)
Wrote accepted stalls bytes before after (err e) = accepted after ≡ accepted before
Wrote accepted stalls bytes before after dropped = accepted after ≡ accepted before
Wrote accepted stalls bytes before after panicked = ⊥
Wrote accepted stalls bytes before after stuck = ⊥

-- A flush or a sync takes no bytes, and comes to an end.
abbrev pub Passed :
    {D : Type 0} (accepted : D → List ℕ) (stalls : D → ℕ) (before after : D)
    → Outcome IoError (Unit {0})
    → Type 0
Passed accepted stalls before after (ok u) =
    (accepted after ≡ accepted before) × (stalls after ≤ stalls before)
Passed accepted stalls before after (err e) = accepted after ≡ accepted before
Passed accepted stalls before after dropped = accepted after ≡ accepted before
Passed accepted stalls before after panicked = ⊥
Passed accepted stalls before after stuck = ⊥

-- The documented behaviour: a write takes a prefix of its bytes, and none where it fails or is
-- dropped. `accepted` is what the destination has taken so far, and `stalls` bounds how often a
-- write is still interrupted.
pub record IsOutput {D : Type 0} (o : Output D) (accepted : D → List ℕ) (stalls : D → ℕ)
    : Type 0 where
  pub wrote :
      (bytes : List ℕ) (d : D)
      → Wrote accepted stalls bytes d (o.write bytes d).1 (o.write bytes d).0
  pub flushed : (d : D) → Passed accepted stalls d (o.flush d).1 (o.flush d).0
  pub synced : (d : D) → Passed accepted stalls d (o.sync_data d).1 (o.sync_data d).0

-- What a flush or a sync that succeeds promises: the bytes taken so far have `reached` where they
-- are going, or are `durable` there. Each is what an observer of the destination sees.
pub record Completes {D : Type 0} (o : Output D) (accepted reached durable : D → List ℕ)
    : Type 0 where
  pub on_flush : (d : D) → OnOk (reached (o.flush d).1 ≡ accepted (o.flush d).1) (o.flush d).0
  pub on_sync :
      (d : D) → OnOk (durable (o.sync_data d).1 ≡ accepted (o.sync_data d).1) (o.sync_data d).0
