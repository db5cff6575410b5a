-- ===== src/IndexValidator/Replacing.antt =====
-- The entries behind the trusted ones: written, flushed and synchronized.
use transaction_log.Common.{
  Bool, List, Outcome, [], ap, append-nil, append_assoc, ap₂, arith, continue, dropped, err, false,
  length, map_err, ok, panicked, refl, stuck, subst, sym, take, take-all, to_le_bytes, true, ℕ, ◌*◌,
  ◌++◌, ◌+◌, ◌∙◌, ◌∷◌, ◌≡◌, ◌≤◌,
}
use transaction_log.Io.Output.{Output}
use transaction_log.Io.WriteLoop.{write_loop, write_loop-keeps}
use transaction_log.Io.File.{ValidationFile, Parts, content, IsFile}
use transaction_log.IndexWriter.Writer
use transaction_log.IndexWriter.Writer.{
  index_entry_len, IndexWriter, IndexWriteError, settle, flush_buffer, flush,
}
use transaction_log.IndexWriter.Output.{IndexDone, flush_buffer-IndexDone, index-flush}
use transaction_log.Location.LogFilePosition.{LogFilePosition}
use transaction_log.IndexValidator.Validator.{
  IndexFileValidationError, write, write_ends, write_suffix,
}
use transaction_log.IndexValidator.Entries.{encode_ends, length-encode_ends}

pub write_ends-buffer :
    {F : Type 0} (ends : List LogFilePosition) (file : F) (buffer : List ℕ)
    → write_ends ends (record { file = file; buffer = buffer; usable = true })
      ≡ (ok tt, record { file = file; buffer = buffer ++ encode_ends ends; usable = true })
unfolding write_ends Writer.write
write_ends-buffer [] file buffer =
    ap (λ b. (ok tt, record { file = file; buffer = b; usable = true })) (sym (append-nil buffer))
write_ends-buffer (p ∷ ps) file buffer =
    write_ends-buffer ps file (buffer ++ to_le_bytes index_entry_len p)
    ∙ ap (λ b. (ok tt, record { file = file; buffer = b; usable = true }))
        (append_assoc buffer (to_le_bytes index_entry_len p) (encode_ends ps))

settle-file :
    {D : Type 0} (r : Outcome IndexWriteError (Unit {0})) (d : D) (buffer : List ℕ)
    (w : IndexWriter D)
    → (settle r d buffer w).1.file ≡ d
settle-file (ok u) d buffer w = refl
settle-file (err e) d buffer w = refl
settle-file dropped d buffer w = refl
settle-file panicked d buffer w = refl
settle-file stuck d buffer w = refl

pub flush-keeps :
    {D : Type 0} (o : Output D) (Q : D → Type 0)
    → ((d : D) → Q d → Q (o.flush d).1)
    → (file : D) (buffer : List ℕ) (usable : Bool) → Q file
    → Q (flush o (record { file = file; buffer = buffer; usable = usable })).1.file
unfolding flush
flush-keeps o Q flushes file buffer true q =
    subst Q (sym (settle-file (map_err Writer.io (o.flush file).0) (o.flush file).1 buffer _))
      (flushes file q)
flush-keeps o Q flushes file buffer false q = q

pub flush_buffer-keeps :
    {D : Type 0} (o : Output D) (Q : D → Type 0)
    → ((bytes : List ℕ) (d : D) → Q d → Q (o.write bytes d).1)
    → (fuel : ℕ) (file : D) (buffer : List ℕ) → Q file
    → Q (flush_buffer o fuel (record { file = file; buffer = buffer; usable = true })).1.file
unfolding flush_buffer
flush_buffer-keeps o Q writes fuel file [] q = q
flush_buffer-keeps o Q writes fuel file (b ∷ bs) q =
    subst Q
      (sym (
        settle-file (map_err Writer.io (write_loop o fuel (b ∷ bs) file).0)
          (write_loop o fuel (b ∷ bs) file).1 [] _))
      (write_loop-keeps o Q writes fuel (b ∷ bs) file q)

module _ {F : Type 0} (parts : Parts F) where
  -- Bytes are behind the front of a file, or a part of them where a call has failed.
  abbrev pub Adds : List ℕ → List ℕ → F → Outcome IndexFileValidationError (Unit {0}) → Type 0
  Adds front bytes after (ok u) = content parts after ≡ front ++ bytes
  Adds front bytes after (err (write (Writer.io e))) =
      (k : ℕ) × (content parts after ≡ front ++ take k bytes)
  Adds front bytes after (err e) = ⊥
  Adds front bytes after dropped = (k : ℕ) × (content parts after ≡ front ++ take k bytes)
  Adds front bytes after panicked = ⊥
  Adds front bytes after stuck = ⊥

  -- `flush` behind a `flush_buffer` that has come through.
  flush-Adds :
      (front bytes left : List ℕ) (stalls : F → ℕ) (w w' : IndexWriter F)
      (r : Outcome IndexWriteError (Unit {0}))
      → IndexDone parts.front stalls [] left w w' r
      → content parts w'.file ≡ front ++ bytes
      → Adds front bytes w'.file (map_err write r)
  flush-Adds front bytes left stalls w w' (ok u) h e = e
  flush-Adds front bytes left stalls w w' (err (Writer.io x)) h e =
      (length bytes, e ∙ ap (λ b. front ++ b) (sym (take-all (length bytes) bytes (omega arith))))
  flush-Adds front bytes left stalls w w' (err Writer.unusable) h e = absurd h
  flush-Adds front bytes left stalls w w' dropped h e =
      (length bytes, e ∙ ap (λ b. front ++ b) (sym (take-all (length bytes) bytes (omega arith))))
  flush-Adds front bytes left stalls w w' panicked h e = h
  flush-Adds front bytes left stalls w w' stuck h e = h

module _ {F : Type 0} {calls : ValidationFile F} {parts : Parts F} (laws : IsFile calls parts) where
  flush_buffer_then :
      (bytes : List ℕ) (w w' : IndexWriter F) (r : Outcome IndexWriteError (Unit {0}))
      → IndexDone parts.front parts.stalls bytes [] w w' r
      → parts.rest w'.file ≡ []
      → let x = continue r (λ u. flush calls.output) w' in
        Adds parts (parts.front w.file) bytes x.1.file (map_err write x.0)
  flush_buffer_then bytes w w' (ok u) (usable, empty, sent, stalls) end =
      flush-Adds parts (parts.front w.file) bytes w'.buffer parts.stalls w'
        (flush calls.output w').1 (flush calls.output w').0 (index-flush laws.writes w' usable).0
        (flush-keeps calls.output (λ d. content parts d ≡ parts.front w.file ++ bytes)
          (λ d q. laws.flush_keeps d ∙ q) w'.file w'.buffer w'.usable
          (ap₂ (λ a b. a ++ b) sent end ∙ append-nil (parts.front w.file ++ bytes)))
  flush_buffer_then bytes w w' (err (Writer.io e)) (u, b, (k, sent)) end =
      (k, ap₂ (λ a b. a ++ b) sent end ∙ append-nil (parts.front w.file ++ take k bytes))
  flush_buffer_then bytes w w' (err Writer.unusable) h end = absurd h
  flush_buffer_then bytes w w' dropped (u, b, (k, sent)) end =
      (k, ap₂ (λ a b. a ++ b) sent end ∙ append-nil (parts.front w.file ++ take k bytes))
  flush_buffer_then bytes w w' panicked h end = h
  flush_buffer_then bytes w w' stuck h end = h

  pub write_suffix-Adds :
      (fuel : ℕ) (ends : List LogFilePosition) (y : F)
      → parts.rest y ≡ []
      → length ends * index_entry_len + parts.stalls y ≤ fuel
      → let x = write_suffix calls fuel ends y in
        Adds parts (parts.front y) (encode_ends ends) x.1 x.0
  unfolding write_suffix
  write_suffix-Adds fuel ends y end enough =
      let w : IndexWriter F = record { file = y; buffer = encode_ends ends; usable = true } in
      let x = flush_buffer calls.output fuel w in
      rw (write_ends-buffer ends y []) (
        flush_buffer_then (encode_ends ends) w x.1 x.0
          (flush_buffer-IndexDone laws.writes fuel y (encode_ends ends)
            (omega (arith, length-encode_ends ends)))
          (flush_buffer-keeps calls.output (λ d. parts.rest d ≡ []) laws.writes_end fuel y
            (encode_ends ends) end))
