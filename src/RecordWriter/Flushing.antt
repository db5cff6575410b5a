-- ===== src/RecordWriter/Flushing.antt =====
-- `flush_buffer`, `flush` and `sync_data`: what reaches the destination, and which failures leave
-- the writer unusable.
use transaction_log.Common.{
  List, Outcome, [], append-nil, arith, dropped, err, false, length, map_err, ok, panicked, refl,
  stuck, subst, sym, take, true, ℕ, ◌++◌, ◌+◌, ◌∷◌, ◌≡◌, ◌≤◌,
}
use transaction_log.Io.Error.{IoError}
use transaction_log.Io.Output.{Output, IsOutput}
use transaction_log.Io.WriteLoop.{Written, Passed→Written, write_loop, write_loop-Written}
use transaction_log.RecordWriter.Writer
use transaction_log.RecordWriter.Writer.{RecordWriter, RecordOutputError, io, unusable, settle}

-- What one output call has done to a usable writer that holds `sent` for the destination and keeps
-- `left` behind. On success all of `sent` is out; on any other result a prefix of it is, and the
-- writer is no longer usable.
abbrev pub OutputDone :
    {D : Type 0} (accepted : D → List ℕ) (stalls : D → ℕ) (sent left : List ℕ)
    (before after : RecordWriter D)
    → Outcome RecordOutputError (Unit {0})
    → Type 0
OutputDone accepted stalls sent left before after (ok u) =
    (after.usable ≡ true)
    × (after.buffer ≡ left)
    × (accepted after.destination ≡ accepted before.destination ++ sent)
    × (stalls after.destination ≤ stalls before.destination)
OutputDone accepted stalls sent left before after (err (io e)) =
    (after.usable ≡ false)
    × (after.buffer ≡ before.buffer)
    × ((k : ℕ) × (accepted after.destination ≡ accepted before.destination ++ take k sent))
OutputDone accepted stalls sent left before after (err unusable) = ⊥
OutputDone accepted stalls sent left before after dropped =
    (after.usable ≡ false)
    × (after.buffer ≡ before.buffer)
    × ((k : ℕ) × (accepted after.destination ≡ accepted before.destination ++ take k sent))
OutputDone accepted stalls sent left before after panicked = ⊥
OutputDone accepted stalls sent left before after stuck = ⊥

module _ {D : Type 0} (accepted : D → List ℕ) (stalls : D → ℕ) where
  settle-Written :
      (r : Outcome IoError (Unit {0})) (sent left : List ℕ) (w : RecordWriter D) (d : D)
      → Written accepted stalls sent w.destination d r
      → OutputDone accepted stalls sent left w (settle (map_err io r) d left w).1 (map_err io r)
  settle-Written (ok u) sent left w d (e, s) = (refl, refl, e, s)
  settle-Written (err x) sent left w d h = (refl, refl, h)
  settle-Written dropped sent left w d h = (refl, refl, h)
  settle-Written panicked sent left w d h = h
  settle-Written stuck sent left w d h = h

  settle-result :
      (r : Outcome IoError (Unit {0})) (left : List ℕ) (w : RecordWriter D) (d : D)
      → (settle (map_err io r) d left w).0 ≡ map_err io r
  settle-result (ok u) left w d = refl
  settle-result (err x) left w d = refl
  settle-result dropped left w d = refl
  settle-result panicked left w d = refl
  settle-result stuck left w d = refl

  settled :
      (r : Outcome IoError (Unit {0})) (sent left : List ℕ) (w : RecordWriter D) (d : D)
      → Written accepted stalls sent w.destination d r
      → let result = settle (map_err io r) d left w in
        OutputDone accepted stalls sent left w result.1 result.0
  settled r sent left w d h =
      subst (λ x. OutputDone accepted stalls sent left w (settle (map_err io r) d left w).1 x)
        (sym (settle-result r left w d)) (settle-Written r sent left w d h)

open_writer_same :
    {D : Type 0} (w : RecordWriter D)
    → w.usable ≡ true
    → Writer.open_writer w.destination w.buffer ≡ w
open_writer_same w h i = record { destination = w.destination; buffer = w.buffer; usable = sym h i }

module _ {D : Type 0} {o : Output D} {accepted : D → List ℕ} {stalls : D → ℕ}
    (laws : IsOutput o accepted stalls) where
  -- `flush_buffer` on a usable writer, with fuel for each buffered byte and each interruption: it
  -- ends without a panic. On success the destination has taken exactly the buffered bytes and the
  -- buffer is empty; where the destination fails or the call is dropped, the destination has taken
  -- a prefix of them, the buffer is kept, and the writer is unusable.
  pub flush_buffer-OutputDone :
      (fuel : ℕ) (d : D) (buffer : List ℕ)
      → length buffer + stalls d ≤ fuel
      → let result = Writer.flush_buffer o fuel (Writer.open_writer d buffer) in
        OutputDone accepted stalls buffer [] (Writer.open_writer d buffer) result.1 result.0
  unfolding Writer.flush_buffer
  flush_buffer-OutputDone fuel d [] h = (refl, refl, sym (append-nil (accepted d)), omega arith)
  flush_buffer-OutputDone fuel d (b ∷ bs) h =
      settled accepted stalls (write_loop o fuel (b ∷ bs) d).0 (b ∷ bs) []
        (Writer.open_writer d (b ∷ bs)) (write_loop o fuel (b ∷ bs) d).1
        (write_loop-Written laws fuel (b ∷ bs) d h)

  flush-Kept :
      (d : D) (buffer : List ℕ)
      → (let result = Writer.flush o (Writer.open_writer d buffer) in
          OutputDone accepted stalls [] buffer (Writer.open_writer d buffer) result.1 result.0)
        × (let result = Writer.sync_data o (Writer.open_writer d buffer) in
            OutputDone accepted stalls [] buffer (Writer.open_writer d buffer) result.1 result.0)
  unfolding Writer.flush Writer.sync_data
  flush-Kept d buffer =
      let w = Writer.open_writer d buffer in
      (
        settled accepted stalls (o.flush d).0 [] buffer w (o.flush d).1
            (Passed→Written accepted stalls _ d _ (laws.flushed d)),
        settled accepted stalls (o.sync_data d).0 [] buffer w (o.sync_data d).1
            (Passed→Written accepted stalls _ d _ (laws.synced d)),
      )

module _ {D : Type 0} {o : Output D} {accepted : D → List ℕ} {stalls : D → ℕ}
    (laws : IsOutput o accepted stalls) (w : RecordWriter D) (h : w.usable ≡ true) where
  -- The same of any usable writer.
  pub usable-flush_buffer :
      (fuel : ℕ)
      → length w.buffer + stalls w.destination ≤ fuel
      → let result = Writer.flush_buffer o fuel w in
        OutputDone accepted stalls w.buffer [] w result.1 result.0
  usable-flush_buffer fuel m =
      subst
        (λ x.
          OutputDone accepted stalls w.buffer [] x (Writer.flush_buffer o fuel x).1
            (Writer.flush_buffer o fuel x).0)
        (open_writer_same w h) (flush_buffer-OutputDone laws fuel w.destination w.buffer m)

  pub usable-flush :
      (let result = Writer.flush o w in OutputDone accepted stalls [] w.buffer w result.1 result.0)
      × (let result = Writer.sync_data o w in
          OutputDone accepted stalls [] w.buffer w result.1 result.0)
  usable-flush =
      subst
        (λ x.
          OutputDone accepted stalls [] w.buffer x (Writer.flush o x).1 (Writer.flush o x).0
          × OutputDone accepted stalls [] w.buffer x (Writer.sync_data o x).1
              (Writer.sync_data o x).0)
        (open_writer_same w h) (flush-Kept laws w.destination w.buffer)
