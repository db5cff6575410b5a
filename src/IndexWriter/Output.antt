-- ===== src/IndexWriter/Output.antt =====
-- What reaches the index file, and which failures leave the index writer unusable.
use transaction_log.Common.{
  List, Outcome, [], append-nil, arith, dropped, err, false, length, map_err, ok, panicked, refl,
  stuck, subst, sym, take, true, ℕ, ◌++◌, ◌+◌, ◌∷◌, ◌≡◌, ◌≤◌,
}
use transaction_log.Io.Error.{IoError}
use transaction_log.Io.Output.{Output, IsOutput}
use transaction_log.Io.WriteLoop.{Written, Passed→Written, write_loop, write_loop-Written}
use transaction_log.IndexWriter.Writer
use transaction_log.IndexWriter.Writer.{IndexWriter, IndexWriteError, io, unusable, settle}

-- What one output call has done to a usable writer that holds `sent` for the destination and keeps
-- `left` behind. On success all of `sent` is out; on any other result a prefix of it is, and the
-- writer is no longer usable.
abbrev pub IndexDone :
    {D : Type 0} (accepted : D → List ℕ) (stalls : D → ℕ) (sent left : List ℕ)
    (before after : IndexWriter D)
    → Outcome IndexWriteError (Unit {0})
    → Type 0
IndexDone accepted stalls sent left before after (ok u) =
    (after.usable ≡ true)
    × (after.buffer ≡ left)
    × (accepted after.file ≡ accepted before.file ++ sent)
    × (stalls after.file ≤ stalls before.file)
IndexDone accepted stalls sent left before after (err (io e)) =
    (after.usable ≡ false)
    × (after.buffer ≡ before.buffer)
    × ((k : ℕ) × (accepted after.file ≡ accepted before.file ++ take k sent))
IndexDone accepted stalls sent left before after (err unusable) = ⊥
IndexDone accepted stalls sent left before after dropped =
    (after.usable ≡ false)
    × (after.buffer ≡ before.buffer)
    × ((k : ℕ) × (accepted after.file ≡ accepted before.file ++ take k sent))
IndexDone accepted stalls sent left before after panicked = ⊥
IndexDone accepted stalls sent left before after stuck = ⊥

module _ {D : Type 0} (accepted : D → List ℕ) (stalls : D → ℕ) where
  settle-Written :
      (r : Outcome IoError (Unit {0})) (sent left : List ℕ) (w : IndexWriter D) (d : D)
      → Written accepted stalls sent w.file d r
      → IndexDone accepted stalls sent left w (settle (map_err io r) d left w).1 (map_err io r)
  settle-Written (ok u) sent left w d (e, s) = (refl, refl, e, s)
  settle-Written (err x) sent left w d h = (refl, refl, h)
  settle-Written dropped sent left w d h = (refl, refl, h)
  settle-Written panicked sent left w d h = h
  settle-Written stuck sent left w d h = h

  settle-result :
      (r : Outcome IoError (Unit {0})) (left : List ℕ) (w : IndexWriter D) (d : D)
      → (settle (map_err io r) d left w).0 ≡ map_err io r
  settle-result (ok u) left w d = refl
  settle-result (err x) left w d = refl
  settle-result dropped left w d = refl
  settle-result panicked left w d = refl
  settle-result stuck left w d = refl

  settled :
      (r : Outcome IoError (Unit {0})) (sent left : List ℕ) (w : IndexWriter D) (d : D)
      → Written accepted stalls sent w.file d r
      → let result = settle (map_err io r) d left w in
        IndexDone accepted stalls sent left w result.1 result.0
  settled r sent left w d h =
      subst (λ x. IndexDone accepted stalls sent left w (settle (map_err io r) d left w).1 x)
        (sym (settle-result r left w d)) (settle-Written r sent left w d h)

-- A writer that may be used.
abbrev open_index : {F : Type 0} → F → List ℕ → IndexWriter F
open_index file buffer = record { file = file; buffer = buffer; usable = true }

open_index_same :
    {D : Type 0} (w : IndexWriter D) → w.usable ≡ true → open_index w.file w.buffer ≡ w
open_index_same w h i = record { file = w.file; buffer = w.buffer; usable = sym h i }

module _ {D : Type 0} {o : Output D} {accepted : D → List ℕ} {stalls : D → ℕ}
    (laws : IsOutput o accepted stalls) where
  -- `flush_buffer` on a usable writer, with fuel for each buffered byte and each interruption: it
  -- ends without a panic. On success the file has taken exactly the buffered bytes and the
  -- buffer is empty; where the file fails or the call is dropped, the file has taken
  -- a prefix of them, the buffer is kept, and the writer is unusable.
  pub flush_buffer-IndexDone :
      (fuel : ℕ) (d : D) (buffer : List ℕ)
      → length buffer + stalls d ≤ fuel
      → let result = Writer.flush_buffer o fuel (open_index d buffer) in
        IndexDone accepted stalls buffer [] (open_index d buffer) result.1 result.0
  unfolding Writer.flush_buffer
  flush_buffer-IndexDone fuel d [] h = (refl, refl, sym (append-nil (accepted d)), omega arith)
  flush_buffer-IndexDone fuel d (b ∷ bs) h =
      settled accepted stalls (write_loop o fuel (b ∷ bs) d).0 (b ∷ bs) [] (open_index d (b ∷ bs))
        (write_loop o fuel (b ∷ bs) d).1 (write_loop-Written laws fuel (b ∷ bs) d h)

  -- `flush` and `sync_data` on a usable writer hand over nothing and keep the buffer; the writer
  -- stays usable exactly on success.
  pub flush-IndexDone :
      (d : D) (buffer : List ℕ)
      → (let result = Writer.flush o (open_index d buffer) in
          IndexDone accepted stalls [] buffer (open_index d buffer) result.1 result.0)
        × (let result = Writer.sync_data o (open_index d buffer) in
            IndexDone accepted stalls [] buffer (open_index d buffer) result.1 result.0)
  unfolding Writer.flush Writer.sync_data
  flush-IndexDone d buffer =
      let w = open_index d buffer in
      (
        settled accepted stalls (o.flush d).0 [] buffer w (o.flush d).1
            (Passed→Written accepted stalls _ d _ (laws.flushed d)),
        settled accepted stalls (o.sync_data d).0 [] buffer w (o.sync_data d).1
            (Passed→Written accepted stalls _ d _ (laws.synced d)),
      )

module _ {D : Type 0} {o : Output D} {accepted : D → List ℕ} {stalls : D → ℕ}
    (laws : IsOutput o accepted stalls) (w : IndexWriter D) (h : w.usable ≡ true) where
  -- The same of any usable writer.
  pub index-flush_buffer :
      (fuel : ℕ)
      → length w.buffer + stalls w.file ≤ fuel
      → let result = Writer.flush_buffer o fuel w in
        IndexDone accepted stalls w.buffer [] w result.1 result.0
  index-flush_buffer fuel m =
      subst
        (λ x.
          IndexDone accepted stalls w.buffer [] x (Writer.flush_buffer o fuel x).1
            (Writer.flush_buffer o fuel x).0)
        (open_index_same w h) (flush_buffer-IndexDone laws fuel w.file w.buffer m)

  pub index-flush :
      (let result = Writer.flush o w in IndexDone accepted stalls [] w.buffer w result.1 result.0)
      × (let result = Writer.sync_data o w in
          IndexDone accepted stalls [] w.buffer w result.1 result.0)
  index-flush =
      subst
        (λ x.
          IndexDone accepted stalls [] w.buffer x (Writer.flush o x).1 (Writer.flush o x).0
          × IndexDone accepted stalls [] w.buffer x (Writer.sync_data o x).1
              (Writer.sync_data o x).0)
        (open_index_same w h) (flush-IndexDone laws w.file w.buffer)
