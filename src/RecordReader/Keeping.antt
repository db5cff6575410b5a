-- ===== src/RecordReader/Keeping.antt =====
-- What the reader does to its source, it does by reads alone.
use transaction_log.Common.{
  Bool, Exec, List, Outcome, [], arith, dropped, err, false, if◌then◌else◌, length, ltb, none, ok,
  panicked, some, stuck, subst, suc, sym, true, zero, ℕ, ◌++◌, ◌-◌, ◌∷◌, ◌≡◌,
}
use transaction_log.Io.Error.{IoError, interrupted, write_zero}
use transaction_log.Io.Source.{Source}
use transaction_log.Record.Protocol.{header_len}
use transaction_log.RecordReader.Reader.{
  RecordReadError, reader_failed, RecordReader, active, finished, failed, prepare_batch,
  take_record, try_read_next, after_read, receive, after_prepare, fill, wait_to_read,
}

module _ {S : Type 0} where
  pub try_read_next-source : (r : RecordReader S) → (try_read_next r).1.source ≡ r.source
  unfolding try_read_next take_record
  try_read_next-source r = ground arith

  prepare_batch-source :
      (crc32c : List ℕ → ℕ) (r : RecordReader S) → (prepare_batch crc32c r).1.source ≡ r.source
  unfolding prepare_batch
  prepare_batch-source crc32c r = ground arith

  after_end-source :
      (loop : Exec (RecordReader S) RecordReadError Bool) (r : RecordReader S)
      → (after_read loop (ok []) r).1.source ≡ r.source
  unfolding after_read
  after_end-source loop r = ground arith

module _ {S : Type 0} (crc32c : List ℕ → ℕ) (s : Source S) (reserve : ℕ → ℕ → ℕ → ℕ)
    (Q : S → Type 0) (reads : (room : ℕ) (x : S) → Q x → Q (s.read_buf room x).1) where
  abbrev Keeps : Exec (RecordReader S) RecordReadError Bool → Type 0
  Keeps loop = (x : RecordReader S) → Q x.source → Q (loop x).1.source

  after_read-Keeps :
      (loop : Exec (RecordReader S) RecordReadError Bool) (received : Outcome IoError (List ℕ))
      (r : RecordReader S)
      → Keeps loop
      → Q r.source
      → Q (after_read loop received r).1.source
  unfolding after_read
  after_read-Keeps loop (ok []) r ih q = subst Q (sym (after_end-source loop r)) q
  after_read-Keeps loop (ok (b ∷ bs)) r ih q = ih (record r { buffer = r.buffer ++ (b ∷ bs) }) q
  after_read-Keeps loop (err interrupted) r ih q = ih r q
  after_read-Keeps loop (err write_zero) r ih q = q
  after_read-Keeps loop (err e) r ih q = q
  after_read-Keeps loop dropped r ih q = q
  after_read-Keeps loop panicked r ih q = q
  after_read-Keeps loop stuck r ih q = q

  receive-Keeps :
      (loop : Exec (RecordReader S) RecordReadError Bool) (r : RecordReader S)
      → Keeps loop
      → Q r.source
      → Q (receive s reserve loop r).1.source
  unfolding receive
  receive-Keeps loop r ih q =
      let required : ℕ = elim r.pending_length [ some n ↦ n | none ↦ header_len ] in
      let capacity = reserve r.capacity (length r.buffer) (required - length r.buffer) in
      let x = s.read_buf (capacity - length r.buffer) r.source in
      elim (ltb required (length r.buffer))
        as (λ b.
          Q
            (if b
              then (panicked, r)
              else after_read loop x.0 (record r { capacity = capacity; source = x.1 })).1.source) [
                | true ↦ q
                | false ↦
                    after_read-Keeps loop x.0 (record r { capacity = capacity; source = x.1 }) ih
                      (reads (capacity - length r.buffer) r.source q)
              ]

  after_prepare-Keeps :
      (loop : Exec (RecordReader S) RecordReadError Bool) (prepared : Outcome RecordReadError Bool)
      (r : RecordReader S)
      → Keeps loop
      → Q r.source
      → Q (after_prepare crc32c s reserve loop prepared r).1.source
  unfolding after_prepare
  after_prepare-Keeps loop (ok true) r ih q = q
  after_prepare-Keeps loop (ok false) r ih q = receive-Keeps loop r ih q
  after_prepare-Keeps loop (err e) r ih q = q
  after_prepare-Keeps loop dropped r ih q = q
  after_prepare-Keeps loop panicked r ih q = q
  after_prepare-Keeps loop stuck r ih q = q

  fill-Keeps : (fuel : ℕ) → Keeps (fill crc32c s reserve fuel)
  unfolding fill
  fill-Keeps zero r q = q
  fill-Keeps (suc fuel) r q =
      let p = prepare_batch crc32c r in
      after_prepare-Keeps (fill crc32c s reserve fuel) p.0 p.1 (fill-Keeps fuel)
        (subst Q (sym (prepare_batch-source crc32c r)) q)

  -- What every read keeps, waiting keeps.
  pub wait_to_read-Keeps : (fuel : ℕ) → Keeps (wait_to_read crc32c s reserve fuel)
  unfolding wait_to_read
  wait_to_read-Keeps fuel r q =
      elim r.state
        as (λ x.
          Q
            (elim x as (λ y. Outcome RecordReadError Bool × RecordReader S) [
              | finished ↦ (ok false, r)
              | failed ↦ (err reader_failed, r)
              | active ↦ elim r.batch [ [] ↦ fill crc32c s reserve fuel r | b ∷ bs ↦ (ok true, r) ]
            ]).1.source) [
              | finished ↦ q
              | failed ↦ q
              | active ↦
                  elim r.batch
                    as (λ x.
                      Q
                        (elim x as (λ y. Outcome RecordReadError Bool × RecordReader S) [
                          | [] ↦ fill crc32c s reserve fuel r
                          | b ∷ bs ↦ (ok true, r)
                        ]).1.source) [ [] ↦ fill-Keeps fuel r q | b ∷ bs ↦ q ]
            ]
