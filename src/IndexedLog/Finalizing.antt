-- ===== src/IndexedLog/Finalizing.antt =====
-- `finalize` of an indexed log.
use transaction_log.Common.{
  ==→eq, ==→ne, Bool-cases, List, [], ap, ap₂, arith, err, if◌then◌else◌, inl, inr, length,
  length-append, not, ok, refl, some, suc, sym, true, zero, ℕ, ◌++◌, ◌+◌, ◌-◌, ◌==◌, ◌∙◌, ◌∷◌, ◌≡◌,
}
use transaction_log.Record.RecordId
use transaction_log.Record.View.{Record}
use transaction_log.Location.LogFileNumber.{records_per_file}
use transaction_log.Location.LogFileId.{LogFileId}
use transaction_log.IndexedLog.State
use transaction_log.IndexedLog.State.{opened}
use transaction_log.IndexedLog.Writer
use transaction_log.IndexedLog.Writer.{
  IndexedLogWriter, IndexedLogWriteError, not_full, not_synchronized, end_eq, finalize,
}
use transaction_log.IndexedLog.Invariant.{size_of, id_at, end_at, IsIndexed, size_of-append}
use transaction_log.IndexedLog.Flushing.{end_eq-end_at}

end_eq_refl : (f : LogFileId) (n p : ℕ) → end_eq (end_at f n p) (end_at f n p) ≡ true
unfolding end_eq RecordId.eq
end_eq_refl f zero p = refl
end_eq_refl f (suc n) p = ground arith

end_at-full :
    (f : LogFileId) (n p : ℕ)
    → n ≡ records_per_file
    → end_at f n p ≡ some (record { record_id = id_at f (records_per_file - 1); position = p })
end_at-full f zero p h = absurd (omega arith)
end_at-full f (suc n) p h = ground arith

-- As many synchronized records as there are, and so all of them.
all_durable :
    (durable rest waiting : List Record)
    → length durable ≡ length (durable ++ rest) + length waiting
    → size_of durable ≡ size_of (durable ++ rest) + size_of waiting
all_durable durable [] [] h = omega (arith, size_of-append durable [])
all_durable durable (r ∷ rest) waiting h = absurd (omega (arith, length-append durable (r ∷ rest)))
all_durable durable [] (r ∷ waiting) h = absurd (omega (arith, length-append durable []))

module _ {L I : Type 0} {log_bytes : L → List ℕ} {index_bytes : I → List ℕ}
    {durable done waiting : List Record} (w : IndexedLogWriter L I)
    (h : IsIndexed log_bytes index_bytes durable done waiting w) where
  same_ends :
      (n p : ℕ)
      → (length durable ≡ n → size_of durable ≡ p)
      → end_eq (end_at w.file_id (length durable) (size_of durable)) (end_at w.file_id n p)
        ≡ (length durable == n)
  same_ends n p same = elim (Bool-cases (length durable == n)) [
    | inl e ↦
        let k : length durable ≡ n = ==→eq (length durable) n e in
        (λ i. end_eq (end_at w.file_id (k i) (same k i)) (end_at w.file_id n p))
        ∙ end_eq_refl w.file_id n p
        ∙ sym e
    | inr e ↦
        elim (Bool-cases
          (end_eq (end_at w.file_id (length durable) (size_of durable)) (end_at w.file_id n p))) [
            | inl t ↦ absurd (
                ==→ne (length durable) n e
                  (end_eq-end_at w.file_id (length durable) n (size_of durable) p t))
            | inr f ↦ f ∙ sym e
          ]
  ]

  end_eq-durable :
      end_eq w.synced_end w.buffered_end ≡ (length durable == length done + length waiting)
  end_eq-durable =
      let n = length done + length waiting in
      ap₂ end_eq h.synced h.buffered
      ∙ same_ends n (size_of done + size_of waiting) (λ e.
        all_durable durable h.order.0 waiting (omega (arith, ap length h.order.1))
        ∙ omega (arith, ap size_of h.order.1))

  -- `finalize` on an open log never panics. It refuses a log with fewer than 100,000 records, then one
  -- whose records are not all synchronized, and leaves either as it is; else it gives the end of
  -- the last record and the log is finalized.
  pub finalize_lem : finalize w ≡ (
      let n = length done + length waiting in
      if not (n == records_per_file)
      then (err (not_full n), w)
      else if not (length durable == n)
      then (err not_synchronized, w)
      else (
        ok (record {
          record_id = id_at w.file_id (records_per_file - 1);
          position = size_of done + size_of waiting;
        }),
        record w { state = State.finalized },
      ))
  unfolding finalize Writer.check_open
  finalize_lem =
      let n = length done + length waiting in
      ground (
        arith,
        h.is_open,
        h.count,
        h.buffered,
        end_eq-durable,
        end_at-full w.file_id n (size_of done + size_of waiting),
      )
