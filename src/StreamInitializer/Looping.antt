-- ===== src/StreamInitializer/Looping.antt =====
-- The loop over the files ends with a plan.
use transaction_log.Common.{
  Answered, Bool-cases, Exec, List, Option, Outcome, ap, arith, dropped, err, if-either, inl, inr,
  ltb, ltb→le, ltb→lt, none, ok, panicked, refl, some, stuck, suc, zero, ℕ, ◌&&◌, ◌+◌, ◌∙◌, ◌≡◌,
  ◌≤◌,
}
use transaction_log.Io.Error.{IoError}
use transaction_log.Location.LogFileNumber.{IsLogFileNumber}
use transaction_log.Location.LogFileId
use transaction_log.Location.LogFileId.{LogFileId}
use transaction_log.Location.Endpoints.{RecordEndLocation, end_file}
use transaction_log.Location.Files.{run}
use transaction_log.PairValidator.Validator as Pair
use transaction_log.PairValidator.Validator.{
  IndexedLogValidationError, ValidatedFilePair, complete, partial,
}
use transaction_log.Storage.Paths.{FilePath, log_file_path}
use transaction_log.Storage.Provider.{StorageError, Provider}
use transaction_log.StreamInitializer.Initializer.{
  InitializationState, InitializationError, trusted_in, removed_after, path_eq, is_not_found,
  stop_at, missing_at, after_pair, validate_each,
}
use transaction_log.LogValidator.Validating.{IsTrusted}
use transaction_log.PairValidator.Placing.{PairEnds, validate-PairEnds}
use transaction_log.StreamInitializer.Faults.{Faults, PairFault}
use transaction_log.StreamInitializer.Walking.{
  at, EndIn, IsWalking, Plans, removed_after-last, removed_after-more, walked, completed, missing,
  stopped,
}

trusted_in-IsTrusted :
    (f : LogFileId) (t : Option RecordEndLocation) → IsTrusted t → IsTrusted (trusted_in f t)
trusted_in-IsTrusted f none h = tt
trusted_in-IsTrusted f (some end) h = if-either IsTrusted (LogFileId.eq (end_file end) f) h tt

module _ {W H : Type 0} (crc32c : List ℕ → ℕ) (provider : Provider W H) (reserve : ℕ → ℕ → ℕ → ℕ)
    (fuel : ℕ) (stream m : ℕ) (valid : IsLogFileNumber m)
    (checkpoint : Option RecordEndLocation) where
  abbrev Good : Outcome InitializationError (InitializationState H) × W → Type 0
  Good x =
      Plans (PairFault crc32c provider reserve fuel) stream (some (at stream m), checkpoint) x.0

  stop_at-Good :
      (n : ℕ) (end : Option RecordEndLocation) (l i : H) (s : InitializationState H) (w : W)
      → n ≤ m
      → EndIn (at stream n) end
      → IsWalking stream n m checkpoint s
      → Good (stop_at crc32c provider reserve fuel (at stream m) (at stream n) end l i s w)
  unfolding stop_at
  stop_at-Good n end l i s w le e h = elim (Bool-cases (ltb n m)) [
    | inl more ↦ rw (removed_after-more stream n m (ltb→lt n m more) valid) (
        stopped stream m valid checkpoint n end l i (some (at stream (n + 1))) s (omega arith) e
          (inr refl) h)
    | inr last ↦
        let same : n ≡ m = omega (arith, ltb→le n m last) in
        let none_left : removed_after (at stream n) (at stream m) ≡ ok none =
          ap (λ k. removed_after (at stream k) (at stream m)) same ∙ removed_after-last stream m in
        rw none_left (
          stopped stream m valid checkpoint n end l i none s (omega arith) e
            (inl (refl, omega arith)) h)
  ]

  missing_at-Good :
      (n : ℕ) (trusted : Option RecordEndLocation) (path : FilePath) (source : IoError)
      (s : InitializationState H) (w : W)
      → n ≤ m
      → trusted_in (at stream n) checkpoint ≡ trusted
      → IsWalking stream n m checkpoint s
      → Good (missing_at crc32c provider reserve fuel (at stream n) trusted path source s w)
  unfolding missing_at
  missing_at-Good n none path source s w le e h =
      if-either (λ (k : Exec W InitializationError (InitializationState H)). Good (k w))
        (is_not_found source && path_eq path (log_file_path provider.root (at stream n)))
        (missing stream m valid checkpoint n s le e h) tt
  missing_at-Good n (some end) path source s w le e h = tt

  after_pair-Good :
      (loop : InitializationState H → Exec W InitializationError (InitializationState H)) (n : ℕ)
      (s : InitializationState H) (r : Outcome IndexedLogValidationError (ValidatedFilePair H))
      (w : W)
      → n ≤ m
      → ((s' : InitializationState H) → IsWalking stream (n + 1) m checkpoint s' → Good (loop s' w))
      → Answered (PairEnds (at stream n)) r
      → (Faults r → PairFault crc32c provider reserve fuel)
      → IsWalking stream n m checkpoint s
      → Good (
          after_pair crc32c provider reserve fuel loop
            (at stream m)
            (at stream n)
            (trusted_in (at stream n) checkpoint)
            s
            r
            w)
  unfolding after_pair
  after_pair-Good loop n s (ok (complete end)) w le ih (e, lt) fault h =
      ih (record s { recovered_end = some end })
        (completed stream m valid checkpoint n end s e lt h)
  after_pair-Good loop n s (ok (partial none l i)) w le ih a fault h =
      stop_at-Good n none l i s w le tt h
  after_pair-Good loop n s (ok (partial (some end) l i)) w le ih a fault h =
      stop_at-Good n (some end) l i s w le a h
  after_pair-Good loop n s (err (Pair.storage (StorageError.io path source))) w le ih a fault h =
      missing_at-Good n (trusted_in (at stream n) checkpoint) path source s w le refl h
  after_pair-Good loop n s (err e) w le ih a fault h = tt
  after_pair-Good loop n s dropped w le ih a fault h = tt
  after_pair-Good loop n s panicked w le ih a fault h = fault tt
  after_pair-Good loop n s stuck w le ih a fault h = fault tt

  pub validate_each-Good :
      IsTrusted checkpoint
      → (k n : ℕ) (s : InitializationState H) (w : W) → n + k ≡ m + 1
      → IsWalking stream n m checkpoint s
      → Good
          (validate_each crc32c provider reserve fuel (at stream m) checkpoint (run stream n k) s w)
  unfolding validate_each run
  validate_each-Good trusted zero n s w e h = walked stream m valid checkpoint n s (omega arith) h
  validate_each-Good trusted (suc k) n s w e h =
      let t = trusted_in (at stream n) checkpoint in
      let x = Pair.validate crc32c provider reserve fuel (at stream n) t w in
      after_pair-Good
        (validate_each crc32c provider reserve fuel (at stream m) checkpoint (run stream (n + 1) k))
        n s x.0 x.1 (omega arith)
        (λ s' h'. validate_each-Good trusted k (n + 1) s' x.1 (omega arith) h')
        (validate-PairEnds crc32c provider reserve fuel (at stream n) t w (omega arith)
          (trusted_in-IsTrusted (at stream n) checkpoint trusted))
        (λ fault. (at stream n, t, w, fault)) h
