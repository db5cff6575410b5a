-- ===== src/StreamInitializer/Finishing.antt =====
-- The stages of `initialize` behind the loop over the files.
use transaction_log.Common.{
  Bool-cases, Exec, List, Option, Outcome, ap, arith, continue, dropped, err, false, inl, inr, lift,
  map_err, none, ok, panicked, pure, refl, some, stuck, subst, sym, ℕ, ◌+◌, ◌>>=◌, ◌∙◌, ◌≡◌, ◌⊎◌,
}
use transaction_log.Record.StreamId.{StreamId}
use transaction_log.Record.RecordId
use transaction_log.IndexedLog.Writer.{end_eq}
use transaction_log.Location.LogFileNumber.{IsLogFileNumber}
use transaction_log.Location.LogFileId.{LogFileId}
use transaction_log.Location.Endpoints.{RecordEndLocation}
use transaction_log.Storage.Provider.{StorageError, StreamCheckpoint, Provider}
use transaction_log.StreamInitializer.Initializer.{
  InitializedStream, InitializationState, InitializationError, storage, checkpoint_end, next_file,
  checkpoint_changes, remove_later_files, advance_checkpoint, prepare_active_pair, finish,
}
use transaction_log.StreamInitializer.Faults.{Faults, Fault, in_remove, in_write, in_create}
use transaction_log.StreamInitializer.Walking.{at, AtMost, EndIn, Removal, IsPlanned}
use transaction_log.StreamInitializer.Stages.{
  finish-some, prepare-active, prepare-create, advance-none, advance-same, advance-write,
  remove-none, remove-some,
}

option-cases : {A : Type 0} (o : Option A) → (o ≡ none) ⊎ ((a : A) × (o ≡ some a))
option-cases none = inl refl
option-cases (some a) = inr (a, refl)

-- The end that is stored is the one to be stored.
same_end :
    (c : Option StreamCheckpoint) (end : RecordEndLocation)
    → checkpoint_changes c end ≡ false
    → c ≡ some (record { end = end })
unfolding checkpoint_changes end_eq RecordId.eq
same_end none end e = ground arith
same_end (some c) end e = ground arith

module _ {W H : Type 0} (provider : Provider W H) (stream : StreamId) where
  -- The last file and the checkpoint are what the storage has answered.
  abbrev pub IsKnown : Option LogFileId × Option RecordEndLocation → Type 0
  IsKnown known =
      ((v : W) × ((provider.maximum_log_file stream v).0 ≡ ok known.0))
      × ((v : W) × (c : Option StreamCheckpoint) × ((provider.read_checkpoint stream v).0 ≡ ok c)
          × (checkpoint_end c ≡ known.1))

  -- No file is behind number `n`, or the storage has removed those from number `k` to the last one.
  abbrev pub Removes : (n k : ℕ) → InitializationState H → (before after : W) → Type 0
  Removes n k s before after =
      ((after ≡ before) × AtMost s.maximum_log_file n)
      ⊎ ((m : ℕ) × (s.maximum_log_file ≡ some (at stream m))
          × (provider.remove_log_and_index (at stream k) (at stream m) before ≡ (ok tt, after)))

  -- The recovered end, if there is one, is the checkpoint, or the storage has stored it.
  abbrev pub Stores : InitializationState H → (before after : W) → Type 0
  Stores s before after =
      ((s.recovered_end ≡ none) × (after ≡ before))
      ⊎ ((end : RecordEndLocation) × (s.recovered_end ≡ some end)
          × (((after ≡ before) × (s.checkpoint ≡ some (record { end = end })))
              ⊎ (provider.write_checkpoint (record { end = end }) before ≡ (ok tt, after))))

  -- How a pair came to be handed over: by a plan, of which the removal comes first, then the
  -- checkpoint, and then the creation of the pair if it is not open already.
  pub record Carried (pair : InitializedStream H) (after : W) : Type 0 where
    pub known : Option LogFileId × Option RecordEndLocation
    pub is_known : IsKnown known
    pub plan : InitializationState H
    pub planned : IsPlanned stream known plan
    pub validated : W
    pub cleaned : W
    pub stored : W
    pub stores : Stores plan cleaned stored
    pub last_steps :
        ((plan.active_pair ≡ some pair)
          × Removes pair.file_id.file_number (pair.file_id.file_number + 1) plan validated cleaned
          × (after ≡ stored))
        ⊎ ((plan.active_pair ≡ none)
            × Removes pair.file_id.file_number pair.file_id.file_number plan validated cleaned
            × (pair.end ≡ none)
            × (provider.create_log_and_index pair.file_id stored
                ≡ (ok (pair.log, pair.index), after)))

  -- What `initialize` may answer: a valid file of the stream, with an end in that file if it has any
  -- records, by such a plan. It panics only for the reason `Fault`.
  abbrev pub Initializes :
      (Fault : Type 0) (after : W) → Outcome InitializationError (InitializedStream H) → Type 0
  Initializes Fault after (ok pair) =
      (pair.file_id.stream_id ≡ stream)
      × IsLogFileNumber pair.file_id.file_number
      × EndIn pair.file_id pair.end
      × Carried pair after
  Initializes Fault after (err e) = Unit {0}
  Initializes Fault after dropped = Unit {0}
  Initializes Fault after panicked = Fault
  Initializes Fault after stuck = Fault

module _ {W H : Type 0} (provider : Provider W H) (X : Type 0) (stream : StreamId) where
  -- A call of the storage, the end of its stage, and the stages behind it.
  pub after_storage :
      {A : Type 0} (r : Outcome StorageError A) (y : W)
      (k : A → Exec W InitializationError (InitializationState H))
      (rest : InitializationState H → Exec W InitializationError (InitializedStream H))
      → (Faults r → X)
      → ((a : A)
          → r ≡ ok a
          → let x = continue (k a y).0 rest (k a y).1 in Initializes provider stream X x.1 x.0)
      → let x = continue (map_err storage r) k y in
        let z = continue x.0 rest x.1 in Initializes provider stream X z.1 z.0
  after_storage (ok a) y k rest fault h = h a refl
  after_storage (err e) y k rest fault h = tt
  after_storage dropped y k rest fault h = tt
  after_storage panicked y k rest fault h = fault tt
  after_storage stuck y k rest fault h = fault tt

module _ {W H : Type 0} (crc32c : List ℕ → ℕ) (provider : Provider W H) (reserve : ℕ → ℕ → ℕ → ℕ)
    (fuel : ℕ) (stream : StreamId) where
  abbrev Panic : Type 0
  Panic = Fault crc32c provider reserve fuel

  abbrev Post : Outcome InitializationError (InitializedStream H) × W → Type 0
  Post x = Initializes provider stream Panic x.1 x.0

  -- The rest of `initialize` behind each of its calls.
  abbrev Rest : Type 0
  Rest = InitializationState H → Exec W InitializationError (InitializedStream H)

  abbrev prepared : Rest
  prepared s = prepare_active_pair crc32c provider reserve fuel s >>= λ x. lift (finish x)

  abbrev advanced : Rest
  advanced s = advance_checkpoint crc32c provider reserve fuel s >>= prepared

  abbrev pub cleaned : Rest
  cleaned s = remove_later_files crc32c provider reserve fuel s >>= advanced

  advanced-Post :
      (s : InitializationState H) (w : W)
      → ((y : W) → Stores provider stream s w y → Post (prepared s y))
      → Post (advanced s w)
  advanced-Post s w next = elim (option-cases s.recovered_end) [
    | inl nothing ↦
        rw (advance-none crc32c provider reserve fuel s w nothing) (next w (inl (nothing, refl)))
    | inr (end, recovered) ↦ elim (Bool-cases (checkpoint_changes s.checkpoint end)) [
      | inl changes ↦
          let c : StreamCheckpoint = record { end = end } in
          let x = provider.write_checkpoint c w in
          rw (advance-write crc32c provider reserve fuel s w end recovered changes) (
            after_storage provider Panic stream x.0 x.1 (λ u. pure s) prepared (in_write c w)
              (λ u e. next x.1 (inr (end, recovered, inr (ap (λ r. (r, x.1)) e)))))
      | inr same ↦
          rw (advance-same crc32c provider reserve fuel s w end recovered same)
            (next w (inr (end, recovered, inl (refl, same_end s.checkpoint end same))))
    ]
  ]

  -- What is to be removed is removed, up to the last file that was found.
  Removal-Post :
      (s : InitializationState H) (w : W) (n k : ℕ)
      → Removal stream n k s
      → ((y : W) → Removes provider stream n k s w y → Post (advanced s y))
      → Post (cleaned s w)
  Removal-Post s w n k (inl (nothing, last)) next =
      rw (remove-none crc32c provider reserve fuel s w nothing) (next w (inl (refl, last)))
  Removal-Post s w n k (inr (m, first, maximum)) next =
      let x = provider.remove_log_and_index (at stream k) (at stream m) w in
      rw (remove-some crc32c provider reserve fuel s w (at stream k) (at stream m) first maximum) (
        after_storage provider Panic stream x.0 x.1 (λ u. pure s) advanced
          (in_remove (at stream k) (at stream m) w)
          (λ u e. next x.1 (inr (m, maximum, ap (λ r. (r, x.1)) e))))

  module _ (known : Option LogFileId × Option RecordEndLocation)
      (is_known : IsKnown provider stream known) (s : InitializationState H)
      (h : IsPlanned stream known s) (w x : W) where
    prepared-active :
        (pair : InitializedStream H) (y : W)
        → s.active_pair ≡ some pair
        → pair.file_id ≡ at stream h.number
        → EndIn pair.file_id pair.end
        → Removes provider stream h.number (h.number + 1) s w x
        → Stores provider stream s x y
        → Post (prepared s y)
    prepared-active pair y active file end removes stores =
        let number : pair.file_id.file_number ≡ h.number = ap (λ f. f.file_number) file in
        rw (prepare-active crc32c provider reserve fuel s y pair active, finish-some s pair active)
          (
            ap (λ f. f.stream_id) file,
            omega (arith, number, h.valid),
            end,
            record {
              known = known;
              is_known = is_known;
              plan = s;
              planned = h;
              validated = w;
              cleaned = x;
              stored = y;
              stores = stores;
              last_steps = inl (
                active,
                subst (λ n. Removes provider stream n (n + 1) s w x) (sym number) removes,
                refl,
              );
            },
          )

    prepared-created :
        (y : W)
        → s.active_pair ≡ none
        → next_file stream s.recovered_end ≡ some (at stream h.number)
        → Removes provider stream h.number h.number s w x
        → Stores provider stream s x y
        → Post (prepared s y)
    unfolding finish
    prepared-created y inactive following removes stores =
        let g = at stream h.number in
        let z = provider.create_log_and_index g y in
        rw
          (prepare-create crc32c provider reserve fuel s y g inactive
            (ap (λ a. next_file a s.recovered_end) h.stream_id ∙ following))
          (after_storage provider Panic stream z.0 z.1 _ (λ a. lift (finish a)) (in_create g y)
            (λ files e. (
              refl,
              h.valid,
              tt,
              record {
                known = known;
                is_known = is_known;
                plan = s;
                planned = h;
                validated = w;
                cleaned = x;
                stored = y;
                stores = stores;
                last_steps = inr (inactive, removes, refl, ap (λ r. (r, z.1)) e);
              },
            )))

  pub cleaned-Post :
      (known : Option LogFileId × Option RecordEndLocation)
      → IsKnown provider stream known
      → (s : InitializationState H) (w : W) → IsPlanned stream known s
      → Post (cleaned s w)
  cleaned-Post known is_known s w h = elim h.going_on [
    | inl (pair, active, file, end, ends, removal) ↦
        Removal-Post s w h.number (h.number + 1) removal (λ x removes.
          advanced-Post s x (λ y stores.
            prepared-active known is_known s h w x pair y active file end removes stores))
    | inr (inactive, following, removal) ↦ Removal-Post s w h.number h.number removal (λ x removes.
        advanced-Post s x
          (λ y stores. prepared-created known is_known s h w x y inactive following removes stores))
  ]
