-- ===== src/Examples/Devices.antt =====
-- Small destinations and sources that keep the laws of `Io`, a checksum, and a record.
use transaction_log.Common.{
  Bool, List, OnOk, Outcome, [], ap, arith, err, false, inl, inr, length, min, ok, refl, suc, sym,
  take, take-all, true, zero, ℕ, ◌%◌, ◌++◌, ◌+◌, ◌<◌, ◌^◌, ◌∷◌, ◌≡◌, ◌≤◌,
}
use transaction_log.Io.Error.{IoError, interrupted, other}
use transaction_log.Io.Output.{Output, IsOutput, Completes, Wrote, Passed}
use transaction_log.Io.Source.{Source, IsSource, Took}
use transaction_log.Record.RecordId.{RecordId}

-- A destination that is interrupted `stall` times and then takes three bytes at a time.
pub record Sink : Type 0 where
  pub taken : List ℕ
  pub stall : ℕ

sink_write : List ℕ → ℕ → List ℕ → Outcome IoError ℕ × Sink
sink_write taken (suc n) bytes = (err interrupted, record { taken = taken; stall = n })
sink_write taken zero bytes = (
  ok (min 3 (length bytes)),
  record { taken = taken ++ take (min 3 (length bytes)) bytes; stall = 0 },
)

abbrev pub sink : Output Sink
unfolding sink_write
sink = record {
  write = λ bytes d. sink_write d.taken d.stall bytes;
  flush = λ d. (ok tt, d);
  sync_data = λ d. (ok tt, d);
}

sink-Wrote :
    (taken : List ℕ) (stall : ℕ) (bytes : List ℕ)
    → Wrote
        (λ d. d.taken)
        (λ d. d.stall)
        bytes
        (record { taken = taken; stall = stall })
        (sink_write taken stall bytes).1
        (sink_write taken stall bytes).0
unfolding sink_write
sink-Wrote taken zero bytes = (omega arith, refl, omega arith)
sink-Wrote taken (suc n) bytes = (refl, omega arith)

pub sink-IsOutput : IsOutput sink (λ d. d.taken) (λ d. d.stall)
unfolding sink sink_write
sink-IsOutput = record {
  wrote = λ bytes d. sink-Wrote d.taken d.stall bytes;
  flushed = λ d. (refl, omega arith);
  synced = λ d. (refl, omega arith);
}

-- A destination in memory that remembers what has been flushed and what has been synchronized; its
-- synchronizations fail where it is `broken`.
pub record Tracked : Type 0 where
  pub held : List ℕ
  pub flushed : List ℕ
  pub synced : List ℕ
  pub broken : Bool

unfoldable pub tracked_sync : List ℕ → List ℕ → List ℕ → Bool → Outcome IoError (Unit {0}) × Tracked
tracked_sync held flushed synced true =
    (err other, record { held = held; flushed = flushed; synced = synced; broken = true })
tracked_sync held flushed synced false =
    (ok tt, record { held = held; flushed = flushed; synced = held; broken = false })

unfoldable pub tracked : Output Tracked
unfolding tracked_sync
tracked = record {
  write = λ bytes d. (ok (length bytes), record d { held = d.held ++ bytes });
  flush = λ d. (ok tt, record d { flushed = d.held });
  sync_data = λ d. tracked_sync d.held d.flushed d.synced d.broken;
}

tracked-Passed :
    (h f s : List ℕ) (b : Bool)
    → Passed
        (λ d. d.held)
        (λ d. 0)
        (record { held = h; flushed = f; synced = s; broken = b })
        (tracked_sync h f s b).1
        (tracked_sync h f s b).0
unfolding tracked_sync
tracked-Passed h f s true = refl
tracked-Passed h f s false = (refl, omega arith)

tracked-OnOk :
    (h f s : List ℕ) (b : Bool)
    → let result = tracked_sync h f s b in OnOk (result.1.synced ≡ result.1.held) result.0
unfolding tracked_sync
tracked-OnOk h f s true = tt
tracked-OnOk h f s false = refl

pub tracked-IsOutput : IsOutput tracked (λ d. d.held) (λ d. 0)
unfolding tracked tracked_sync
tracked-IsOutput = record {
  wrote = λ bytes d. (
    omega arith,
    ap (λ x. d.held ++ x) (sym (take-all (length bytes) bytes (omega arith))),
    omega arith,
  );
  flushed = λ d. (refl, omega arith);
  synced = λ d. tracked-Passed d.held d.flushed d.synced d.broken;
}

pub tracked-Completes : Completes tracked (λ d. d.held) (λ d. d.flushed) (λ d. d.synced)
unfolding tracked tracked_sync
tracked-Completes = record {
  on_flush = λ d. refl;
  on_sync = λ d. tracked-OnOk d.held d.flushed d.synced d.broken;
}

-- A source that is interrupted `stall` times and then gives one byte at a time.
pub record Feed : Type 0 where
  pub data_left : List ℕ
  pub stall : ℕ

feed_read : List ℕ → ℕ → ℕ → Outcome IoError (List ℕ) × Feed
feed_read left (suc n) room = (err interrupted, record { data_left = left; stall = n })
feed_read left zero zero = (ok [], record { data_left = left; stall = 0 })
feed_read [] zero (suc room) = (ok [], record { data_left = []; stall = 0 })
feed_read (b ∷ bs) zero (suc room) = (ok (b ∷ []), record { data_left = bs; stall = 0 })

abbrev pub feed : Source Feed
unfolding feed_read
feed = record { read_buf = λ room f. feed_read f.data_left f.stall room }

feed-Took :
    (left : List ℕ) (stall room : ℕ)
    → Took
        (λ f. f.data_left)
        (λ f. f.stall)
        room
        (record { data_left = left; stall = stall })
        (feed_read left stall room).1
        (feed_read left stall room).0
unfolding feed_read
feed-Took left (suc n) room = (refl, omega arith)
feed-Took left zero zero = (inl refl, refl, omega arith)
feed-Took [] zero (suc room) = (inr refl, refl, omega arith)
feed-Took (b ∷ bs) zero (suc room) = (omega arith, refl, omega arith)

pub feed-IsSource : IsSource feed (λ f. f.data_left) (λ f. f.stall)
unfolding feed feed_read
feed-IsSource = record { took = λ room f. feed-Took f.data_left f.stall room }

-- A stand-in for the checksum: the sum of the bytes.
abbrev pub total : List ℕ → ℕ
total [] = 0
total (b ∷ bs) = b + total bs

abbrev pub checksum : List ℕ → ℕ
checksum bytes = total bytes % 2 ^ 32

pub checksum-lt : (bytes : List ℕ) → checksum bytes < 2 ^ 32
checksum-lt bytes = omega arith

abbrev pub sample_id : RecordId
sample_id = record { stream_id = 42; sequence_number = 7 }

-- Reserved memory with some garbage in it.
zeros : ℕ → List ℕ
zeros zero = []
zeros (suc n) = 0xaa ∷ zeros n

length-zeros : (n : ℕ) → length (zeros n) ≡ n
unfolding zeros
length-zeros zero = refl
length-zeros (suc n) = ap suc (length-zeros n)

pub reserved_memory : List ℕ → List ℕ
unfolding zeros
reserved_memory buffer = zeros 65535

pub length-reserved_memory : (buffer : List ℕ) → 65535 ≤ length (reserved_memory buffer)
unfolding reserved_memory
length-reserved_memory buffer = omega (arith, length-zeros 65535)

abbrev pub room_for : ℕ → ℕ → ℕ → ℕ
room_for capacity len additional = capacity + len + additional

pub room_for-le :
    (capacity len additional : ℕ) → len + additional ≤ room_for capacity len additional
room_for-le capacity len additional = omega arith
