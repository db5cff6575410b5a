-- ===== src/Examples/Files.antt =====
-- A file in memory that keeps the laws of `Io.File`.
use transaction_log.Common.{
  Bool-cases, List, Outcome, [], ap, append-nil, append_assoc, arith, drop, drop-nil, err,
  if◌then◌else◌, inl, inr, length, ltb, ltb→le, ok, refl, suc, sym, take, take-all,
  take-append-drop, zero, ℕ, ◌++◌, ◌∙◌, ◌∷◌, ◌≡◌,
}
use transaction_log.Io.Error.{IoError, unexpected_eof}
use transaction_log.Io.File.{ValidationFile, Parts, Filled, content, IsFile}
use transaction_log.Io.Source.{Took}

-- The bytes in front of the cursor and those behind it.
pub record Disk : Type 0 where
  pub front : List ℕ
  pub rest : List ℕ

abbrev pub disk_parts : Parts Disk
disk_parts = record { front = λ d. d.front; rest = λ d. d.rest; stalls = λ d. 0 }

-- A read gives one byte.
disk_read : List ℕ → List ℕ → ℕ → Outcome IoError (List ℕ) × Disk
disk_read front rest zero = (ok [], record { front = front; rest = rest })
disk_read front [] (suc room) = (ok [], record { front = front; rest = [] })
disk_read front (b ∷ bs) (suc room) = (ok (b ∷ []), record { front = front ++ (b ∷ []); rest = bs })

disk_fill : ℕ → List ℕ → List ℕ → Outcome IoError (List ℕ) × Disk
disk_fill n front rest =
    if ltb (length rest) n
    then (err unexpected_eof, record { front = front ++ rest; rest = [] })
    else (ok (take n rest), record { front = front ++ take n rest; rest = drop n rest })

unfoldable pub disk : ValidationFile Disk
unfolding disk_read disk_fill
disk = record {
  source = record { read_buf = λ room d. disk_read d.front d.rest room };
  output = record {
    write = λ bytes d.
        (ok (length bytes), record { front = d.front ++ bytes; rest = drop (length bytes) d.rest });
    flush = λ d. (ok tt, d);
    sync_data = λ d. (ok tt, d);
  };
  seek = λ n d.
      (ok tt, record { front = take n (d.front ++ d.rest); rest = drop n (d.front ++ d.rest) });
  file_length = λ d. (ok (length (d.front ++ d.rest)), d);
  read_exact = λ n d. disk_fill n d.front d.rest;
  set_len = λ n d. (ok tt, record { front = take n (d.front ++ d.rest); rest = [] });
}

disk-Took :
    (front rest : List ℕ) (room : ℕ)
    → Took
        (λ d. d.rest)
        (λ d. 0)
        room
        (record { front = front; rest = rest })
        (disk_read front rest room).1
        (disk_read front rest room).0
unfolding disk_read
disk-Took front rest zero = (inl refl, refl, omega arith)
disk-Took front [] (suc room) = (inr refl, refl, omega arith)
disk-Took front (b ∷ bs) (suc room) = (omega arith, refl, omega arith)

disk-keeps :
    (front rest : List ℕ) (room : ℕ)
    → content disk_parts (disk_read front rest room).1 ≡ front ++ rest
unfolding disk_read
disk-keeps front rest zero = refl
disk-keeps front [] (suc room) = refl
disk-keeps front (b ∷ bs) (suc room) = append_assoc front (b ∷ []) bs

disk-Filled :
    (n : ℕ) (front rest : List ℕ)
    → Filled disk_parts n
        (record { front = front; rest = rest })
        (disk_fill n front rest).1
        (disk_fill n front rest).0
unfolding disk_fill
disk-Filled n front rest = elim (Bool-cases (ltb (length rest) n)) [
  | inr all ↦ rw all (
    refl,
    ltb→le (length rest) n all,
    omega arith,
    append_assoc front (take n rest) (drop n rest) ∙ ap (λ x. front ++ x) (take-append-drop n rest),
  )
  | inl short ↦ rw short (append-nil (front ++ rest))
]

pub disk-IsFile : IsFile disk disk_parts
unfolding disk disk_read disk_fill
disk-IsFile = record {
  reads = record { took = λ room d. disk-Took d.front d.rest room };
  reads_keep = λ room d. disk-keeps d.front d.rest room;
  writes = record {
    wrote = λ bytes d. (
      omega arith,
      ap (λ x. d.front ++ x) (sym (take-all (length bytes) bytes (omega arith))),
      omega arith,
    );
    flushed = λ d. (refl, omega arith);
    synced = λ d. (refl, omega arith);
  };
  writes_end = λ bytes d e. ap (drop (length bytes)) e ∙ drop-nil (length bytes);
  flush_keeps = λ d. refl;
  sync_keeps = λ d. refl;
  sought = λ n d h. (refl, refl, omega arith);
  measured = λ d. (refl, refl, refl, omega arith);
  resized = λ n d h. (append-nil (take n (d.front ++ d.rest)), omega arith);
  filled = λ n d. disk-Filled n d.front d.rest;
}
