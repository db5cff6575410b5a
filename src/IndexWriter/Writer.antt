-- ===== src/IndexWriter/Writer.antt =====
-- index_writer.rs and index_write_error.rs: index entries are collected in a buffer and handed to the
-- index file, as the record writer does with records.
use transaction_log.Common.{
  Bool, Exec, List, Outcome, [], err, false, if◌then◌else◌, map_err, ok, to_le_bytes, true, ℕ, ◌++◌,
  ◌∷◌,
}
use transaction_log.Io.Error.{IoError}
use transaction_log.Io.Output.{Output}
use transaction_log.Io.WriteLoop.{write_loop}
use transaction_log.Location.LogFilePosition.{LogFilePosition}

pub data IndexWriteError : Type 0 where
  io : IoError → IndexWriteError
  unusable : IndexWriteError

-- `INDEX_ENTRY_LEN`
abbrev pub index_entry_len : ℕ
index_entry_len = 8

pub record IndexWriter (F : Type 0) : Type 0 where
  pub file : F
  pub buffer : List ℕ
  pub usable : Bool

-- `with_file`, and so `new`
abbrev pub with_file : {F : Type 0} → F → IndexWriter F
with_file file = record { file = file; buffer = []; usable = true }

unfoldable pub write :
    {F : Type 0} → LogFilePosition → Exec (IndexWriter F) IndexWriteError (Unit {0})
write end_position w =
    if w.usable
    then (ok tt, record w { buffer = w.buffer ++ to_le_bytes index_entry_len end_position })
    else (err unusable, w)

abbrev pub into_inner : {F : Type 0} → IndexWriter F → F
into_inner w = w.file

-- The state behind an awaited call: usable again only after its success.
abbrev pub settle :
    {F : Type 0}
    → Outcome IndexWriteError (Unit {0})
    → F
    → List ℕ
    → IndexWriter F
    → Outcome IndexWriteError (Unit {0}) × IndexWriter F
settle (ok u) f buffer w = (ok u, record { file = f; buffer = buffer; usable = true })
settle r f buffer w = (r, record w { file = f; usable = false })

module _ {F : Type 0} (o : Output F) where
  unfoldable pub flush_buffer : ℕ → Exec (IndexWriter F) IndexWriteError (Unit {0})
  flush_buffer fuel w = elim w.usable [
    | false ↦ (err unusable, w)
    | true ↦ elim w.buffer [
      | [] ↦ (ok tt, w)
      | b ∷ bs ↦ let (r, f) = write_loop o fuel w.buffer w.file in settle (map_err io r) f [] w
    ]
  ]

  unfoldable pub flush : Exec (IndexWriter F) IndexWriteError (Unit {0})
  flush w = elim w.usable [
    | false ↦ (err unusable, w)
    | true ↦ let (r, f) = o.flush w.file in settle (map_err io r) f w.buffer w
  ]

  unfoldable pub sync_data : Exec (IndexWriter F) IndexWriteError (Unit {0})
  sync_data w = elim w.usable [
    | false ↦ (err unusable, w)
    | true ↦ let (r, f) = o.sync_data w.file in settle (map_err io r) f w.buffer w
  ]
