-- ===== src/Storage/Paths.antt =====
-- The paths of storage_provider.rs. A path is the list of its components, and a name the list of its
-- ASCII codes.
use transaction_log.Common.{List, [], drop, suc, take, zero, ℕ, ◌%◌, ◌*◌, ◌++◌, ◌+◌, ◌-◌, ◌/◌, ◌∷◌}
use transaction_log.Record.StreamId.{StreamId}
use transaction_log.Location.LogFileId.{LogFileId}

abbrev pub Name : Type 0
Name = List ℕ

abbrev pub FilePath : Type 0
FilePath = List Name

-- "streams" and "checkpoint.json"
abbrev pub streams_name : Name
streams_name = 115 ∷ 116 ∷ 114 ∷ 101 ∷ 97 ∷ 109 ∷ 115 ∷ []

abbrev pub checkpoint_name : Name
checkpoint_name =
    99 ∷ 104 ∷ 101 ∷ 99 ∷ 107 ∷ 112 ∷ 111 ∷ 105 ∷ 110 ∷ 116 ∷ 46 ∷ 106 ∷ 115 ∷ 111 ∷ 110 ∷ []

-- `{:0w}` of a number of at most `w` digits
unfoldable pub digits : ℕ → ℕ → Name
digits zero n = []
digits (suc w) n = digits w (n / 10) ++ ((48 + n % 10) ∷ [])

-- `parse` of a name of digits
unfoldable pub parse : ℕ → Name → ℕ
parse acc [] = acc
parse acc (d ∷ ds) = parse (acc * 10 + (d - 48)) ds

-- `root.join("streams").join(format!("{stream_id:04}"))`
unfoldable pub stream_directory : FilePath → StreamId → FilePath
unfolding digits
stream_directory root stream = root ++ (streams_name ∷ digits 4 stream ∷ [])

-- The groups of three digits from the front.
unfoldable pub ranges : ℕ → Name → FilePath
ranges zero number = []
ranges (suc k) number = take 3 number ∷ ranges k (drop 3 number)

unfoldable pub log_or_index_file_path : FilePath → LogFileId → Name → FilePath
unfolding stream_directory ranges digits
log_or_index_file_path root id extension =
    let file_number = digits 15 id.file_number in
    stream_directory root id.stream_id
    ++ (ranges 4 file_number ++ ((file_number ++ (46 ∷ extension)) ∷ []))

-- "log"
unfoldable pub log_file_path : FilePath → LogFileId → FilePath
unfolding log_or_index_file_path
log_file_path root id = log_or_index_file_path root id (108 ∷ 111 ∷ 103 ∷ [])

-- "idx"
unfoldable pub index_file_path : FilePath → LogFileId → FilePath
unfolding log_or_index_file_path
index_file_path root id = log_or_index_file_path root id (105 ∷ 100 ∷ 120 ∷ [])

unfoldable pub checkpoint_file_path : FilePath → StreamId → FilePath
unfolding stream_directory
checkpoint_file_path root stream = stream_directory root stream ++ (checkpoint_name ∷ [])
