-- ===== src/Storage/Distinct.antt =====
-- No two files share a path.
use transaction_log.Common.{
  [], ap, append_assoc, ap₂, arith, drop, drop-append, length, length-append, refl, suc, sym, take,
  take-append, zero, ℕ, ◌%◌, ◌*◌, ◌++◌, ◌+◌, ◌-◌, ◌/◌, ◌<◌, ◌^◌, ◌∙◌, ◌∷◌, ◌≡◌, ◌≢◌,
}
use native.Mathlib.Nat.{pow-suc}
use transaction_log.Record.StreamId.{StreamId, IsStreamId}
use transaction_log.Location.LogFileNumber.{IsLogFileNumber}
use transaction_log.Location.LogFileId.{LogFileId}
use transaction_log.Storage.Paths.{
  Name, FilePath, streams_name, checkpoint_name, digits, parse, stream_directory, ranges,
  log_or_index_file_path, checkpoint_file_path,
}

length-digits : (w n : ℕ) → length (digits w n) ≡ w
unfolding digits
length-digits zero n = refl
length-digits (suc w) n =
    omega (arith, length-append (digits w (n / 10)) ((48 + n % 10) ∷ []), length-digits w (n / 10))

parse-append : (a : ℕ) (x y : Name) → parse a (x ++ y) ≡ parse (parse a x) y
unfolding parse
parse-append a [] y = refl
parse-append a (d ∷ ds) y = parse-append (a * 10 + (d - 48)) ds y

-- What is formatted parses to the number.
parse-digits : (w n : ℕ) → n < 10 ^ w → parse 0 (digits w n) ≡ n
unfolding parse digits
parse-digits zero n h = omega arith
parse-digits (suc w) n h =
    parse-append 0 (digits w (n / 10)) ((48 + n % 10) ∷ [])
    ∙ omega (arith, parse-digits w (n / 10) (omega (arith, pow-suc 10 w)))

digits-same : (w n m : ℕ) → n < 10 ^ w → m < 10 ^ w → digits w n ≡ digits w m → n ≡ m
digits-same w n m hn hm e = sym (parse-digits w n hn) ∙ ap (parse 0) e ∙ parse-digits w m hm

component : ℕ → FilePath → Name
component n [] = []
component zero (c ∷ cs) = c
component (suc n) (c ∷ cs) = component n cs

-- The components behind the root, numbered from 0.
behind :
    (root rest : FilePath) (n : ℕ)
    → component n (drop (length root) (root ++ rest)) ≡ component n rest
behind root rest n = ap (component n) (drop-append (length root) root rest refl)

same_behind : (root x y : FilePath) (n : ℕ) → root ++ x ≡ root ++ y → component n x ≡ component n y
same_behind root x y n e =
    sym (behind root x n) ∙ ap (λ p. component n (drop (length root) p)) e ∙ behind root y n

-- The components of a file's path behind the root.
abbrev file_components : LogFileId → Name → FilePath
file_components id extension =
    streams_name
    ∷ digits 4 id.stream_id
    ∷ (ranges 4 (digits 15 id.file_number) ++ ((digits 15 id.file_number ++ (46 ∷ extension)) ∷ []))

file_path-components :
    (root : FilePath) (id : LogFileId) (extension : Name)
    → log_or_index_file_path root id extension ≡ root ++ file_components id extension
unfolding log_or_index_file_path stream_directory
file_path-components root id extension =
    append_assoc root (streams_name ∷ digits 4 id.stream_id ∷ []) _

-- The paths of two valid files' logs or indexes are the same only for the same file and the same
-- extension.
pub log_or_index_file_path-injective :
    (root : FilePath) (a b : LogFileId) (x y : Name)
    → IsStreamId a.stream_id
    → IsStreamId b.stream_id
    → IsLogFileNumber a.file_number
    → IsLogFileNumber b.file_number
    → log_or_index_file_path root a x ≡ log_or_index_file_path root b y
    → (a ≡ b) × (x ≡ y)
unfolding ranges component
log_or_index_file_path-injective root a b x y sa sb fa fb e =
    let same = sym (file_path-components root a x) ∙ e ∙ file_path-components root b y in
    let stream = same_behind root (file_components a x) (file_components b y) 1 same in
    let name = same_behind root (file_components a x) (file_components b y) 6 same in
    let number : digits 15 a.file_number ≡ digits 15 b.file_number =
      sym (take-append 15 (digits 15 a.file_number) (46 ∷ x) (sym (length-digits 15 a.file_number)))
      ∙ ap (take 15) name
      ∙ take-append 15 (digits 15 b.file_number) (46 ∷ y) (sym (length-digits 15 b.file_number)) in
    let extension : (46 ∷ x) ≡ (46 ∷ y) =
      sym (drop-append 15 (digits 15 a.file_number) (46 ∷ x) (sym (length-digits 15 a.file_number)))
      ∙ ap (drop 15) name
      ∙ drop-append 15 (digits 15 b.file_number) (46 ∷ y) (sym (length-digits 15 b.file_number)) in
    (
      ap₂ (λ stream_id file_number. record { stream_id = stream_id; file_number = file_number })
          (digits-same 4 a.stream_id b.stream_id (omega arith) (omega arith) stream)
          (digits-same 15 a.file_number b.file_number (omega arith) (omega arith) number),
      ap (drop 1) extension,
    )

-- The checkpoints of two valid streams have different paths, and no log or index has the path of a
-- checkpoint.
pub checkpoint_file_path-injective :
    (root : FilePath) (s s' : StreamId) (id : LogFileId) (extension : Name)
    → IsStreamId s
    → IsStreamId s'
    → (checkpoint_file_path root s ≡ checkpoint_file_path root s' → s ≡ s')
      × (checkpoint_file_path root s ≢ log_or_index_file_path root id extension)
unfolding checkpoint_file_path stream_directory ranges component
checkpoint_file_path-injective root s s' id extension h h' =
    let of : (z : StreamId)
        → (root ++ (streams_name ∷ digits 4 z ∷ [])) ++ (checkpoint_name ∷ [])
          ≡ root ++ (streams_name ∷ digits 4 z ∷ checkpoint_name ∷ []) =
      λ z. append_assoc root (streams_name ∷ digits 4 z ∷ []) (checkpoint_name ∷ []) in
    (
      λ e.
          digits-same 4 s s' (omega arith) (omega arith)
            (same_behind root _ _ 1 (sym (of s) ∙ e ∙ of s')),
      λ e.
          let k = ap length (sym (of s) ∙ e ∙ file_path-components root id extension) in
          absurd (
            omega (
              arith,
              k,
              length-append root (streams_name ∷ digits 4 s ∷ checkpoint_name ∷ []),
              length-append root (file_components id extension),
            )),
    )
