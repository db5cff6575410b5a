-- ===== src/RecordWriter/Building.antt =====
-- A builder's memory holds the payload that the closure's writes were accepted for.
use transaction_log.Common.{
  Bool, Bool-cases, List, Option, Outcome, ap, append_assoc, arith, drop, drop-append, err, false,
  if◌then◌else◌, inl, inr, length, length-append, length-drop, length-take, none, ok, refl, some,
  subst, sym, take, take-add, take-append, true, ℕ, ◌++◌, ◌+◌, ◌∙◌, ◌≡◌, ◌≤◌,
}
use transaction_log.Io.Error.{IoError, invalid_input}
use transaction_log.Record.Protocol.{header_len, max_record_len, max_payload_len}
use transaction_log.Record.Protocol.Write.{store}
use transaction_log.RecordWriter.Builder
use transaction_log.RecordWriter.Builder.{RecordBuilder, RecordBuildError, payload_too_large}
use transaction_log.RecordWriter.Body.{
  Body, Collected, return, write, write_all, flush, run, collect, accepts,
}

-- The error that a refused write has left.
abbrev pub error_of : Bool → Option RecordBuildError
error_of refused = if refused then some payload_too_large else none

-- `b` builds on `buffer`, in a memory of `room` bytes, and holds `payload` behind the header's place.
pub record Builds (buffer : List ℕ) (room : ℕ) (payload : List ℕ) (refused : Bool)
    (b : RecordBuilder) : Type 0 where
  pub kept : b.buffer ≡ buffer
  pub capacity : length b.memory ≡ room
  pub enough : max_record_len ≤ room
  pub size : b.payload_len ≡ length payload
  pub bounded : length payload ≤ max_payload_len
  pub error : b.error ≡ error_of refused
  pub open_yet : b.finished ≡ false
  pub holds : take (length payload) (drop header_len b.memory) ≡ payload

-- A store at the end of what is held extends it.
store-end :
    (k : ℕ) (held bytes memory : List ℕ)
    → take (length held) (drop k memory) ≡ held
    → k + length held + length bytes ≤ length memory
    → take (length (held ++ bytes)) (drop k (store (k + length held) bytes memory)) ≡ held ++ bytes
unfolding store
store-end k held bytes memory h room =
    let n = length (held ++ bytes) in
    let front = take k memory in
    let rest = drop (k + length held + length bytes) memory in
    let cut : take (k + length held) memory ≡ front ++ held =
      take-add k (length held) memory ∙ ap (λ t. front ++ t) h in
    ap (λ m. take n (drop k (m ++ (bytes ++ rest)))) cut
    ∙ ap (λ m. take n (drop k m)) (append_assoc front held (bytes ++ rest))
    ∙ ap (take n)
        (drop-append k front (held ++ (bytes ++ rest)) (omega (arith, length-take k memory)))
    ∙ ap (take n) (sym (append_assoc held bytes rest))
    ∙ take-append n (held ++ bytes) rest refl

length-store :
    (offset : ℕ) (bytes memory : List ℕ)
    → offset + length bytes ≤ length memory
    → length (store offset bytes memory) ≡ length memory
unfolding store
length-store offset bytes memory h = omega (
  arith,
  length-append (take offset memory) (bytes ++ drop (offset + length bytes) memory),
  length-append bytes (drop (offset + length bytes) memory),
  length-take offset memory,
  length-drop (offset + length bytes) memory,
)

module _ {buffer : List ℕ} {room : ℕ} {payload : List ℕ} {refused : Bool} where
  write-accepted :
      (bytes : List ℕ) (b : RecordBuilder)
      → Builds buffer room payload refused b
      → accepts payload refused bytes ≡ true
      → ((Builder.write bytes b).0 ≡ ok (length bytes))
        × Builds buffer room (payload ++ bytes) refused (Builder.write bytes b).1
  unfolding Builder.write
  write-accepted bytes b h a = ground (
    arith,
    length-append payload bytes,
    store-end header_len payload bytes b.memory h.holds,
    length-store (header_len + length payload) bytes b.memory,
  )

  write-refused :
      (bytes : List ℕ) (b : RecordBuilder)
      → Builds buffer room payload refused b
      → accepts payload refused bytes ≡ false
      → ((Builder.write bytes b).0 ≡ err invalid_input)
        × Builds buffer room payload true (Builder.write bytes b).1
  unfolding Builder.write
  write-refused bytes b h a = ground arith

write_all-accepted :
    {buffer : List ℕ} {room : ℕ} {payload : List ℕ} {refused : Bool} (bytes : List ℕ)
    (b : RecordBuilder)
    → Builds buffer room payload refused b
    → accepts payload refused bytes ≡ true
    → ((Builder.write_all bytes b).0 ≡ ok tt)
      × Builds buffer room (payload ++ bytes) refused (Builder.write_all bytes b).1
unfolding Builder.write_all
write_all-accepted bytes b h a = let (e, h') = write-accepted bytes b h a in (rw e, rw e h')

write_all-refused :
    {buffer : List ℕ} {room : ℕ} {payload : List ℕ} {refused : Bool} (bytes : List ℕ)
    (b : RecordBuilder)
    → Builds buffer room payload refused b
    → accepts payload refused bytes ≡ false
    → ((Builder.write_all bytes b).0 ≡ err invalid_input)
      × Builds buffer room payload true (Builder.write_all bytes b).1
unfolding Builder.write_all
write_all-refused bytes b h a = let (e, h') = write-refused bytes b h a in (rw e, rw e h')

flush_lem :
    {buffer : List ℕ} {room : ℕ} {payload : List ℕ} {refused : Bool} (b : RecordBuilder)
    → Builds buffer room payload refused b
    → Builder.flush b ≡ ((if refused then err invalid_input else ok tt), b)
unfolding Builder.flush Builder.check_error
flush_lem {refused = true} b h = ground arith
flush_lem {refused = false} b h = ground arith

-- The closure's answer, and what its builder holds, are those that `collect` describes.
abbrev pub Collects :
    {E : Type 0} → List ℕ → ℕ → Collected E → Outcome E (Unit {0}) × RecordBuilder → Type 0
Collects buffer room c result =
    (result.0 ≡ c.answer) × Builds buffer room c.payload c.refused result.1

collect-write :
    {E : Type 0} (bytes : List ℕ) (k : Outcome IoError ℕ → Body E) (payload : List ℕ)
    (refused fits : Bool)
    → accepts payload refused bytes ≡ fits
    → collect (write bytes k) payload refused ≡ (
        if fits
        then collect (k (ok (length bytes))) (payload ++ bytes) refused
        else collect (k (err invalid_input)) payload true)
unfolding collect
collect-write bytes k payload refused true h = ground (arith, h)
collect-write bytes k payload refused false h = ground (arith, h)

collect-write_all :
    {E : Type 0} (bytes : List ℕ) (k : Outcome IoError (Unit {0}) → Body E) (payload : List ℕ)
    (refused fits : Bool)
    → accepts payload refused bytes ≡ fits
    → collect (write_all bytes k) payload refused ≡ (
        if fits
        then collect (k (ok tt)) (payload ++ bytes) refused
        else collect (k (err invalid_input)) payload true)
unfolding collect
collect-write_all bytes k payload refused true h = ground (arith, h)
collect-write_all bytes k payload refused false h = ground (arith, h)

-- The step from a call's answer, known by an equation, to the rest of the closure.
carry :
    {E A : Type 0} (buffer : List ℕ) (room : ℕ) (k : A → Body E) (r r' : A) (b : RecordBuilder)
    (c c' : Collected E)
    → r ≡ r'
    → c ≡ c'
    → Collects buffer room c' (run (k r') b)
    → Collects buffer room c (run (k r) b)
carry buffer room k r r' b c c' e f h =
    subst (λ x. Collects buffer room x (run (k r) b)) (sym f)
      (subst (λ y. Collects buffer room c' (run (k y) b)) (sym e) h)

collect-flush :
    {E : Type 0} (k : Outcome IoError (Unit {0}) → Body E) (payload : List ℕ) (refused : Bool)
    → collect (flush k) payload refused
      ≡ collect (k (if refused then err invalid_input else ok tt)) payload refused
unfolding collect
collect-flush k payload true = refl
collect-flush k payload false = refl

pub run-collect :
    {E : Type 0} (buffer : List ℕ) (room : ℕ) (body : Body E) (payload : List ℕ) (refused : Bool)
    (b : RecordBuilder)
    → Builds buffer room payload refused b
    → Collects buffer room (collect body payload refused) (run body b)
unfolding run Builder.flush
run-collect buffer room (return r) payload refused b h = unfold collect in (refl, h)
run-collect buffer room (write bytes k) payload refused b h =
    elim (Bool-cases (accepts payload refused bytes)) [
      | inl fits ↦
          let (e, h') = write-accepted bytes b h fits in
          carry buffer room k _ _ _ _ _ e (collect-write bytes k payload refused true fits)
            (run-collect buffer room (k (ok (length bytes))) (payload ++ bytes) refused _ h')
      | inr over ↦
          let (e, h') = write-refused bytes b h over in
          carry buffer room k _ _ _ _ _ e (collect-write bytes k payload refused false over)
            (run-collect buffer room (k (err invalid_input)) payload true _ h')
    ]
run-collect buffer room (write_all bytes k) payload refused b h =
    elim (Bool-cases (accepts payload refused bytes)) [
      | inl fits ↦
          let (e, h') = write_all-accepted bytes b h fits in
          carry buffer room k _ _ _ _ _ e (collect-write_all bytes k payload refused true fits)
            (run-collect buffer room (k (ok tt)) (payload ++ bytes) refused _ h')
      | inr over ↦
          let (e, h') = write_all-refused bytes b h over in
          carry buffer room k _ _ _ _ _ e (collect-write_all bytes k payload refused false over)
            (run-collect buffer room (k (err invalid_input)) payload true _ h')
    ]
run-collect buffer room (flush k) payload refused b h =
    carry buffer room k _ _ b _ _ (ap (λ p. p.0) (flush_lem b h)) (collect-flush k payload refused)
      (run-collect buffer room (k (if refused then err invalid_input else ok tt)) payload refused b
        h)
