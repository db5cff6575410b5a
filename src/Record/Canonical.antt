-- ===== src/Record/Canonical.antt =====
-- From a frame back to the encoding of its contents.
use transaction_log.Common.{
  All, All-append, All-drop, All-take, IsByte, List, ap, ap₂, arith, drop, drop-add, from_le_bytes,
  length, length-drop, length-take, sym, take, take-add, take-all, take-append-drop, take-drop-take,
  to_le_bytes, to_le_bytes-IsByte, to_le_bytes-from_le_bytes, ℕ, ◌++◌, ◌+◌, ◌-◌, ◌∙◌, ◌≡◌, ◌≤◌,
}
use transaction_log.Record.Protocol.{
  length_len, stream_id_len, sequence_number_len, header_len, crc_len, min_record_len,
}
use transaction_log.Record.Protocol.Read
use transaction_log.Record.RecordId.{RecordId}
use transaction_log.Record.View
use transaction_log.Record.Frame.{header_bytes, content, encode, IsFrame}

-- A field of some bytes, stored again.
stored :
    (width offset : ℕ) (bs : List ℕ)
    → offset + width ≤ length bs
    → All IsByte bs
    → to_le_bytes width (from_le_bytes (take width (drop offset bs))) ≡ take width (drop offset bs)
stored width offset bs h b =
    let field = take width (drop offset bs) in
    let n : width ≡ length field =
      omega (arith, length-take width (drop offset bs), length-drop offset bs) in
    ap (λ k. to_le_bytes k (from_le_bytes field)) n
    ∙ to_le_bytes-from_le_bytes field
        (All-take IsByte width (drop offset bs) (All-drop IsByte offset bs b))

module _ (crc32c : List ℕ → ℕ) (bs : List ℕ) (h : IsFrame crc32c bs) (b : All IsByte bs) where
  length-body : length (View.body (record { bytes = bs })) ≡ length bs - min_record_len
  unfolding View.body
  length-body = omega (
    arith,
    h.least,
    length-take (length bs - crc_len - header_len) (drop header_len bs),
    length-drop header_len bs,
  )

  header_bytes-View :
      header_bytes (length bs) (View.id (record { bytes = bs })) ≡ take header_len bs
  unfolding header_bytes View.id View.stream_id View.sequence_number Read.stream_id
      Read.sequence_number Read.length Read.header_unchecked
  header_bytes-View =
      ap₂ (λ x y. x ++ y)
        (ap (to_le_bytes length_len) (sym h.framed) ∙ stored 2 0 bs (omega (arith, h.least)) b)
        (ap₂ (λ x y. x ++ y)
            (ap (λ x. to_le_bytes 2 (from_le_bytes x)) (take-drop-take 2 2 12 bs (omega arith))
              ∙ stored 2 2 bs (omega (arith, h.least)) b)
            (ap (λ x. to_le_bytes 8 (from_le_bytes x)) (take-drop-take 4 8 12 bs (omega arith))
              ∙ stored 8 4 bs (omega (arith, h.least)) b)
          ∙ ap (λ z. take 2 (drop 2 bs) ++ take 8 z) (drop-add 2 2 bs)
          ∙ sym (take-add 2 8 (drop 2 bs)))
      ∙ sym (take-add 2 10 bs)

  body-View :
      take header_len bs ++ View.body (record { bytes = bs })
      ≡ take (header_len + (length bs - crc_len - header_len)) bs
  unfolding View.body
  body-View = sym (take-add header_len (length bs - crc_len - header_len) bs)

  checked :
      from_le_bytes (take crc_len (drop (length bs - crc_len) bs))
      ≡ crc32c (take (length bs - crc_len) bs)
  unfolding Read.crc Read.compute_crc
  checked = h.checksum

  content-View :
      content (View.id (record { bytes = bs })) (View.body (record { bytes = bs }))
      ≡ take (length bs - crc_len) bs
  unfolding content
  content-View =
      let n : length (View.body (record { bytes = bs })) + min_record_len ≡ length bs =
        omega (arith, h.least, length-body) in
      let m : header_len + (length bs - crc_len - header_len) ≡ length bs - crc_len =
        omega (arith, h.least) in
      ap
        (λ k. header_bytes k (View.id (record { bytes = bs })) ++ View.body (record { bytes = bs }))
        n
      ∙ ap (λ x. x ++ View.body (record { bytes = bs })) header_bytes-View
      ∙ body-View
      ∙ ap (λ k. take k bs) m

  -- A valid frame of bytes is the encoding of the id and the payload that the getters give of it.
  pub encode-View :
      encode crc32c (View.id (record { bytes = bs })) (View.body (record { bytes = bs })) ≡ bs
  unfolding encode
  encode-View =
      let n = length bs - crc_len in
      let last : to_le_bytes 4 (from_le_bytes (take 4 (drop n bs))) ≡ take 4 (drop n bs) =
        stored 4 n bs (omega (arith, h.least)) b in
      let all : take 4 (drop n bs) ≡ drop n bs =
        take-all 4 (drop n bs) (omega (arith, length-drop n bs)) in
      (λ i. content-View i ++ to_le_bytes crc_len (crc32c (content-View i)))
      ∙ ap (λ c. take n bs ++ to_le_bytes crc_len c) (sym checked)
      ∙ ap (λ x. take n bs ++ x) (last ∙ all)
      ∙ take-append-drop n bs

pub encode-IsByte :
    (crc32c : List ℕ → ℕ) (id : RecordId) (body : List ℕ)
    → All IsByte body
    → All IsByte (encode crc32c id body)
unfolding encode content header_bytes
encode-IsByte crc32c id body h =
    let n = length body + min_record_len in
    let a = to_le_bytes stream_id_len id.stream_id in
    let b = to_le_bytes sequence_number_len id.sequence_number in
    let header : All IsByte (header_bytes n id) =
      All-append IsByte (to_le_bytes length_len n) (a ++ b) (to_le_bytes-IsByte length_len n) (
        All-append IsByte a b (to_le_bytes-IsByte stream_id_len id.stream_id)
          (to_le_bytes-IsByte sequence_number_len id.sequence_number)) in
    All-append IsByte (content id body) (to_le_bytes crc_len (crc32c (content id body)))
      (All-append IsByte (header_bytes n id) body header h)
      (to_le_bytes-IsByte crc_len (crc32c (content id body)))
