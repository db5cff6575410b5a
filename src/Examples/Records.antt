-- ===== src/Examples/Records.antt =====
-- The codec at a record of three payload bytes.
use transaction_log.Common.{List, [], arith, refl, ℕ, ◌+◌, ◌∷◌, ◌≡◌}
use transaction_log.Record.Frame.{encode, content, header_bytes, IsFrame}
use transaction_log.Record.Codec.{encode-IsFrame, View-encode}
use transaction_log.Record.Canonical.{encode-IsByte, encode-View}
use transaction_log.Record.View
use transaction_log.Examples.Devices.{checksum, checksum-lt, sample_id}

abbrev payload : List ℕ
payload = 1 ∷ 2 ∷ 3 ∷ []

encode-IsFrame_example : IsFrame checksum (encode checksum sample_id payload)
encode-IsFrame_example =
    encode-IsFrame checksum sample_id payload (omega arith) (omega arith)
      (checksum-lt (content sample_id payload))

View-encode_example :
    (View.id (record { bytes = encode checksum sample_id payload }) ≡ sample_id)
    × (View.body (record { bytes = encode checksum sample_id payload }) ≡ payload)
    × (View.length (record { bytes = encode checksum sample_id payload }) ≡ 3 + 16)
View-encode_example = View-encode checksum sample_id payload (omega arith)

encoded_bytes :
    encode checksum sample_id payload
    ≡ 19 ∷ 0 ∷ 42 ∷ 0 ∷ 7 ∷ 0 ∷ 0 ∷ 0 ∷ 0 ∷ 0 ∷ 0 ∷ 0 ∷ 1 ∷ 2 ∷ 3 ∷ 74 ∷ 0 ∷ 0 ∷ 0 ∷ []
unfolding encode content header_bytes
encoded_bytes = refl

encode-View_example :
    encode checksum
      (View.id (record { bytes = encode checksum sample_id payload }))
      (View.body (record { bytes = encode checksum sample_id payload }))
    ≡ encode checksum sample_id payload
encode-View_example =
    encode-View checksum (encode checksum sample_id payload)
      (encode-IsFrame checksum sample_id payload (omega arith) (omega arith)
        (checksum-lt (content sample_id payload)))
      (encode-IsByte checksum sample_id payload (omega arith, (omega arith, (omega arith, tt))))
