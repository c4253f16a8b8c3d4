-- ===== src/Tests/Codecs.antt =====
-- The codecs at concrete bytes.
use strimserver.Prelude.{
  ℕ, ◌+◌, ◌≤◌, ◌≡◌, refl, true, false, some, List, [], ◌∷◌, ◌++◌, arith, length,
}
use strimserver.Protobuf.{
  Buf, PutEnv, varint_bytes, put_bytes, put_int64, put_bool, rd_varint, rd_varint_from, rd_len,
  split_at, rd_skip,
}
use strimserver.Protobuf.Varint.{rd_varint-varint_bytes}
use strimserver.Protobuf.Fields.{
  IsFit, put-IsFit, granted, IsLenField, put_bytes-IsLenField, IsVarintField,
  put_int64-IsVarintField,
}
use strimserver.Protobuf.Walk.{IsPayload, rd_len-IsPayload, IsTaken, IsSkipped, rd_skip-IsTaken}
use strimserver.Base64.{
  base64_encode, encode_need, base64_decode, encode_from, decode_from, decode_group, decode_stored,
  store_bytes,
}
use strimserver.Base64.RoundTrip.{base64_decode-base64_encode}
use strimserver.Base64.Bounds.{IsWithin, base64_decode-IsWithin}

three_hundred : varint_bytes 10 300 ≡ 0xac ∷ 0x02 ∷ []
unfolding varint_bytes
three_hundred = refl

rd_varint-varint_bytes_example :
    (length (varint_bytes 10 300) ≤ 10)
    × (rd_varint (varint_bytes 10 300 ++ (7 ∷ [])) ≡ some (300, 7 ∷ []))
rd_varint-varint_bytes_example = rd_varint-varint_bytes 300 (7 ∷ []) (omega arith)

abbrev no_bytes : Buf
no_bytes = record { bytes = []; cap = 0 }

abbrev no_data_room : PutEnv
no_data_room = record { tag_alloc = true; len_alloc = true; data_alloc = false }

put-IsFit_example :
    IsFit (put_bytes no_data_room no_bytes 1 (7 ∷ 8 ∷ []))
    × IsFit (put_int64 no_data_room no_bytes 1 300)
    × IsFit (put_bool no_data_room no_bytes 1 true)
put-IsFit_example =
    put-IsFit no_data_room no_bytes 1 (7 ∷ 8 ∷ []) 300 true (record { within = omega arith })

put_bytes-IsLenField_example :
    (wire : List ℕ) × ((put_bytes granted no_bytes 1 (7 ∷ 8 ∷ [])).bytes ≡ [] ++ wire)
    × IsLenField wire 1 (7 ∷ 8 ∷ []) (9 ∷ [])
put_bytes-IsLenField_example =
    put_bytes-IsLenField no_bytes 1 7 (8 ∷ []) (9 ∷ []) (omega arith) (omega arith)

put_int64-IsVarintField_example :
    (wire : List ℕ) × ((put_int64 granted no_bytes 2 300).bytes ≡ [] ++ wire)
    × IsVarintField wire 2 300 (9 ∷ [])
put_int64-IsVarintField_example =
    put_int64-IsVarintField no_bytes 2 300 (9 ∷ []) (omega arith) (omega arith) (omega arith)

abbrev two_and_more : List ℕ
two_and_more = 2 ∷ 7 ∷ 8 ∷ 9 ∷ []

rd_len_two : rd_len two_and_more ≡ some (7 ∷ 8 ∷ [], 9 ∷ [])
unfolding rd_len rd_varint rd_varint_from split_at
rd_len_two = refl

rd_len-IsPayload_example : IsPayload two_and_more (7 ∷ 8 ∷ []) (9 ∷ [])
rd_len-IsPayload_example = rd_len-IsPayload two_and_more (7 ∷ 8 ∷ []) (9 ∷ []) rd_len_two

rd_skip-IsTaken_example : IsTaken 4 two_and_more (9 ∷ []) × IsSkipped two_and_more 2 (9 ∷ [])
unfolding rd_skip rd_len rd_varint rd_varint_from split_at
rd_skip-IsTaken_example = rd_skip-IsTaken two_and_more (9 ∷ []) 2 refl

-- "Ma" is "TWE=".
encodes_ma : base64_encode (0x4d ∷ 0x61 ∷ []) 5 ≡ some (0x54 ∷ 0x57 ∷ 0x45 ∷ 0x3d ∷ [])
unfolding base64_encode encode_from encode_need
encodes_ma = refl

base64_decode-base64_encode_example :
    (text : List ℕ) × (base64_encode (0x4d ∷ 0x61 ∷ []) (encode_need 2) ≡ some text)
    × (length text + 1 ≡ encode_need 2)
    × (base64_decode text 2 ≡ some (0x4d ∷ 0x61 ∷ []))
base64_decode-base64_encode_example =
    base64_decode-base64_encode (0x4d ∷ 0x61 ∷ []) 2 (omega arith, (omega arith, tt)) (omega arith)
      (omega arith)

-- Padding is accepted in each group, not only in the last.
decodes_inner_padding :
    base64_decode (0x54 ∷ 0x57 ∷ 0x45 ∷ 0x3d ∷ 0x54 ∷ 0x57 ∷ 0x45 ∷ 0x3d ∷ []) 4
    ≡ some (0x4d ∷ 0x61 ∷ 0x4d ∷ 0x61 ∷ [])
unfolding base64_decode decode_stored decode_from decode_group store_bytes
decodes_inner_padding = refl

-- The second group has no room: the bytes of the first are stored, and the input is refused.
abbrev two_groups : List ℕ
two_groups = 0x54 ∷ 0x57 ∷ 0x45 ∷ 0x3d ∷ 0x54 ∷ 0x57 ∷ 0x45 ∷ 0x3d ∷ []

stores_three :
    decode_stored two_groups 3 ≡ record { accepted = false; bytes = 0x4d ∷ 0x61 ∷ 0x4d ∷ [] }
unfolding decode_stored decode_from decode_group store_bytes
stores_three = refl

base64_decode-IsWithin_example : IsWithin two_groups 3 (decode_stored two_groups 3).bytes
base64_decode-IsWithin_example = base64_decode-IsWithin two_groups 3
