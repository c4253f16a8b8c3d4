-- ===== src/Tests/Hpack.antt =====
-- HPACK at concrete inputs; the first block is the one of RFC 7541, C.3.1.
use strimserver.Prelude.{ℕ, ◌≤◌, ◌≡◌, refl, false, some, List, [], ◌∷◌, arith, length, Given}
use strimserver.Spec.{chars}
use strimserver.Hpack.Huffman.{
  HuffCode, huff_decode, huff_build, huff_bytes, huff_byte, huff_end, add_symbols, add_symbol,
  add_bits, grow, grow_into, huff_bit, huff_emit,
}
use strimserver.Hpack.Table.{Dyn}
use strimserver.Hpack.Bounds.{IsTable}
use strimserver.Hpack.Block.{decode_from, decode_block}
use strimserver.Hpack.Encode.{Written, build_request_headers}
use strimserver.Hpack.Safety.{decode_block-IsDecoded}
use strimserver.Hpack.Request.{request_fields, InStep, build_request_headers-decode_block}

abbrev fresh : Dyn
fresh = record { entries = []; size = 0; max_size = 4096 }

fresh-IsTable : IsTable fresh
fresh-IsTable = record {
  summed = refl;
  fits = omega arith;
  few = omega arith;
  sized = tt;
  capped = omega arith;
}

abbrev rfc_block : List ℕ
rfc_block = 0x82 ∷ 0x86 ∷ 0x84 ∷ 0x41 ∷ 0x0f ∷ chars "www.example.com"

decode_block-IsDecoded_example :
    (decode_from [] 40 32 fresh rfc_block [] ≡ some (decode_block [] fresh rfc_block 32))
    × Given (λ r. (length r.0 ≤ 32) × IsTable r.1) (decode_block [] fresh rfc_block 32)
decode_block-IsDecoded_example =
    decode_block-IsDecoded [] fresh rfc_block 40 32 fresh-IsTable (omega arith)

fresh-InStep : InStep false fresh fresh
unfolding InStep
fresh-InStep = refl

build_request_headers-decode_block_example :
    (w : Written) × (build_request_headers false fresh (chars "default") (chars "/v1/List") 1024
      ≡ some w)
    × (decode_block [] fresh w.bytes 32
        ≡ some (request_fields (chars "/v1/List") (chars "default"), w.table))
    × IsTable w.table
build_request_headers-decode_block_example =
    build_request_headers-decode_block [] false fresh fresh (chars "default") (chars "/v1/List")
      fresh-IsTable fresh-InStep (omega arith)

-- The codes 0, 10 and 11111111, and three ones of padding.
abbrev three_codes : List HuffCode
three_codes =
    record { code = 0; bits = 1 }
    ∷ record { code = 2; bits = 2 }
    ∷ record { code = 0xff; bits = 8 }
    ∷ []

decodes_padded : huff_decode three_codes (0x57 ∷ []) 8 ≡ some (0 ∷ 1 ∷ 1 ∷ [])
unfolding huff_decode huff_build add_symbols add_symbol add_bits grow grow_into huff_bytes huff_byte
    huff_bit huff_emit huff_end
decodes_padded = refl
