-- ===== src/Base64.antt =====
-- strim_base64_encode, b64_value and strim_base64_decode of core/controller/c/http/ws_crypto.c.
-- Bytes and characters are their codes; the buffers of the callers are not NULL.
pub mod RoundTrip
pub mod Bounds
use strimserver.Prelude.{
  ℕ, zero, suc, ◌+◌, ◌-◌, ◌*◌, ◌/◌, ◌%◌, ◌^◌, Bool, true, false, not, ◌&&◌, ◌||◌, Option, none,
  some, List, [], ◌∷◌, ◌++◌, ltb, leb, ◌==◌, if◌then◌else◌, ◌>>=◌, length, get_elem?,
}

-- 'A' and so on, from a code to a last code.
abbrev codes : (first count : ℕ) → List ℕ
codes first zero = []
codes first (suc count) = first ∷ codes (suc first) count

-- '='
abbrev pub pad : ℕ
pad = 0x3d

abbrev pub b64_alphabet : List ℕ
b64_alphabet = codes 0x41 26 ++ codes 0x61 26 ++ codes 0x30 10 ++ (0x2b ∷ 0x2f ∷ [])

-- `b64_alphabet[x & 0x3f]`
unfoldable pub b64_char : ℕ → ℕ
b64_char x = elim (get_elem? b64_alphabet (x % 64)) [ none ↦ 0 | some c ↦ c ]

-- The loop over whole groups of three, and the remainder of one or two bytes.
unfoldable pub encode_from : List ℕ → List ℕ
unfolding b64_char
encode_from [] = []
encode_from (a ∷ []) =
    let v = a * 2 ^ 16 in b64_char (v / 2 ^ 18) ∷ b64_char (v / 2 ^ 12) ∷ pad ∷ pad ∷ []
encode_from (a ∷ b ∷ []) =
    let v = a * 2 ^ 16 + b * 2 ^ 8 in
    b64_char (v / 2 ^ 18) ∷ b64_char (v / 2 ^ 12) ∷ b64_char (v / 2 ^ 6) ∷ pad ∷ []
encode_from (a ∷ b ∷ c ∷ rest) =
    let v = a * 2 ^ 16 + b * 2 ^ 8 + c in
    b64_char (v / 2 ^ 18)
    ∷ b64_char (v / 2 ^ 12)
    ∷ b64_char (v / 2 ^ 6)
    ∷ b64_char v
    ∷ encode_from rest

-- `4 * ((src_len + 2) / 3) + 1`: the room for the characters and the NUL behind them
unfoldable pub encode_need : ℕ → ℕ
encode_need src_len = 4 * ((src_len + 2) / 3) + 1

-- `none` is the result 0 of an output buffer that is too small.
unfoldable pub base64_encode : List ℕ → ℕ → Option (List ℕ)
unfolding encode_from encode_need
base64_encode src out_cap =
    if ltb out_cap (encode_need (length src)) then none else some (encode_from src)

-- `none` is -1.
unfoldable pub b64_value : ℕ → Option ℕ
b64_value c =
    if leb 0x41 c && leb c 0x5a
    then some (c - 0x41)
    else if leb 0x61 c && leb c 0x7a
    then some (c - 0x61 + 26)
    else if leb 0x30 c && leb c 0x39
    then some (c - 0x30 + 52)
    else if c == 0x2b
    then some 62
    else if c == 0x2f
    then some 63
    else none

-- The third and fourth character of a group may be '='.
unfoldable pub tail_value : ℕ → Option ℕ
unfolding b64_value
tail_value c = if c == pad then some 0 else b64_value c

-- The bytes of one group, from the values of its characters.
unfoldable pub group_bytes : (c2 c3 v0 v1 v2 v3 : ℕ) → List ℕ
group_bytes c2 c3 v0 v1 v2 v3 =
    ((v0 * 4 + v1 / 16) % 256)
    ∷ ((if c2 == pad then [] else ((v1 * 16 + v2 / 4) % 256) ∷ [])
        ++ (if c3 == pad then [] else ((v2 * 64 + v3) % 256) ∷ []))

-- One round of the loop: the bytes of the group, if it is accepted.
unfoldable pub decode_group : (c0 c1 c2 c3 : ℕ) → Option (List ℕ)
unfolding b64_value tail_value group_bytes
decode_group c0 c1 c2 c3 = do
  v0 ← b64_value c0
  v1 ← b64_value c1
  v2 ← tail_value c2
  v3 ← tail_value c3
  if (c2 == pad) && not (c3 == pad) then none else some (group_bytes c2 c3 v0 v1 v2 v3)

-- How the loop ends, and the bytes that it has stored in `out` by then.
pub record Stored : Type 0 where
  pub accepted : Bool
  pub bytes : List ℕ

-- Each byte of a group is stored only if there is room for it; 0 places left is `o + 1u > out_cap`.
unfoldable pub store_bytes : List ℕ → (room : ℕ) → Stored
store_bytes [] room = record { accepted = true; bytes = [] }
store_bytes (b ∷ rest) room =
    let later = store_bytes rest (room - 1) in
    if ltb room 1
    then record { accepted = false; bytes = [] }
    else record later { bytes = b ∷ later.bytes }

-- The loop, with the room that is left in `out`.
unfoldable pub decode_from : List ℕ → ℕ → Stored
unfolding decode_group store_bytes
decode_from [] room = record { accepted = true; bytes = [] }
decode_from (c0 ∷ c1 ∷ c2 ∷ c3 ∷ rest) room = elim (decode_group c0 c1 c2 c3) [
  | none ↦ record { accepted = false; bytes = [] }
  | some bytes ↦
      let first = store_bytes bytes room in
      let later = decode_from rest (room - length first.bytes) in
      if first.accepted then record later { bytes = first.bytes ++ later.bytes } else first
]
decode_from _ room = record { accepted = false; bytes = [] }

-- All that base64_decode stores, refused or not.
unfoldable pub decode_stored : List ℕ → ℕ → Stored
unfolding decode_from
decode_stored input out_cap =
    if (length input == 0) || not (length input % 4 == 0)
    then record { accepted = false; bytes = [] }
    else decode_from input out_cap

-- `none` is -1.
unfoldable pub base64_decode : List ℕ → ℕ → Option (List ℕ)
unfolding decode_stored
base64_decode input out_cap =
    let stored = decode_stored input out_cap in if stored.accepted then some stored.bytes else none
