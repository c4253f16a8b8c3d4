-- ===== src/Hpack.antt =====
-- HPACK of core/controller/c/containerd/h2c.c: the header compression of the HTTP/2 client. A byte
-- is a number under 256, an input the bytes that are left, `none` a refusal (-1, or 0 of a writer).
pub mod Huffman
pub mod Table
pub mod Static
pub mod Block
pub mod Encode
pub mod Integers
pub mod Bounds
pub mod Lookup
pub mod Safety
pub mod Indices
pub mod RoundTrip
pub mod Fields
pub mod Request
use Prim.Native.Nat.{bit_and, bit_or}
use strimserver.Prelude.{
  ℕ, zero, suc, ◌+◌, ◌-◌, ◌*◌, ◌/◌, ◌%◌, ◌^◌, Option, none, some, List, [], ◌∷◌, ◌++◌, ◌>>=◌, ltb,
  leb, ◌==◌, if◌then◌else◌, length,
}

-- 0x7fffffffU
abbrev pub int_max : ℕ
int_max = 0x7fffffff

-- The loop of hpack_read_int.
unfoldable pub read_int_from : List ℕ → (value shift : ℕ) → Option (ℕ × List ℕ)
read_int_from [] value shift = none
read_int_from (b ∷ rest) value shift =
    let sum = value + bit_and b 0x7f * 2 ^ shift in
    let later = read_int_from rest sum (shift + 7) in
    if bit_and b 0x80 == 0
    then if ltb int_max sum then none else some (sum, rest)
    else if ltb 28 (shift + 7)
    then none
    else later

unfoldable pub read_int : (prefix : ℕ) → List ℕ → Option (ℕ × List ℕ)
unfolding read_int_from
read_int prefix [] = none
read_int prefix (b ∷ rest) =
    let mask = 2 ^ prefix - 1 in
    if ltb (bit_and b mask) mask
    then some (bit_and b mask, rest)
    else read_int_from rest (bit_and b mask) 0

-- The loop of hpack_write_int_ex, in the room that is left; the masks work on the low byte.
unfoldable pub write_rest : (cap value : ℕ) → Option (List ℕ)
write_rest zero value = none
write_rest (suc cap) value =
    let later = write_rest cap (value / 2 ^ 7) in
    if leb 0x80 value
    then later >>= (λ bytes. some (bit_or (bit_and (value % 256) 0x7f) 0x80 ∷ bytes))
    else some (value % 256 ∷ [])

unfoldable pub write_int_ex : (cap value prefix pattern : ℕ) → Option (List ℕ)
unfolding write_rest
write_int_ex zero value prefix pattern = none
write_int_ex (suc cap) value prefix pattern =
    let mask = 2 ^ prefix - 1 in
    if ltb value mask
    then some (bit_or pattern value % 256 ∷ [])
    else write_rest cap (value - mask) >>= (λ bytes. some (bit_or pattern mask % 256 ∷ bytes))

unfoldable pub write_int : (cap value prefix : ℕ) → Option (List ℕ)
unfolding write_int_ex
write_int cap value prefix = write_int_ex cap value prefix 0
