-- ===== src/Protobuf/Varint.antt =====
-- What a varint writer emits, the reader takes back.
use strimserver.Prelude.{
  ℕ, zero, suc, ◌+◌, ◌*◌, ◌/◌, ◌%◌, ◌^◌, ◌≤◌, ◌<◌, ◌≡◌, refl, ap, ◌∙◌, true, false, ◌&&◌, some,
  List, [], ◌∷◌, ◌++◌, arith, ltb, leb, ◌==◌, length, Bool, table, table_entry, Bool-cases, inl,
  inr,
}
use Prim.Native.Nat.{bit_and, bit_or}
use native.Mathlib.Omega.{pow_step}
use strimserver.Controller.Types.{u64_mod}
use strimserver.Protobuf.{varint_bytes, rd_varint, rd_varint_from}

-- The three masks at one byte.
abbrev byte_row : ℕ → Bool
byte_row b =
    (bit_or b 0x80 == b % 128 + 128)
    && (bit_and b 0x7f == b % 128)
    && (bit_and b 0x80 == b / 128 * 128)

bytes_table : table byte_row 256 ≡ true
unfolding table
bytes_table = refl

pub byte_bits :
    (b : ℕ)
    → b < 256
    → (bit_or b 0x80 ≡ b % 128 + 128)
      × (bit_and b 0x7f ≡ b % 128)
      × (bit_and b 0x80 ≡ b / 128 * 128)
byte_bits b h =
    let row = table_entry byte_row 256 b h bytes_table in
    (ground (arith, row), ground (arith, row), ground (arith, row))

-- The last byte ends the loop of the reader.
read_last :
    (b acc shift : ℕ) (rest : List ℕ)
    → b < 128
    → (b * 2 ^ shift) % u64_mod ≡ b * 2 ^ shift
    → rd_varint_from (b ∷ rest) acc shift ≡ some (acc + b * 2 ^ shift, rest)
unfolding rd_varint_from
read_last b acc shift rest h fits =
    let bits = byte_bits b (omega arith) in
    let low : bit_and b 0x7f ≡ b = omega (arith, bits.1) in
    let stop : bit_and b 0x80 ≡ 0 = omega (arith, bits.2) in rw (low, stop, fits) refl

-- A byte with the high bit goes on.
read_more :
    (b acc shift : ℕ) (rest : List ℕ)
    → b < 256
    → 128 ≤ b
    → shift + 7 ≤ 63
    → ((b % 128) * 2 ^ shift) % u64_mod ≡ (b % 128) * 2 ^ shift
    → rd_varint_from (b ∷ rest) acc shift
      ≡ rd_varint_from rest (acc + (b % 128) * 2 ^ shift) (shift + 7)
unfolding rd_varint_from
read_more b acc shift rest h high room fits =
    let bits = byte_bits b h in
    let go : bit_and b 0x80 ≡ 128 = omega (arith, bits.2) in
    let within : ltb 63 (shift + 7) ≡ false = ground arith in rw (bits.1, go, fits, within) refl

pub shifted : (s : ℕ) → 2 ^ (s + 7) ≡ 2 ^ s * 128
shifted zero = refl
shifted (suc s) =
    let later : suc s + 7 ≡ suc (s + 7) = omega arith in
    omega (arith, ap (λ k. 2 ^ k) later, pow_step 2 (s + 7), pow_step 2 s, shifted s)

spread : (q m p : ℕ) → (q * 128 + m) * p ≡ q * (p * 128) + m * p
spread q m p = grind arith

-- The low seven bits and the others, at the place p.
pub place_split : (v p : ℕ) → v * p ≡ (v / 128) * (p * 128) + (v % 128) * p
place_split v p =
    let whole : v ≡ (v / 128) * 128 + v % 128 = omega arith in
    ap (λ w. w * p) whole ∙ spread (v / 128) (v % 128) p

varint_last : (n v : ℕ) → v < 128 → varint_bytes (suc n) v ≡ v ∷ []
unfolding varint_bytes
varint_last n v h = let stop : leb 0x80 v ≡ false = ground arith in rw stop refl

varint_more :
    (n v : ℕ) → 128 ≤ v → varint_bytes (suc n) v ≡ (v % 128 + 128) ∷ varint_bytes n (v / 128)
unfolding varint_bytes
varint_more n v h =
    let go : leb 0x80 v ≡ true = ground arith in
    let bits = byte_bits (v % 256) (omega arith) in
    let byte : bit_or (v % 256) 0x80 ≡ v % 128 + 128 = omega (arith, bits.0) in rw (go, byte) refl

-- From any point of the reader's loop: `n` more bytes have room.
read_back :
    (n s acc v : ℕ) (rest : List ℕ)
    → s + 7 * n ≡ 63
    → v < 2 * 128 ^ n
    → acc + v * 2 ^ s < u64_mod
    → rd_varint_from (varint_bytes (suc n) v ++ rest) acc s ≡ some (acc + v * 2 ^ s, rest)
read_back zero s acc v rest place small fits =
    rw (varint_last 0 v (omega arith)) (read_last v acc s rest (omega arith) (omega arith))
read_back (suc n) s acc v rest place small fits = elim (Bool-cases (leb 128 v)) [
  | inl big ↦
      let split = place_split v (2 ^ s) in
      let next = shifted s in
      let byte : (v % 128 + 128) % 128 ≡ v % 128 = omega arith in
      let later =
        read_back n (s + 7) (acc + (v % 128) * 2 ^ s) (v / 128) rest (omega arith)
          (omega (arith, pow_step 128 n)) (rw next (omega arith)) in
      let more =
        read_more (v % 128 + 128) acc s (varint_bytes (suc n) (v / 128) ++ rest) (omega arith)
          (omega arith) (omega arith) (rw byte (omega arith)) in
      rw (varint_more (suc n) v (ground arith))
        (more ∙ rw byte (later ∙ ap (λ w. some (w, rest)) (rw next (omega arith))))
  | inr little ↦
      rw (varint_last (suc n) v (ground arith))
        (read_last v acc s rest (ground arith) (omega arith))
]

varint_bytes-length : (fuel v : ℕ) → length (varint_bytes fuel v) ≤ fuel
unfolding varint_bytes
varint_bytes-length zero v = omega arith
varint_bytes-length (suc fuel) v = ground (arith, varint_bytes-length fuel (v / 128))

-- Each 64-bit value is written in at most the ten bytes that `tmp` has room for, and the reader
-- takes the same value back from them, whatever bytes follow, and leaves those.
pub rd_varint-varint_bytes :
    (v : ℕ) (rest : List ℕ)
    → v < u64_mod
    → (length (varint_bytes 10 v) ≤ 10) × (rd_varint (varint_bytes 10 v ++ rest) ≡ some (v, rest))
unfolding rd_varint
rd_varint-varint_bytes v rest h = (
  varint_bytes-length 10 v,
  read_back 9 0 0 v rest refl h (omega arith) ∙ ap (λ w. some (w, rest)) (omega arith),
)
