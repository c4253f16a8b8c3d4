-- ===== src/Hpack/Integers.antt =====
-- The integers of a header block: what a writer emits with enough room, the reader takes back.
use Prim.Native.Nat.{bit_and, bit_or}
use native.Mathlib.Omega.{pow_step}
use strimserver.Prelude.{
  ℕ, zero, suc, ◌+◌, ◌-◌, ◌*◌, ◌/◌, ◌%◌, ◌^◌, ◌≤◌, ◌<◌, ◌≡◌, refl, ap, ◌∙◌, Bool, true, false, not,
  ◌&&◌, Option, some, List, [], ◌∷◌, ◌++◌, arith, ltb, leb, ◌==◌, length, ltb→lt, table,
  table_entry, Bool-cases, inl, inr,
}
use strimserver.Protobuf.Varint.{byte_bits, shifted, place_split}
use strimserver.Hpack.{int_max, read_int_from, read_int, write_rest, write_int_ex}

-- The integers that the encoder writes.
pub data Form : Type 0 where
  indexed literal resized text : Form

abbrev pub prefix_of : Form → ℕ
prefix_of indexed = 7
prefix_of literal = 6
prefix_of resized = 5
prefix_of text = 7

abbrev pub pattern_of : Form → ℕ
pattern_of indexed = 0x80
pattern_of literal = 0x40
pattern_of resized = 0x20
pattern_of text = 0

-- What the tests of the decoder see in the first byte.
abbrev pub marks : Form → ℕ → Bool
marks indexed b = not (bit_and b 0x80 == 0)
marks literal b = (bit_and b 0x80 == 0) && (bit_and b 0xc0 == 0x40)
marks resized b = (bit_and b 0x80 == 0) && not (bit_and b 0xc0 == 0x40) && (bit_and b 0xe0 == 0x20)
marks text b = bit_and b 0x80 == 0

abbrev row : Form → ℕ → Bool
row f v =
    let b = bit_or (pattern_of f) v % 256 in marks f b && (bit_and b (2 ^ prefix_of f - 1) == v)

rows : (f : Form) → table (row f) (2 ^ prefix_of f) ≡ true
unfolding table
rows indexed = refl
rows literal = refl
rows resized = refl
rows text = refl

first_byte :
    (f : Form) (v : ℕ)
    → v < 2 ^ prefix_of f
    → (marks f (bit_or (pattern_of f) v % 256) ≡ true)
      × (bit_and (bit_or (pattern_of f) v % 256) (2 ^ prefix_of f - 1) ≡ v)
first_byte f v small =
    let entry = table_entry (row f) (2 ^ prefix_of f) v small (rows f) in
    (ground (arith, entry), ground (arith, entry))

-- Bytes in no more than `most` places, from which the reader's loop takes the value.
pub record IsTail (written : Option (List ℕ)) (most value acc shift : ℕ) : Type 0 where
  pub bytes : List ℕ
  pub is : written ≡ some bytes
  pub short : length bytes ≤ most
  pub back :
      (rest : List ℕ)
      → read_int_from (bytes ++ rest) acc shift ≡ some (acc + value * 2 ^ shift, rest)

last-IsTail :
    (cap v acc shift : ℕ)
    → v < 128
    → acc + v * 2 ^ shift ≤ int_max
    → IsTail (write_rest (suc cap) v) 1 v acc shift
unfolding write_rest read_int_from
last-IsTail cap v acc shift low fits =
    let bits = byte_bits v (omega arith) in
    let stop : leb 0x80 v ≡ false = ground arith in
    let whole : v % 256 ≡ v = omega arith in
    let same : bit_and v 0x7f ≡ v = omega (arith, bits.1) in
    let ended : bit_and v 0x80 ≡ 0 = omega (arith, bits.2) in
    let within : ltb int_max (acc + v * 2 ^ shift) ≡ false = ground arith in
    record {
      bytes = v ∷ [];
      is = rw (stop, whole) refl;
      short = omega arith;
      back = λ rest. rw (same, ended, within) refl;
    }

-- With `n` more bytes to go.
rest-IsTail :
    (n cap v acc shift : ℕ)
    → shift + 7 * n ≡ 28
    → v < 8 * 128 ^ n
    → suc n ≤ cap
    → acc + v * 2 ^ shift ≤ int_max
    → IsTail (write_rest cap v) (suc n) v acc shift
unfolding write_rest read_int_from
rest-IsTail n zero v acc shift place small room fits = absurd (omega (arith, room))
rest-IsTail zero (suc cap) v acc shift place small room fits =
    last-IsTail cap v acc shift (omega arith) fits
rest-IsTail (suc n) (suc cap) v acc shift place small room fits = elim (Bool-cases (leb 128 v)) [
  | inl big ↦
      let split = place_split v (2 ^ shift) in
      let next = shifted shift in
      let later =
        rest-IsTail n cap (v / 128) (acc + (v % 128) * 2 ^ shift) (shift + 7) (omega arith)
          (omega (arith, pow_step 128 n)) (omega arith) (rw next (omega arith)) in
      let bits = byte_bits (v % 128 + 128) (omega arith) in
      let masked = byte_bits (v % 256) (omega arith) in
      let low : bit_and (v % 256) 0x7f ≡ v % 128 = omega (arith, masked.1) in
      let joined = byte_bits (v % 128) (omega arith) in
      let byte : bit_or (v % 128) 0x80 ≡ v % 128 + 128 = omega (arith, joined.0) in
      let value : bit_and (v % 128 + 128) 0x7f ≡ v % 128 = omega (arith, bits.1) in
      let go : bit_and (v % 128 + 128) 0x80 ≡ 128 = omega (arith, bits.2) in
      let within : ltb 28 (shift + 7) ≡ false = ground arith in
      let sum : acc + v % 128 * 2 ^ shift + v / 128 * 2 ^ (shift + 7) ≡ acc + v * 2 ^ shift =
        rw next (omega arith) in
      record {
        bytes = (v % 128 + 128) ∷ later.bytes;
        is = rw (big, low, byte, later.is) refl;
        short = omega (arith, later.short);
        back = λ rest. rw (value, go, within) (later.back rest ∙ ap (λ w. some (w, rest)) sum);
      }
  | inr little ↦
      let one = last-IsTail cap v acc shift (ground arith) fits in
      record { bytes = one.bytes; is = one.is; short = omega (arith, one.short); back = one.back }
]

-- An integer in a block: its first byte tells the form, and the reader takes the value back.
pub record IsInt (f : Form) (v : ℕ) (written : Option (List ℕ)) : Type 0 where
  pub first : ℕ
  pub more : List ℕ
  pub is : written ≡ some (first ∷ more)
  pub short : length more ≤ 5
  pub marked : marks f first ≡ true
  pub back : (rest : List ℕ) → read_int (prefix_of f) (first ∷ (more ++ rest)) ≡ some (v, rest)

mask_below : (f : Form) → 2 ^ prefix_of f - 1 < 2 ^ prefix_of f
mask_below indexed = omega arith
mask_below literal = omega arith
mask_below resized = omega arith
mask_below text = omega arith

-- Enough room is six bytes.
pub write_int_ex-IsInt :
    (f : Form) (cap v : ℕ)
    → v ≤ int_max
    → 6 ≤ cap
    → IsInt f v (write_int_ex cap v (prefix_of f) (pattern_of f))
unfolding write_int_ex read_int
write_int_ex-IsInt f zero v small room = absurd (omega (arith, room))
write_int_ex-IsInt f (suc cap) v small room =
    let mask = 2 ^ prefix_of f - 1 in
    elim (Bool-cases (ltb v mask)) [
      | inl short ↦
          let byte = first_byte f v (omega (arith, mask_below f, ltb→lt v mask short)) in
          record {
            first = bit_or (pattern_of f) v % 256;
            more = [];
            is = rw short refl;
            short = omega arith;
            marked = byte.0;
            back = λ rest. rw (byte.1, short) refl;
          }
      | inr long ↦
          let byte = first_byte f mask (mask_below f) in
          let full : ltb mask mask ≡ false = ground arith in
          let tail =
            rest-IsTail 4 cap (v - mask) mask 0 refl (omega arith) (omega arith)
              (ground (arith, long)) in
          let sum : mask + (v - mask) * 1 ≡ v = ground (arith, long) in
          record {
            first = bit_or (pattern_of f) mask % 256;
            more = tail.bytes;
            is = rw (long, tail.is) refl;
            short = tail.short;
            marked = byte.0;
            back = λ rest. rw (byte.1, full) (tail.back rest ∙ ap (λ w. some (w, rest)) sum);
          }
    ]
