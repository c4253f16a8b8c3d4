-- ===== src/Base64/RoundTrip.antt =====
-- What base64_encode writes, base64_decode reads back.
use strimserver.Prelude.{
  ℕ, ◌+◌, ◌-◌, ◌*◌, ◌/◌, ◌%◌, ◌^◌, ◌≤◌, ◌<◌, ◌≡◌, refl, ap, ◌∙◌, Bool, true, false, not, ◌&&◌, ◌||◌,
  none, some, List, [], ◌∷◌, ◌++◌, arith, ltb, ◌==◌, length, subst, table, table_entry, All,
}
use strimserver.Base64.{
  pad, b64_char, encode_from, encode_need, base64_encode, b64_value, tail_value, group_bytes,
  decode_group, decode_from, decode_stored, base64_decode, Stored, store_bytes,
}

-- A character has a value that is not '=', and that value.
abbrev reads_as : ℕ → ℕ → Bool
reads_as c x = elim (b64_value c) [ none ↦ false | some v ↦ (v == x) && not (c == pad) ]

char_table : table (λ x. reads_as (b64_char x) x) 64 ≡ true
unfolding table b64_char b64_value
char_table = refl

reads_as_sound : (c x : ℕ) → reads_as c x ≡ true → (b64_value c ≡ some x) × ((c == pad) ≡ false)
reads_as_sound c x h = ground arith

b64_char_mod : (x : ℕ) → b64_char (x % 64) ≡ b64_char x
unfolding b64_char
b64_char_mod x = let twice : (x % 64) % 64 ≡ x % 64 = omega arith in rw (twice, b64_char) refl

b64_value-b64_char :
    (x : ℕ) → (b64_value (b64_char x) ≡ some (x % 64)) × ((b64_char x == pad) ≡ false)
b64_value-b64_char x =
    subst (λ c. (b64_value c ≡ some (x % 64)) × ((c == pad) ≡ false)) (b64_char_mod x)
      (reads_as_sound (b64_char (x % 64)) (x % 64)
        (table_entry (λ x. reads_as (b64_char x) x) 64 (x % 64) (omega arith) char_table))

-- Four characters that were written for four numbers.
decode_group-b64_char :
    (x0 x1 x2 x3 : ℕ)
    → (decode_group (b64_char x0) (b64_char x1) (b64_char x2) (b64_char x3)
        ≡ some (group_bytes 0 0 (x0 % 64) (x1 % 64) (x2 % 64) (x3 % 64)))
      × (decode_group (b64_char x0) (b64_char x1) (b64_char x2) pad
          ≡ some (group_bytes 0 pad (x0 % 64) (x1 % 64) (x2 % 64) 0))
      × (decode_group (b64_char x0) (b64_char x1) pad pad
          ≡ some (group_bytes pad pad (x0 % 64) (x1 % 64) 0 0))
unfolding decode_group tail_value group_bytes
decode_group-b64_char x0 x1 x2 x3 =
    let (r0, n0) = b64_value-b64_char x0 in
    let (r1, n1) = b64_value-b64_char x1 in
    let (r2, n2) = b64_value-b64_char x2 in
    let (r3, n3) = b64_value-b64_char x3 in
    (rw (n2, n3, r0, r1, r2, r3) refl, rw (n2, r0, r1, r2) refl, rw (r0, r1) refl)

-- The four sextets of 24 bits make the three bytes again.
group_three :
    (a b c : ℕ)
    → a < 256
    → b < 256
    → c < 256
    → let v = a * 2 ^ 16 + b * 2 ^ 8 + c in
      group_bytes 0 0 (v / 2 ^ 18 % 64) (v / 2 ^ 12 % 64) (v / 2 ^ 6 % 64) (v % 64) ≡ a ∷ b ∷ c ∷ []
unfolding group_bytes
group_three a b c ha hb hc =
    let v = a * 2 ^ 16 + b * 2 ^ 8 + c in
    let first : ((v / 2 ^ 18 % 64) * 4 + (v / 2 ^ 12 % 64) / 16) % 256 ≡ a = omega arith in
    let second : ((v / 2 ^ 12 % 64) * 16 + (v / 2 ^ 6 % 64) / 4) % 256 ≡ b = omega arith in
    let third : ((v / 2 ^ 6 % 64) * 64 + v % 64) % 256 ≡ c = omega arith in
    rw (first, second, third) refl

group_two :
    (a b : ℕ)
    → a < 256
    → b < 256
    → let v = a * 2 ^ 16 + b * 2 ^ 8 in
      group_bytes 0 pad (v / 2 ^ 18 % 64) (v / 2 ^ 12 % 64) (v / 2 ^ 6 % 64) 0 ≡ a ∷ b ∷ []
unfolding group_bytes
group_two a b ha hb =
    let v = a * 2 ^ 16 + b * 2 ^ 8 in
    let first : ((v / 2 ^ 18 % 64) * 4 + (v / 2 ^ 12 % 64) / 16) % 256 ≡ a = omega arith in
    let second : ((v / 2 ^ 12 % 64) * 16 + (v / 2 ^ 6 % 64) / 4) % 256 ≡ b = omega arith in
    rw (first, second) refl

group_one :
    (a : ℕ)
    → a < 256
    → let v = a * 2 ^ 16 in group_bytes pad pad (v / 2 ^ 18 % 64) (v / 2 ^ 12 % 64) 0 0 ≡ a ∷ []
unfolding group_bytes
group_one a ha =
    let v = a * 2 ^ 16 in
    let first : ((v / 2 ^ 18 % 64) * 4 + (v / 2 ^ 12 % 64) / 16) % 256 ≡ a = omega arith in
    rw first refl

abbrev all_stored : List ℕ → Stored
all_stored bytes = record { accepted = true; bytes = bytes }

store_bytes-all :
    (bytes : List ℕ) (room : ℕ) → length bytes ≤ room → store_bytes bytes room ≡ all_stored bytes
unfolding store_bytes
store_bytes-all [] room fits = refl
store_bytes-all (b ∷ bytes) room fits =
    let some_room : ltb room 1 ≡ false = ground arith in
    let later = store_bytes-all bytes (room - 1) (omega (arith, fits)) in rw (some_room, later) refl

decode_step :
    (c0 c1 c2 c3 room : ℕ) (rest bytes out : List ℕ)
    → decode_group c0 c1 c2 c3 ≡ some bytes
    → length bytes ≤ room
    → decode_from rest (room - length bytes) ≡ all_stored out
    → decode_from (c0 ∷ c1 ∷ c2 ∷ c3 ∷ rest) room ≡ all_stored (bytes ++ out)
unfolding decode_from
decode_step c0 c1 c2 c3 room rest bytes out group fits later =
    rw (group, decode_from) (rw (store_bytes-all bytes room fits, later) refl)

decode_from-encode_from :
    (src : List ℕ) (room : ℕ)
    → All (λ x. x < 256) src
    → length src ≤ room
    → decode_from (encode_from src) room ≡ all_stored src
unfolding encode_from decode_from
decode_from-encode_from [] room bytes fits = refl
decode_from-encode_from (a ∷ []) room (ha, _) fits =
    let v = a * 2 ^ 16 in
    decode_step (b64_char (v / 2 ^ 18)) (b64_char (v / 2 ^ 12)) pad pad room [] (a ∷ []) []
      ((decode_group-b64_char (v / 2 ^ 18) (v / 2 ^ 12) 0 0).2 ∙ ap some (group_one a ha)) fits refl
decode_from-encode_from (a ∷ b ∷ []) room (ha, (hb, _)) fits =
    let v = a * 2 ^ 16 + b * 2 ^ 8 in
    decode_step (b64_char (v / 2 ^ 18)) (b64_char (v / 2 ^ 12)) (b64_char (v / 2 ^ 6)) pad room []
      (a ∷ b ∷ []) []
      ((decode_group-b64_char (v / 2 ^ 18) (v / 2 ^ 12) (v / 2 ^ 6) 0).1
        ∙ ap some (group_two a b ha hb))
      fits refl
decode_from-encode_from (a ∷ b ∷ c ∷ rest) room (ha, (hb, (hc, hs))) fits =
    let v = a * 2 ^ 16 + b * 2 ^ 8 + c in
    decode_step (b64_char (v / 2 ^ 18)) (b64_char (v / 2 ^ 12)) (b64_char (v / 2 ^ 6)) (b64_char v)
      room (encode_from rest) (a ∷ b ∷ c ∷ []) rest
      ((decode_group-b64_char (v / 2 ^ 18) (v / 2 ^ 12) (v / 2 ^ 6) v).0
        ∙ ap some (group_three a b c ha hb hc))
      (omega (arith, fits)) (decode_from-encode_from rest (room - 3) hs (omega (arith, fits)))

encode_from-length : (src : List ℕ) → length (encode_from src) ≡ 4 * ((length src + 2) / 3)
unfolding encode_from
encode_from-length [] = refl
encode_from-length (a ∷ []) = refl
encode_from-length (a ∷ b ∷ []) = refl
encode_from-length (a ∷ b ∷ c ∷ rest) = omega (arith, encode_from-length rest)

not_less : (n : ℕ) → ltb n n ≡ false
not_less n = ground arith

whole_groups : (m n : ℕ) → m ≡ 4 * n → 0 < n → ((m == 0) || not (m % 4 == 0)) ≡ false
whole_groups m n h pos =
    let groups : m % 4 ≡ 0 = omega arith in
    let some_group : (m == 0) ≡ false = ground arith in rw (groups, some_group) refl

-- Bytes, at least one, that are encoded into a buffer of exactly the size that strim_base64_encode
-- asks for leave one place for the NUL, and decode to the same bytes in any buffer that has room
-- for those.
pub base64_decode-base64_encode :
    (src : List ℕ) (out_cap : ℕ)
    → All (λ x. x < 256) src
    → 0 < length src
    → length src ≤ out_cap
    → (text : List ℕ) × (base64_encode src (encode_need (length src)) ≡ some text)
      × (length text + 1 ≡ encode_need (length src))
      × (base64_decode text out_cap ≡ some src)
unfolding base64_encode encode_need base64_decode decode_stored
base64_decode-base64_encode src out_cap bytes some_byte fits =
    let n = encode_from-length src in
    let room = not_less (4 * ((length src + 2) / 3) + 1) in
    let whole =
      whole_groups (length (encode_from src)) ((length src + 2) / 3) n (omega (arith, some_byte)) in
    (
      encode_from src,
      rw room refl,
      omega (arith, n),
      rw (whole, decode_from-encode_from src out_cap bytes fits) refl,
    )
