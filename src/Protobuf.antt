-- ===== src/Protobuf.antt =====
-- The protobuf wire helpers of core/controller/c/containerd/minipb.h. A byte is a number under 256.
-- A reader is the bytes that it has left; after a refusal (-1, here `none`) no caller reads on.
-- `alloc` arguments are what realloc answers to one call of mpb_reserve.
pub mod Varint
pub mod Fields
pub mod Walk
use strimserver.Prelude.{
  ℕ, zero, suc, ◌+◌, ◌-◌, ◌*◌, ◌/◌, ◌%◌, ◌^◌, Bool, true, false, not, Option, none, some, List, [],
  ◌∷◌, ◌++◌, ltb, leb, ◌==◌, if◌then◌else◌, length,
}
use Prim.Native.Nat.{bit_and, bit_or}
use strimserver.Controller.Types.{u64_mod}

-- MPB_WT_*
abbrev pub wt_varint : ℕ
wt_varint = 0

abbrev pub wt_64bit : ℕ
wt_64bit = 1

abbrev pub wt_len : ℕ
wt_len = 2

abbrev pub wt_32bit : ℕ
wt_32bit = 5

-- mpb_buf: `bytes` holds the first `len` bytes.
pub record Buf : Type 0 where
  pub bytes : List ℕ
  pub cap : ℕ

-- `while (ncap < need) ncap *= 2;`
unfoldable pub double_until : (fuel need ncap : ℕ) → ℕ
double_until zero need ncap = ncap
double_until (suc fuel) need ncap =
    let rest = double_until fuel need (ncap * 2) in if ltb ncap need then rest else ncap

unfoldable pub reserve : Bool → Buf → ℕ → Buf × Bool
unfolding double_until
reserve alloc b extra =
    let need = length b.bytes + extra in
    let ncap = double_until need need (if b.cap == 0 then 64 else b.cap) in
    if leb need b.cap
    then (b, true)
    else if not alloc
    then (b, false)
    else (record b { cap = ncap }, true)

-- A reserve and the copy behind it.
unfoldable pub append : Bool → Buf → List ℕ → Buf
append alloc b bytes =
    let (b', reserved) = reserve alloc b (length bytes) in
    if reserved then record b' { bytes = b'.bytes ++ bytes } else b'

unfoldable pub put_u8 : Bool → Buf → ℕ → Buf
put_u8 alloc b v = append alloc b (v ∷ [])

-- The loop of mpb_put_varint: `tmp` has room for 10 bytes, which are the fuel.
unfoldable pub varint_bytes : (fuel v : ℕ) → List ℕ
varint_bytes zero v = []
varint_bytes (suc fuel) v =
    let rest = varint_bytes fuel (v / 128) in
    if leb 0x80 v then bit_or (v % 256) 0x80 ∷ rest else v ∷ []

unfoldable pub put_varint : Bool → Buf → ℕ → Buf
put_varint alloc b v = append alloc b (varint_bytes 10 v)

-- `field << 3 | wiretype`: a wire type has three bits, so the `|` is a sum.
unfoldable pub put_tag : Bool → Buf → ℕ → ℕ → Buf
put_tag alloc b field wiretype = put_varint alloc b ((field * 8) % u64_mod + wiretype)

unfoldable pub put_len : Bool → Bool → Buf → List ℕ → Buf
put_len len_alloc data_alloc b bytes =
    append data_alloc (put_varint len_alloc b (length bytes)) bytes

-- What realloc answers to the up to three reserves of one field.
pub record PutEnv : Type 0 where
  pub tag_alloc : Bool
  pub len_alloc : Bool
  pub data_alloc : Bool

-- mpb_put_bytes; mpb_put_string and mpb_put_message differ in how they find the bytes.
unfoldable pub put_bytes : PutEnv → Buf → ℕ → List ℕ → Buf
put_bytes env b field [] = b
put_bytes env b field (x ∷ xs) =
    put_len env.len_alloc env.data_alloc (put_tag env.tag_alloc b field wt_len) (x ∷ xs)

-- `v` is the value after the conversion to uint64_t.
unfoldable pub put_int64 : PutEnv → Buf → ℕ → ℕ → Buf
put_int64 env b field v =
    if v == 0 then b else put_varint env.len_alloc (put_tag env.tag_alloc b field wt_varint) v

unfoldable pub put_bool : PutEnv → Buf → ℕ → Bool → Buf
put_bool env b field v =
    if not v then b else put_u8 env.len_alloc (put_tag env.tag_alloc b field wt_varint) 1

-- The bits of `v` stand below `shift`, so the `|=` is a sum; the shift wraps at 64 bits.
unfoldable pub rd_varint_from : List ℕ → (v shift : ℕ) → Option (ℕ × List ℕ)
rd_varint_from [] v shift = none
rd_varint_from (b ∷ rest) v shift =
    let v' = v + (bit_and b 0x7f * 2 ^ shift) % u64_mod in
    let later = rd_varint_from rest v' (shift + 7) in
    if bit_and b 0x80 == 0 then some (v', rest) else if ltb 63 (shift + 7) then none else later

unfoldable pub rd_varint : List ℕ → Option (ℕ × List ℕ)
rd_varint r = rd_varint_from r 0 0

-- The field number, the wire type and the rest; `(int)` keeps 32 bits.
unfoldable pub rd_tag : List ℕ → Option (ℕ × ℕ × List ℕ)
rd_tag [] = none
rd_tag (x ∷ xs) = elim (rd_varint (x ∷ xs)) [
  | none ↦ none
  | some (tag, rest) ↦ some (tag / 8 % 2 ^ 32, tag % 8, rest)
]

unfoldable pub split_at : ℕ → List ℕ → List ℕ × List ℕ
split_at zero xs = ([], xs)
split_at (suc n) [] = ([], [])
split_at (suc n) (x ∷ xs) = let (taken, rest) = split_at n xs in (x ∷ taken, rest)

unfoldable pub rd_len : List ℕ → Option (List ℕ × List ℕ)
rd_len r = elim (rd_varint r) [
  | none ↦ none
  | some (len, rest) ↦ if ltb (length rest) len then none else some (split_at len rest)
]

-- The skip of a fixed number of bytes.
unfoldable pub skip_fixed : ℕ → List ℕ → Option (List ℕ)
skip_fixed n r = if ltb (length r) n then none else some (split_at n r).1

unfoldable pub rd_skip : List ℕ → ℕ → Option (List ℕ)
rd_skip r wiretype =
    if wiretype == wt_varint
    then elim (rd_varint r) [ none ↦ none | some (v, rest) ↦ some rest ]
    else if wiretype == wt_64bit
    then skip_fixed 8 r
    else if wiretype == wt_len
    then elim (rd_len r) [ none ↦ none | some (payload, rest) ↦ some rest ]
    else if wiretype == wt_32bit
    then skip_fixed 4 r
    else none
