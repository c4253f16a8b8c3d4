-- ===== src/Hpack/Block.antt =====
-- Strings, the block decoder and the field encoder of core/controller/c/containerd/h2c.c
-- (hpack_read_string to hpack_encode_field, and build_request_headers). malloc succeeds here, and
-- `codes` is the generated Huffman table.
use Prim.Native.Nat.{bit_and}
use strimserver.Prelude.{
  ℕ, zero, suc, ◌+◌, ◌-◌, ◌*◌, ◌%◌, ◌^◌, Bool, true, false, not, ◌&&◌, Option, none, some, List, [],
  ◌∷◌, ◌++◌, ◌>>=◌, ltb, leb, ◌==◌, if◌then◌else◌, length, get_elem?,
}
use strimserver.Protobuf.{split_at}
use strimserver.Hpack.{read_int, write_int}
use strimserver.Hpack.Huffman.{HuffCode, huff_decode}
use strimserver.Hpack.Table.{Dyn, DynEntry, dyn_get, dyn_add, dyn_set_max}
use strimserver.Hpack.Static.{StaticEntry, static_table}

-- hpack_field
pub record Field : Type 0 where
  pub name : List ℕ
  pub value : List ℕ

-- The number of entries of HPACK_STATIC.
abbrev pub static_count : ℕ
static_count = 61

unfoldable pub decode_text : List HuffCode → (huffman : Bool) → List ℕ → Option (List ℕ)
decode_text codes true raw = huff_decode codes raw (length raw * 8 + 1)
decode_text codes false raw = some raw

unfoldable pub read_string : List HuffCode → List ℕ → Option (List ℕ × List ℕ)
unfolding decode_text
read_string codes [] = none
read_string codes (b ∷ more) = read_int 7 (b ∷ more) >>= (λ r.
    if ltb (length r.1) r.0
    then none
    else decode_text codes (not (bit_and b 0x80 == 0)) (split_at r.0 r.1).0
      >>= (λ text. some (text, (split_at r.0 r.1).1)))

unfoldable pub write_string : (cap : ℕ) → List ℕ → Option (List ℕ)
write_string cap s =
    write_int cap (length s % 2 ^ 32) 7
    >>= (λ bytes. if ltb cap (length bytes + length s) then none else some (bytes ++ s))

-- The index of a dynamic entry in C: a subtraction of uint32_t.
abbrev pub dyn_index : ℕ → ℕ
dyn_index index = (index + (2 ^ 32 - static_count)) % 2 ^ 32

unfoldable pub static_field : StaticEntry → Field
static_field e = record { name = e.name; value = e.value }

unfoldable pub dyn_field : DynEntry → Field
dyn_field e = record { name = e.name; value = e.value }

-- The field of an index, in the static or in the dynamic table.
unfoldable pub field_at : Dyn → (index : ℕ) → Option Field
unfolding static_field dyn_field
field_at dyn index =
    if leb 1 index && leb index static_count
    then get_elem? static_table (index - 1) >>= (λ e. some (static_field e))
    else dyn_get dyn (dyn_index index) >>= (λ e. some (dyn_field e))

unfoldable pub field_resolve_name : Dyn → (index : ℕ) → Option (List ℕ)
unfolding field_at
field_resolve_name dyn index = field_at dyn index >>= (λ f. some f.name)

-- The index of a literal, then its name, if that is not indexed, and its value.
unfoldable pub read_literal : List HuffCode → Dyn → (prefix : ℕ) → List ℕ → Option (Field × List ℕ)
unfolding field_resolve_name read_string
read_literal codes dyn prefix input = read_int prefix input >>= (λ r.
    (if r.0 == 0
      then read_string codes r.1
      else field_resolve_name dyn r.0 >>= (λ name. some (name, r.1)))
    >>= (λ named.
        read_string codes named.1
        >>= (λ valued. some (record { name = named.0; value = valued.0 }, valued.1))))

-- What one round of the loop adds: a field, or nothing at a table size update.
pub record BlockRound : Type 0 where
  pub decoded : List Field
  pub table : Dyn
  pub left : List ℕ

unfoldable pub indexed_field : Dyn → List ℕ → Option BlockRound
unfolding field_at
indexed_field dyn input = read_int 7 input >>= (λ r.
    field_at dyn r.0 >>= (λ f. some (record { decoded = f ∷ []; table = dyn; left = r.1 })))

unfoldable pub literal_field :
    (keep : Bool) → (prefix : ℕ) → List HuffCode → Dyn → List ℕ → Option BlockRound
unfolding read_literal dyn_add
literal_field keep prefix codes dyn input = read_literal codes dyn prefix input >>= (λ r.
    some (record {
      decoded = r.0 ∷ [];
      table = if keep then dyn_add true dyn r.0.name r.0.value else dyn;
      left = r.1;
    }))

unfoldable pub size_update : Dyn → List ℕ → Option BlockRound
unfolding dyn_set_max
size_update dyn input = read_int 5 input >>= (λ r.
    if ltb dyn.max_size r.0
    then none
    else some (record { decoded = []; table = dyn_set_max dyn r.0; left = r.1 }))

-- The first byte tells the kind of the field.
unfoldable pub decode_round : List HuffCode → Dyn → (first : ℕ) → List ℕ → Option BlockRound
unfolding indexed_field literal_field size_update
decode_round codes dyn b input =
    if not (bit_and b 0x80 == 0)
    then indexed_field dyn input
    else if bit_and b 0xc0 == 0x40
    then literal_field true 6 codes dyn input
    else if bit_and b 0xe0 == 0x20
    then size_update dyn input
    else if bit_and b 0xf0 == 0
    then literal_field false 4 codes dyn input
    else if bit_and b 0xf0 == 0x10
    then literal_field false 4 codes dyn input
    else none

-- A round that is refused refuses the block.
abbrev pub or_refused : {A B : Type 0} → Option A → (A → Option (Option B)) → Option (Option B)
or_refused none next = some none
or_refused (some x) next = next x

-- hpack_decode_block: every round reads a byte, so the length of the input is fuel enough. `none` is a
-- loop that the fuel does not end, `some none` is -1.
unfoldable pub decode_from :
    List HuffCode
    → (fuel max_fields : ℕ) → Dyn
    → List ℕ
    → List Field
    → Option (Option (List Field × Dyn))
unfolding decode_round
decode_from codes fuel max_fields dyn [] fields = some (some (fields, dyn))
decode_from codes zero max_fields dyn (b ∷ rest) fields = none
decode_from codes (suc fuel) max_fields dyn (b ∷ rest) fields =
    if leb max_fields (length fields)
    then some none
    else or_refused (decode_round codes dyn b (b ∷ rest))
        (λ r. decode_from codes fuel max_fields r.table r.left (fields ++ r.decoded))

abbrev pub outcome : {A : Type 0} → Option (Option A) → Option A
outcome none = none
outcome (some result) = result

unfoldable pub decode_block :
    List HuffCode → Dyn → List ℕ → (max_fields : ℕ) → Option (List Field × Dyn)
unfolding decode_from
decode_block codes dyn input max_fields =
    outcome (decode_from codes (length input) max_fields dyn input [])
