-- ===== src/Hpack/Encode.antt =====
-- The encoder of core/controller/c/containerd/h2c.c (hpack_encode_field, build_request_headers). A
-- writer gets the room that is left in the out array; malloc succeeds.
use Prim.Native.String.{String}
use strimserver.Prelude.{
  ℕ, ◌+◌, ◌-◌, Bool, true, false, Option, none, some, List, [], ◌∷◌, ◌++◌, ◌>>=◌, ◌==◌,
  if◌then◌else◌, length,
}
use strimserver.Spec.{chars}
use strimserver.Hpack.{write_int_ex}
use strimserver.Hpack.Table.{Dyn, dyn_add, dyn_find_pair, dyn_find_name}
use strimserver.Hpack.Static.{static_find_pair, static_find_name}
use strimserver.Hpack.Block.{Field, static_count, write_string}

-- What was written, and the table behind it.
pub record Written : Type 0 where
  pub bytes : List ℕ
  pub table : Dyn

-- An index of the dynamic table among all the indices; 0 stays 0.
abbrev pub offset : ℕ → ℕ
offset d = if d == 0 then 0 else static_count + d

-- The static table first.
abbrev pub first_of : ℕ → ℕ → ℕ
first_of static dynamic = if static == 0 then offset dynamic else static

unfoldable pub pair_index : Dyn → (name value : List ℕ) → ℕ
pair_index dyn name value = first_of (static_find_pair name value) (dyn_find_pair dyn name value)

unfoldable pub name_index : Dyn → (name : List ℕ) → ℕ
name_index dyn name = first_of (static_find_name name) (dyn_find_name dyn name)

-- `n += hpack_write_string(out + n, cap - n, ...)`: a text that does not fit adds nothing.
unfoldable pub add_string : (cap : ℕ) → List ℕ → List ℕ → List ℕ
add_string cap written s = elim (write_string (cap - length written) s) [
  | none ↦ written
  | some text ↦ written ++ text
]

-- The bytes of a literal field. `if (n == 0)` behind the strings is never true.
unfoldable pub literal_bytes : (cap index : ℕ) → (name value : List ℕ) → Option (List ℕ)
unfolding add_string
literal_bytes cap index name value = write_int_ex cap index 6 0x40 >>= (λ first.
    some (add_string cap (if index == 0 then add_string cap first name else first) value))

unfoldable pub encode_field : Dyn → (cap : ℕ) → (name value : List ℕ) → Option Written
unfolding pair_index name_index literal_bytes
encode_field dyn cap name value =
    if pair_index dyn name value == 0
    then literal_bytes cap (name_index dyn name) name value
      >>= (λ bytes. some (record { bytes = bytes; table = dyn_add true dyn name value }))
    else write_int_ex cap (pair_index dyn name value) 7 0x80
      >>= (λ bytes. some (record { bytes = bytes; table = dyn }))

-- The calls of hpack_encode_field one after the other.
unfoldable pub encode_fields : Dyn → (cap : ℕ) → List Field → Option Written
unfolding encode_field
encode_fields dyn cap [] = some (record { bytes = []; table = dyn })
encode_fields dyn cap (f ∷ fields) = encode_field dyn cap f.name f.value >>= (λ w.
    encode_fields w.table (cap - length w.bytes) fields
    >>= (λ later. some (record { bytes = w.bytes ++ later.bytes; table = later.table })))

abbrev pub field : String → List ℕ → Field
field name value = record { name = chars name; value = value }

-- The fields that are not always indexed.
unfoldable pub own_fields : (path namespace : List ℕ) → List Field
own_fields path namespace =
    field ":path" path
    ∷ field ":authority" (chars "localhost")
    ∷ field "content-type" (chars "application/grpc")
    ∷ field "te" (chars "trailers")
    ∷ field "user-agent" (chars "grpc-c/1.0")
    ∷ field "containerd-namespace" namespace
    ∷ []

-- The table size update that comes first.
unfoldable pub size_bytes : (size_update : Bool) → (cap max_size : ℕ) → Option (List ℕ)
size_bytes true cap max_size = write_int_ex cap max_size 5 0x20
size_bytes false cap max_size = some []

-- `none` is -1.
unfoldable pub build_request_headers :
    (enc_size_update : Bool) → Dyn → (namespace path : List ℕ) → (cap : ℕ) → Option Written
unfolding size_bytes encode_fields own_fields
build_request_headers enc_size_update dyn namespace path cap =
    size_bytes enc_size_update cap dyn.max_size >>= (λ update.
      write_int_ex (cap - length update) 3 7 0x80 >>= (λ method.
        write_int_ex (cap - length (update ++ method)) 6 7 0x80 >>= (λ scheme.
          encode_fields dyn (cap - length (update ++ method ++ scheme)) (own_fields path namespace)
          >>= (λ rest.
              some (record {
                bytes = update ++ method ++ scheme ++ rest.bytes;
                table = rest.table;
              })))))
