-- ===== src/Hpack/RoundTrip.antt =====
-- A field that the encoder writes, the decoder reads back, and both tables stay the same.
use Prim.Native.Nat.{bit_and}
use strimserver.Prelude.{
  ℕ, suc, ◌+◌, ◌-◌, ◌%◌, ◌^◌, ◌≤◌, ◌≡◌, refl, ap, sym, ◌∙◌, true, false, Option, some, List, [],
  ◌∷◌, ◌++◌, append_assoc, arith, ltb, ◌==◌, if◌then◌else◌, length, length-append, Bool-cases,
  and_both, inl, inr, ◌>>=◌,
}
use strimserver.Protobuf.Fields.{split_at-append}
use strimserver.Hpack.{int_max, read_int, write_int_ex, write_int}
use strimserver.Hpack.Huffman.{HuffCode}
use strimserver.Hpack.Table.{Dyn, dyn_add}
use strimserver.Hpack.Bounds.{IsTable, dyn_add-IsTable}
use strimserver.Hpack.Integers.{indexed, literal, text, marks, write_int_ex-IsInt}
use strimserver.Hpack.Indices.{pair_index-field_at, name_index-field_resolve_name}
use strimserver.Hpack.Block.{
  Field, read_string, decode_text, write_string, field_resolve_name, read_literal, indexed_field,
  literal_field, decode_round,
}
use strimserver.Hpack.Encode.{
  Written, pair_index, name_index, add_string, literal_bytes, encode_field,
}

-- A text that was written with its length.
record IsString (codes : List HuffCode) (s : List ℕ) (written : Option (List ℕ)) : Type 0 where
  bytes : List ℕ
  is : written ≡ some bytes
  short : length bytes ≤ 6 + length s
  back : (rest : List ℕ) → read_string codes (bytes ++ rest) ≡ some (s, rest)

write_string-IsString :
    (codes : List HuffCode) (left : ℕ) (s : List ℕ)
    → length s ≤ int_max
    → 6 + length s ≤ left
    → IsString codes s (write_string left s)
unfolding write_string write_int read_string decode_text
write_string-IsString codes left s small room =
    let n = write_int_ex-IsInt text left (length s) small (omega (arith, room)) in
    let whole : length s % 2 ^ 32 ≡ length s = omega (arith, small) in
    let fits : ltb left (suc (length n.more) + length s) ≡ false = ground (arith, n.short, room) in
    let plain = n.marked in
    record {
      bytes = n.first ∷ (n.more ++ s);
      is = rw (whole, n.is, fits) refl;
      short = omega (arith, length-append n.more s, n.short);
      back = λ rest.
          let enough : ltb (length (s ++ rest)) (length s) ≡ false =
            ground (arith, length-append s rest) in
          rw (append_assoc n.more s rest, n.back (s ++ rest), enough, plain, split_at-append s rest)
            refl;
    }

-- The index of a literal field with the name behind it, if it is not indexed.
record IsHead (codes : List HuffCode) (dyn : Dyn) (name written : List ℕ) : Type 0 where
  first : ℕ
  more : List ℕ
  is : written ≡ first ∷ more
  marked : marks literal first ≡ true
  short : length written ≤ 12 + length name
  index : ℕ
  behind : List ℕ → List ℕ
  read : (rest : List ℕ) → read_int 6 (written ++ rest) ≡ some (index, behind rest)
  resolved :
      (rest : List ℕ)
      → (if index == 0
          then read_string codes (behind rest)
          else field_resolve_name dyn index >>= (λ named. some (named, behind rest)))
        ≡ some (name, rest)

add_string-IsString :
    (codes : List HuffCode) (limit : ℕ) (written s : List ℕ)
    → length s ≤ int_max
    → length written + 6 + length s ≤ limit
    → (added : List ℕ) × (add_string limit written s ≡ written ++ added)
      × (length added ≤ 6 + length s)
      × ((rest : List ℕ) → read_string codes (added ++ rest) ≡ some (s, rest))
unfolding add_string
add_string-IsString codes limit written s small room =
    let str = write_string-IsString codes (limit - length written) s small (omega (arith, room)) in
    (str.bytes, rw (str.is, add_string) refl, str.short, str.back)

module _ (codes : List HuffCode) (dyn : Dyn) (table : IsTable dyn) (limit : ℕ) where
  -- What literal_bytes writes before the value.
  head_bytes : (index : ℕ) → (name first : List ℕ) → List ℕ
  head_bytes index name first = if index == 0 then add_string limit first name else first

  record IsHeaded (name : List ℕ) (index : ℕ) : Type 0 where
    opening : List ℕ
    is : write_int_ex limit index 6 0x40 ≡ some opening
    headed : IsHead codes dyn name (head_bytes index name opening)

  head-IsHeaded :
      (name : List ℕ)
      → length name ≤ int_max
      → 12 + length name ≤ limit
      → IsHeaded name (name_index dyn name)
  unfolding head_bytes
  head-IsHeaded name small room = elim (Bool-cases (name_index dyn name == 0)) [
    | inl new ↦
        let zero_index : name_index dyn name ≡ 0 = ground (arith, new) in
        let n = write_int_ex-IsInt literal limit 0 (omega arith) (omega (arith, room)) in
        let (added, is, short, back) =
          add_string-IsString codes limit (n.first ∷ n.more) name small
            (omega (arith, n.short, room)) in
        rw zero_index (record {
          opening = n.first ∷ n.more;
          is = n.is;
          headed = record {
            first = n.first;
            more = n.more ++ added;
            is = is;
            marked = n.marked;
            short = rw is (omega (arith, length-append n.more added, n.short, short));
            index = 0;
            behind = λ rest. added ++ rest;
            read = λ rest. rw (is, append_assoc n.more added rest) (n.back (added ++ rest));
            resolved = back;
          };
        })
    | inr known ↦
        let (resolves, few) = name_index-field_resolve_name dyn name table known in
        let n = write_int_ex-IsInt literal limit (name_index dyn name) few (omega (arith, room)) in
        record {
          opening = n.first ∷ n.more;
          is = n.is;
          headed = rw known (record {
            first = n.first;
            more = n.more;
            is = refl;
            marked = n.marked;
            short = omega (arith, n.short);
            index = name_index dyn name;
            behind = λ rest. rest;
            read = n.back;
            resolved = λ rest. rw (known, resolves) refl;
          });
        }
  ]

  -- A field as it was written, and as the decoder takes it.
  pub record IsEncoded (f : Field) (written : Option Written) : Type 0 where
    pub first : ℕ
    pub more : List ℕ
    pub after : Dyn
    pub is : written ≡ some (record { bytes = first ∷ more; table = after })
    pub kept : IsTable after
    pub short : length (first ∷ more) ≤ 18 + length f.name + length f.value
    pub back :
        (rest : List ℕ)
        → decode_round codes dyn first (first ∷ (more ++ rest))
          ≡ some (record { decoded = f ∷ []; table = after; left = rest })

  indexed-IsEncoded :
      (f : Field)
      → 6 ≤ limit
      → (pair_index dyn f.name f.value == 0) ≡ false
      → IsEncoded f (encode_field dyn limit f.name f.value)
  unfolding encode_field decode_round indexed_field
  indexed-IsEncoded f room known =
      let (same, few) = pair_index-field_at dyn f.name f.value table known in
      let n = write_int_ex-IsInt indexed limit (pair_index dyn f.name f.value) few room in
      record {
        first = n.first;
        more = n.more;
        after = dyn;
        is = rw (known, n.is) refl;
        kept = table;
        short = omega (arith, n.short);
        back = λ rest. rw (n.marked, n.back rest, same) refl;
      }

  literal_bytes_lem :
      (index : ℕ) (name value : List ℕ) {opening : List ℕ}
      → write_int_ex limit index 6 0x40 ≡ some opening
      → literal_bytes limit index name value
        ≡ some (add_string limit (head_bytes index name opening) value)
  unfolding literal_bytes head_bytes
  literal_bytes_lem index name value e = rw e refl

  -- A literal field, behind its head.
  literal-IsEncoded :
      (f : Field) (head : IsHeaded f.name (name_index dyn f.name))
      → length f.value ≤ int_max
      → 18 + length f.name + length f.value ≤ limit
      → (pair_index dyn f.name f.value == 0) ≡ true
      → IsEncoded f (encode_field dyn limit f.name f.value)
  unfolding encode_field decode_round literal_field read_literal
  literal-IsEncoded f head small room new =
      let h = head.headed in
      let written = head_bytes (name_index dyn f.name) f.name head.opening in
      let (added, is, short, back) =
        add_string-IsString codes limit written f.value small (omega (arith, h.short, room)) in
      let (unindexed, kind) =
        and_both (bit_and h.first 0x80 == 0) (bit_and h.first 0xc0 == 0x40) h.marked in
      let wrote : literal_bytes limit (name_index dyn f.name) f.name f.value
          ≡ some (h.first ∷ (h.more ++ added)) =
        literal_bytes_lem (name_index dyn f.name) f.name f.value head.is
        ∙ ap some (is ∙ ap (λ w. w ++ added) h.is) in
      let all : (h.first ∷ h.more) ++ added ≡ written ++ added = ap (λ w. w ++ added) (sym h.is) in
      record {
        first = h.first;
        more = h.more ++ added;
        after = dyn_add true dyn f.name f.value;
        is = rw (new, wrote) refl;
        kept = dyn_add-IsTable true dyn f.name f.value table;
        short = omega (arith, ap length all, length-append written added, h.short, short);
        back = λ rest.
            let shape : h.first ∷ ((h.more ++ added) ++ rest) ≡ written ++ (added ++ rest) =
              ap (λ w. w ++ rest) all ∙ append_assoc written added rest in
            rw
              (
                shape,
                unindexed,
                kind,
                h.read (added ++ rest),
                h.resolved (added ++ rest),
                back rest,
              )
              refl;
      }

  pub encode_field-IsEncoded :
      (f : Field)
      → 18 + length f.name + length f.value ≤ limit
      → limit ≤ int_max
      → IsEncoded f (encode_field dyn limit f.name f.value)
  encode_field-IsEncoded f room few = elim (Bool-cases (pair_index dyn f.name f.value == 0)) [
    | inl new ↦
        let head = head-IsHeaded f.name (omega (arith, room, few)) (omega (arith, room)) in
        literal-IsEncoded f head (omega (arith, room, few)) room new
    | inr known ↦ indexed-IsEncoded f (omega (arith, room)) known
  ]
