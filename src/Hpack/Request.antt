-- ===== src/Hpack/Request.antt =====
-- The header block of a request, written and decoded as a whole.
use Prim.Native.Nat.{bit_and}
use strimserver.Prelude.{
  ◌&&◌, ℕ, ◌+◌, ◌-◌, ◌≤◌, ◌<◌, ◌≡◌, refl, ap, sym, and_both, ◌∙◌, Bool, true, false, not, Option,
  some, List, [], ◌∷◌, ◌++◌, append_assoc, append-nil, arith, ltb, ◌==◌, length, length-append,
}
use strimserver.Spec.{chars}
use strimserver.Hpack.{int_max, read_int, write_int_ex}
use strimserver.Hpack.Huffman.{HuffCode}
use strimserver.Hpack.Table.{Dyn, dyn_set_max}
use strimserver.Hpack.Bounds.{IsTable}
use strimserver.Hpack.Integers.{marks, indexed, resized, write_int_ex-IsInt}
use strimserver.Hpack.Block.{
  Field, decode_round, decode_from, decode_block, indexed_field, size_update, field_at,
  static_field, outcome,
}
use strimserver.Hpack.Static.{static_table}
use strimserver.Hpack.Encode.{
  Written, encode_fields, field, own_fields, size_bytes, build_request_headers,
}
use strimserver.Hpack.Fields.{needed, decode_rest, decode_rest-round, encode_fields-IsBlock}

-- The table of the peer before it reads the block: the encoder's, or one that the update turns into
-- the encoder's.
unfoldable pub InStep : Bool → Dyn → Dyn → Type 0
InStep true peer dyn = (dyn_set_max peer dyn.max_size ≡ dyn) × (dyn.max_size ≤ peer.max_size)
InStep false peer dyn = peer ≡ dyn

not-true : (b : Bool) → not b ≡ true → b ≡ false
not-true true e = absurd (cc e)
not-true false e = refl

module _ (codes : List HuffCode) (max_fields : ℕ) where
  indexed_round :
      (dyn : Dyn) (first : ℕ) (more rest : List ℕ) (index : ℕ) (f : Field)
      → marks indexed first ≡ true
      → read_int 7 (first ∷ (more ++ rest)) ≡ some (index, rest)
      → field_at dyn index ≡ some f
      → decode_round codes dyn first (first ∷ (more ++ rest))
        ≡ some (record { decoded = f ∷ []; table = dyn; left = rest })
  unfolding decode_round indexed_field
  indexed_round dyn first more rest index f marked read shows = rw (marked, read, shows) refl

  resized_round :
      (peer dyn : Dyn) (first : ℕ) (more rest : List ℕ)
      → marks resized first ≡ true
      → read_int 5 (first ∷ (more ++ rest)) ≡ some (dyn.max_size, rest)
      → dyn_set_max peer dyn.max_size ≡ dyn
      → dyn.max_size ≤ peer.max_size
      → decode_round codes peer first (first ∷ (more ++ rest))
        ≡ some (record { decoded = []; table = dyn; left = rest })
  unfolding decode_round size_update
  resized_round peer dyn first more rest marked read shrunk smaller =
      let low = bit_and first 0x80 == 0 in
      let inner = not (bit_and first 0xc0 == 0x40) in
      let (both, kind) = and_both (low && inner) (bit_and first 0xe0 == 0x20) marked in
      let (upper, second) = and_both low inner both in
      let other : (bit_and first 0xc0 == 0x40) ≡ false = not-true _ second in
      let within : ltb peer.max_size dyn.max_size ≡ false = ground (arith, smaller) in
      rw (upper, other, kind, read, within, shrunk) refl

  -- A field by its static index alone.
  record IsFixed (index : ℕ) (f : Field) (written : Option (List ℕ)) : Type 0 where
    first : ℕ
    more : List ℕ
    is : written ≡ some (first ∷ more)
    short : length more ≤ 5
    back :
        (dyn : Dyn) (rest : List ℕ) (fields : List Field)
        → IsTable dyn
        → length fields < max_fields
        → decode_rest codes max_fields dyn (first ∷ (more ++ rest)) fields
          ≡ decode_rest codes max_fields dyn rest (fields ++ f ∷ [])

  write_int_ex-IsFixed :
      (index limit : ℕ) (f : Field)
      → index ≤ int_max
      → 6 ≤ limit
      → ((dyn : Dyn) → field_at dyn index ≡ some f)
      → IsFixed index f (write_int_ex limit index 7 0x80)
  write_int_ex-IsFixed index limit f few room shows =
      let n = write_int_ex-IsInt indexed limit index few room in
      record {
        first = n.first;
        more = n.more;
        is = n.is;
        short = n.short;
        back = λ dyn rest fields table fits.
            decode_rest-round codes max_fields dyn dyn n.first n.more rest (f ∷ []) fields table
              fits
              (indexed_round dyn n.first n.more rest index f n.marked (n.back rest) (shows dyn));
      }

  record IsUpdate (peer dyn : Dyn) (written : Option (List ℕ)) : Type 0 where
    bytes : List ℕ
    is : written ≡ some bytes
    short : length bytes ≤ 6
    back :
        (rest : List ℕ)
        → decode_rest codes max_fields peer (bytes ++ rest) []
          ≡ decode_rest codes max_fields dyn rest []

  size_bytes-IsUpdate :
      (update : Bool) (peer dyn : Dyn) (limit : ℕ)
      → InStep update peer dyn
      → IsTable dyn
      → 6 ≤ limit
      → 0 < max_fields
      → IsUpdate peer dyn (size_bytes update limit dyn.max_size)
  unfolding size_bytes InStep
  size_bytes-IsUpdate false peer dyn limit same table room some_field = record {
    bytes = [];
    is = refl;
    short = omega arith;
    back = λ rest. ap (λ d. decode_rest codes max_fields d rest []) same;
  }
  size_bytes-IsUpdate true peer dyn limit (shrunk, smaller) table room some_field =
      let n = write_int_ex-IsInt resized limit dyn.max_size (omega (arith, table.capped)) room in
      record {
        bytes = n.first ∷ n.more;
        is = n.is;
        short = omega (arith, n.short);
        back = λ rest.
            decode_rest-round codes max_fields peer dyn n.first n.more rest [] [] table some_field
              (resized_round peer dyn n.first n.more rest n.marked (n.back rest) shrunk smaller);
      }

-- What a request says.
unfoldable pub request_fields : (path namespace : List ℕ) → List Field
request_fields path namespace =
    field ":method" (chars "POST") ∷ field ":scheme" (chars "http") ∷ own_fields path namespace

own_fields-needed :
    (path namespace : List ℕ)
    → (needed (own_fields path namespace) ≡ 210 + length path + length namespace)
      × (length (own_fields path namespace) ≡ 6)
unfolding own_fields
own_fields-needed path namespace = (omega arith, refl)

method_at : (dyn : Dyn) → field_at dyn 3 ≡ some (field ":method" (chars "POST"))
unfolding field_at static_table static_field
method_at dyn = refl

scheme_at : (dyn : Dyn) → field_at dyn 6 ≡ some (field ":scheme" (chars "http"))
unfolding field_at static_table static_field
scheme_at dyn = refl

-- The four parts of a block, in the order they are written.
build_parts :
    (update : Bool) (dyn : Dyn) (namespace path : List ℕ) (limit : ℕ) (u m s : List ℕ) (w : Written)
    → size_bytes update limit dyn.max_size ≡ some u
    → write_int_ex (limit - length u) 3 7 0x80 ≡ some m
    → write_int_ex (limit - length (u ++ m)) 6 7 0x80 ≡ some s
    → encode_fields dyn (limit - length (u ++ m ++ s)) (own_fields path namespace) ≡ some w
    → build_request_headers update dyn namespace path limit
      ≡ some (record { bytes = u ++ m ++ s ++ w.bytes; table = w.table })
unfolding build_request_headers
build_parts update dyn namespace path limit u m s w eu em es ew = rw (eu, em, es, ew) refl

module _ (codes : List HuffCode) (peer dyn after : Dyn) (u m s b : List ℕ) (f g : Field)
    (own : List Field) where
  -- The same parts, as they are read.
  read_parts :
      ((rest : List ℕ)
        → decode_rest codes 32 peer (u ++ rest) [] ≡ decode_rest codes 32 dyn rest [])
      → ((rest : List ℕ)
          → decode_rest codes 32 dyn (m ++ rest) [] ≡ decode_rest codes 32 dyn rest (f ∷ []))
      → ((rest : List ℕ)
          → decode_rest codes 32 dyn (s ++ rest) (f ∷ [])
            ≡ decode_rest codes 32 dyn rest (f ∷ g ∷ []))
      → decode_rest codes 32 dyn (b ++ []) (f ∷ g ∷ [])
        ≡ decode_rest codes 32 after [] ((f ∷ g ∷ []) ++ own)
      → decode_block codes peer (u ++ m ++ s ++ b) 32 ≡ some (f ∷ g ∷ own, after)
  unfolding decode_block decode_rest decode_from
  read_parts eu em es eb =
      let shape : u ++ m ++ s ++ b ≡ u ++ (m ++ (s ++ b)) =
        append_assoc (u ++ m) s b ∙ append_assoc u m (s ++ b) in
      ap (λ w. decode_block codes peer w 32) shape
      ∙ ap outcome (
          eu (m ++ (s ++ b))
          ∙ em (s ++ b)
          ∙ es b
          ∙ ap (λ w. decode_rest codes 32 dyn w (f ∷ g ∷ [])) (sym (append-nil b))
          ∙ eb)

-- For a path and a namespace of 796 characters together, whatever the encoder's table holds within
-- its bounds: the header block of a request fits its 1024 bytes, and a decoder whose table is in
-- step reads from it exactly the eight fields of the request, in their order, and is in step with
-- the encoder again. In step are equal tables, or, if a table size update is due, a table that the
-- update turns into the encoder's and that allows its size.
pub build_request_headers-decode_block :
    (codes : List HuffCode) (update : Bool) (peer dyn : Dyn) (namespace path : List ℕ)
    → IsTable dyn
    → InStep update peer dyn
    → length path + length namespace ≤ 796
    → (w : Written) × (build_request_headers update dyn namespace path 1024 ≡ some w)
      × (decode_block codes peer w.bytes 32 ≡ some (request_fields path namespace, w.table))
      × IsTable w.table
unfolding request_fields
build_request_headers-decode_block codes update peer dyn namespace path table step short =
    let needs = own_fields-needed path namespace in
    let first =
      size_bytes-IsUpdate codes 32 update peer dyn 1024 step table (omega arith) (omega arith) in
    let method =
      write_int_ex-IsFixed codes 32 3 (1024 - length first.bytes) (field ":method" (chars "POST"))
        (omega arith) (omega (arith, first.short)) method_at in
    let opened = first.bytes ++ (method.first ∷ method.more) in
    let second : length opened ≤ 12 =
      omega (
        arith,
        length-append first.bytes (method.first ∷ method.more),
        first.short,
        method.short,
      ) in
    let scheme =
      write_int_ex-IsFixed codes 32 6 (1024 - length opened) (field ":scheme" (chars "http"))
        (omega arith) (omega (arith, second)) scheme_at in
    let before = opened ++ (scheme.first ∷ scheme.more) in
    let third : length before ≤ 18 =
      omega (arith, length-append opened (scheme.first ∷ scheme.more), second, scheme.short) in
    let own =
      encode_fields-IsBlock codes 32 dyn (1024 - length before) (own_fields path namespace) table
        (omega (arith, needs.0, third, short)) (omega arith) in
    (
      record { bytes = before ++ own.block.bytes; table = own.block.table },
      build_parts update dyn namespace path 1024 first.bytes (method.first ∷ method.more)
          (scheme.first ∷ scheme.more) own.block first.is method.is scheme.is own.is,
      read_parts codes peer dyn own.block.table first.bytes (method.first ∷ method.more)
          (scheme.first ∷ scheme.more) own.block.bytes (field ":method" (chars "POST"))
          (field ":scheme" (chars "http")) (own_fields path namespace) first.back
          (λ rest. method.back dyn rest [] table (omega arith))
          (λ rest. scheme.back dyn rest (field ":method" (chars "POST") ∷ []) table (omega arith))
          (own.back [] (field ":method" (chars "POST") ∷ field ":scheme" (chars "http") ∷ [])
            (omega (arith, needs.1))),
      own.kept,
    )
