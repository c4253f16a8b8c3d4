-- ===== src/Hpack/Fields.antt =====
-- Fields one after the other, as they are written and read.
use strimserver.Prelude.{
  ℕ, ◌+◌, ◌-◌, ◌≤◌, ◌<◌, ◌≡◌, refl, ap, ◌∙◌, false, Option, some, List, [], ◌∷◌, ◌++◌, append_assoc,
  append-nil, arith, leb, length, length-append,
}
use strimserver.Hpack.{int_max}
use strimserver.Hpack.Huffman.{HuffCode}
use strimserver.Hpack.Table.{Dyn}
use strimserver.Hpack.Bounds.{IsTable}
use strimserver.Hpack.Safety.{decode_from-enough}
use strimserver.Hpack.RoundTrip.{encode_field-IsEncoded}
use strimserver.Hpack.Block.{Field, decode_round, decode_from}
use strimserver.Hpack.Encode.{Written, encode_fields}

-- The room that the fields need at most.
abbrev pub needed : List Field → ℕ
needed [] = 0
needed (f ∷ fields) = 18 + length f.name + length f.value + needed fields

module _ (codes : List HuffCode) (max_fields : ℕ) where
  -- The rest of a block, with the fields so far.
  unfoldable pub decode_rest : Dyn → List ℕ → List Field → Option (Option (List Field × Dyn))
  decode_rest dyn input fields = decode_from codes (length input) max_fields dyn input fields

  pub decode_rest-round :
      (dyn after : Dyn) (first : ℕ) (more rest : List ℕ) (decoded fields : List Field)
      → IsTable after
      → length fields < max_fields
      → decode_round codes dyn first (first ∷ (more ++ rest))
        ≡ some (record { decoded = decoded; table = after; left = rest })
      → decode_rest dyn (first ∷ (more ++ rest)) fields ≡ decode_rest after rest (fields ++ decoded)
  unfolding decode_rest decode_from
  decode_rest-round dyn after first more rest decoded fields kept room round =
      let go : leb max_fields (length fields) ≡ false = ground (arith, room) in
      let fewer : length rest ≤ length (more ++ rest) = omega (arith, length-append more rest) in
      let same : length rest ≤ length rest = omega arith in
      rw (go, round)
        (decode_from-enough codes (length (more ++ rest)) (length rest) max_fields after rest
          (fields ++ decoded) kept fewer same)

  pub record IsBlock (dyn : Dyn) (new : List Field) (written : Option Written) : Type 0 where
    pub block : Written
    pub is : written ≡ some block
    pub kept : IsTable block.table
    pub short : length block.bytes ≤ needed new
    pub back :
        (rest : List ℕ) (fields : List Field)
        → length fields + length new ≤ max_fields
        → decode_rest dyn (block.bytes ++ rest) fields
          ≡ decode_rest block.table rest (fields ++ new)

  -- One field, and the block behind it.
  block_back :
      (dyn after last : Dyn) (head bytes rest : List ℕ) (f : Field) (fields new : List Field)
      → decode_rest dyn (head ++ (bytes ++ rest)) fields
        ≡ decode_rest after (bytes ++ rest) (fields ++ f ∷ [])
      → decode_rest after (bytes ++ rest) (fields ++ f ∷ [])
        ≡ decode_rest last rest ((fields ++ f ∷ []) ++ new)
      → decode_rest dyn ((head ++ bytes) ++ rest) fields ≡ decode_rest last rest (fields ++ f ∷ new)
  block_back dyn after last head bytes rest f fields new one later =
      ap (λ w. decode_rest dyn w fields) (append_assoc head bytes rest)
      ∙ one
      ∙ later
      ∙ ap (λ w. decode_rest last rest w) (append_assoc fields (f ∷ []) new)

  pub encode_fields-IsBlock :
      (dyn : Dyn) (limit : ℕ) (new : List Field)
      → IsTable dyn
      → needed new ≤ limit
      → limit ≤ int_max
      → IsBlock dyn new (encode_fields dyn limit new)
  unfolding encode_fields
  encode_fields-IsBlock dyn limit [] table room few = record {
    block = record { bytes = []; table = dyn };
    is = refl;
    kept = table;
    short = omega arith;
    back = λ rest fields fits. rw (append-nil fields) refl;
  }
  encode_fields-IsBlock dyn limit (f ∷ new) table room few =
      let one = encode_field-IsEncoded codes dyn table limit f (omega (arith, room)) few in
      let behind = limit - length (one.first ∷ one.more) in
      let later =
        encode_fields-IsBlock one.after behind new one.kept (omega (arith, room, one.short))
          (omega (arith, few)) in
      record {
        block = record {
          bytes = (one.first ∷ one.more) ++ later.block.bytes;
          table = later.block.table;
        };
        is = rw (one.is, later.is) refl;
        kept = later.kept;
        short = omega (arith, length-append one.more later.block.bytes, one.short, later.short);
        back = λ rest fields fits.
            block_back dyn one.after later.block.table (one.first ∷ one.more) later.block.bytes rest
              f fields new
              (decode_rest-round dyn one.after one.first one.more (later.block.bytes ++ rest)
                (f ∷ []) fields one.kept (omega (arith, fits))
                (one.back (later.block.bytes ++ rest)))
              (later.back rest (fields ++ f ∷ [])
                (omega (arith, fits, length-append fields (f ∷ []))));
      }
