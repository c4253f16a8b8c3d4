-- ===== src/Hpack/Safety.antt =====
-- The block decoder on any input at all.
use Prim.Native.Nat.{bit_and}
use strimserver.Prelude.{
  ℕ, zero, suc, ◌+◌, ◌-◌, ◌*◌, ◌^◌, ◌≤◌, ◌<◌, ◌≡◌, refl, ap, ◌∙◌, Bool, true, false, not, Option,
  none, some, List, [], ◌∷◌, ◌++◌, ◌>>=◌, arith, ltb, leb, ◌==◌, if◌then◌else◌, if_both, if_split,
  length, length-append, Given, Given-bind, Given-map, Given-after,
}
use strimserver.Protobuf.{split_at}
use strimserver.Hpack.{int_max, read_int_from, read_int}
use strimserver.Hpack.Huffman.{HuffCode}
use strimserver.Hpack.Table.{Dyn}
use strimserver.Hpack.Bounds.{IsTable, dyn_add-IsTable, dyn_set_max-IsTable}
use strimserver.Hpack.Block.{
  Field, BlockRound, read_string, decode_text, field_at, field_resolve_name, read_literal,
  indexed_field, literal_field, size_update, decode_round, decode_from, decode_block, or_refused,
  outcome,
}

-- Something was read.
abbrev pub Shorter : {A : Type 0} → List ℕ → A × List ℕ → Type 0
Shorter input r = length r.1 < length input

read_int_from-Shorter :
    (input : List ℕ) (value shift : ℕ) → Given (Shorter input) (read_int_from input value shift)
unfolding read_int_from
read_int_from-Shorter [] value shift = tt
read_int_from-Shorter (b ∷ rest) value shift =
    let sum = value + bit_and b 0x7f * 2 ^ shift in
    let P : Option (ℕ × List ℕ) → Type 0 = λ o. Given (Shorter (b ∷ rest)) o in
    if_both P (bit_and b 0x80 == 0) _ _ (if_both P (ltb int_max sum) _ _ tt (omega arith)) (
      if_both P (ltb 28 (shift + 7)) _ _ tt (
        Given-map (Shorter rest) (Shorter (b ∷ rest)) (λ r less. omega (arith, less))
          (read_int_from rest sum (shift + 7)) (read_int_from-Shorter rest sum (shift + 7))))

read_int-Shorter : (prefix : ℕ) (input : List ℕ) → Given (Shorter input) (read_int prefix input)
unfolding read_int
read_int-Shorter prefix [] = tt
read_int-Shorter prefix (b ∷ rest) =
    let P : Option (ℕ × List ℕ) → Type 0 = λ o. Given (Shorter (b ∷ rest)) o in
    let mask = 2 ^ prefix - 1 in
    let short : length rest < length (b ∷ rest) = omega arith in
    let long =
      Given-map (Shorter rest) (Shorter (b ∷ rest)) (λ r less. omega (arith, less)) _
        (read_int_from-Shorter rest (bit_and b mask) 0) in
    if_both P (ltb (bit_and b mask) mask) _ _ short long

split_at-shorter : (n : ℕ) (xs : List ℕ) → length (split_at n xs).1 ≤ length xs
unfolding split_at
split_at-shorter zero xs = omega arith
split_at-shorter (suc n) [] = omega arith
split_at-shorter (suc n) (x ∷ xs) = omega (arith, split_at-shorter n xs)

-- Two ways on that agree on what the first step can give.
or_refused_same :
    {A B : Type 0} (P : A → Type 0) (o : Option A) (f g : A → Option (Option B))
    → Given P o
    → ((x : A) → P x → f x ≡ g x)
    → or_refused o f ≡ or_refused o g
or_refused_same P none f g h k = refl
or_refused_same P (some x) f g h k = k x h

-- The loop came to an end: a refusal, or a result with P.
abbrev Ends : {A : Type 0} → (A → Type 0) → Option (Option A) → Type 0
Ends P none = ⊥
Ends P (some result) = Given P result

or_refused-Ends :
    {A B : Type 0} (P : A → Type 0) (Q : B → Type 0) (o : Option A) (f : A → Option (Option B))
    → Given P o
    → ((x : A) → P x → Ends Q (f x))
    → Ends Q (or_refused o f)
or_refused-Ends P Q none f h k = tt
or_refused-Ends P Q (some x) f h k = k x h

Ends-outcome :
    {A : Type 0} (P : A → Type 0) (o : Option (Option A))
    → Ends P o
    → (o ≡ some (outcome o)) × Given P (outcome o)
Ends-outcome P none ends = absurd ends
Ends-outcome P (some result) ends = (refl, ends)

module _ (codes : List HuffCode) where
  read_string-Shorter : (input : List ℕ) → Given (Shorter input) (read_string codes input)
  unfolding read_string
  read_string-Shorter [] = tt
  read_string-Shorter (b ∷ more) =
      let input = b ∷ more in
      let Q : List ℕ × List ℕ → Type 0 = Shorter input in
      let P : Option (List ℕ × List ℕ) → Type 0 = λ o. Given Q o in
      Given-after (Shorter input) Q (read_int 7 input) _ (read_int-Shorter 7 input) (λ r less.
        let split = split_at r.0 r.1 in
        let shorter : length split.1 < length input =
          omega (arith, less, split_at-shorter r.0 r.1) in
        let text = decode_text codes (not (bit_and b 0x80 == 0)) split.0 in
        if_both P (ltb (length r.1) r.0) none (text >>= (λ t. some (t, split.1))) tt
          (Given-bind Q text (λ t. some (t, split.1)) (λ _. shorter)))

  -- A name in place: nothing is read for an index.
  named-Shorter :
      (dyn : Dyn) (index : ℕ) (input : List ℕ)
      → Given
          (λ r. length r.1 ≤ length input)
          (if index == 0
            then read_string codes input
            else field_resolve_name dyn index >>= (λ name. some (name, input)))
  named-Shorter dyn index input =
      let NoLonger : List ℕ × List ℕ → Type 0 = λ r. length r.1 ≤ length input in
      let same : length input ≤ length input = omega arith in
      if_both (λ o. Given NoLonger o) (index == 0) _ _
        (Given-map (Shorter input) NoLonger (λ r less. omega (arith, less))
          (read_string codes input) (read_string-Shorter input))
        (Given-bind NoLonger (field_resolve_name dyn index) _ (λ name. same))

  read_literal-Shorter :
      (dyn : Dyn) (prefix : ℕ) (input : List ℕ)
      → Given (Shorter input) (read_literal codes dyn prefix input)
  unfolding read_literal
  read_literal-Shorter dyn prefix input =
      Given-after (Shorter input) (Shorter input) (read_int prefix input) _
        (read_int-Shorter prefix input)
        (λ r less.
          Given-after (λ n. length n.1 ≤ length r.1) (Shorter input) _ _ (named-Shorter dyn r.0 r.1)
            (λ n no_longer.
              Given-after (Shorter n.1) (Shorter input) (read_string codes n.1) _
                (read_string-Shorter n.1)
                (λ v fewer.
                  let all : length v.1 < length input = omega (arith, less, no_longer, fewer) in
                  all)))

  -- A round reads on, keeps the table in bounds, and adds one field at most.
  record IsRound (input : List ℕ) (r : BlockRound) : Type 0 where
    reads : length r.left < length input
    bounded : IsTable r.table
    one : length r.decoded ≤ 1

  indexed_field-IsRound :
      (dyn : Dyn) (input : List ℕ) → IsTable dyn → Given (IsRound input) (indexed_field dyn input)
  unfolding indexed_field
  indexed_field-IsRound dyn input table =
      Given-after (Shorter input) (IsRound input) (read_int 7 input) _ (read_int-Shorter 7 input)
        (λ r less.
          Given-bind (IsRound input) (field_at dyn r.0)
            (λ f. some (record { decoded = f ∷ []; table = dyn; left = r.1 }))
            (λ f. record { reads = less; bounded = table; one = omega arith }))

  literal_field-IsRound :
      (keep : Bool) (prefix : ℕ) (dyn : Dyn) (input : List ℕ)
      → IsTable dyn
      → Given (IsRound input) (literal_field keep prefix codes dyn input)
  unfolding literal_field
  literal_field-IsRound keep prefix dyn input table =
      Given-after (Shorter input) (IsRound input) (read_literal codes dyn prefix input) _
        (read_literal-Shorter dyn prefix input)
        (λ r less. record {
          reads = less;
          bounded =
              if_both IsTable keep _ _ (dyn_add-IsTable true dyn r.0.name r.0.value table) table;
          one = omega arith;
        })

  size_update-IsRound :
      (dyn : Dyn) (input : List ℕ) → IsTable dyn → Given (IsRound input) (size_update dyn input)
  unfolding size_update
  size_update-IsRound dyn input table =
      let P : Option BlockRound → Type 0 = λ o. Given (IsRound input) o in
      Given-after (Shorter input) (IsRound input) (read_int 5 input) _ (read_int-Shorter 5 input)
        (λ r less.
          if_split P (ltb dyn.max_size r.0) none _ (λ _. tt)
            (λ small.
              let low : r.0 ≤ 4096 = ground (arith, small, table.capped) in
              record {
                reads = less;
                bounded = dyn_set_max-IsTable dyn r.0 table low;
                one = omega arith;
              }))

  decode_round-IsRound :
      (dyn : Dyn) (b : ℕ) (input : List ℕ)
      → IsTable dyn
      → Given (IsRound input) (decode_round codes dyn b input)
  unfolding decode_round
  decode_round-IsRound dyn b input table =
      let P : Option BlockRound → Type 0 = λ o. Given (IsRound input) o in
      let plain = literal_field false 4 codes dyn input in
      let kept = literal_field-IsRound false 4 dyn input table in
      let never = if bit_and b 0xf0 == 0x10 then plain else none in
      let literal = if bit_and b 0xf0 == 0 then plain else never in
      let resize = if bit_and b 0xe0 == 0x20 then size_update dyn input else literal in
      let keep = if bit_and b 0xc0 == 0x40 then literal_field true 6 codes dyn input else resize in
      if_both P (not (bit_and b 0x80 == 0)) (indexed_field dyn input) keep
        (indexed_field-IsRound dyn input table)
        (if_both P (bit_and b 0xc0 == 0x40) (literal_field true 6 codes dyn input) resize
          (literal_field-IsRound true 6 dyn input table)
          (if_both P (bit_and b 0xe0 == 0x20) (size_update dyn input) literal
            (size_update-IsRound dyn input table)
            (if_both P (bit_and b 0xf0 == 0) plain never kept
              (if_both P (bit_and b 0xf0 == 0x10) plain none kept tt))))

  -- The fields fit the out array, and the table stays in bounds.
  abbrev pub IsDecoded : ℕ → List Field × Dyn → Type 0
  IsDecoded max_fields r = (length r.0 ≤ max_fields) × IsTable r.1

  decode_from-IsDecoded :
      (fuel max_fields : ℕ) (dyn : Dyn) (input : List ℕ) (fields : List Field)
      → IsTable dyn
      → length fields ≤ max_fields
      → length input ≤ fuel
      → Ends (IsDecoded max_fields) (decode_from codes fuel max_fields dyn input fields)
  unfolding decode_from
  decode_from-IsDecoded fuel max_fields dyn [] fields table fits enough = (fits, table)
  decode_from-IsDecoded zero max_fields dyn (b ∷ rest) fields table fits enough =
      absurd (omega arith)
  decode_from-IsDecoded (suc fuel) max_fields dyn (b ∷ rest) fields table fits enough =
      let P : Option (Option (List Field × Dyn)) → Type 0 = λ o. Ends (IsDecoded max_fields) o in
      let input = b ∷ rest in
      if_split P (leb max_fields (length fields)) (some none) _ (λ _. tt)
        (λ room.
          or_refused-Ends (IsRound input) (IsDecoded max_fields) (decode_round codes dyn b input) _
            (decode_round-IsRound dyn b input table)
            (λ r round.
              decode_from-IsDecoded fuel max_fields r.table r.left (fields ++ r.decoded)
                round.bounded (ground (arith, length-append fields r.decoded, round.one, room))
                (omega (arith, enough, round.reads))))

  -- With a round for each byte the fuel makes no difference.
  pub decode_from-enough :
      (f g max_fields : ℕ) (dyn : Dyn) (input : List ℕ) (fields : List Field)
      → IsTable dyn
      → length input ≤ f
      → length input ≤ g
      → decode_from codes f max_fields dyn input fields
        ≡ decode_from codes g max_fields dyn input fields
  unfolding decode_from
  decode_from-enough f g max_fields dyn [] fields table hf hg = refl
  decode_from-enough zero g max_fields dyn (b ∷ rest) fields table hf hg = absurd (omega arith)
  decode_from-enough (suc f) zero max_fields dyn (b ∷ rest) fields table hf hg =
      absurd (omega arith)
  decode_from-enough (suc f) (suc g) max_fields dyn (b ∷ rest) fields table hf hg =
      let input = b ∷ rest in
      ap (λ o. if leb max_fields (length fields) then some none else o)
        (or_refused_same (IsRound input) (decode_round codes dyn b input) _ _
          (decode_round-IsRound dyn b input table)
          (λ r round.
            let kf : length r.left ≤ f = omega (arith, hf, round.reads) in
            let kg : length r.left ≤ g = omega (arith, hg, round.reads) in
            decode_from-enough f g max_fields r.table r.left (fields ++ r.decoded) round.bounded kf
              kg))

-- On any input and from any table within its bounds, the decoder ends by itself, with fields or with
-- a refusal: as many rounds as bytes, or more, bring the loop to its end, always the same one. If it
-- does not refuse the input, the fields fit the out array, and the
-- table is in bounds again: its size is the sum of the entries' sizes and at most the limit, which
-- is at most 4096, and there are at most 128 entries.
pub decode_block-IsDecoded :
    (codes : List HuffCode) (dyn : Dyn) (input : List ℕ) (fuel max_fields : ℕ)
    → IsTable dyn
    → length input ≤ fuel
    → (decode_from codes fuel max_fields dyn input []
        ≡ some (decode_block codes dyn input max_fields))
      × Given
          (λ r. (length r.0 ≤ max_fields) × IsTable r.1)
          (decode_block codes dyn input max_fields)
unfolding decode_block
decode_block-IsDecoded codes dyn input fuel max_fields table enough =
    let none_yet : 0 ≤ max_fields = omega arith in
    let same : length input ≤ length input = omega arith in
    let ends =
      Ends-outcome (IsDecoded codes max_fields)
        (decode_from codes (length input) max_fields dyn input [])
        (decode_from-IsDecoded codes (length input) max_fields dyn input [] table none_yet same) in
    (
      decode_from-enough codes fuel (length input) max_fields dyn input [] table enough same
          ∙ ends.0,
      ends.1,
    )
