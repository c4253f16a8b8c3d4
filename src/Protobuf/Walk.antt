-- ===== src/Protobuf/Walk.antt =====
-- The readers of core/controller/c/containerd/minipb.h on any bytes (mpb_rd_varint, mpb_rd_len, mpb_rd_skip).
use strimserver.Prelude.{
  ℕ, zero, suc, ◌+◌, ◌*◌, ◌≤◌, ◌<◌, ◌≡◌, refl, sym, ap, ◌∙◌, Option, none, some, List, [], ◌∷◌,
  ◌++◌, append_assoc, arith, subst, ltb, ◌==◌, if◌then◌else◌, if_both, if_split, length,
  length-append, Option-cases, inl, inr, Given,
}
use Prim.Native.Nat.{bit_and}
use strimserver.Protobuf.{
  wt_varint, wt_len, wt_64bit, wt_32bit, rd_varint, rd_varint_from, split_at, rd_len, skip_fixed,
  rd_skip,
}

-- `rest` is what is left of r behind at least one byte and at most `most`.
pub record IsTaken (most : ℕ) (r rest : List ℕ) : Type 0 where
  pub used : List ℕ
  pub whole : r ≡ used ++ rest
  pub forward : 0 < length used
  pub bounded : length used ≤ most

abbrev Takes : (List ℕ) → ℕ → Option (ℕ × List ℕ) → Type 0
Takes r most x = Given (λ (p : ℕ × List ℕ). IsTaken most r p.1) x

IsTaken-head : (b most : ℕ) (rest : List ℕ) → 0 < most → IsTaken most (b ∷ rest) rest
IsTaken-head b most rest h = record {
  used = b ∷ [];
  whole = refl;
  forward = omega arith;
  bounded = omega arith;
}

Takes-cons :
    (b most : ℕ) (r : List ℕ) (x : Option (ℕ × List ℕ))
    → Takes r most x
    → Takes (b ∷ r) (suc most) x
Takes-cons b most r none t = tt
Takes-cons b most r (some p) t = record {
  used = b ∷ t.used;
  whole = ap (λ w. b ∷ w) t.whole;
  forward = omega arith;
  bounded = omega (arith, t.bounded);
}

-- n more bytes have room in the shift.
Takes-from :
    (n : ℕ) (r : List ℕ) (v shift : ℕ)
    → shift + 7 * n ≡ 63
    → Takes r (suc n) (rd_varint_from r v shift)
unfolding rd_varint_from
Takes-from n [] v shift place = tt
Takes-from zero (b ∷ rest) v shift place =
    if_both (Takes (b ∷ rest) 1) (bit_and b 0x80 == 0) _ _ (IsTaken-head b 1 rest (omega arith)) (
      if_split (Takes (b ∷ rest) 1) (ltb 63 (shift + 7)) _ _ (λ _. tt) (λ h. absurd (ground arith)))
Takes-from (suc n) (b ∷ rest) v shift place =
    if_both (Takes (b ∷ rest) (suc (suc n))) (bit_and b 0x80 == 0) _ _
      (IsTaken-head b (suc (suc n)) rest (omega arith))
      (if_both (Takes (b ∷ rest) (suc (suc n))) (ltb 63 (shift + 7)) none _ tt
        (Takes-cons b (suc n) rest _ (Takes-from n rest _ (shift + 7) (omega arith))))

-- A varint that the reader accepts is the first one to ten bytes of what it had left.
rd_varint-IsTaken : (r rest : List ℕ) (v : ℕ) → rd_varint r ≡ some (v, rest) → IsTaken 10 r rest
unfolding rd_varint
rd_varint-IsTaken r rest v h = subst (Takes r 10) h (Takes-from 9 r 0 0 refl)

split_at-append :
    (n : ℕ) (xs : List ℕ)
    → n ≤ length xs
    → (xs ≡ (split_at n xs).0 ++ (split_at n xs).1) × (length (split_at n xs).0 ≡ n)
unfolding split_at
split_at-append zero xs h = (refl, refl)
split_at-append (suc n) [] h = absurd (omega arith)
split_at-append (suc n) (x ∷ xs) h =
    let (whole, count) = split_at-append n xs (omega arith) in
    (ap (λ w. x ∷ w) whole, omega (arith, count))

-- The payload of rd_len lies in the buffer, behind the varint of its length and before the rest.
pub record IsPayload (r payload rest : List ℕ) : Type 0 where
  pub prefix : List ℕ
  pub whole : r ≡ prefix ++ (payload ++ rest)
  pub prefixed : 0 < length prefix
  pub as_long : rd_varint r ≡ some (length payload, payload ++ rest)

rd_len_at :
    (r left : List ℕ) (len : ℕ)
    → rd_varint r ≡ some (len, left)
    → Given
        (λ p. IsPayload r p.0 p.1)
        (if ltb (length left) len then none else some (split_at len left))
rd_len_at r left len read =
    let taken = rd_varint-IsTaken r left len read in
    if_split (Given (λ p. IsPayload r p.0 p.1)) (ltb (length left) len) none _ (λ _. tt)
      (λ enough.
        let (whole, count) = split_at-append len left (ground arith) in
        record {
          prefix = taken.used;
          whole = taken.whole ∙ ap (λ w. taken.used ++ w) whole;
          prefixed = taken.forward;
          as_long =
              read
              ∙ ap (λ n. some (n, left)) (sym count)
              ∙ ap (λ w. some (length (split_at len left).0, w)) whole;
        })

rd_len-Given : (r : List ℕ) → Given (λ p. IsPayload r p.0 p.1) (rd_len r)
unfolding rd_len
rd_len-Given r = elim (Option-cases (rd_varint r)) [
  | inl out ↦ rw (out, rd_len) tt
  | inr ((len, left), read) ↦ rw (read, rd_len) (rd_len_at r left len read)
]

-- The payload that rd_len hands out lies in the reader's buffer: what was left is a length, the
-- payload and the rest, in this order and with nothing between, and the payload has exactly as many
-- bytes as the length says.
pub rd_len-IsPayload :
    (r payload rest : List ℕ) → rd_len r ≡ some (payload, rest) → IsPayload r payload rest
rd_len-IsPayload r payload rest h = subst (Given (λ p. IsPayload r p.0 p.1)) h (rd_len-Given r)

payload-IsTaken : (r payload rest : List ℕ) → IsPayload r payload rest → IsTaken (length r) r rest
payload-IsTaken r payload rest p = record {
  used = p.prefix ++ payload;
  whole = p.whole ∙ sym (append_assoc p.prefix payload rest);
  forward = omega (arith, length-append p.prefix payload, p.prefixed);
  bounded = omega (
    arith,
    ap length p.whole,
    length-append p.prefix (payload ++ rest),
    length-append payload rest,
    length-append p.prefix payload,
  );
}

-- A field's value is skipped: a varint, eight or four bytes, or a length and its payload.
pub data IsSkipped (r : List ℕ) (wiretype : ℕ) (rest : List ℕ) : Type 0 where
  varint_skipped :
      wiretype ≡ wt_varint → (v : ℕ) → rd_varint r ≡ some (v, rest) → IsSkipped r wiretype rest
  fixed64_skipped : wiretype ≡ wt_64bit → length r ≡ 8 + length rest → IsSkipped r wiretype rest
  len_skipped :
      wiretype ≡ wt_len → (payload : List ℕ) → IsPayload r payload rest → IsSkipped r wiretype rest
  fixed32_skipped : wiretype ≡ wt_32bit → length r ≡ 4 + length rest → IsSkipped r wiretype rest

-- The bytes that a skip takes, and which they are.
record IsPassed (r : List ℕ) (wiretype : ℕ) (rest : List ℕ) : Type 0 where
  taken : IsTaken (length r) r rest
  skipped : IsSkipped r wiretype rest

abbrev Passed : List ℕ → ℕ → Option (List ℕ) → Type 0
Passed r wiretype x = Given (IsPassed r wiretype) x

skip_fixed-Passed :
    (n : ℕ) (r : List ℕ) (wiretype : ℕ)
    → 0 < n
    → ((rest : List ℕ) → length r ≡ n + length rest → IsSkipped r wiretype rest)
    → Passed r wiretype (skip_fixed n r)
unfolding skip_fixed
skip_fixed-Passed n r wiretype positive why =
    if_split (Passed r wiretype) (ltb (length r) n) none _ (λ _. tt)
      (λ enough.
        let (whole, count) = split_at-append n r (ground arith) in
        let parts : length r ≡ n + length (split_at n r).1 =
          omega (arith, ap length whole, length-append (split_at n r).0 (split_at n r).1, count) in
        record {
          taken = record {
            used = (split_at n r).0;
            whole = whole;
            forward = omega (arith, count);
            bounded = omega (arith, parts, count);
          };
          skipped = why (split_at n r).1 parts;
        })

skip_len-Passed :
    (r : List ℕ) (wiretype : ℕ)
    → wiretype ≡ wt_len
    → Passed r wiretype (elim (rd_len r) [ none ↦ none | some (payload, rest) ↦ some rest ])
skip_len-Passed r wiretype kind = elim (Option-cases (rd_len r)) [
  | inl out ↦ rw out tt
  | inr ((payload, rest), read) ↦
      let found = rd_len-IsPayload r payload rest read in
      rw read (record {
        taken = payload-IsTaken r payload rest found;
        skipped = len_skipped kind payload found;
      })
]

skip_varint-Passed :
    (r : List ℕ) (wiretype : ℕ)
    → wiretype ≡ wt_varint
    → Passed r wiretype (elim (rd_varint r) [ none ↦ none | some (v, rest) ↦ some rest ])
skip_varint-Passed r wiretype kind = elim (Option-cases (rd_varint r)) [
  | inl out ↦ rw out tt
  | inr ((v, rest), read) ↦
      let t = rd_varint-IsTaken r rest v read in
      rw read (record {
        taken = record {
          used = t.used;
          whole = t.whole;
          forward = t.forward;
          bounded = omega (arith, ap length t.whole, length-append t.used rest);
        };
        skipped = varint_skipped kind v read;
      })
]

rd_skip-Given : (r : List ℕ) (wiretype : ℕ) → Passed r wiretype (rd_skip r wiretype)
unfolding rd_skip
rd_skip-Given r wiretype =
    let P = Passed r wiretype in
    if_split P (wiretype == wt_varint) _ _ (λ kind. skip_varint-Passed r wiretype (ground arith))
      (λ _.
        if_split P (wiretype == wt_64bit) _ _
          (λ kind.
            skip_fixed-Passed 8 r wiretype (omega arith)
              (λ rest parts. fixed64_skipped (ground arith) parts))
          (λ _.
            if_split P (wiretype == wt_len) _ _ (λ kind. skip_len-Passed r wiretype (ground arith))
              (λ _.
                if_split P (wiretype == wt_32bit) _ none
                  (λ kind.
                    skip_fixed-Passed 4 r wiretype (omega arith)
                      (λ rest parts. fixed32_skipped (ground arith) parts))
                  (λ _. tt))))

-- A skip that is not refused takes at least one byte of what the reader had left, and exactly the
-- field's value: a whole varint, eight bytes, four bytes, or a length and as many bytes as it says.
-- So a field that is cut short by the end of the buffer is refused.
pub rd_skip-IsTaken :
    (r rest : List ℕ) (wiretype : ℕ)
    → rd_skip r wiretype ≡ some rest
    → IsTaken (length r) r rest × IsSkipped r wiretype rest
rd_skip-IsTaken r rest wiretype h =
    let passed = subst (Passed r wiretype) h (rd_skip-Given r wiretype) in
    (passed.taken, passed.skipped)
