-- ===== src/Base64/Bounds.antt =====
-- base64_decode stays in its output buffer.
use strimserver.Prelude.{
  ℕ, ◌-◌, ◌*◌, ◌%◌, ◌≤◌, subst, not, ◌||◌, none, List, [], ◌∷◌, ◌++◌, arith, ltb, ◌==◌,
  if◌then◌else◌, if_both, if_split, length, length-append, Given, Given-bind, ◌&&◌, Option-cases,
  inl, inr,
}
use strimserver.Base64.{
  pad, b64_value, tail_value, decode_group, group_bytes, decode_from, decode_stored, Stored,
  store_bytes,
}

-- The bytes have room, and each group of four characters gives at most three.
pub record IsWithin (input : List ℕ) (room : ℕ) (out : List ℕ) : Type 0 where
  pub stored : length out ≤ room
  pub shrunk : 4 * length out ≤ 3 * length input

group_bytes-length : (c2 c3 v0 v1 v2 v3 : ℕ) → length (group_bytes c2 c3 v0 v1 v2 v3) ≤ 3
unfolding group_bytes
group_bytes-length c2 c3 v0 v1 v2 v3 = ground arith

decode_group-length :
    (c0 c1 c2 c3 : ℕ) → Given (λ bytes. length bytes ≤ 3) (decode_group c0 c1 c2 c3)
unfolding decode_group
decode_group-length c0 c1 c2 c3 =
    let few = λ (bytes : List ℕ). length bytes ≤ 3 in
    Given-bind few (b64_value c0) _ (λ v0. Given-bind few (b64_value c1) _ (λ v1.
      Given-bind few (tail_value c2) _ (λ v2. Given-bind few (tail_value c3) _ (λ v3.
        if_both (Given few) ((c2 == pad) && not (c3 == pad)) none _ tt
          (group_bytes-length c2 c3 v0 v1 v2 v3)))))

store_bytes-IsStored :
    (bytes : List ℕ) (room : ℕ)
    → let stored = store_bytes bytes room in
      (length stored.bytes ≤ room) × (length stored.bytes ≤ length bytes)
unfolding store_bytes
store_bytes-IsStored [] room = (omega arith, omega arith)
store_bytes-IsStored (b ∷ bytes) room =
    let (fits, few) = store_bytes-IsStored bytes (room - 1) in
    if_split (λ (s : Stored). (length s.bytes ≤ room) × (length s.bytes ≤ length (b ∷ bytes)))
      (ltb room 1) _ _ (λ _. (omega arith, omega arith))
      (λ some_room. (ground (arith, some_room, fits), omega (arith, few)))

decode_step :
    (c0 c1 c2 c3 room : ℕ) (rest : List ℕ) (first later : Stored)
    → length first.bytes ≤ 3
    → length first.bytes ≤ room
    → IsWithin rest (room - length first.bytes) later.bytes
    → IsWithin
        (c0 ∷ c1 ∷ c2 ∷ c3 ∷ rest)
        room
        (if first.accepted
          then record later { bytes = first.bytes ++ later.bytes }
          else first).bytes
decode_step c0 c1 c2 c3 room rest first later few fits h =
    if_both (λ (s : Stored). IsWithin (c0 ∷ c1 ∷ c2 ∷ c3 ∷ rest) room s.bytes) first.accepted _
      first
      (record {
        stored = omega (arith, length-append first.bytes later.bytes, h.stored, fits);
        shrunk = omega (arith, length-append first.bytes later.bytes, h.shrunk, few);
      })
      (record { stored = fits; shrunk = omega (arith, few) })

nothing-IsWithin : (input : List ℕ) (room : ℕ) → IsWithin input room []
nothing-IsWithin input room = record { stored = omega arith; shrunk = omega arith }

decode_from-IsWithin :
    (input : List ℕ) (room : ℕ) → IsWithin input room (decode_from input room).bytes
unfolding decode_from
decode_from-IsWithin [] room = nothing-IsWithin [] room
decode_from-IsWithin (c0 ∷ []) room = nothing-IsWithin (c0 ∷ []) room
decode_from-IsWithin (c0 ∷ c1 ∷ []) room = nothing-IsWithin (c0 ∷ c1 ∷ []) room
decode_from-IsWithin (c0 ∷ c1 ∷ c2 ∷ []) room = nothing-IsWithin (c0 ∷ c1 ∷ c2 ∷ []) room
decode_from-IsWithin (c0 ∷ c1 ∷ c2 ∷ c3 ∷ rest) room =
    let later = decode_from-IsWithin rest in
    elim (Option-cases (decode_group c0 c1 c2 c3)) [
      | inl out ↦ rw (out, decode_from) (nothing-IsWithin (c0 ∷ c1 ∷ c2 ∷ c3 ∷ rest) room)
      | inr (bytes, group) ↦
          let (fits, few) = store_bytes-IsStored bytes room in
          let three =
            subst (Given (λ bytes. length bytes ≤ 3)) group (decode_group-length c0 c1 c2 c3) in
          let first = store_bytes bytes room in
          rw (group, decode_from)
            (decode_step c0 c1 c2 c3 room rest first (decode_from rest (room - length first.bytes))
              (omega (arith, three, few)) fits (later (room - length first.bytes)))
    ]

-- Whether it accepts its input or refuses it, in whatever round, a decoding stores no byte behind
-- the output buffer, and at most three for each four characters.
pub base64_decode-IsWithin :
    (input : List ℕ) (out_cap : ℕ) → IsWithin input out_cap (decode_stored input out_cap).bytes
unfolding decode_stored
base64_decode-IsWithin input out_cap =
    if_both (λ (s : Stored). IsWithin input out_cap s.bytes)
      ((length input == 0) || not (length input % 4 == 0)) _ _ (nothing-IsWithin input out_cap)
      (decode_from-IsWithin input out_cap)
