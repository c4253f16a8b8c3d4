-- ===== src/Hpack/Indices.antt =====
-- An index that the encoder finds names the same field for the decoder.
use strimserver.Prelude.{
  ℕ, zero, suc, ◌+◌, ◌-◌, ◌%◌, ◌^◌, ◌≤◌, ◌≡◌, ◌≢◌, refl, ap, sym, ◌∙◌, Bool, true, false, ◌&&◌,
  some, List, arith, leb, ◌==◌, length, Bool-cases, and_both, inl, inr,
}
use strimserver.Hpack.{int_max}
use strimserver.Hpack.Table.{Dyn, same_bytes, dyn_find_from, dyn_find_pair, dyn_find_name}
use strimserver.Hpack.Static.{static_table, search_from, static_find_pair, static_find_name}
use strimserver.Hpack.Bounds.{IsTable}
use strimserver.Hpack.Lookup.{
  same_bytes_sound, IsFound, dyn_find_from-IsFound, IsListed, search_from-IsListed,
}
use strimserver.Hpack.Block.{
  Field, field_at, static_field, dyn_field, static_count, field_resolve_name,
}
use strimserver.Hpack.Encode.{first_of, pair_index, name_index}

-- The field behind an index, which passes the test.
pub record IsNamed (T : List ℕ → List ℕ → Bool) (dyn : Dyn) (index : ℕ) : Type 0 where
  pub shown : Field
  pub at : field_at dyn index ≡ some shown
  pub passed : T shown.name shown.value ≡ true
  pub small : index ≤ int_max

static_length : length static_table ≡ 61
unfolding static_table
static_length = refl

static-IsNamed :
    (T : List ℕ → List ℕ → Bool) (dyn : Dyn) (index : ℕ)
    → IsListed (λ e. T e.name e.value) static_table 1 index
    → IsNamed T dyn index
unfolding field_at static_field
static-IsNamed T dyn index listed =
    let e = listed.entry in
    let low : leb 1 index ≡ true = ground (arith, listed.at) in
    let high : leb index static_count ≡ true =
      ground (arith, listed.at, listed.bounded, static_length) in
    let place : index - 1 ≡ listed.place = omega (arith, listed.at) in
    record {
      shown = static_field e;
      at = rw (low, high, place, listed.there) refl;
      passed = listed.passed;
      small = omega (arith, listed.at, listed.bounded, static_length);
    }

dyn-IsNamed :
    (T : List ℕ → List ℕ → Bool) (dyn : Dyn) (d : ℕ)
    → IsTable dyn
    → 1 ≤ d
    → IsFound (λ e. T e.name e.value) dyn d
    → IsNamed T dyn (static_count + d)
unfolding field_at dyn_field
dyn-IsNamed T dyn d table positive found =
    let high : (leb 1 (static_count + d) && leb (static_count + d) static_count) ≡ false =
      ground arith in
    let back : (static_count + d + (2 ^ 32 - static_count)) % 2 ^ 32 ≡ d =
      omega (arith, found.bounded, table.few) in
    record {
      shown = dyn_field found.entry;
      at = rw (high, back, found.there) refl;
      passed = found.passed;
      small = omega (arith, found.bounded, table.few);
    }

ne_positive : (d : ℕ) → d ≢ 0 → 1 ≤ d
ne_positive zero h = absurd (h refl)
ne_positive (suc d) h = omega arith

field_path :
    {f : Field} {name value : List ℕ}
    → f.name ≡ name
    → f.value ≡ value
    → f ≡ record { name = name; value = value }
field_path n v = λ i. record { name = n i; value = v i }

module _ (T : List ℕ → List ℕ → Bool) (dyn : Dyn) (table : IsTable dyn) where
  first_of-IsNamed :
      (s d : ℕ)
      → (s ≢ 0 → IsNamed T dyn s)
      → (d ≢ 0 → IsNamed T dyn (static_count + d))
      → (first_of s d == 0) ≡ false
      → IsNamed T dyn (first_of s d)
  first_of-IsNamed s d by_static by_dynamic some_index = elim (Bool-cases (s == 0)) [
    | inl missing ↦ elim (Bool-cases (d == 0)) [
      | inl neither ↦
          let zero_index : (first_of s d == 0) ≡ true = rw (missing, neither) refl in
          absurd (cc (sym some_index ∙ zero_index))
      | inr other ↦ rw (missing, other) (by_dynamic (λ e. ground (arith, other, e)))
    ]
    | inr there ↦ rw there (by_static (λ e. ground (arith, there, e)))
  ]

  index-IsNamed :
      let index =
        first_of
          (search_from (λ e. T e.name e.value) static_table 1)
          (dyn_find_from (λ e. T e.name e.value) dyn (length dyn.entries) 1) in
      (index == 0) ≡ false → IsNamed T dyn index
  index-IsNamed some_index =
      let s = search_from (λ e. T e.name e.value) static_table 1 in
      let d = dyn_find_from (λ e. T e.name e.value) dyn (length dyn.entries) 1 in
      first_of-IsNamed s d
        (λ there. static-IsNamed T dyn s (search_from-IsListed _ static_table 1 there))
        (λ there.
          dyn-IsNamed T dyn d table (ne_positive d there)
            (dyn_find_from-IsFound _ dyn (length dyn.entries) 1 (omega arith) there))
        some_index

-- An index of a pair names that pair.
pub pair_index-field_at :
    (dyn : Dyn) (name value : List ℕ)
    → IsTable dyn
    → (pair_index dyn name value == 0) ≡ false
    → (field_at dyn (pair_index dyn name value) ≡ some (record { name = name; value = value }))
      × (pair_index dyn name value ≤ int_max)
unfolding pair_index static_find_pair dyn_find_pair
pair_index-field_at dyn name value table some_index =
    let T : List ℕ → List ℕ → Bool = λ n v. same_bytes n name && same_bytes v value in
    let named = index-IsNamed T dyn table some_index in
    let (same_name, same_value) =
      and_both (same_bytes named.shown.name name) (same_bytes named.shown.value value)
        named.passed in
    let n = same_bytes_sound named.shown.name name same_name in
    let v = same_bytes_sound named.shown.value value same_value in
    (named.at ∙ ap some (field_path n v), named.small)

-- An index of a name names that name.
pub name_index-field_resolve_name :
    (dyn : Dyn) (name : List ℕ)
    → IsTable dyn
    → (name_index dyn name == 0) ≡ false
    → (field_resolve_name dyn (name_index dyn name) ≡ some name) × (name_index dyn name ≤ int_max)
unfolding name_index static_find_name dyn_find_name field_resolve_name
name_index-field_resolve_name dyn name table some_index =
    let T : List ℕ → List ℕ → Bool = λ n v. same_bytes n name in
    let named = index-IsNamed T dyn table some_index in
    let n = same_bytes_sound named.shown.name name named.passed in
    (rw named.at (ap some n), named.small)
