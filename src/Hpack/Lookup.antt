-- ===== src/Hpack/Lookup.antt =====
-- What the searches of the tables find.
use strimserver.Prelude.{
  ℕ, zero, suc, ◌+◌, ◌≤◌, ◌<◌, ◌≡◌, ◌≢◌, refl, sym, ◌∙◌, Bool, true, false, some, List, [], ◌∷◌,
  arith, ◌==◌, length, get_elem?, Bool-cases, inl, inr, Option-cases,
}
use strimserver.Hpack.Table.{DynEntry, Dyn, same_bytes, dyn_get, dyn_find_from}
use strimserver.Hpack.Static.{StaticEntry, search_from}

pub same_bytes_sound : (xs ys : List ℕ) → same_bytes xs ys ≡ true → xs ≡ ys
same_bytes_sound [] [] e = refl
same_bytes_sound [] (y ∷ ys) e = absurd (cc e)
same_bytes_sound (x ∷ xs) [] e = absurd (cc e)
same_bytes_sound (x ∷ xs) (y ∷ ys) e = elim (Bool-cases (x == y)) [
  | inl head ↦
      let equal : x ≡ y = ground (arith, head) in
      let tail : same_bytes xs ys ≡ true = sym (rw (head, same_bytes) refl) ∙ e in
      rw (equal, same_bytes_sound xs ys tail) refl
  | inr other ↦
      let none_such : false ≡ true = sym (rw (other, same_bytes) refl) ∙ e in absurd (cc none_such)
]

-- An index that a search of the dynamic table found.
pub record IsFound (test : DynEntry → Bool) (dyn : Dyn) (index : ℕ) : Type 0 where
  pub entry : DynEntry
  pub there : dyn_get dyn index ≡ some entry
  pub passed : test entry ≡ true
  pub bounded : index ≤ length dyn.entries

pub dyn_find_from-IsFound :
    (test : DynEntry → Bool) (dyn : Dyn) (left i : ℕ)
    → i + left ≤ suc (length dyn.entries)
    → dyn_find_from test dyn left i ≢ 0
    → IsFound test dyn (dyn_find_from test dyn left i)
unfolding dyn_find_from
dyn_find_from-IsFound test dyn zero i bound found = absurd (found refl)
dyn_find_from-IsFound test dyn (suc left) i bound found = elim (Option-cases (dyn_get dyn i)) [
  | inl missing ↦ absurd (found (rw (missing, dyn_find_from) refl))
  | inr (e, there) ↦ elim (Bool-cases (test e)) [
    | inl passed ↦
        rw (there, passed, dyn_find_from)
          (record { entry = e; there = there; passed = passed; bounded = omega (arith, bound) })
    | inr other ↦
        let on : dyn_find_from test dyn (suc left) i ≡ dyn_find_from test dyn left (suc i) =
          rw (there, other, dyn_find_from) refl in
        rw on
          (dyn_find_from-IsFound test dyn left (suc i) (omega (arith, bound)) (λ e. found (on ∙ e)))
  ]
]

-- The same for the static table, from the index i on.
pub record IsListed (test : StaticEntry → Bool) (entries : List StaticEntry) (i index : ℕ)
    : Type 0 where
  pub entry : StaticEntry
  pub place : ℕ
  pub at : index ≡ i + place
  pub there : get_elem? entries place ≡ some entry
  pub passed : test entry ≡ true
  pub bounded : place < length entries

pub search_from-IsListed :
    (test : StaticEntry → Bool) (entries : List StaticEntry) (i : ℕ)
    → search_from test entries i ≢ 0
    → IsListed test entries i (search_from test entries i)
unfolding search_from
search_from-IsListed test [] i found = absurd (found refl)
search_from-IsListed test (e ∷ rest) i found = elim (Bool-cases (test e)) [
  | inl passed ↦
      rw (passed, search_from)
        (record {
          entry = e;
          place = 0;
          at = omega arith;
          there = refl;
          passed = passed;
          bounded = omega arith;
        })
  | inr other ↦
      let on : search_from test (e ∷ rest) i ≡ search_from test rest (suc i) =
        rw (other, search_from) refl in
      let later = search_from-IsListed test rest (suc i) (λ z. found (on ∙ z)) in
      rw on (record {
        entry = later.entry;
        place = suc later.place;
        at = omega (arith, later.at);
        there = later.there;
        passed = later.passed;
        bounded = omega (arith, later.bounded);
      })
]
