-- ===== src/Prelude/Lists.antt =====
-- Lists measured and indexed by native numbers, under the library's names.
use Prim.Native.Nat.{ℕ, zero, suc, ◌+◌, ◌<◌}
use mathlib.Core.Path.{◌≡◌, refl, ap}
use mathlib.Core.Logic.{◌≢◌}
use mathlib.Core.List.{List, [], ◌∷◌, ◌++◌}
use mathlib.Core.Option.{Option, none, some}
use native.Mathlib.Omega.{arith}
use strimserver.Prelude.Tests.{◌>>=◌}

module _ {ℓ} {A : Type ℓ} where
  abbrev pub length : List A → ℕ
  length [] = 0
  length (x ∷ xs) = suc (length xs)

  abbrev pub get_elem? : List A → ℕ → Option A
  get_elem? [] i = none
  get_elem? (x ∷ xs) zero = some x
  get_elem? (x ∷ xs) (suc i) = get_elem? xs i

  -- A write out of bounds changes nothing.
  abbrev pub set : List A → ℕ → A → List A
  set [] i v = []
  set (x ∷ xs) zero v = v ∷ xs
  set (x ∷ xs) (suc i) v = x ∷ set xs i v

  pub length-append : (xs ys : List A) → length (xs ++ ys) ≡ length xs + length ys
  length-append [] ys = omega arith
  length-append (x ∷ xs) ys = omega (arith, length-append xs ys)

module _ {ℓ} {A : Type ℓ} where
  pub length-set : (xs : List A) (i : ℕ) (v : A) → length (set xs i v) ≡ length xs
  length-set [] i v = refl
  length-set (x ∷ xs) zero v = refl
  length-set (x ∷ xs) (suc i) v = ap suc (length-set xs i v)

  pub get_elem?-set_self :
      (xs : List A) (i : ℕ) (v : A) → i < length xs → get_elem? (set xs i v) i ≡ some v
  get_elem?-set_self [] i v h = elim h [ ]
  get_elem?-set_self (x ∷ xs) zero v h = refl
  get_elem?-set_self (x ∷ xs) (suc i) v h = get_elem?-set_self xs i v (omega arith)

  pub get_elem?-set_ne :
      (xs : List A) (i j : ℕ) (v : A) → i ≢ j → get_elem? (set xs i v) j ≡ get_elem? xs j
  get_elem?-set_ne [] i j v h = refl
  get_elem?-set_ne (x ∷ xs) zero zero v h = absurd (h refl)
  get_elem?-set_ne (x ∷ xs) zero (suc j) v h = refl
  get_elem?-set_ne (x ∷ xs) (suc i) zero v h = refl
  get_elem?-set_ne (x ∷ xs) (suc i) (suc j) v h = get_elem?-set_ne xs i j v (λ e. h (ap suc e))

  pub set-set : (xs : List A) (i : ℕ) (v w : A) → set (set xs i v) i w ≡ set xs i w
  set-set [] i v w = refl
  set-set (x ∷ xs) zero v w = refl
  set-set (x ∷ xs) (suc i) v w = ap (λ ys. x ∷ ys) (set-set xs i v w)

  -- Writing what stands there changes nothing.
  pub set_same : (xs : List A) (i : ℕ) {v : A} → get_elem? xs i ≡ some v → set xs i v ≡ xs
  set_same [] i h = refl
  set_same (x ∷ xs) zero h = cc
  set_same (x ∷ xs) (suc i) h = ap (λ ys. x ∷ ys) (set_same xs i h)

  -- The entry behind a prefix.
  pub get_elem?-append :
      (xs ys : List A) (x : A) (i : ℕ) → length xs ≡ i → get_elem? (xs ++ x ∷ ys) i ≡ some x
  get_elem?-append [] ys x zero h = refl
  get_elem?-append [] ys x (suc i) h = absurd (omega arith)
  get_elem?-append (z ∷ xs) ys x zero h = absurd (omega arith)
  get_elem?-append (z ∷ xs) ys x (suc i) h = get_elem?-append xs ys x i (omega arith)

  pub set-append :
      (xs ys : List A) (x v : A) (i : ℕ) → length xs ≡ i → set (xs ++ x ∷ ys) i v ≡ xs ++ v ∷ ys
  set-append [] ys x v zero h = refl
  set-append [] ys x v (suc i) h = absurd (omega arith)
  set-append (z ∷ xs) ys x v zero h = absurd (omega arith)
  set-append (z ∷ xs) ys x v (suc i) h = ap (λ zs. z ∷ zs) (set-append xs ys x v i (omega arith))

-- A predicate of every entry, which computes to a tuple.
abbrev pub All {ℓ κ} : {A : Type ℓ} → (A → Type κ) → List A → Type κ
All P [] = Unit
All P (x ∷ xs) = P x × All P xs

-- A predicate of the value, if there is one.
abbrev pub Given {ℓ κ} : {A : Type ℓ} → (A → Type κ) → Option A → Type κ
Given P none = Unit
Given P (some x) = P x

pub Given-bind {ℓ κ μ} :
    {A : Type ℓ} {B : Type κ} (P : B → Type μ) (o : Option A) (f : A → Option B)
    → ((x : A) → Given P (f x))
    → Given P (o >>= f)
Given-bind P none f h = tt
Given-bind P (some x) f h = h x

pub Given-map {ℓ κ μ} :
    {A : Type ℓ} (P : A → Type κ) (Q : A → Type μ)
    → ((x : A) → P x → Q x)
    → (o : Option A) → Given P o
    → Given Q o
Given-map P Q f none h = tt
Given-map P Q f (some x) h = f x h

-- The rest of a chain knows what holds of the value.
pub Given-after {ℓ κ μ ν} :
    {A : Type ℓ} {B : Type κ} (P : A → Type μ) (Q : B → Type ν) (o : Option A) (f : A → Option B)
    → Given P o
    → ((x : A) → P x → Given Q (f x))
    → Given Q (o >>= f)
Given-after P Q none f h k = tt
Given-after P Q (some x) f h k = k x h

module _ {ℓ κ} {A : Type ℓ} (P : A → Type κ) where
  pub All-set : (xs : List A) (i : ℕ) (v : A) → All P xs → P v → All P (set xs i v)
  All-set [] i v h pv = h
  All-set (x ∷ xs) zero v h pv = (pv, h.1)
  All-set (x ∷ xs) (suc i) v h pv = (h.0, All-set xs i v h.1 pv)

  pub All-get_elem? : (xs : List A) (i : ℕ) → All P xs → Given P (get_elem? xs i)
  All-get_elem? [] i h = tt
  All-get_elem? (x ∷ xs) zero h = h.0
  All-get_elem? (x ∷ xs) (suc i) h = All-get_elem? xs i h.1

  pub All-append : (xs ys : List A) → All P xs → All P ys → All P (xs ++ ys)
  All-append [] ys h k = k
  All-append (x ∷ xs) ys h k = (h.0, All-append xs ys h.1 k)

pub lt_of_get_elem? {ℓ} :
    {A : Type ℓ} (xs : List A) (i : ℕ) {x : A} → get_elem? xs i ≡ some x → i < length xs
lt_of_get_elem? [] i h = cc
lt_of_get_elem? (y ∷ xs) zero h = omega arith
lt_of_get_elem? (y ∷ xs) (suc i) h = omega (arith, lt_of_get_elem? xs i h)
