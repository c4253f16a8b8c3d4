-- ===== src/Controller/Names/WireRoundTrip.antt =====
-- The wire strings and the enum values name one another.
use strimserver.Prelude.{
  ℕ, zero, suc, ◌+◌, ◌-◌, ◌<◌, ◌≤◌, ◌≡◌, refl, sym, ap, ◌∙◌, ◌↔◌, inl, inr, none, some, List, [],
  ◌∷◌, arith, ltb, if◌then◌else◌, length, get_elem?, Bool-cases, lt→ltb, ltb→lt,
}
use native.Mathlib.Nat.{sub_self}
use Prim.Native.String.{String}
use text.Mathlib.Text.{◌==◌}
use text.Mathlib.TextEquality.{eq_iff}
use strimserver.Controller.Names.{
  WireEnum, path_status, stage_state, path_name, stage_name, control_component, control_action,
  strs, find_from, from_string, to_string,
}

get_elem?_shift :
    (t : String) (rest : List String) (i v : ℕ)
    → i + 1 ≤ v
    → get_elem? (t ∷ rest) (v - i) ≡ get_elem? rest (v - (i + 1))
get_elem?_shift t rest i v le = let e : v - i ≡ suc (v - (i + 1)) = omega arith in rw e

-- A match at index v stands in the table there.
find_from_sound :
    (s : String) (i : ℕ) (table : List String) (v : ℕ)
    → find_from s i table ≡ some v
    → (i ≤ v) × (v < i + length table) × (get_elem? table (v - i) ≡ some s)
unfolding find_from
find_from_sound s i [] v h = cc
find_from_sound s i (t ∷ rest) v h = elim (Bool-cases (s == t)) [
  | inl e ↦
      let same : s ≡ t = (eq_iff s t).0 e in
      let found : some i ≡ some v = rw e at h in
      let at : i ≡ v = cc found in
      (omega arith, omega arith, rw (sym at, sub_self) (ap some (sym same)))
  | inr e ↦
      let (le, lt, at) = find_from_sound s (i + 1) rest v (rw e at h) in
      (omega arith, omega arith, get_elem?_shift t rest i v le ∙ at)
]

from-to :
    (e : WireEnum) (v : ℕ)
    → from_string e (to_string e v) ≡ (if ltb v (length (strs e)) then some v else none)
unfolding from_string to_string strs
from-to path_status zero = refl
from-to path_status (suc zero) = refl
from-to path_status (suc (suc zero)) = refl
from-to path_status (suc (suc (suc v))) = ground arith
from-to stage_state zero = refl
from-to stage_state (suc zero) = refl
from-to stage_state (suc (suc zero)) = refl
from-to stage_state (suc (suc (suc v))) = ground arith
from-to path_name zero = refl
from-to path_name (suc zero) = refl
from-to path_name (suc (suc v)) = ground arith
from-to stage_name zero = refl
from-to stage_name (suc zero) = refl
from-to stage_name (suc (suc zero)) = refl
from-to stage_name (suc (suc (suc zero))) = refl
from-to stage_name (suc (suc (suc (suc v)))) = ground arith
from-to control_component zero = refl
from-to control_component (suc v) = ground arith
from-to control_action zero = refl
from-to control_action (suc zero) = refl
from-to control_action (suc (suc v)) = ground arith

to_of_from :
    (e : WireEnum) (s : String) (v : ℕ) → from_string e (some s) ≡ some v → to_string e v ≡ some s
unfolding from_string to_string
to_of_from e s v h =
    let (_, lt, at) = find_from_sound s 0 (strs e) v h in
    let in_range : v < length (strs e) = omega arith in
    let same : v - 0 ≡ v = omega arith in rw (lt→ltb v (length (strs e)) in_range) (rw same at at)

to_string_in_range :
    (e : WireEnum) (v : ℕ) {s : String} → to_string e v ≡ some s → v < length (strs e)
unfolding to_string
to_string_in_range e v h = elim (Bool-cases (ltb v (length (strs e)))) [
  | inl lt ↦ ltb→lt v (length (strs e)) lt
  | inr ge ↦ let out : none ≡ some _ = rw ge at h in cc out
]

from_of_to :
    (e : WireEnum) (s : String) (v : ℕ) → to_string e v ≡ some s → from_string e (some s) ≡ some v
from_of_to e s v h =
    rw (← h) (from-to e v ∙ rw (lt→ltb v (length (strs e)) (to_string_in_range e v h)))

-- A string reads as the value v exactly when v is printed as that string, for each of the six
-- enums and every v, in range or not; so each helper is the other's inverse.
pub from_string-to_string :
    (e : WireEnum) (s : String) (v : ℕ)
    → (from_string e (some s) ≡ some v) ↔ (to_string e v ≡ some s)
from_string-to_string e s v = (to_of_from e s v, from_of_to e s v)
