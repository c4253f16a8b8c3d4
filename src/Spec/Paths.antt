-- ===== src/Spec/Paths.antt =====
-- The paths under the host root.
use strimserver.Prelude.{
  ℕ, zero, suc, ◌<◌, ◌≡◌, refl, sym, ap, ◌∙◌, some, List, [], ◌∷◌, ◌++◌, arith, length,
  length-append,
}
use strimserver.Spec.{path_max, slash, clip, cut_slashes, cut_root, layout_at, default_layout}

-- A text that fits is stored whole.
clip-fits : (cap : ℕ) (s : List ℕ) → length s < cap → clip cap s ≡ s
unfolding clip
clip-fits zero s h = absurd (omega arith)
clip-fits (suc zero) [] h = refl
clip-fits (suc zero) (c ∷ s) h = absurd (omega arith)
clip-fits (suc (suc room)) [] h = refl
clip-fits (suc (suc room)) (c ∷ s) h = ap (λ w. c ∷ w) (clip-fits (suc room) s (omega arith))

abbrev pub slashes : ℕ → List ℕ
slashes zero = []
slashes (suc n) = slash ∷ slashes n

cut_slashes-slashes : (n : ℕ) → cut_slashes (slashes n) ≡ []
unfolding cut_slashes
cut_slashes-slashes zero = refl
cut_slashes-slashes (suc n) = rw (cut_slashes-slashes n, cut_slashes) refl

cut_slashes-append : (s : List ℕ) (n : ℕ) → cut_slashes (s ++ slashes n) ≡ cut_slashes s
unfolding cut_slashes
cut_slashes-append [] n = cut_slashes-slashes n
cut_slashes-append (c ∷ s) n = rw (cut_slashes-append s n, cut_slashes) refl

-- Slashes behind the host root make no difference to the layout, as long as the root with them fits
-- the path buffer.
pub default_layout-slashes :
    (c : ℕ) (s : List ℕ) (n : ℕ)
    → length (c ∷ (s ++ slashes n)) < path_max
    → default_layout (some (c ∷ (s ++ slashes n))) ≡ default_layout (some (c ∷ s))
unfolding default_layout cut_root
default_layout-slashes c s n h =
    let long = clip-fits path_max (c ∷ (s ++ slashes n)) h in
    let short = clip-fits path_max (c ∷ s) (omega (arith, h, length-append s (slashes n))) in
    ap (λ w. layout_at (cut_root w)) long
    ∙ ap (λ w. layout_at (c ∷ w)) (cut_slashes-append s n)
    ∙ ap (λ w. layout_at (cut_root w)) (sym short)
