-- ===== src/EnvFile/Text.antt =====
-- The text functions of core/controller/c/envfile.c on names, quoted values and lines.
use strimserver.Prelude.{
  ℕ, zero, suc, ◌<◌, ◌≡◌, ◌≢◌, refl, sym, ap, ◌∙◌, Bool, true, false, none, some, List, [], ◌∷◌,
  ◌++◌, append_assoc, arith, ◌==◌, length, if_both, All,
}
use strimserver.EnvFile.{
  newline, quote, equals, is_blank, is_line_end, trim_end, after_prefix, split_on,
  before_last_quote, strip_quotes, fgets, is_env_name_start, is_env_name_char, all_name_chars,
  is_env_name_valid,
}

pub trim_end-kept :
    (p : ℕ → Bool) (s : List ℕ) (c : ℕ) → p c ≡ false → trim_end p (s ++ (c ∷ [])) ≡ s ++ (c ∷ [])
unfolding trim_end
trim_end-kept p [] c h = rw h refl
trim_end-kept p (d ∷ []) c h = rw (h, trim_end) refl
trim_end-kept p (d ∷ e ∷ s) c h = rw (trim_end-kept p (e ∷ s) c h) refl

pub trim_end-cut :
    (p : ℕ → Bool) (s : List ℕ) (c : ℕ) → p c ≡ true → trim_end p (s ++ (c ∷ [])) ≡ trim_end p s
unfolding trim_end
trim_end-cut p [] c h = rw h refl
trim_end-cut p (d ∷ s) c h = rw (trim_end-cut p s c h) refl

pub before_last_quote-append : (s : List ℕ) → before_last_quote (s ++ (quote ∷ [])) ≡ some s
unfolding before_last_quote
before_last_quote-append [] = refl
before_last_quote-append (c ∷ []) = refl
before_last_quote-append (c ∷ d ∷ s) = rw (before_last_quote-append (d ∷ s)) refl

-- Names have no blanks, so none is cut.
pub trim_end-name : (name : List ℕ) → all_name_chars name ≡ true → trim_end is_blank name ≡ name
unfolding trim_end all_name_chars is_blank is_env_name_char is_env_name_start
trim_end-name [] h = refl
trim_end-name (c ∷ []) h = let kept : is_blank c ≡ false = ground arith in rw kept refl
trim_end-name (c ∷ d ∷ rest) h = rw (trim_end-name (d ∷ rest) (ground arith)) refl

pub split_on-name :
    (name t : List ℕ)
    → all_name_chars name ≡ true
    → split_on equals (name ++ (equals ∷ t)) ≡ some (name, t)
unfolding split_on all_name_chars is_env_name_char is_env_name_start
split_on-name [] t h = refl
split_on-name (c ∷ name) t h =
    let other : (c == equals) ≡ false = ground arith in
    rw (other, split_on-name name t (ground arith)) refl

-- A prefix that ends in a blank, and has no '=' before it, is no prefix of NAME=.
pub after_prefix-name :
    (prefix name t : List ℕ)
    → All (λ c. c ≢ equals) prefix
    → all_name_chars name ≡ true
    → after_prefix (prefix ++ (0x20 ∷ [])) (name ++ (equals ∷ t)) ≡ none
unfolding after_prefix all_name_chars is_env_name_char is_env_name_start
after_prefix-name [] [] t plain h = refl
after_prefix-name [] (c ∷ name) t plain h =
    let other : (0x20 == c) ≡ false = ground arith in rw (other, after_prefix) refl
after_prefix-name (q ∷ prefix) [] t (other, plain) h =
    let no : (q == equals) ≡ false = ground (arith, other) in rw (no, after_prefix) refl
after_prefix-name (q ∷ prefix) (c ∷ name) t (other, plain) h =
    if_both (λ x. x ≡ none) (q == c) _ none (after_prefix-name prefix name t plain (ground arith))
      refl

pub value_read :
    (value : List ℕ)
    → strip_quotes (trim_end is_line_end (quote ∷ (value ++ (quote ∷ newline ∷ [])))) ≡ value
unfolding strip_quotes
value_read value =
    let joined =
      ap (λ w. trim_end is_line_end (quote ∷ w))
        (sym (append_assoc value (quote ∷ []) (newline ∷ []))) in
    let cut =
      trim_end-cut is_line_end (quote ∷ (value ++ (quote ∷ []))) newline
        (unfold is_line_end in refl) in
    let kept = trim_end-kept is_line_end (quote ∷ value) quote (unfold is_line_end in refl) in
    ap strip_quotes (joined ∙ cut ∙ kept) ∙ rw (before_last_quote-append value, strip_quotes) refl

pub valid_chars : (name : List ℕ) → is_env_name_valid name ≡ true → all_name_chars name ≡ true
unfolding is_env_name_valid all_name_chars is_env_name_char
valid_chars [] h = refl
valid_chars (c ∷ name) h = ground arith

pub fgets-line :
    (n : ℕ) (s rest : List ℕ)
    → All (λ c. c ≢ newline) s
    → length s < n
    → fgets n (s ++ (newline ∷ rest)) ≡ (s ++ (newline ∷ []), rest)
unfolding fgets
fgets-line zero s rest plain h = absurd (omega arith)
fgets-line (suc n) [] rest plain h = refl
fgets-line (suc n) (c ∷ s) rest (other, plain) h =
    let no : (c == newline) ≡ false = ground (arith, other) in
    rw (fgets-line n s rest plain (omega arith), no, fgets) refl
