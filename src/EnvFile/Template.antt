-- ===== src/EnvFile/Template.antt =====
-- What template expansion writes, against a description of templates by their pieces.
use strimserver.Prelude.{
  ℕ, zero, suc, ◌≤◌, ◌<◌, ◌≡◌, ◌≢◌, refl, ap, sym, Bool, true, false, ◌&&◌, Option, none, some,
  List, [], ◌∷◌, ◌++◌, arith, subst, ltb, ◌==◌, if◌then◌else◌, length, length-append, All, Given,
  and_both, ◌∙◌, Option-cases, if_both, inl, inr,
}
use strimserver.EnvFile.{
  dollar, split_on, is_env_name_start, is_env_name_char, all_name_chars, is_env_name_valid,
  name_run, env_value, expand_dollar, expand_from, expand_template, TemplateEnv, give_up,
  expand_template_file,
}

-- Text without '$', references "${name}" and "$name", and "$$".
pub data Piece : Type 0 where
  literal reference bare : List ℕ → Piece
  escaped : Piece

-- A name in a reference is a variable's name and fits the code's buffer of 256.
abbrev pub IsPiece : Piece → Type 0
IsPiece (literal s) = All (λ c. c ≢ dollar) s
IsPiece (reference name) = (is_env_name_valid name ≡ true) × (length name < 256)
IsPiece (bare name) = (is_env_name_valid name ≡ true) × (length name < 256)
IsPiece escaped = Unit

abbrev pub render : List Piece → List ℕ
render [] = []
render (literal s ∷ rest) = s ++ render rest
render (reference name ∷ rest) = dollar ∷ 0x7b ∷ (name ++ (0x7d ∷ render rest))
render (bare name ∷ rest) = dollar ∷ (name ++ render rest)
render (escaped ∷ rest) = dollar ∷ dollar ∷ render rest

abbrev pub starts_in_name : List ℕ → Bool
starts_in_name [] = false
starts_in_name (c ∷ rest) = is_env_name_char c

-- The pieces of a template. What follows "$name" does not go on with the name.
abbrev pub IsTemplate : List Piece → Type 0
IsTemplate [] = Unit
IsTemplate (bare name ∷ rest) =
    IsPiece (bare name) × (starts_in_name (render rest) ≡ false) × IsTemplate rest
IsTemplate (p ∷ rest) = IsPiece p × IsTemplate rest

-- A reference stands for the variable's value, or for nothing.
abbrev pub meaning : (List ℕ → Option (List ℕ)) → List Piece → List ℕ
meaning getenv [] = []
meaning getenv (literal s ∷ rest) = s ++ meaning getenv rest
meaning getenv (reference name ∷ rest) = env_value getenv name ++ meaning getenv rest
meaning getenv (bare name ∷ rest) = env_value getenv name ++ meaning getenv rest
meaning getenv (escaped ∷ rest) = dollar ∷ meaning getenv rest

module _ (getenv : List ℕ → Option (List ℕ)) where
  -- With enough fuel, t is written as m.
  abbrev Expands : List ℕ → List ℕ → Type 0
  Expands t m = (fuel : ℕ) → length t ≤ fuel → expand_from getenv fuel t ≡ some m

  Expands-[] : Expands [] []
  unfolding expand_from
  Expands-[] fuel h = refl

  -- One round, from what it writes and leaves.
  Expands-round :
      (c : ℕ) (rest out left m : List ℕ)
      → (if c == dollar then expand_dollar getenv rest else (c ∷ [], rest)) ≡ (out, left)
      → length left ≤ length rest
      → Expands left m
      → Expands (c ∷ rest) (out ++ m)
  unfolding expand_from
  Expands-round c rest out left m round shorter later zero h = absurd (omega arith)
  Expands-round c rest out left m round shorter later (suc fuel) h =
      rw (round, later fuel (omega arith)) refl

  Expands-literal :
      (s t m : List ℕ) → All (λ c. c ≢ dollar) s → Expands t m → Expands (s ++ t) (s ++ m)
  Expands-literal [] t m plain later = later
  Expands-literal (c ∷ s) t m (other, plain) later =
      let round : (c == dollar) ≡ false = ground (arith, other) in
      Expands-round c (s ++ t) (c ∷ []) (s ++ t) (s ++ m) (rw round refl) (omega arith)
        (Expands-literal s t m plain later)

  Expands-escaped : (t m : List ℕ) → Expands t m → Expands (dollar ∷ dollar ∷ t) (dollar ∷ m)
  unfolding expand_dollar
  Expands-escaped t m later =
      Expands-round dollar (dollar ∷ t) (dollar ∷ []) t m refl (omega arith) later

  split_on-name :
      (name t : List ℕ)
      → all_name_chars name ≡ true
      → split_on 0x7d (name ++ (0x7d ∷ t)) ≡ some (name, t)
  unfolding split_on all_name_chars is_env_name_char is_env_name_start
  split_on-name [] t h = refl
  split_on-name (c ∷ name) t h =
      let other : (c == 0x7d) ≡ false = ground arith in
      rw (other, split_on-name name t (ground arith)) refl

  valid_chars : (name : List ℕ) → is_env_name_valid name ≡ true → all_name_chars name ≡ true
  unfolding is_env_name_valid all_name_chars is_env_name_char
  valid_chars [] h = refl
  valid_chars (c ∷ name) h = ground arith

  expand_reference :
      (name t : List ℕ)
      → is_env_name_valid name ≡ true
      → length name < 256
      → expand_dollar getenv (0x7b ∷ (name ++ (0x7d ∷ t))) ≡ (env_value getenv name, t)
  unfolding expand_dollar
  expand_reference name t valid short =
      let fits : ltb (length name) 256 ≡ true = ground arith in
      rw (split_on-name name t (valid_chars name valid)) (rw (fits, valid) refl)

  Expands-reference :
      (name t m : List ℕ)
      → is_env_name_valid name ≡ true
      → length name < 256
      → Expands t m
      → Expands (dollar ∷ 0x7b ∷ (name ++ (0x7d ∷ t))) (env_value getenv name ++ m)
  Expands-reference name t m valid short later =
      Expands-round dollar (0x7b ∷ (name ++ (0x7d ∷ t))) (env_value getenv name) t m
        (expand_reference name t valid short) (omega (arith, length-append name (0x7d ∷ t))) later

  name_run-name :
      (name t : List ℕ)
      → all_name_chars name ≡ true
      → starts_in_name t ≡ false
      → name_run (name ++ t) ≡ (name, t)
  unfolding name_run all_name_chars
  name_run-name [] [] h ends = refl
  name_run-name [] (c ∷ t) h ends = rw ends refl
  name_run-name (c ∷ name) t h ends =
      let (first, rest) = and_both (is_env_name_char c) (all_name_chars name) h in
      rw (first, name_run-name name t rest ends) refl

  -- A name does not begin with '$' or '{'.
  name_start :
      (c : ℕ) → is_env_name_start c ≡ true → ((c == dollar) ≡ false) × ((c == 0x7b) ≡ false)
  unfolding is_env_name_start
  name_start c h = (ground arith, ground arith)

  expand_bare :
      (name t : List ℕ)
      → is_env_name_valid name ≡ true
      → length name < 256
      → starts_in_name t ≡ false
      → expand_dollar getenv (name ++ t) ≡ (env_value getenv name, t)
  unfolding expand_dollar is_env_name_valid
  expand_bare [] t valid short ends = absurd (cc valid)
  expand_bare (c ∷ name) t valid short ends =
      let (start, others) = and_both (is_env_name_start c) (all_name_chars name) valid in
      let (other, no_brace) = name_start c start in
      let fits : ltb (length (c ∷ name)) 256 ≡ true = ground arith in
      rw (other, no_brace, start, name_run-name name t others ends) (rw fits refl)

  Expands-bare :
      (name t m : List ℕ)
      → is_env_name_valid name ≡ true
      → length name < 256
      → starts_in_name t ≡ false
      → Expands t m
      → Expands (dollar ∷ (name ++ t)) (env_value getenv name ++ m)
  Expands-bare name t m valid short ends later =
      Expands-round dollar (name ++ t) (env_value getenv name) t m
        (expand_bare name t valid short ends) (omega (arith, length-append name t)) later

  Expands-render : (ps : List Piece) → IsTemplate ps → Expands (render ps) (meaning getenv ps)
  Expands-render [] h = Expands-[]
  Expands-render (literal s ∷ ps) (plain, h) =
      Expands-literal s (render ps) (meaning getenv ps) plain (Expands-render ps h)
  Expands-render (reference name ∷ ps) ((valid, short), h) =
      Expands-reference name (render ps) (meaning getenv ps) valid short (Expands-render ps h)
  Expands-render (bare name ∷ ps) ((valid, short), ends, h) =
      Expands-bare name (render ps) (meaning getenv ps) valid short ends (Expands-render ps h)
  Expands-render (escaped ∷ ps) (_, h) =
      Expands-escaped (render ps) (meaning getenv ps) (Expands-render ps h)

  expand_template_of :
      (template out : List ℕ)
      → expand_from getenv (length template) template ≡ some out
      → expand_template getenv template ≡ out
  unfolding expand_template
  expand_template_of template out ends = rw (ends, expand_template) refl

  file_result :
      (env : TemplateEnv) (template : List ℕ) (before : Option (List ℕ))
      → expand_template_file getenv env template before ≡ (
          let opened = env.template_opens && env.reads && env.output_opens in
          let done = opened && env.writes && env.closes in
          (
            done,
            if done
                then some (expand_template getenv template)
                else if opened
                then give_up env
                else before,
          ))
  unfolding expand_template_file give_up
  file_result env template before = ground arith

  pub expand_template-render :
      (ps : List Piece) (env : TemplateEnv) (before : Option (List ℕ))
      → IsTemplate ps
      → let opened = env.template_opens && env.reads && env.output_opens in
        let done = opened && env.writes && env.closes in
        expand_template_file getenv env (render ps) before ≡ (
          done,
          if done
              then some (meaning getenv ps)
              else if opened
              then (if env.unlinks then none else some env.half)
              else before,
        )
  unfolding give_up
  expand_template-render ps env before h =
      let written =
        expand_template_of (render ps) (meaning getenv ps)
          (Expands-render ps h (length (render ps)) (omega arith)) in
      subst
        (λ out. expand_template_file getenv env (render ps) before ≡ (
          let opened = env.template_opens && env.reads && env.output_opens in
          let done = opened && env.writes && env.closes in
          (
            done,
            if done
                then some out
                else if opened
                then (if env.unlinks then none else some env.half)
                else before,
          )))
        written (file_result env (render ps) before)

  split_on-shorter :
      (c : ℕ) (s : List ℕ) → Given (λ (p : List ℕ × List ℕ). length p.1 ≤ length s) (split_on c s)
  unfolding split_on
  split_on-shorter c [] = tt
  split_on-shorter c (d ∷ rest) =
      let later = split_on-shorter c rest in
      if_both (Given (λ p. length p.1 ≤ length (d ∷ rest))) (d == c) _ _ (omega arith)
        (elim (Option-cases (split_on c rest)) [
          | inl out ↦ rw out tt
          | inr ((l, r), found) ↦
              rw found (omega (arith, subst (Given (λ p. length p.1 ≤ length rest)) found later))
        ])

  name_run-shorter : (s : List ℕ) → length (name_run s).1 ≤ length s
  unfolding name_run
  name_run-shorter [] = omega arith
  name_run-shorter (c ∷ rest) = ground (arith, name_run-shorter rest)

  expand_dollar-shorter : (rest : List ℕ) → length (expand_dollar getenv rest).1 ≤ length rest
  unfolding expand_dollar
  expand_dollar-shorter [] = omega arith
  expand_dollar-shorter (d ∷ more) =
      let within = λ (p : List ℕ × List ℕ). length p.1 ≤ length (d ∷ more) in
      let literal : length (d ∷ more) ≤ length (d ∷ more) = omega arith in
      if_both within (d == dollar) _ _ (omega arith) (
        if_both within (d == 0x7b) _ _
          (elim (Option-cases (split_on 0x7d more)) [
            | inl out ↦ rw out literal
            | inr ((braced, behind), found) ↦
                let short =
                  subst (Given (λ p. length p.1 ≤ length more)) found
                    (split_on-shorter 0x7d more) in
                rw found (
                  if_both within (ltb (length braced) 256 && is_env_name_valid braced) _ _
                    (omega (arith, short)) literal)
          ])
          (if_both within (is_env_name_start d && ltb (length (name_run (d ∷ more)).0) 256) _ _
            (name_run-shorter (d ∷ more)) literal))

  round-shorter :
      (c : ℕ) (rest : List ℕ)
      → length (if c == dollar then expand_dollar getenv rest else (c ∷ [], rest)).1 ≤ length rest
  round-shorter c rest =
      if_both (λ p. length p.1 ≤ length rest) (c == dollar) (expand_dollar getenv rest)
        (c ∷ [], rest) (expand_dollar-shorter rest) (omega arith)

  expand_from-ends :
      (fuel : ℕ) (s : List ℕ)
      → length s ≤ fuel
      → (out : List ℕ) × ((more : ℕ) → length s ≤ more → expand_from getenv more s ≡ some out)
  unfolding expand_from
  expand_from-ends fuel [] h = ([], λ more _. refl)
  expand_from-ends zero (c ∷ rest) h = absurd (omega arith)
  expand_from-ends (suc fuel) (c ∷ rest) h =
      let p = if c == dollar then expand_dollar getenv rest else (c ∷ [], rest) in
      let short = round-shorter c rest in
      let (later, same) = expand_from-ends fuel p.1 (omega (arith, short)) in
      (p.0 ++ later, Expands-round c rest p.0 p.1 later refl short same)

  -- The loop of the expansion ends within one round for each character of the template, whatever
  -- the template and the variables hold: with any such number of rounds it comes to its end, and
  -- what it writes does not depend on the number.
  pub expand_from-enough :
      (fuel : ℕ) (template : List ℕ)
      → length template ≤ fuel
      → expand_from getenv fuel template ≡ some (expand_template getenv template)
  expand_from-enough fuel template h =
      let (out, ends) = expand_from-ends (length template) template (omega arith) in
      ends fuel h
      ∙ ap some (sym (expand_template_of template out (ends (length template) (omega arith))))
