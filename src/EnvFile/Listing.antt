-- ===== src/EnvFile/Listing.antt =====
-- What source_env_file makes of the listing that the deployment writes: a line KEY="value" each.
use strimserver.Prelude.{
  ℕ, zero, suc, ◌-◌, ◌<◌, ◌≡◌, ◌≢◌, refl, sym, ap, ◌∙◌, Bool, true, false, ◌||◌, none, some, List,
  [], ◌∷◌, ◌++◌, append_assoc, arith, ◌==◌, if◌then◌else◌, length, length-append, append-nil,
  All-append, All,
}
use strimserver.EnvFile.{
  line_max, newline, quote, equals, is_blank, is_line_end, skip_blanks, trim_end, after_prefix,
  export_prefix, strip_export, split_on, strip_quotes, assigns, assignment, parse_entry,
  parse_trimmed, parse_line, fgets, Assignment, SourceEnd, sourced, setenv_failed, do_line,
  source_from, source_env_file, is_env_name_start, is_env_name_char, all_name_chars,
  is_env_name_valid,
}
use strimserver.EnvFile.Text.{
  trim_end-name, split_on-name, after_prefix-name, value_read, valid_chars, fgets-line,
}

-- KEY="value" and the end of the line
abbrev pub line_of : Assignment → List ℕ
line_of a = a.name ++ (equals ∷ quote ∷ (a.value ++ (quote ∷ newline ∷ [])))

abbrev pub listing : List Assignment → List ℕ
listing [] = []
listing (a ∷ rest) = line_of a ++ listing rest

-- A variable's name, a value on one line, and a line that fits the buffer.
pub record IsEntry (a : Assignment) : Type 0 where
  pub named : is_env_name_valid a.name ≡ true
  pub one_line : All (λ c. c ≢ newline) a.value
  pub fits : length (line_of a) < line_max

-- The steps of one round, each at what the step before leaves.
parse_line-entry :
    (c : ℕ) (rest : List ℕ)
    → is_blank c ≡ false
    → (is_line_end c || (c == 0x23)) ≡ false
    → parse_line (c ∷ rest) ≡ parse_entry (c ∷ rest)
unfolding parse_line skip_blanks parse_trimmed
parse_line-entry c rest no_blank no_end =
    rw (no_blank, parse_trimmed) (rw (no_end, parse_trimmed) refl)

parse_entry-assignment :
    (s name value : List ℕ)
    → after_prefix export_prefix s ≡ none
    → split_on equals s ≡ some (name, value)
    → parse_entry s ≡ assignment name value
unfolding parse_entry strip_export
parse_entry-assignment s name value no_export split =
    rw (no_export, parse_entry) (rw (split, parse_entry) refl)

assignment-assigns :
    (c : ℕ) (name value : List ℕ)
    → trim_end is_blank (c ∷ name) ≡ c ∷ name
    → assignment (c ∷ name) value ≡ assigns (c ∷ name) (strip_quotes (trim_end is_line_end value))
unfolding assignment
assignment-assigns c name value kept = rw (kept, assignment) refl

name_start :
    (c : ℕ)
    → is_env_name_start c ≡ true
    → (is_blank c ≡ false) × ((is_line_end c || (c == 0x23)) ≡ false)
unfolding is_env_name_start is_blank is_line_end
name_start c h = (ground arith, ground arith)

valid_start :
    (c : ℕ) (name : List ℕ) → is_env_name_valid (c ∷ name) ≡ true → is_env_name_start c ≡ true
unfolding is_env_name_valid
valid_start c name h = ground arith

parse_line-line_of :
    (name value : List ℕ)
    → is_env_name_valid name ≡ true
    → parse_line (line_of (record { name = name; value = value })) ≡ assigns name value
unfolding is_env_name_valid
parse_line-line_of [] value h = cc h
parse_line-line_of (c ∷ name) value h =
    let chars = valid_chars (c ∷ name) h in
    let t = quote ∷ (value ++ (quote ∷ newline ∷ [])) in
    let (no_blank, no_end) = name_start c (valid_start c name h) in
    let no_export =
      after_prefix-name (0x65 ∷ 0x78 ∷ 0x70 ∷ 0x6f ∷ 0x72 ∷ 0x74 ∷ []) (c ∷ name) t (ground arith)
        chars in
    parse_line-entry c (name ++ (equals ∷ t)) no_blank no_end
    ∙ parse_entry-assignment (c ∷ (name ++ (equals ∷ t))) (c ∷ name) t no_export
        (split_on-name (c ∷ name) t chars)
    ∙ assignment-assigns c name t (trim_end-name (c ∷ name) chars)
    ∙ ap (assigns (c ∷ name)) (value_read value)

-- The line without its end, before its end and whatever follows.
abbrev text_of : List ℕ → List ℕ → List ℕ
text_of name value = name ++ (equals ∷ quote ∷ (value ++ (quote ∷ [])))

line-text :
    (name value rest : List ℕ)
    → line_of (record { name = name; value = value }) ++ rest
      ≡ text_of name value ++ (newline ∷ rest)
line-text name value rest =
    append_assoc name (equals ∷ quote ∷ (value ++ (quote ∷ newline ∷ []))) rest
    ∙ ap (λ w. name ++ (equals ∷ quote ∷ w))
        (append_assoc value (quote ∷ newline ∷ []) rest
          ∙ sym (append_assoc value (quote ∷ []) (newline ∷ rest)))
    ∙ sym (append_assoc name (equals ∷ quote ∷ (value ++ (quote ∷ []))) (newline ∷ rest))

name_on_line : (name : List ℕ) → all_name_chars name ≡ true → All (λ c. c ≢ newline) name
unfolding all_name_chars is_env_name_char is_env_name_start
name_on_line [] h = tt
name_on_line (c ∷ name) h = (λ e. absurd (ground arith), name_on_line name (ground arith))

text_on_line :
    (name value : List ℕ)
    → All (λ c. c ≢ newline) name
    → All (λ c. c ≢ newline) value
    → All (λ c. c ≢ newline) (text_of name value)
text_on_line name value n v =
    All-append (λ c. c ≢ newline) name (equals ∷ quote ∷ (value ++ (quote ∷ []))) n
      (
        ground arith,
        (ground arith, All-append (λ c. c ≢ newline) value (quote ∷ []) v (ground arith, tt)),
      )

-- fgets takes exactly the line of an entry.
fgets-line_of :
    (name value rest : List ℕ)
    → IsEntry (record { name = name; value = value })
    → fgets (line_max - 1) (line_of (record { name = name; value = value }) ++ rest)
      ≡ (line_of (record { name = name; value = value }), rest)
fgets-line_of name value rest e =
    let whole =
      sym (append-nil (line_of (record { name = name; value = value })))
      ∙ line-text name value [] in
    let plain = text_on_line name value (name_on_line name (valid_chars name e.named)) e.one_line in
    let short : length (text_of name value) < line_max - 1 =
      omega (arith, e.fits, ap length whole, length-append (text_of name value) (newline ∷ [])) in
    ap (fgets (line_max - 1)) (line-text name value rest)
    ∙ fgets-line (line_max - 1) (text_of name value) rest plain short
    ∙ ap (λ w. (w, rest)) (sym whole)

-- The assignments up to the first that setenv refuses.
abbrev pub taken : (Assignment → Bool) → List Assignment → List Assignment × SourceEnd
taken setenv_ok [] = ([], sourced)
taken setenv_ok (a ∷ rest) =
    let later = taken setenv_ok rest in
    if setenv_ok a then (a ∷ later.0, later.1) else ([], setenv_failed)

module _ (setenv_ok : Assignment → Bool) where
  source_round :
      (fuel : ℕ) (name value rest : List ℕ)
      → IsEntry (record { name = name; value = value })
      → source_from setenv_ok (suc fuel) (line_of (record { name = name; value = value }) ++ rest)
        ≡ (let a : Assignment = record { name = name; value = value } in
            let later = source_from setenv_ok fuel rest in
            if setenv_ok a then (a ∷ later.0, later.1) else ([], setenv_failed))
  unfolding source_from do_line is_env_name_valid
  source_round fuel [] value rest e = let no : false ≡ true = e.named in cc no
  source_round fuel (c ∷ name) value rest e =
      ap
        (λ (p : List ℕ × List ℕ).
          do_line setenv_ok (parse_line p.0) (source_from setenv_ok fuel p.1))
        (fgets-line_of (c ∷ name) value rest e)
      ∙ ap (λ kind. do_line setenv_ok kind (source_from setenv_ok fuel rest))
          (parse_line-line_of (c ∷ name) value e.named)

  source_from-listing :
      (fuel : ℕ) (entries : List Assignment)
      → All IsEntry entries
      → length (listing entries) < fuel
      → source_from setenv_ok fuel (listing entries) ≡ taken setenv_ok entries
  unfolding source_from
  source_from-listing zero entries h enough = absurd (omega arith)
  source_from-listing (suc fuel) [] h enough = refl
  source_from-listing (suc fuel) (a ∷ rest) (e, h) enough =
      let shorter = length-append (line_of a) (listing rest) in
      let some_line = length-append a.name (equals ∷ quote ∷ (a.value ++ (quote ∷ newline ∷ []))) in
      source_round fuel a.name a.value (listing rest) e
      ∙ ap
          (λ (later : List Assignment × SourceEnd).
            if setenv_ok a then (a ∷ later.0, later.1) else ([], setenv_failed))
          (source_from-listing fuel rest h (omega (arith, enough, shorter, some_line)))

  -- A file of lines KEY="value", each with a variable's name, a value without a line end, and short
  -- enough for the line buffer, is sourced as it is meant: the variables are set to the values in
  -- the order of the lines, up to the first that setenv refuses, which makes the call fail; the
  -- loop comes to the end of the file.
  pub source_env_file-listing :
      (entries : List Assignment)
      → All IsEntry entries
      → source_env_file setenv_ok (some (listing entries)) ≡ taken setenv_ok entries
  unfolding source_env_file
  source_env_file-listing entries h =
      source_from-listing (suc (length (listing entries))) entries h (omega arith)
