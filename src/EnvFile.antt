-- ===== src/EnvFile.antt =====
-- The env file and the templates of core/controller/c/envfile.c. Text is a list of character codes,
-- none of them NUL. getenv, setenv and the answers of the file calls are parameters.
pub mod Text
pub mod Listing
pub mod Template
use strimserver.Prelude.{
  ℕ, zero, suc, ◌+◌, ◌-◌, Bool, true, false, not, ◌&&◌, ◌||◌, Option, none, some, List, [], ◌∷◌,
  ◌++◌, ◌>>=◌, ltb, leb, ◌==◌, if◌then◌else◌, length,
}

-- STRIM_ENV_LINE_MAX, the room of `line` with the NUL
abbrev pub line_max : ℕ
line_max = 4096

abbrev pub newline : ℕ
newline = 0x0a

abbrev pub carriage_return : ℕ
carriage_return = 0x0d

abbrev pub quote : ℕ
quote = 0x22

abbrev pub equals : ℕ
equals = 0x3d

abbrev pub dollar : ℕ
dollar = 0x24

unfoldable pub is_blank : ℕ → Bool
is_blank c = (c == 0x20) || (c == 0x09)

unfoldable pub is_line_end : ℕ → Bool
is_line_end c = (c == newline) || (c == carriage_return)

unfoldable pub skip_blanks : List ℕ → List ℕ
unfolding is_blank
skip_blanks [] = []
skip_blanks (c ∷ rest) = let later = skip_blanks rest in if is_blank c then later else c ∷ rest

-- Cuts the last characters that satisfy `p`.
unfoldable pub trim_end : (ℕ → Bool) → List ℕ → List ℕ
trim_end p [] = []
trim_end p (c ∷ rest) = elim (trim_end p rest) [
  | [] ↦ if p c then [] else c ∷ []
  | d ∷ kept ↦ c ∷ d ∷ kept
]

-- strncmp(p, prefix, n) == 0: what stands behind the prefix.
unfoldable pub after_prefix : List ℕ → List ℕ → Option (List ℕ)
after_prefix [] s = some s
after_prefix (q ∷ prefix) [] = none
after_prefix (q ∷ prefix) (c ∷ rest) =
    let later = after_prefix prefix rest in if q == c then later else none

-- "export "
abbrev pub export_prefix : List ℕ
export_prefix = 0x65 ∷ 0x78 ∷ 0x70 ∷ 0x6f ∷ 0x72 ∷ 0x74 ∷ 0x20 ∷ []

unfoldable pub strip_export : List ℕ → List ℕ
unfolding after_prefix skip_blanks
strip_export s = elim (after_prefix export_prefix s) [ none ↦ s | some rest ↦ skip_blanks rest ]

-- strchr: what stands before and behind the first c.
unfoldable pub split_on : ℕ → List ℕ → Option (List ℕ × List ℕ)
split_on c [] = none
split_on c (d ∷ rest) =
    let later = split_on c rest in
    if d == c then some ([], rest) else elim later [ none ↦ none | some (l, r) ↦ some (d ∷ l, r) ]

-- A last quote, and what stands before it.
unfoldable pub before_last_quote : List ℕ → Option (List ℕ)
before_last_quote [] = none
before_last_quote (c ∷ []) = if c == quote then some [] else none
before_last_quote (c ∷ d ∷ rest) = elim (before_last_quote (d ∷ rest)) [
  | none ↦ none
  | some l ↦ some (c ∷ l)
]

-- Two characters at least, of which the first and the last are quotes.
unfoldable pub strip_quotes : List ℕ → List ℕ
unfolding before_last_quote
strip_quotes [] = []
strip_quotes (c ∷ rest) = elim (before_last_quote rest) [
  | none ↦ c ∷ rest
  | some l ↦ if c == quote then l else c ∷ rest
]

-- What a line asks for.
pub data LineKind : Type 0 where
  ignored malformed : LineKind
  assigns : (name value : List ℕ) → LineKind

unfoldable pub assignment : List ℕ → List ℕ → LineKind
unfolding trim_end is_blank is_line_end strip_quotes
assignment name value = elim (trim_end is_blank name) [
  | [] ↦ malformed
  | c ∷ rest ↦ assigns (c ∷ rest) (strip_quotes (trim_end is_line_end value))
]

unfoldable pub parse_entry : List ℕ → LineKind
unfolding split_on strip_export assignment
parse_entry p = elim (split_on equals (strip_export p)) [
  | none ↦ malformed
  | some (name, value) ↦ assignment name value
]

-- One round of the loop, from the line that fgets gave.
unfoldable pub parse_trimmed : List ℕ → LineKind
unfolding parse_entry is_line_end
parse_trimmed [] = ignored
parse_trimmed (c ∷ rest) = if is_line_end c || (c == 0x23) then ignored else parse_entry (c ∷ rest)

unfoldable pub parse_line : List ℕ → LineKind
unfolding parse_trimmed skip_blanks
parse_line line = parse_trimmed (skip_blanks line)

-- fgets with room for n characters
unfoldable pub fgets : ℕ → List ℕ → List ℕ × List ℕ
fgets zero s = ([], s)
fgets (suc n) [] = ([], [])
fgets (suc n) (c ∷ rest) =
    let (line, left) = fgets n rest in if c == newline then (c ∷ [], rest) else (c ∷ line, left)

pub record Assignment : Type 0 where
  pub name : List ℕ
  pub value : List ℕ

-- How source_env_file ends: `stuck` is the end of the fuel.
pub data SourceEnd : Type 0 where
  sourced malformed_line setenv_failed stuck : SourceEnd

-- What a line does, before what the rest of the file does.
unfoldable pub do_line :
    (setenv_ok : Assignment → Bool)
    → LineKind
    → List Assignment × SourceEnd
    → List Assignment × SourceEnd
do_line setenv_ok ignored later = later
do_line setenv_ok malformed later = ([], malformed_line)
do_line setenv_ok (assigns name value) later =
    let a : Assignment = record { name = name; value = value } in
    if setenv_ok a then (a ∷ later.0, later.1) else ([], setenv_failed)

-- The rest of the file; the setenv calls that succeed, in order, and the end.
unfoldable pub source_from :
    (setenv_ok : Assignment → Bool) → (fuel : ℕ) → List ℕ → List Assignment × SourceEnd
unfolding fgets parse_line do_line
source_from setenv_ok zero s = ([], stuck)
source_from setenv_ok (suc fuel) [] = ([], sourced)
source_from setenv_ok (suc fuel) (c ∷ s) =
    let (line, left) = fgets (line_max - 1) (c ∷ s) in
    do_line setenv_ok (parse_line line) (source_from setenv_ok fuel left)

-- A file that is absent is no error.
unfoldable pub source_env_file :
    (setenv_ok : Assignment → Bool) → Option (List ℕ) → List Assignment × SourceEnd
unfolding source_from
source_env_file setenv_ok none = ([], sourced)
source_env_file setenv_ok (some s) = source_from setenv_ok (suc (length s)) s

unfoldable pub is_env_name_start : ℕ → Bool
is_env_name_start c = (leb 0x61 c && leb c 0x7a) || (leb 0x41 c && leb c 0x5a) || (c == 0x5f)

unfoldable pub is_env_name_char : ℕ → Bool
unfolding is_env_name_start
is_env_name_char c = is_env_name_start c || (leb 0x30 c && leb c 0x39)

unfoldable pub all_name_chars : List ℕ → Bool
unfolding is_env_name_char
all_name_chars [] = true
all_name_chars (c ∷ rest) = is_env_name_char c && all_name_chars rest

unfoldable pub is_env_name_valid : List ℕ → Bool
unfolding is_env_name_start all_name_chars
is_env_name_valid [] = false
is_env_name_valid (c ∷ rest) = is_env_name_start c && all_name_chars rest

-- The longest run of name characters, and what is behind it.
unfoldable pub name_run : List ℕ → List ℕ × List ℕ
unfolding is_env_name_char
name_run [] = ([], [])
name_run (c ∷ rest) =
    let (name, left) = name_run rest in
    if is_env_name_char c then (c ∷ name, left) else ([], c ∷ rest)

-- write_env_value: an undefined variable is empty.
unfoldable pub env_value : (List ℕ → Option (List ℕ)) → List ℕ → List ℕ
env_value getenv name = elim (getenv name) [ none ↦ [] | some value ↦ value ]

-- One round of the loop at a '$' with `rest` behind it: what is written, and what is left.
unfoldable pub expand_dollar : (List ℕ → Option (List ℕ)) → List ℕ → List ℕ × List ℕ
unfolding split_on is_env_name_valid is_env_name_start name_run env_value
expand_dollar getenv [] = (dollar ∷ [], [])
expand_dollar getenv (d ∷ more) =
    let literal : List ℕ × List ℕ = (dollar ∷ [], d ∷ more) in
    let (name, left) = name_run (d ∷ more) in
    if d == dollar
    then (dollar ∷ [], more)
    else if d == 0x7b
    then elim (split_on 0x7d more) [
      | none ↦ literal
      | some (braced, behind) ↦
          if ltb (length braced) 256 && is_env_name_valid braced
          then (env_value getenv braced, behind)
          else literal
    ]
    else if is_env_name_start d && ltb (length name) 256
    then (env_value getenv name, left)
    else literal

-- The loop of expand_template_file: what it writes; `none` is a loop that the fuel does not end.
unfoldable pub expand_from : (List ℕ → Option (List ℕ)) → (fuel : ℕ) → List ℕ → Option (List ℕ)
unfolding expand_dollar
expand_from getenv fuel [] = some []
expand_from getenv zero (c ∷ rest) = none
expand_from getenv (suc fuel) (c ∷ rest) =
    let (out, left) = if c == dollar then expand_dollar getenv rest else (c ∷ [], rest) in
    expand_from getenv fuel left >>= (λ later. some (out ++ later))

unfoldable pub expand_template : (List ℕ → Option (List ℕ)) → List ℕ → List ℕ
unfolding expand_from
expand_template getenv template = elim (expand_from getenv (length template) template) [
  | none ↦ []
  | some out ↦ out
]

-- What the file calls and the allocator answer; `writes` covers the fputc and fputs calls, and
-- `half` is what the output file holds after a write or the close failed.
pub record TemplateEnv : Type 0 where
  pub template_opens : Bool
  pub reads : Bool
  pub output_opens : Bool
  pub writes : Bool
  pub closes : Bool
  pub unlinks : Bool
  pub half : List ℕ

-- unlink(output_path), whose answer is not looked at: the output file afterwards.
unfoldable pub give_up : TemplateEnv → Option (List ℕ)
give_up env = if env.unlinks then none else some env.half

-- Whether the result is 0, and the output file that is there afterwards; `before` was there before.
unfoldable pub expand_template_file :
    (List ℕ → Option (List ℕ))
    → TemplateEnv
    → (template : List ℕ) → (before : Option (List ℕ)) → Bool × Option (List ℕ)
unfolding expand_template give_up
expand_template_file getenv env template before =
    if not env.template_opens
    then (false, before)
    else if not env.reads
    then (false, before)
    else if not env.output_opens
    then (false, before)
    else if not env.writes
    then (false, give_up env)
    else if not env.closes
    then (false, give_up env)
    else (true, some (expand_template getenv template))
