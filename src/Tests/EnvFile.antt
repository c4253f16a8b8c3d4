-- ===== src/Tests/EnvFile.antt =====
-- An env file and a template.
use strimserver.Prelude.{ℕ, ◌≡◌, refl, true, false, Option, none, some, List, [], ◌∷◌, arith}
use strimserver.EnvFile.{
  Assignment, sourced, malformed_line, source_env_file, source_from, do_line, fgets, parse_line,
  parse_trimmed, parse_entry, skip_blanks, split_on, strip_export, is_line_end, is_blank,
  after_prefix, is_env_name_valid, all_name_chars, is_env_name_char, is_env_name_start, TemplateEnv,
  expand_template_file, expand_template, expand_from,
}
use strimserver.EnvFile.Listing.{IsEntry, listing, taken, source_env_file-listing}
use strimserver.EnvFile.Template.{
  Piece, literal, reference, bare, escaped, IsTemplate, render, expand_template-render,
  expand_from-enough,
}

-- A="x y"
abbrev a_entry : Assignment
a_entry = record { name = 0x41 ∷ []; value = 0x78 ∷ 0x20 ∷ 0x79 ∷ [] }

-- B=""
abbrev b_entry : Assignment
b_entry = record { name = 0x42 ∷ []; value = [] }

a_entry-IsEntry : IsEntry a_entry
unfolding is_env_name_valid all_name_chars is_env_name_char is_env_name_start
a_entry-IsEntry = record { named = refl; one_line = ground arith; fits = omega arith }

b_entry-IsEntry : IsEntry b_entry
unfolding is_env_name_valid all_name_chars is_env_name_char is_env_name_start
b_entry-IsEntry = record { named = refl; one_line = tt; fits = omega arith }

source_env_file-listing_example :
    source_env_file (λ a. true) (some (listing (a_entry ∷ b_entry ∷ [])))
    ≡ taken (λ a. true) (a_entry ∷ b_entry ∷ [])
source_env_file-listing_example =
    source_env_file-listing (λ a. true) (a_entry ∷ b_entry ∷ [])
      (a_entry-IsEntry, (b_entry-IsEntry, tt))

all_taken : taken (λ a. true) (a_entry ∷ b_entry ∷ []) ≡ (a_entry ∷ b_entry ∷ [], sourced)
all_taken = refl

-- A line without '='.
no_equals : source_env_file (λ a. true) (some (0x41 ∷ 0x0a ∷ [])) ≡ ([], malformed_line)
unfolding source_env_file source_from do_line fgets parse_line parse_trimmed skip_blanks parse_entry
    split_on strip_export after_prefix is_line_end is_blank
no_equals = refl

-- Each variable is "x".
abbrev getenv : List ℕ → Option (List ℕ)
getenv = λ name. some (0x78 ∷ [])

-- u${A}$A$$
abbrev pieces : List Piece
pieces = literal (0x75 ∷ []) ∷ reference (0x41 ∷ []) ∷ bare (0x41 ∷ []) ∷ escaped ∷ []

abbrev full_disk : TemplateEnv
full_disk = record {
  template_opens = true;
  reads = true;
  output_opens = true;
  writes = false;
  closes = true;
  unlinks = true;
  half = 0x75 ∷ [];
}

abbrev working : TemplateEnv
working = record {
  template_opens = true;
  reads = true;
  output_opens = true;
  writes = true;
  closes = true;
  unlinks = true;
  half = 0x75 ∷ [];
}

pieces-IsTemplate : IsTemplate pieces
unfolding is_env_name_valid all_name_chars is_env_name_start is_env_name_char
pieces-IsTemplate = (ground arith, ((refl, omega arith), ((refl, omega arith), refl, (tt, tt))))

no_half_output : expand_template_file getenv full_disk (render pieces) (some []) ≡ (false, none)
no_half_output = expand_template-render getenv pieces full_disk (some []) pieces-IsTemplate

-- ${A-} is no reference, and stays.
expand_from-enough_example :
    expand_from getenv 9 (0x24 ∷ 0x7b ∷ 0x41 ∷ 0x2d ∷ 0x7d ∷ [])
    ≡ some (expand_template getenv (0x24 ∷ 0x7b ∷ 0x41 ∷ 0x2d ∷ 0x7d ∷ []))
expand_from-enough_example =
    expand_from-enough getenv 9 (0x24 ∷ 0x7b ∷ 0x41 ∷ 0x2d ∷ 0x7d ∷ []) (omega arith)
