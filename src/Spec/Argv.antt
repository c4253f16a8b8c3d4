-- ===== src/Spec/Argv.antt =====
-- The command line of an ffmpeg stage (strim_stage_argv of core/controller/c/core/spec.c), with a
-- container id, out arrays and a table that are not NULL.
use Prim.Native.String.{String}
use text.Mathlib.Text.{◌==◌ as ◌=text=◌}
use strimserver.Prelude.{
  ℕ, Option, none, some, List, [], ◌∷◌, leb, ◌==◌, ◌||◌, if◌then◌else◌, length,
}
use strimserver.Controller.Names.{stage_name, to_string}
use strimserver.Spec.{chars}

-- strim_stage_table_entry; an id that is NULL is `none`.
pub record StageTableEntry : Type 0 where
  pub entry_id : Option String
  pub entry_stage : ℕ

abbrev pub or_else : Option String → String → String
or_else none fallback = fallback
or_else (some wire) fallback = wire

-- The loop over the table: the first entry of the id decides.
unfoldable pub stage_str : List StageTableEntry → String → String
stage_str [] container_id = container_id
stage_str (entry ∷ rest) container_id =
    let later = stage_str rest container_id in
    elim entry.entry_id [
      | none ↦ later
      | some id ↦
          if id =text= container_id
          then or_else (to_string stage_name entry.entry_stage) container_id
          else later
    ]

-- `none` is one of the negative codes.
unfoldable pub stage_argv :
    List StageTableEntry → String → (argv0_cap argv1_cap : ℕ) → Option (List String)
unfolding stage_str
stage_argv stages container_id argv0_cap argv1_cap =
    if (argv0_cap == 0) || (argv1_cap == 0)
    then none
    else if leb argv0_cap (length (chars "/transcode.sh"))
    then none
    else if leb argv1_cap (length (chars (stage_str stages container_id)))
    then none
    else some ("/transcode.sh" ∷ stage_str stages container_id ∷ [])
