-- ===== src/Controller/Names.antt =====
-- The enum and wire-string helpers of core/controller/c/core/controller.c. A `const char *` is `Option String`.
pub mod WireRoundTrip
use strimserver.Prelude.{
  ℕ, ◌+◌, Option, none, some, List, [], ◌∷◌, ltb, if◌then◌else◌, length, get_elem?,
}
use Prim.Native.String.{String}
use text.Mathlib.Text.{◌==◌}

-- The six enums that have a pair of helpers.
pub data WireEnum : Type 0 where
  path_status stage_state path_name stage_name control_component control_action : WireEnum

-- k_path_status_strs and the other tables, indexed by the enums
unfoldable pub strs : WireEnum → List String
strs path_status = "unknown" ∷ "ready" ∷ "not-ready" ∷ []
strs stage_state = "stopped" ∷ "running" ∷ "" ∷ []
strs path_name = "ingress0" ∷ "normalized" ∷ []
strs stage_name = "mediamtx" ∷ "normalize" ∷ "scale_and_egress" ∷ "single_stage_egress" ∷ []
strs control_component = "egress" ∷ []
strs control_action = "start" ∷ "stop" ∷ []

-- The loop of enum_from_string from index i on; `none` is the result -1.
find_from : String → ℕ → List String → Option ℕ
find_from s i [] = none
find_from s i (t ∷ rest) = if s == t then some i else find_from s (i + 1) rest

unfoldable pub enum_from_string : Option String → List String → Option ℕ
unfolding find_from
enum_from_string none table = none
enum_from_string (some s) table = find_from s 0 table

unfoldable pub enum_to_string : ℕ → List String → Option String
enum_to_string v table = if ltb v (length table) then get_elem? table v else none

-- strim_path_status_from_string and its five siblings, at a non-NULL `out`: `none` is -1, and
-- `some v` is 0 with v stored.
unfoldable pub from_string : WireEnum → Option String → Option ℕ
unfolding strs enum_from_string
from_string e s = enum_from_string s (strs e)

-- strim_path_status_to_string and its five siblings
unfoldable pub to_string : WireEnum → ℕ → Option String
unfolding strs enum_to_string
to_string e v = enum_to_string v (strs e)
