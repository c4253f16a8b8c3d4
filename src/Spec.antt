-- ===== src/Spec.antt =====
-- The host layout of core/controller/c/core/spec.c (join_path, strim_default_layout). Text is a list
-- of character codes; `none` is a NULL pointer.
pub mod Paths
pub mod Mounts
pub mod Argv
use Prim.Native.Char.{code}
use Prim.Native.String.{String}
use strimserver.Prelude.{
  ℕ, zero, suc, ◌-◌, Bool, true, false, not, ◌||◌, Option, none, some, List, [], ◌∷◌, ◌++◌, ltb,
  leb, ◌==◌, if◌then◌else◌, is_none, length,
}

-- The characters of a string literal.
abbrev pub chars : String → List ℕ
chars String.[] = []
chars (String.◌∷◌ c rest) = code c ∷ chars rest

-- STRIM_SPEC_PATH_MAX
abbrev pub path_max : ℕ
path_max = 4096

abbrev pub slash : ℕ
slash = 0x2f

-- What snprintf stores in `cap` bytes, of which the last is the NUL.
unfoldable pub clip : ℕ → List ℕ → List ℕ
clip zero s = []
clip (suc zero) s = []
clip (suc (suc room)) [] = []
clip (suc (suc room)) (c ∷ s) = c ∷ clip (suc room) s

unfoldable pub only_slash : List ℕ → Bool
only_slash [] = false
only_slash (c ∷ []) = c == slash
only_slash (c ∷ d ∷ s) = false

unfoldable pub join_path : ℕ → (base suffix : List ℕ) → List ℕ
unfolding clip only_slash
join_path cap base suffix = clip cap (if only_slash base then suffix else base ++ (slash ∷ suffix))

-- The slashes at the end of a text.
unfoldable pub cut_slashes : List ℕ → List ℕ
cut_slashes [] = []
cut_slashes (c ∷ s) = elim (cut_slashes s) [
  | [] ↦ if c == slash then [] else c ∷ []
  | d ∷ kept ↦ c ∷ d ∷ kept
]

-- `while (n > 1 && root[n - 1] == '/')`: the first character stays.
unfoldable pub cut_root : List ℕ → List ℕ
unfolding cut_slashes
cut_root [] = []
cut_root (c ∷ s) = c ∷ cut_slashes s

-- strim_layout; a pointer that is NULL is `none`.
pub record Layout : Type 0 where
  pub env : Option (List ℕ)
  pub transcode : Option (List ℕ)
  pub notify : Option (List ℕ)
  pub mediamtx_tmpl : Option (List ℕ)
  pub srt_pass : Option (List ℕ)
  pub video_dir : Option (List ℕ)
  pub resolv_conf : Option (List ℕ)
  pub tmp : Option (List ℕ)

unfoldable pub layout_at : List ℕ → Layout
unfolding join_path
layout_at root = record {
  env = some (join_path path_max root (chars "config/strimserver.env"));
  transcode = some (join_path path_max root (chars "bin/transcode.sh"));
  notify = some (join_path path_max root (chars "bin/notify"));
  mediamtx_tmpl = some (join_path path_max root (chars "config/mediamtx.yaml.template"));
  srt_pass = some (join_path path_max root (chars "srt-passphrase"));
  video_dir = some (join_path path_max root (chars "video-files"));
  resolv_conf = some (chars "/run/systemd/resolve/resolv.conf");
  tmp = some (chars "/tmp");
}

unfoldable pub default_layout : Option (List ℕ) → Layout
unfolding layout_at cut_root clip
default_layout none = layout_at (cut_root (clip path_max (chars "/mnt/nvme")))
default_layout (some []) = layout_at (cut_root (clip path_max (chars "/mnt/nvme")))
default_layout (some (c ∷ s)) = layout_at (cut_root (clip path_max (c ∷ s)))
