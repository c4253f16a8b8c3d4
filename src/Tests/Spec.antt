-- ===== src/Tests/Spec.antt =====
-- The layout and the mounts under concrete host roots.
use strimserver.Prelude.{◌≡◌, refl, some, none, [], ◌∷◌, ◌++◌, arith}
use strimserver.Spec.{layout_at, chars, slash, clip, only_slash, join_path, default_layout}
use strimserver.Spec.Mounts.{too_small, mediamtx_mounts}
use strimserver.Spec.Paths.{slashes, default_layout-slashes}

-- "/a" and "/a//"
default_layout-slashes_example :
    default_layout (some (slash ∷ ((0x61 ∷ []) ++ slashes 2)))
    ≡ default_layout (some (slash ∷ 0x61 ∷ []))
default_layout-slashes_example = default_layout-slashes slash (0x61 ∷ []) 2 (omega arith)

joins_under_root :
    join_path 4096 (chars "/mnt/nvme") (chars "bin/notify") ≡ chars "/mnt/nvme/bin/notify"
unfolding join_path clip only_slash
joins_under_root = refl

-- An array for five mounts is too small for MediaMTX.
five_is_too_small : mediamtx_mounts (default_layout none) 5 ≡ too_small
unfolding mediamtx_mounts default_layout layout_at
five_is_too_small = refl
