-- ===== src/StageOps/Completion.antt =====
-- Both ops reach their goals.
use strimserver.Prelude.{ℕ, ◌≡◌, refl, false, Option, List, ℤ, pos, is_none}
use strimserver.Spec.{default_layout}
use Prim.Native.String.{String}
use strimserver.Spec.Argv.{stage_argv}
use strimserver.StageOps.{StageOps}
use strimserver.StageOps.Progress.{View, no_container}

abbrev Is : View → View → ℤ → Type 0
Is goal v rc = (v ≡ goal) × (rc ≡ pos 0)

-- The only outcome of a call.
abbrev only : {A : Type 0} → A → A × Unit {0}
only a = (a, tt)

-- The container goes, after the task or without one.
abbrev deleted : Is no_container no_container (pos 0) × Unit {0}
deleted = only (refl, refl)

-- The stage can be described: its mounts by the default layout, and its command line.
pub record IsDescribed (ops : StageOps) : Type 0 where
  pub host_root : Option (List ℕ)
  pub by_layout : ops.layout ≡ default_layout host_root
  pub by_argv : is_none (stage_argv ops.stage_table ops.container_id 64 64) ≡ false
