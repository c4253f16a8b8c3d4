-- ===== src/StageOps/Starting.antt =====
-- The start op keeps its contract, and both contracts hold of every run.
use strimserver.Prelude.{
  and_both, ◌≡◌, refl, Bool, true, false, Option, none, some, List, if◌then◌else◌, if_split,
  if_both, ℤ, pos, not, subst, sym,
}
use Prim.Native.String.{String}
use strimserver.Spec.Mounts.{MountResult, null_argument, too_small, mounted, ffmpeg_mounts}
use strimserver.StageOps.{
  is_ok, failure, StageOps, Call, Op, done, cdi_ref_parse, cdi_scan, cdi_resolve, cdi_merge_edits,
  new_task, task_start, unless_superseded, stage_stop_op, stage_start_op, create, cdi_step,
  prepare_ffmpeg_cdi, create_ffmpeg, create_stage, start_after, max_mounts,
}
use strimserver.StageOps.Runs.{called}
use strimserver.StageOps.Contract.{
  Phase, unknown, absent, bare, tasked, started, is_absent, is_started, has_waiter, reported, Watch,
  watch, ends_well, failed,
}
use strimserver.StageOps.Watching.{Keeps, Keeps-bind, EndsWell}
use strimserver.StageOps.Guards.{
  at, halted_at, if_pair, done-Keeps, ok_or_return-Keeps, unless_superseded-Keeps,
  within_budget-Keeps,
}
use strimserver.StageOps.Stopping.{stage_stop_op-Keeps}

absent_of : (p : Phase) → is_absent p ≡ true → p ≡ absent
absent_of absent e = refl
absent_of p e = absurd (cc e)

module _ (stop_ms limit : ℤ) where
  Started : Op → Watch → Type 0
  Started op m = Keeps stop_ms (EndsWell is_started) op m

  create-Keeps :
      (ops : StageOps) (args : List String) (result : MountResult)
      → Started (create ops args result) (at absent limit)
  unfolding create Started ends_well watch
  create-Keeps ops args null_argument = done-Keeps is_started stop_ms limit _ _ refl
  create-Keeps ops args too_small = done-Keeps is_started stop_ms limit _ _ refl
  create-Keeps ops args (mounted mounts) =
      let start =
        ok_or_return-Keeps is_started stop_ms limit task_start (done (pos 0)) tasked started
          (λ rc. refl) (done-Keeps is_started stop_ms limit (pos 0) _ refl) in
      let task =
        ok_or_return-Keeps is_started stop_ms limit (new_task ops.logfile) _ bare tasked
          (λ rc. refl) (unless_superseded-Keeps is_started stop_ms limit _ tasked refl start) in
      unless_superseded-Keeps is_started stop_ms limit _ absent refl (
        ok_or_return-Keeps is_started stop_ms limit _ _ absent bare (λ rc. refl)
          (unless_superseded-Keeps is_started stop_ms limit _ bare refl task))

  cdi_step-Keeps :
      (c : Call) (next : Op)
      → ((rc : ℤ)
          → watch stop_ms (at absent limit) (called c rc)
            ≡ some (at (if is_ok rc then absent else failed failure) limit))
      → Started next (at absent limit)
      → Started (cdi_step c next) (at absent limit)
  unfolding Keeps cdi_step Started ends_well
  cdi_step-Keeps c next moves keeps = λ rc. rw (moves rc) (
      if_pair (λ op q. Keeps stop_ms (EndsWell is_started) op (at q limit)) (is_ok rc) next
        (done failure) absent (failed failure) (λ _. keeps) (λ _. refl))

  create_ffmpeg-Keeps :
      (ops : StageOps) (args : Option (List String))
      → Started (create_ffmpeg ops args) (at absent limit)
  unfolding create_ffmpeg Started ends_well prepare_ffmpeg_cdi watch
  create_ffmpeg-Keeps ops none = done-Keeps is_started stop_ms limit failure _ refl
  create_ffmpeg-Keeps ops (some args) =
      let created = create-Keeps ops args (ffmpeg_mounts ops.layout max_mounts) in
      let merged = cdi_step-Keeps cdi_merge_edits _ (λ rc. refl) created in
      let resolved = cdi_step-Keeps cdi_resolve _ (λ rc. refl) merged in
      let scanned = cdi_step-Keeps cdi_scan _ (λ rc. refl) resolved in
      cdi_step-Keeps (cdi_ref_parse "nvidia.com/gpu=0") _ (λ rc. refl) scanned

  create_stage-Keeps : (ops : StageOps) → Started (create_stage ops) (at absent limit)
  unfolding create_stage
  create_stage-Keeps ops =
      if_both (λ op. Started op (at absent limit)) ops.ffmpeg _ _ (create_ffmpeg-Keeps ops _)
        (create-Keeps ops _ _)

  -- A start whose stop was superseded stops at its own safe point.
  superseded-Keeps :
      (next : Op) (p : Phase)
      → not (has_waiter p) ≡ true
      → Started (unless_superseded next) (halted_at p limit)
  unfolding Keeps unless_superseded Started ends_well
  superseded-Keeps next p free true _ = rw free refl
  superseded-Keeps next p free false only = absurd (cc only)

  start_after-Keeps :
      (ops : StageOps) (rc : ℤ) (p : Phase) (h : Bool)
      → EndsWell is_absent (record { phase = p; halted = h; limit_ms = limit }) rc
      → Started (start_after ops rc) (record { phase = p; halted = h; limit_ms = limit })
  unfolding start_after Started ends_well
  start_after-Keeps ops rc p true ended =
      let (free, good) = and_both (not (has_waiter p)) (is_ok rc) ended in
      rw good (superseded-Keeps (create_stage ops) p free)
  start_after-Keeps ops rc p false ended =
      let (free, unfinished) = and_both (not (has_waiter p)) _ ended in
      if_split (λ op. Started op (at p limit)) (is_ok rc) _ _
        (λ good.
          let gone : p ≡ absent =
            absent_of p
              (subst (λ b. (if b then is_absent p else reported p rc) ≡ true) good unfinished) in
          subst (λ q. Started (unless_superseded (create_stage ops)) (at q limit)) (sym gone)
            (unless_superseded-Keeps is_started stop_ms limit (create_stage ops) absent refl
              (create_stage-Keeps ops)))
        (λ bad. done-Keeps is_started stop_ms limit rc (at p limit) (
          rw (free, bad)
            (subst (λ b. (if b then is_absent p else reported p rc) ≡ true) bad unfinished)))

pub stage_start_op-Keeps :
    (ops : StageOps) (timeout_ms : ℤ)
    → Keeps ops.stage_stop_timeout_ms
        (EndsWell is_started)
        (stage_start_op ops timeout_ms)
        (at unknown timeout_ms)
unfolding stage_start_op Keeps Started
stage_start_op-Keeps ops timeout_ms =
    let stop_ms = ops.stage_stop_timeout_ms in
    within_budget-Keeps is_started stop_ms timeout_ms ops _ refl (λ limit _.
      Keeps-bind stop_ms (EndsWell is_absent) (EndsWell is_started) (start_after ops)
        (stage_stop_op ops limit) (at unknown limit) (stage_stop_op-Keeps ops limit)
        (λ m rc ended. start_after-Keeps stop_ms m.limit_ms ops rc m.phase m.halted ended))
