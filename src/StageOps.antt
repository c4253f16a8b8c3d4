-- ===== src/StageOps.antt =====
-- The stop and start operations of a stage (stage_stop_op and stage_start_op of
-- core/controller/c/main.c). An op is the tree of what it asks and does: the answers of the
-- cancellation handle and of the containerd client are the branches.
pub mod Runs
pub mod Contract
pub mod Watching
pub mod Guards
pub mod Stopping
pub mod Starting
pub mod Progress
pub mod Budget
pub mod Completion
use Prim.Native.String.{String}
use strimserver.Prelude.{
  ℕ, Bool, true, false, Option, none, some, List, [], if◌then◌else◌, ℤ, pos, negsuc, ltb_ℤ, leb_ℤ,
  eq_ℤ,
}
use strimserver.Spec.{Layout}
use strimserver.Spec.Argv.{StageTableEntry, stage_argv}
use strimserver.Spec.Mounts.{
  Mount, MountResult, null_argument, too_small, mounted, ffmpeg_mounts, mediamtx_mounts,
}

-- STRIM_CTRD_ERR_NOTFOUND and STRIM_CTRD_ERR_TIMEOUT
abbrev pub err_notfound : ℤ
err_notfound = negsuc 2

abbrev pub err_timeout : ℤ
err_timeout = negsuc 3

abbrev pub failure : ℤ
failure = negsuc 0

-- STRIM_CTRD_KILL_SIGTERM
abbrev pub sigterm : ℕ
sigterm = 15

-- STRIM_SPEC_MAX_MOUNTS
abbrev pub max_mounts : ℕ
max_mounts = 256

abbrev pub is_ok : ℤ → Bool
is_ok rc = eq_ℤ rc (pos 0)

-- The part of strim_spec that differs between the stages.
pub record ContainerSpec : Type 0 where
  pub args : List String
  pub mounts : List Mount

-- The calls that leave main.c, with the arguments that the op chooses.
pub data Call : Type 0 where
  load_container : (container_id : String) → Call
  load_task : Call
  -- pthread_create of task_wait_thread, which waits for the given milliseconds
  spawn_waiter : (wait_ms : ℤ) → Call
  -- pthread_join; the answer is w.rc
  join_waiter : Call
  task_kill : (signum : ℕ) → Call
  task_delete : (force : Bool) → Call
  delete_container : (cleanup : Bool) → Call
  cdi_ref_parse : String → Call
  cdi_scan cdi_resolve cdi_merge_edits : Call
  new_container : (container_id snapshot_id image_name : String) → ContainerSpec → Call
  new_task : (logfile : String) → Call
  task_start : Call

pub data Op : Type 0 where
  done : ℤ → Op
  -- strim_stage_op_superseded
  safe_point : (Bool → Op) → Op
  -- strim_stage_op_remaining_ms
  remaining : (ℤ → Op) → Op
  call : Call → (ℤ → Op) → Op

unfoldable pub bind : Op → (ℤ → Op) → Op
bind (done rc) k = k rc
bind (safe_point next) k = safe_point (λ b. bind (next b) k)
bind (remaining next) k = remaining (λ ms. bind (next ms) k)
bind (call c next) k = call c (λ rc. bind (next rc) k)

-- strim_stage_ops; `client` is false for NULL.
pub record StageOps : Type 0 where
  pub client : Bool
  pub container_id : String
  pub snapshot_id : String
  pub image_name : String
  pub logfile : String
  pub ffmpeg : Bool
  pub layout : Layout
  pub stage_table : List StageTableEntry
  pub stage_stop_timeout_ms : ℤ

unfoldable pub op_rpc_budget : (remaining_ms timeout_ms : ℤ) → ℤ
op_rpc_budget remaining_ms timeout_ms =
    if ltb_ℤ remaining_ms (pos 0)
    then timeout_ms
    else if ltb_ℤ remaining_ms timeout_ms
    then remaining_ms
    else timeout_ms

-- `if (op_superseded_abort(ops, cancel)) return 0;`
unfoldable pub unless_superseded : Op → Op
unless_superseded next = safe_point (λ superseded. if superseded then done (pos 0) else next)

-- A call whose error is the result.
unfoldable pub ok_or_return : Call → Op → Op
ok_or_return c next = call c (λ rc. if is_ok rc then next else done rc)

-- The end of the stop: the container goes, with its snapshot.
unfoldable pub delete_last : Op
unfolding ok_or_return
delete_last = ok_or_return (delete_container true) (done (pos 0))

-- The answer of the waiter decides how the task is deleted.
unfoldable pub reap : (wait_rc : ℤ) → Op
unfolding ok_or_return unless_superseded delete_last
reap wait_rc =
    let rest = unless_superseded delete_last in
    if is_ok wait_rc
    then ok_or_return (task_delete false) rest
    else if eq_ℤ wait_rc err_timeout
    then ok_or_return (task_delete true) rest
    else if eq_ℤ wait_rc err_notfound
    then rest
    else done wait_rc

-- From the signal on, with the waiter at work.
unfoldable pub signal_task : Op
unfolding reap unless_superseded
signal_task = call (task_kill sigterm) (λ rc.
    if is_ok rc
    then call join_waiter (λ wait_rc. unless_superseded (reap wait_rc))
    else call join_waiter (λ _. done rc))

unfoldable pub grace_period : (stage_stop_timeout_ms budget_ms : ℤ) → ℤ
grace_period stage_stop_timeout_ms budget_ms =
    if ltb_ℤ (pos 0) budget_ms
    then if ltb_ℤ budget_ms stage_stop_timeout_ms then budget_ms else stage_stop_timeout_ms
    else stage_stop_timeout_ms

-- With the task loaded: the waiter starts before the signal is sent.
unfoldable pub stop_task : (wait_ms : ℤ) → Op
unfolding signal_task
stop_task wait_ms = call (spawn_waiter wait_ms) (λ rc.
    if is_ok rc
    then safe_point
        (λ superseded. if superseded then call join_waiter (λ _. done (pos 0)) else signal_task)
    else done failure)

unfoldable pub stop_container : (wait_ms : ℤ) → Op
unfolding stop_task unless_superseded delete_last
stop_container wait_ms = call load_task (λ rc.
    if eq_ℤ rc err_notfound
    then delete_last
    else if is_ok rc
    then unless_superseded (stop_task wait_ms)
    else done rc)

unfoldable pub stop_within : StageOps → (budget_ms : ℤ) → Op
unfolding stop_container unless_superseded grace_period
stop_within ops budget_ms = call (load_container ops.container_id) (λ rc.
    if eq_ℤ rc err_notfound
    then done (pos 0)
    else if is_ok rc
    then unless_superseded (stop_container (grace_period ops.stage_stop_timeout_ms budget_ms))
    else done rc)

-- `if (budget_ms <= 0) return -1;`
unfoldable pub unless_spent : (budget_ms : ℤ) → (ℤ → Op) → Op
unless_spent budget_ms body = if leb_ℤ budget_ms (pos 0) then done failure else body budget_ms

-- The guards that both ops begin with; `body` runs within the budget.
unfoldable pub within_budget : StageOps → (timeout_ms : ℤ) → (ℤ → Op) → Op
unfolding unless_superseded op_rpc_budget unless_spent
within_budget ops timeout_ms body =
    if ops.client
    then unless_superseded (remaining (λ ms. unless_spent (op_rpc_budget ms timeout_ms) body))
    else done failure

unfoldable pub stage_stop_op : StageOps → (timeout_ms : ℤ) → Op
unfolding stop_within within_budget
stage_stop_op ops timeout_ms = within_budget ops timeout_ms (λ budget_ms. stop_within ops budget_ms)

-- The result of strim_ffmpeg_mounts and strim_mediamtx_mounts, then the three calls that create the
-- container, its task, and the process.
unfoldable pub create : StageOps → (args : List String) → MountResult → Op
unfolding ok_or_return unless_superseded
create ops args null_argument = done (negsuc 0)
create ops args too_small = done (negsuc 1)
create ops args (mounted mounts) =
    let spec : ContainerSpec = record { args = args; mounts = mounts } in
    let started = ok_or_return task_start (done (pos 0)) in
    let task = ok_or_return (new_task ops.logfile) (unless_superseded started) in
    unless_superseded (
      ok_or_return (new_container ops.container_id ops.snapshot_id ops.image_name spec)
        (unless_superseded task))

-- A call of prepare_ffmpeg_cdi: any error is -1.
unfoldable pub cdi_step : Call → Op → Op
cdi_step c next = call c (λ rc. if is_ok rc then next else done failure)

unfoldable pub prepare_ffmpeg_cdi : Op → Op
unfolding cdi_step
prepare_ffmpeg_cdi next =
    cdi_step (cdi_ref_parse "nvidia.com/gpu=0")
      (cdi_step cdi_scan (cdi_step cdi_resolve (cdi_step cdi_merge_edits next)))

unfoldable pub create_ffmpeg : StageOps → Option (List String) → Op
unfolding create prepare_ffmpeg_cdi
create_ffmpeg ops none = done failure
create_ffmpeg ops (some args) =
    prepare_ffmpeg_cdi (create ops args (ffmpeg_mounts ops.layout max_mounts))

unfoldable pub create_stage : StageOps → Op
unfolding create create_ffmpeg
create_stage ops =
    if ops.ffmpeg
    then create_ffmpeg ops (stage_argv ops.stage_table ops.container_id 64 64)
    else create ops [] (mediamtx_mounts ops.layout max_mounts)

-- Behind the stop that the start begins with.
unfoldable pub start_after : StageOps → (stop_rc : ℤ) → Op
unfolding create_stage unless_superseded
start_after ops stop_rc =
    if is_ok stop_rc then unless_superseded (create_stage ops) else done stop_rc

unfoldable pub stage_start_op : StageOps → (timeout_ms : ℤ) → Op
unfolding stage_stop_op start_after bind within_budget
stage_start_op ops timeout_ms =
    within_budget ops timeout_ms (λ budget_ms. bind (stage_stop_op ops budget_ms) (start_after ops))
