-- ===== src/Controller/Reconcile.antt =====
-- One reconcile pass, the worker pool's queue and the wait group of core/controller/c/core/controller.c.
-- What the pass reads from outside is a FireEnv for each stage: two clock readings, the answers of
-- malloc, and whether another thread runs begin_shutdown just before the pass takes q_lock.
pub mod Slots
pub mod Refinement
pub mod Once
use strimserver.Prelude.{
  ℕ, zero, suc, ◌+◌, ◌-◌, Bool, true, not, ◌||◌, none, some, [], ◌∷◌, ◌++◌, ◌==◌, if◌then◌else◌,
  get_elem?, ℤ, pos, ◌+ℤ◌, ◌-ℤ◌, leb_ℤ, eq_ℤ,
}
use strimserver.Controller.Types.{
  stage_name_count, Rc, ok, closed, nomem, Stage, inc64, dec64, OpJob, WorkerPool, Controller,
}
use strimserver.Controller.Routes.{stage_op_for, is_ok}
use strimserver.Controller.Handlers.{set_stage}

unfoldable pub wg_add : Controller → ℕ → Controller
wg_add c n = record c { ops_wg = c.ops_wg + n }

-- The decrement is guarded by `count > 0`, so the truncated `-` is exact.
unfoldable pub wg_done : Controller → Controller
wg_done c = record c { ops_wg = c.ops_wg - 1 }

unfoldable pub workerpool_submit : Bool → WorkerPool → OpJob → WorkerPool × Rc
workerpool_submit alloc pool job =
    if not alloc
    then (pool, nomem)
    else if pool.shutting_down
    then (pool, closed)
    else (record pool { jobs = pool.jobs ++ job ∷ [] }, ok)

unfoldable pub begin_shutdown : Controller → Controller
begin_shutdown c = record c { shutting_down = true }

pub record FireEnv : Type 0 where
  pub check_now : ℤ
  pub fire_now : ℤ
  pub shutdown_races : Bool
  pub job_alloc : Bool
  pub submit_alloc : Bool

-- planReconcile: not in flight, or in flight for the timeout.
unfoldable pub fire_due : Stage → ℤ → ℤ → Bool
fire_due stage now timeout =
    eq_ℤ stage.in_flight_since (pos 0) || leb_ℤ timeout (now -ℤ stage.in_flight_since)

-- The stage that a fire leaves, and its job.
unfoldable pub fired : Stage → ℤ → Stage
fired stage now = record stage { in_flight_since = now; op_generation = inc64 stage.op_generation }

unfoldable pub op_job : ℕ → Stage → ℕ → ℤ → ℤ → OpJob
op_job i stage op now timeout = record {
  stage = i;
  op = op;
  op_ctx = stage.op_ctx;
  timeout_ms = timeout;
  cancel = record {
    generation = inc64 stage.op_generation;
    deadline_ms = now +ℤ timeout;
    current_generation = i;
  };
}

-- The stage after a submit that failed: no marker, and the generation taken back.
unfoldable pub undone : Stage → Stage
undone stage = record stage { in_flight_since = pos 0; op_generation = dec64 stage.op_generation }

-- The section of handle_reconcile that runs under q_lock.
unfoldable pub fire : FireEnv → Controller → ℕ → Stage → ℕ → Controller
unfolding wg_add wg_done is_ok
fire env c i stage op =
    let running = fired stage env.fire_now in
    let marked = wg_add (set_stage c i running) 1 in
    let (pool, rc) =
      workerpool_submit env.submit_alloc marked.pool
        (op_job i stage op env.fire_now c.inflight_timeout_ms) in
    if c.shutting_down
    then c
    else if not env.job_alloc
    then c
    else if is_ok rc
    then record marked { pool = pool }
    else set_stage (wg_done marked) i (undone running)

-- q_lock is taken, perhaps after another thread's begin_shutdown.
unfoldable pub lock_for_fire : FireEnv → Controller → Controller
unfolding begin_shutdown
lock_for_fire env c = if env.shutdown_races then begin_shutdown c else c

-- One round of the loop over the stages.
unfoldable pub reconcile_stage : FireEnv → Controller → ℕ → Stage → Controller
unfolding lock_for_fire
reconcile_stage env c i stage =
    if stage.status.desired == stage.status.actual
    then set_stage c i (record stage { in_flight_since = pos 0 })
    else if not (fire_due stage env.check_now c.inflight_timeout_ms)
    then c
    else elim (stage_op_for stage stage.status.desired) [
      | none ↦ c
      | some op ↦ fire env (lock_for_fire env c) i stage op
    ]

unfoldable pub reconcile_round : FireEnv → Controller → ℕ → Controller
reconcile_round env c i = elim (get_elem? c.stages i) [
  | none ↦ c
  | some stage ↦ reconcile_stage env c i stage
]

-- n rounds from stage i on.
unfoldable pub reconcile_from : (ℕ → FireEnv) → ℕ → ℕ → Controller → Controller
reconcile_from envs zero i c = c
reconcile_from envs (suc n) i c = reconcile_from envs n (i + 1) (reconcile_round (envs i) c i)

unfoldable pub handle_reconcile : (ℕ → FireEnv) → Controller → Controller
handle_reconcile envs c = if c.shutting_down then c else reconcile_from envs stage_name_count 0 c
