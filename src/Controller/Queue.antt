-- ===== src/Controller/Queue.antt =====
-- The action queue, its dispatch, the worker threads and shutdown of core/controller/c/core/controller.c. Each
-- function is one section that the code runs under a lock, or one handler on the queue thread.
pub mod Supersede
use strimserver.Prelude.{
  ℕ, zero, suc, Bool, true, false, not, ◌&&◌, Option, none, some, List, [], ◌∷◌, ◌++◌, ltb, ◌==◌,
  if◌then◌else◌, length, get_elem?, set, ℤ, pos, ◌-ℤ◌, eq_ℤ,
}
use strimserver.Controller.Types.{
  ctrl_workers, Rc, ok, closed, ControllerStatus, Prerequisites, Cancel, OpJob, Stage, Action,
  path_event, control, stage_event, status, add_listener, remove_listener, reconcile,
  clear_inflight, teardown, Queued, Reply, in_op, clearing, leaving, Worker, Controller,
}
use strimserver.Controller.Handlers.{
  handle_status, handle_path_event, handle_control, handle_stage_event, handle_add_listener,
  handle_remove_listener, handle_clear_inflight, teardown_inner,
}
use strimserver.Controller.Reconcile.{FireEnv, wg_done, handle_reconcile}

unfoldable pub enqueue_locked : Controller → Queued → Controller
enqueue_locked c act = record c { queue = c.queue ++ act ∷ [] }

-- The kinds that the strim_controller_submit_* functions and strim_controller_teardown enqueue.
abbrev pub is_blocking : Action → Bool
is_blocking reconcile = false
is_blocking (clear_inflight _ _) = false
is_blocking _ = true

-- `none`: the action is queued, and the caller waits for its reply.
unfoldable pub queue_submit : Controller → Action → ℕ → Controller × Option Rc
unfolding enqueue_locked
queue_submit c kind submitter = if c.q_closed then (c, some closed) else (
  enqueue_locked c (record { kind = kind; self_allocated = false; submitter = submitter }),
  none,
)

-- Coalescing: at most one pass is queued.
unfoldable pub request_reconcile : Bool → Controller → Controller
unfolding enqueue_locked
request_reconcile alloc c =
    let act : Queued = record { kind = reconcile; self_allocated = true; submitter = 0 } in
    if not alloc
    then c
    else if c.q_closed
    then c
    else if c.reconcile_queued
    then c
    else enqueue_locked (record c { reconcile_queued = true }) act

unfoldable pub close : Controller → Controller
close c = record c { shutting_down = true; q_closed = true }

abbrev pub is_reconcile : Action → Bool
is_reconcile reconcile = true
is_reconcile _ = false

-- The switch of run_action: the controller, the result, and what ACTION_STATUS writes.
unfoldable pub dispatch :
    Prerequisites → (ℕ → FireEnv) → Controller → Action → Controller × Rc × Option ControllerStatus
dispatch prereqs envs c (path_event e) =
    let (c', rc) = handle_path_event prereqs c e in (c', rc, none)
dispatch prereqs envs c (control cmd) =
    let (c', rc) = handle_control prereqs c cmd in (c', rc, none)
dispatch prereqs envs c (stage_event e) = let (c', rc) = handle_stage_event c e in (c', rc, none)
dispatch prereqs envs c status = (c, ok, some (handle_status c))
dispatch prereqs envs c (add_listener l) = let (c', rc) = handle_add_listener c l in (c', rc, none)
dispatch prereqs envs c (remove_listener l) =
    let (c', rc) = handle_remove_listener c l in (c', rc, none)
dispatch prereqs envs c reconcile = (handle_reconcile envs c, ok, none)
dispatch prereqs envs c (clear_inflight stage generation) =
    (handle_clear_inflight c stage generation, ok, none)
dispatch prereqs envs c teardown = (teardown_inner c, ok, none)

unfoldable pub run_action : Prerequisites → (ℕ → FireEnv) → Controller → Queued → Controller
run_action prereqs envs c act =
    let (c', rc, out) = dispatch prereqs envs c act.kind in
    let reply : Reply = record { submitter = act.submitter; reply_result = rc; status_out = out } in
    if act.self_allocated then c' else record c' { replies = c'.replies ++ reply ∷ [] }

-- The queue thread takes the head of the queue.
unfoldable pub dequeued : Controller → Queued → List Queued → Controller
dequeued c act rest = record c {
  queue = rest;
  reconcile_queued = if is_reconcile act.kind then false else c.reconcile_queued;
}

-- One round of strim_controller_run.
pub data Round : Type 0 where
  waits : Round  -- in pthread_cond_wait, with an empty queue
  returns : Round  -- closed and drained
  ran : Controller → Round

unfoldable pub run_round_on : Prerequisites → (ℕ → FireEnv) → Controller → List Queued → Round
unfolding dequeued
run_round_on prereqs envs c [] = if c.q_closed then returns else waits
run_round_on prereqs envs c (act ∷ rest) = ran (run_action prereqs envs (dequeued c act rest) act)

unfoldable pub run_round : Prerequisites → (ℕ → FireEnv) → Controller → Round
unfolding run_round_on
run_round prereqs envs c = run_round_on prereqs envs c c.queue

-- strim_stage_op_superseded and strim_stage_op_remaining_ms at a handle that is not NULL
unfoldable pub superseded : List Stage → Cancel → Bool
superseded stages cancel = elim (get_elem? stages cancel.current_generation) [
  | none ↦ false
  | some stage ↦ not (stage.op_generation == cancel.generation)
]

unfoldable pub remaining_ms : ℤ → Cancel → ℤ
remaining_ms now cancel = cancel.deadline_ms -ℤ now

-- worker_main: an idle thread takes the first job.
unfoldable pub take_job_from : Controller → List OpJob → Controller
take_job_from c [] = c
take_job_from c (job ∷ rest) =
    let taken : List Worker = c.pool.taken ++ (record { job = job; phase = in_op }) ∷ [] in
    if ltb (length c.pool.taken) ctrl_workers
    then record c {
      pool = record { jobs = rest; taken = taken; shutting_down = c.pool.shutting_down };
    }
    else c

unfoldable pub take_job : Controller → Controller
unfolding take_job_from
take_job c = take_job_from c c.pool.jobs

unfoldable pub set_worker : Controller → ℕ → Worker → Controller
set_worker c w worker = record c {
  pool = record {
    jobs = c.pool.jobs;
    taken = set c.pool.taken w worker;
    shutting_down = c.pool.shutting_down;
  };
}

-- run_stage_op, first part: the op has returned `err`, and the handle is asked.
unfoldable pub op_returned : ℤ → Controller → ℕ → Worker → Controller
unfolding set_worker superseded
op_returned err c w worker =
    let fails = not (eq_ℤ err (pos 0)) && not (superseded c.stages worker.job.cancel) in
    set_worker c w (record worker { phase = if fails then clearing else leaving })

-- Second part: the clear, stamped with the generation of this fire.
unfoldable pub push_clear : Bool → Controller → ℕ → Worker → Controller
unfolding set_worker enqueue_locked
push_clear alloc c w worker =
    let act : Queued = record {
      kind = clear_inflight worker.job.stage worker.job.cancel.generation;
      self_allocated = true;
      submitter = 0;
    } in
    let left = set_worker c w (record worker { phase = leaving }) in
    if not alloc then left else if c.q_closed then left else enqueue_locked left act

unfoldable pub remove_at {ℓ} : {A : Type ℓ} → List A → ℕ → List A
remove_at [] i = []
remove_at (x ∷ xs) zero = xs
remove_at (x ∷ xs) (suc i) = x ∷ remove_at xs i

-- Last part: wg_done, and the thread is idle again.
unfoldable pub op_finished : Controller → ℕ → Controller
unfolding wg_done remove_at
op_finished c w = record (wg_done c) {
  pool = record {
    jobs = c.pool.jobs;
    taken = remove_at c.pool.taken w;
    shutting_down = c.pool.shutting_down;
  };
}
