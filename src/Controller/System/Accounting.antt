-- ===== src/Controller/System/Accounting.antt =====
-- The wait group counts the launched ops, at most one pass is queued, and the pool stays within
-- its threads, however the threads interleave.
use strimserver.Prelude.{
  ℕ, zero, suc, ◌+◌, ◌≤◌, ◌≡◌, refl, ap, inl, inr, Bool, true, false, some, List, [], ◌∷◌, ◌++◌,
  arith, length, length-append, length-set, get_elem?, if◌then◌else◌, if_both, Option-cases,
}
use strimserver.Controller.Types.{
  ctrl_workers, stage_name_count, Prerequisites, Action, path_event, control, stage_event, status,
  add_listener, remove_listener, reconcile, clear_inflight, teardown, Stage, OpJob, in_op, leaving,
  Queued, Worker, Controller,
}
use strimserver.Controller.Routes.{stage_op_for}
use strimserver.Controller.Handlers.{set_stage}
use strimserver.Controller.Reconcile.{
  FireEnv, op_job, fire, lock_for_fire, workerpool_submit, reconcile_stage, reconcile_round,
  reconcile_from, handle_reconcile, begin_shutdown,
}
use strimserver.Controller.Queue.{
  is_blocking, is_reconcile, queue_submit, request_reconcile, close, take_job, op_returned,
  push_clear, op_finished, dispatch, run_action, dequeued, remove_at, run_round, run_round_on, ran,
  take_job_from, set_worker,
}
use strimserver.Controller.System.{
  Step, submits, requests, runs, comes_to_stage, begins_shutdown, closes, takes_job, op_returns,
  clears, op_finishes, Reach, here, next,
}
use strimserver.Controller.System.Frame.{
  Frame, idle-ne-ran, handle_path_event-Frame, handle_control-Frame, handle_stage_event-Frame,
  handle_add_listener-Frame, handle_remove_listener-Frame, handle_clear_inflight-Frame,
  teardown_inner-Frame,
}

abbrev pub count_reconciles : List Queued → ℕ
count_reconciles [] = 0
count_reconciles (act ∷ rest) = (if is_reconcile act.kind then 1 else 0) + count_reconciles rest

pub record IsSound (c : Controller) : Type 0 where
  pub counted : c.ops_wg ≡ length c.pool.jobs + length c.pool.taken
  pub coalesced : count_reconciles c.queue ≡ (if c.reconcile_queued then 1 else 0)
  pub staffed : length c.pool.taken ≤ ctrl_workers

count_reconciles-append :
    (xs ys : List Queued) → count_reconciles (xs ++ ys) ≡ count_reconciles xs + count_reconciles ys
count_reconciles-append [] ys = omega arith
count_reconciles-append (x ∷ xs) ys = omega (arith, count_reconciles-append xs ys)

fire-IsSound :
    (env : FireEnv) (c : Controller) (i : ℕ) (stage : Stage) (op : ℕ)
    → IsSound c
    → IsSound (fire env (lock_for_fire env c) i stage op)
unfolding fire lock_for_fire workerpool_submit set_stage
fire-IsSound env c i stage op sound =
    ground
      (arith, length-append c.pool.jobs (op_job i stage op env.fire_now c.inflight_timeout_ms ∷ []))

reconcile_stage-IsSound :
    (env : FireEnv) (c : Controller) (i : ℕ) (stage : Stage)
    → IsSound c
    → IsSound (reconcile_stage env c i stage)
unfolding reconcile_stage set_stage
reconcile_stage-IsSound env c i stage sound =
    elim (Option-cases (stage_op_for stage stage.status.desired)) [
      | inl missing ↦ ground arith
      | inr (op, found) ↦ ground (arith, fire-IsSound env c i stage op)
    ]

reconcile_round-IsSound :
    (env : FireEnv) (c : Controller) (i : ℕ) → IsSound c → IsSound (reconcile_round env c i)
unfolding reconcile_round
reconcile_round-IsSound env c i sound = elim (Option-cases (get_elem? c.stages i)) [
  | inl out ↦ rw (out, reconcile_round) sound
  | inr (stage, at) ↦ rw (at, reconcile_round) (reconcile_stage-IsSound env c i stage sound)
]

reconcile_from-IsSound :
    (envs : ℕ → FireEnv) (n i : ℕ) (c : Controller)
    → IsSound c
    → IsSound (reconcile_from envs n i c)
unfolding reconcile_from
reconcile_from-IsSound envs zero i c sound = sound
reconcile_from-IsSound envs (suc n) i c sound =
    reconcile_from-IsSound envs n (i + 1) (reconcile_round (envs i) c i)
      (reconcile_round-IsSound (envs i) c i sound)

handle_reconcile-IsSound :
    (envs : ℕ → FireEnv) (c : Controller) → IsSound c → IsSound (handle_reconcile envs c)
unfolding handle_reconcile
handle_reconcile-IsSound envs c sound =
    if_both IsSound c.shutting_down c (reconcile_from envs stage_name_count 0 c) sound
      (reconcile_from-IsSound envs stage_name_count 0 c sound)

Frame-IsSound : {c c' : Controller} → Frame c c' → IsSound c → IsSound c'
Frame-IsSound {c} {c'} frame sound = ground arith

blocking_reconcile : (kind : Action) → is_blocking kind ≡ true → is_reconcile kind ≡ false
blocking_reconcile reconcile h = cc
blocking_reconcile _ h = refl

submit-IsSound :
    (c : Controller) (kind : Action) (submitter : ℕ)
    → is_blocking kind ≡ true
    → IsSound c
    → IsSound (queue_submit c kind submitter).0
unfolding queue_submit
submit-IsSound c kind submitter blocking sound = ground (
  arith,
  blocking_reconcile kind blocking,
  count_reconciles-append c.queue
      (record { kind = kind; self_allocated = false; submitter = submitter } ∷ []),
)

request-IsSound : (alloc : Bool) (c : Controller) → IsSound c → IsSound (request_reconcile alloc c)
unfolding request_reconcile
request-IsSound alloc c sound = ground (
  arith,
  count_reconciles-append c.queue
      (record { kind = reconcile; self_allocated = true; submitter = 0 } ∷ []),
)

take_job-IsSound :
    (c : Controller) (jobs : List OpJob)
    → c.pool.jobs ≡ jobs
    → IsSound c
    → IsSound (take_job_from c jobs)
unfolding take_job_from
take_job-IsSound c [] e sound = sound
take_job-IsSound c (job ∷ rest) e sound =
    ground
      (arith, ap length e, length-append c.pool.taken (record { job = job; phase = in_op } ∷ []))

set_worker-IsSound :
    (c : Controller) (w : ℕ) (worker : Worker) → IsSound c → IsSound (set_worker c w worker)
unfolding set_worker
set_worker-IsSound c w worker sound = omega (arith, length-set c.pool.taken w worker)

push_clear-IsSound :
    (alloc : Bool) (c : Controller) (w : ℕ) (worker : Worker)
    → IsSound c
    → IsSound (push_clear alloc c w worker)
unfolding push_clear
push_clear-IsSound alloc c w worker sound =
    let clear : Queued = record {
      kind = clear_inflight worker.job.stage worker.job.cancel.generation;
      self_allocated = true;
      submitter = 0;
    } in
    ground (
      arith,
      length-set c.pool.taken w (record worker { phase = leaving }),
      count_reconciles-append c.queue (clear ∷ []),
    )

pub length-remove_at {ℓ} :
    {A : Type ℓ} (xs : List A) (i : ℕ) {x : A}
    → get_elem? xs i ≡ some x
    → length xs ≡ suc (length (remove_at xs i))
unfolding remove_at
length-remove_at [] i h = cc
length-remove_at (x ∷ xs) zero h = refl
length-remove_at (x ∷ xs) (suc i) h = ap suc (length-remove_at xs i h)

op_finished-IsSound :
    (c : Controller) (w : ℕ) {worker : Worker}
    → get_elem? c.pool.taken w ≡ some worker
    → IsSound c
    → IsSound (op_finished c w)
unfolding op_finished
op_finished-IsSound c w at sound = omega (arith, length-remove_at c.pool.taken w at)

dequeued-IsSound :
    (c : Controller) (act : Queued) (rest : List Queued)
    → c.queue ≡ act ∷ rest
    → IsSound c
    → IsSound (dequeued c act rest)
unfolding dequeued
dequeued-IsSound c act rest e sound = ground (arith, ap count_reconciles e)

module _ (prereqs : Prerequisites) where
  dispatch-IsSound :
      (envs : ℕ → FireEnv) (c : Controller) (kind : Action)
      → IsSound c
      → IsSound (dispatch prereqs envs c kind).0
  unfolding dispatch
  dispatch-IsSound envs c (path_event e) h = Frame-IsSound (handle_path_event-Frame prereqs c e) h
  dispatch-IsSound envs c (control cmd) h = Frame-IsSound (handle_control-Frame prereqs c cmd) h
  dispatch-IsSound envs c (stage_event e) h = Frame-IsSound (handle_stage_event-Frame c e) h
  dispatch-IsSound envs c status h = h
  dispatch-IsSound envs c (add_listener l) h = Frame-IsSound (handle_add_listener-Frame c l) h
  dispatch-IsSound envs c (remove_listener l) h = Frame-IsSound (handle_remove_listener-Frame c l) h
  dispatch-IsSound envs c reconcile h = handle_reconcile-IsSound envs c h
  dispatch-IsSound envs c (clear_inflight stage generation) h =
      Frame-IsSound (handle_clear_inflight-Frame c stage generation) h
  dispatch-IsSound envs c teardown h = Frame-IsSound (teardown_inner-Frame c) h

  run_action-IsSound :
      (envs : ℕ → FireEnv) (c : Controller) (act : Queued)
      → IsSound c
      → IsSound (run_action prereqs envs c act)
  unfolding run_action
  run_action-IsSound envs c act sound =
      let done = dispatch-IsSound envs c act.kind sound in
      if_both IsSound act.self_allocated _ _ done (omega arith)

  run_round-IsSound :
      (envs : ℕ → FireEnv) (c c' : Controller) (queue : List Queued)
      → c.queue ≡ queue
      → IsSound c
      → run_round_on prereqs envs c queue ≡ ran c'
      → IsSound c'
  unfolding run_round_on dequeued
  run_round-IsSound envs c c' [] e sound h = absurd (idle-ne-ran c.q_closed h)
  run_round-IsSound envs c c' (act ∷ rest) e sound h =
      let same : run_action prereqs envs (dequeued c act rest) act ≡ c' = cc h in
      rw (← same)
        (run_action-IsSound envs (dequeued c act rest) act (dequeued-IsSound c act rest e sound))

  -- Every step of every thread keeps the accounts.
  pub Step-IsSound : {c d : Controller} → Step prereqs c d → IsSound c → IsSound d
  unfolding run_round take_job close begin_shutdown op_returned
  Step-IsSound {c} (submits kind submitter blocking) sound =
      submit-IsSound c kind submitter blocking sound
  Step-IsSound {c} (requests alloc) sound = request-IsSound alloc c sound
  Step-IsSound {c} (runs envs c' h) sound = run_round-IsSound envs c c' c.queue refl sound h
  Step-IsSound {c} (comes_to_stage env i) sound = reconcile_round-IsSound env c i sound
  Step-IsSound {c} begins_shutdown sound = omega arith
  Step-IsSound {c} closes sound = omega arith
  Step-IsSound {c} takes_job sound = take_job-IsSound c c.pool.jobs refl sound
  Step-IsSound {c} (op_returns err w worker at phase) sound = set_worker-IsSound c w _ sound
  Step-IsSound {c} (clears alloc w worker at phase) sound =
      push_clear-IsSound alloc c w worker sound
  Step-IsSound {c} (op_finishes w worker at phase) sound = op_finished-IsSound c w at sound

  -- However the threads interleave, from a controller that is sound: the wait group counts exactly
  -- the jobs in the pool and on the workers, no more workers are busy than there are threads, and
  -- the queue holds one reconcile pass if `reconcile_queued` is set and none if it is not.
  pub Reach-IsSound : {c d : Controller} → Reach prereqs c d → IsSound c → IsSound d
  Reach-IsSound here sound = sound
  Reach-IsSound (next r step) sound = Step-IsSound step (Reach-IsSound r sound)
