-- ===== src/Controller/System/Shutdown.antt =====
-- The shutdown handshake: begin_shutdown, then wait_for_ops, then teardown and close.
use strimserver.Prelude.{ℕ, ◌≤◌, ◌≡◌, refl, true, List, [], ◌∷◌, arith, length}
use strimserver.Controller.Types.{
  Prerequisites, Action, path_event, control, stage_event, status, add_listener, remove_listener,
  reconcile, clear_inflight, teardown, Queued, Controller,
}
use strimserver.Controller.Reconcile.{
  FireEnv, handle_reconcile, begin_shutdown, reconcile_round, reconcile_stage, lock_for_fire, fire,
}
use strimserver.Controller.Handlers.{set_stage}
use strimserver.Controller.Queue.{
  queue_submit, request_reconcile, close, take_job, take_job_from, op_returned, push_clear,
  op_finished, dispatch, run_action, dequeued, run_round, run_round_on, ran, set_worker,
}
use strimserver.Controller.System.{
  Step, submits, requests, runs, comes_to_stage, begins_shutdown, closes, takes_job, op_returns,
  clears, op_finishes, Reach, here, next,
}
use strimserver.Controller.System.Frame.{
  Frame, idle-ne-ran, handle_path_event-Frame, handle_control-Frame, handle_stage_event-Frame,
  handle_add_listener-Frame, handle_remove_listener-Frame, handle_clear_inflight-Frame,
  teardown_inner-Frame,
}
use strimserver.Controller.System.Accounting.{IsSound, Reach-IsSound}

-- No op was launched on the way from c to d, and shutdown is still on.
pub record IsSuppressed (c d : Controller) : Type 0 where
  pub still_down : d.shutting_down ≡ true
  pub no_launch : d.ops_wg ≤ c.ops_wg

Frame-IsSuppressed : {c d : Controller} → c.shutting_down ≡ true → Frame c d → IsSuppressed c d
Frame-IsSuppressed down frame = ground arith

stays : (c : Controller) → c.shutting_down ≡ true → IsSuppressed c c
stays c down = ground arith

empty_of_length {ℓ} : {A : Type ℓ} (xs : List A) → length xs ≡ 0 → xs ≡ []
empty_of_length [] h = refl
empty_of_length (x ∷ xs) h = absurd (omega arith)

-- A pass that is under way when shutdown begins fires no more.
reconcile_round-IsSuppressed :
    (env : FireEnv) (c : Controller) (i : ℕ)
    → c.shutting_down ≡ true
    → IsSuppressed c (reconcile_round env c i)
unfolding reconcile_round reconcile_stage lock_for_fire begin_shutdown fire set_stage
reconcile_round-IsSuppressed env c i down = ground (arith, down)

module _ (prereqs : Prerequisites) where
  dispatch-IsSuppressed :
      (envs : ℕ → FireEnv) (c : Controller) (kind : Action)
      → c.shutting_down ≡ true
      → IsSuppressed c (dispatch prereqs envs c kind).0
  unfolding dispatch handle_reconcile
  dispatch-IsSuppressed envs c (path_event e) h =
      Frame-IsSuppressed h (handle_path_event-Frame prereqs c e)
  dispatch-IsSuppressed envs c (control cmd) h =
      Frame-IsSuppressed h (handle_control-Frame prereqs c cmd)
  dispatch-IsSuppressed envs c (stage_event e) h =
      Frame-IsSuppressed h (handle_stage_event-Frame c e)
  dispatch-IsSuppressed envs c status h = stays c h
  dispatch-IsSuppressed envs c (add_listener l) h =
      Frame-IsSuppressed h (handle_add_listener-Frame c l)
  dispatch-IsSuppressed envs c (remove_listener l) h =
      Frame-IsSuppressed h (handle_remove_listener-Frame c l)
  dispatch-IsSuppressed envs c reconcile h = ground arith
  dispatch-IsSuppressed envs c (clear_inflight stage generation) h =
      Frame-IsSuppressed h (handle_clear_inflight-Frame c stage generation)
  dispatch-IsSuppressed envs c teardown h = Frame-IsSuppressed h (teardown_inner-Frame c)

  run_action-IsSuppressed :
      (envs : ℕ → FireEnv) (c : Controller) (act : Queued)
      → c.shutting_down ≡ true
      → IsSuppressed c (run_action prereqs envs c act)
  unfolding run_action
  run_action-IsSuppressed envs c act down = ground (arith, dispatch-IsSuppressed envs c act.kind)

  round-IsSuppressed :
      (envs : ℕ → FireEnv) (c c' : Controller) (queue : List Queued)
      → c.shutting_down ≡ true
      → run_round_on prereqs envs c queue ≡ ran c'
      → IsSuppressed c c'
  unfolding run_round_on dequeued
  round-IsSuppressed envs c c' [] down h = absurd (idle-ne-ran c.q_closed h)
  round-IsSuppressed envs c c' (act ∷ rest) down h =
      let same : run_action prereqs envs (dequeued c act rest) act ≡ c' = cc h in
      rw (← same) (
        let done = run_action-IsSuppressed envs (dequeued c act rest) act down in
        record { still_down = done.still_down; no_launch = done.no_launch })

  -- With the flag set, no step of any thread launches an op or takes the flag back.
  Step-IsSuppressed :
      {c d : Controller} → Step prereqs c d → c.shutting_down ≡ true → IsSuppressed c d
  unfolding queue_submit request_reconcile run_round take_job take_job_from close begin_shutdown
      op_returned push_clear op_finished set_worker
  Step-IsSuppressed {c} (submits kind submitter blocking) down = ground arith
  Step-IsSuppressed {c} (requests alloc) down = ground arith
  Step-IsSuppressed {c} (runs envs c' h) down = round-IsSuppressed envs c c' c.queue down h
  Step-IsSuppressed {c} (comes_to_stage env i) down = reconcile_round-IsSuppressed env c i down
  Step-IsSuppressed {c} begins_shutdown down = ground arith
  Step-IsSuppressed {c} closes down = ground arith
  Step-IsSuppressed {c} takes_job down = ground arith
  Step-IsSuppressed {c} (op_returns err w worker at phase) down = ground arith
  Step-IsSuppressed {c} (clears alloc w worker at phase) down = ground arith
  Step-IsSuppressed {c} (op_finishes w worker at phase) down = ground arith

  Reach-IsSuppressed :
      {c d : Controller} → Reach prereqs c d → c.shutting_down ≡ true → IsSuppressed c d
  Reach-IsSuppressed {c} here down = stays c down
  Reach-IsSuppressed (next r step) down =
      let before = Reach-IsSuppressed r down in
      let after = Step-IsSuppressed step before.still_down in
      record { still_down = after.still_down; no_launch = omega arith }

  -- Once shutdown has begun and wait_for_ops has seen the wait group at 0, no thread can launch
  -- an op again: in every state that any interleaving reaches from there the flag is set, the wait
  -- group is 0, and no job waits in the pool or runs on a worker. This covers a pass that was under
  -- way when shutdown began and that comes to its other stages later. The start is a sound controller.
  pub Reach-quiet :
      {c d : Controller}
      → IsSound c
      → c.shutting_down ≡ true
      → c.ops_wg ≡ 0
      → Reach prereqs c d
      → (d.shutting_down ≡ true) × (d.ops_wg ≡ 0) × (d.pool.jobs ≡ []) × (d.pool.taken ≡ [])
  Reach-quiet {c} {d} sound down idle r =
      let quiet = Reach-IsSuppressed r down in
      let counts = Reach-IsSound prereqs r sound in
      (
        quiet.still_down,
        omega arith,
        empty_of_length d.pool.jobs (omega arith),
        empty_of_length d.pool.taken (omega arith),
      )
