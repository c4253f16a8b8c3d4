-- ===== src/Controller/WellFormed/Steps.antt =====
-- Every step of every thread keeps the controller well formed.
use strimserver.Prelude.{
  ℕ, zero, suc, ◌+◌, ◌≡◌, Option, List, [], ◌∷◌, not, ◌==◌, get_elem?, subst, pos, if_both,
  Option-cases, inl, inr,
}
use strimserver.Controller.Types.{
  stage_name_count, Prerequisites, Action, path_event, control, stage_event, status, add_listener,
  remove_listener, reconcile, clear_inflight, teardown, Stage, OpJob, Queued, Controller, Rc,
}
use strimserver.Controller.Routes.{stage_op_for, is_ok}
use strimserver.Controller.Handlers.{set_stage}
use strimserver.Controller.Reconcile.{
  FireEnv, fire_due, fired, undone, wg_add, wg_done, fire, lock_for_fire, begin_shutdown,
  workerpool_submit, reconcile_stage, reconcile_round, reconcile_from, handle_reconcile,
}
use strimserver.Controller.Queue.{
  queue_submit, request_reconcile, close, take_job, take_job_from, op_returned, push_clear,
  op_finished, dispatch, run_action, dequeued, run_round, run_round_on, ran,
}
use strimserver.Controller.System.{
  Step, submits, requests, runs, comes_to_stage, begins_shutdown, closes, takes_job, op_returns,
  clears, op_finishes, Reach, here, next,
}
use strimserver.Controller.System.Frame.{idle-ne-ran}
use strimserver.Controller.WellFormed.{IsStored, IsWellFormed, set_stage-IsWellFormed}
use strimserver.Controller.WellFormed.Handlers.{
  IsStored-at, handle_path_event-IsWellFormed, handle_control-IsWellFormed,
  handle_stage_event-IsWellFormed, handle_add_listener-IsWellFormed,
  handle_remove_listener-IsWellFormed, handle_clear_inflight-IsWellFormed,
  teardown_inner-IsWellFormed,
}

fire-IsWellFormed :
    (env : FireEnv) (c : Controller) (i : ℕ) (stage : Stage) (op : ℕ)
    → IsWellFormed c
    → IsStored stage
    → IsWellFormed (fire env c i stage op)
unfolding fire workerpool_submit fired undone
fire-IsWellFormed env c i stage op h s =
    let running = fired stage env.fire_now in
    let one =
      set_stage-IsWellFormed c i running h (record { desired = s.desired; actual = s.actual }) in
    let two =
      set_stage-IsWellFormed (wg_done (wg_add (set_stage c i running) 1)) i (undone running) one
        (record { desired = s.desired; actual = s.actual }) in
    if_both IsWellFormed c.shutting_down c _ h
      (if_both IsWellFormed (not env.job_alloc) c _ h (if_both IsWellFormed (is_ok _) _ _ one two))

reconcile_stage-IsWellFormed :
    (env : FireEnv) (c : Controller) (i : ℕ) (stage : Stage)
    → IsWellFormed c
    → IsStored stage
    → IsWellFormed (reconcile_stage env c i stage)
unfolding reconcile_stage lock_for_fire
reconcile_stage-IsWellFormed env c i stage h s =
    let settled : Stage = record stage { in_flight_since = pos 0 } in
    let locked =
      if_both IsWellFormed env.shutdown_races (begin_shutdown c) c (unfold begin_shutdown in h) h in
    if_both IsWellFormed (stage.status.desired == stage.status.actual) (set_stage c i settled) _
      (set_stage-IsWellFormed c i settled h (record { desired = s.desired; actual = s.actual }))
      (if_both IsWellFormed (not (fire_due stage env.check_now c.inflight_timeout_ms)) c _ h
        (elim (Option-cases (stage_op_for stage stage.status.desired)) [
          | inl missing ↦ rw missing h
          | inr (op, found) ↦
              rw found (fire-IsWellFormed env (lock_for_fire env c) i stage op locked s)
        ]))

reconcile_round-IsWellFormed :
    (env : FireEnv) (c : Controller) (i : ℕ)
    → IsWellFormed c
    → IsWellFormed (reconcile_round env c i)
unfolding reconcile_round
reconcile_round-IsWellFormed env c i h = elim (Option-cases (get_elem? c.stages i)) [
  | inl out ↦ rw (out, reconcile_round) h
  | inr (stage, at) ↦
      rw (at, reconcile_round) (reconcile_stage-IsWellFormed env c i stage h (IsStored-at c i h at))
]

reconcile_from-IsWellFormed :
    (envs : ℕ → FireEnv) (n i : ℕ) (c : Controller)
    → IsWellFormed c
    → IsWellFormed (reconcile_from envs n i c)
unfolding reconcile_from
reconcile_from-IsWellFormed envs zero i c h = h
reconcile_from-IsWellFormed envs (suc n) i c h =
    reconcile_from-IsWellFormed envs n (i + 1) (reconcile_round (envs i) c i)
      (reconcile_round-IsWellFormed (envs i) c i h)

module _ (prereqs : Prerequisites) where
  dispatch-IsWellFormed :
      (envs : ℕ → FireEnv) (c : Controller) (kind : Action)
      → IsWellFormed c
      → IsWellFormed (dispatch prereqs envs c kind).0
  unfolding dispatch handle_reconcile
  dispatch-IsWellFormed envs c (path_event e) h = handle_path_event-IsWellFormed prereqs c e h
  dispatch-IsWellFormed envs c (control cmd) h = handle_control-IsWellFormed prereqs c cmd h
  dispatch-IsWellFormed envs c (stage_event e) h = handle_stage_event-IsWellFormed c e h
  dispatch-IsWellFormed envs c status h = h
  dispatch-IsWellFormed envs c (add_listener l) h = handle_add_listener-IsWellFormed c l h
  dispatch-IsWellFormed envs c (remove_listener l) h = handle_remove_listener-IsWellFormed c l h
  dispatch-IsWellFormed envs c reconcile h =
      if_both IsWellFormed c.shutting_down c (reconcile_from envs stage_name_count 0 c) h
        (reconcile_from-IsWellFormed envs stage_name_count 0 c h)
  dispatch-IsWellFormed envs c (clear_inflight stage generation) h =
      handle_clear_inflight-IsWellFormed c stage generation h
  dispatch-IsWellFormed envs c teardown h = teardown_inner-IsWellFormed c h

  run_action-IsWellFormed :
      (envs : ℕ → FireEnv) (c : Controller) (act : Queued)
      → IsWellFormed c
      → IsWellFormed (run_action prereqs envs c act)
  unfolding run_action
  run_action-IsWellFormed envs c act h =
      let done = dispatch-IsWellFormed envs c act.kind h in
      if_both IsWellFormed act.self_allocated _ _ done done

  round-IsWellFormed :
      (envs : ℕ → FireEnv) (c c' : Controller) (queue : List Queued)
      → IsWellFormed c
      → run_round_on prereqs envs c queue ≡ ran c'
      → IsWellFormed c'
  unfolding run_round_on dequeued
  round-IsWellFormed envs c c' [] h e = absurd (idle-ne-ran c.q_closed e)
  round-IsWellFormed envs c c' (act ∷ rest) h e =
      let same : run_action prereqs envs (dequeued c act rest) act ≡ c' = cc e in
      subst IsWellFormed same (run_action-IsWellFormed envs (dequeued c act rest) act h)

  take_job-IsWellFormed :
      (c : Controller) (jobs : List OpJob) → IsWellFormed c → IsWellFormed (take_job_from c jobs)
  unfolding take_job_from
  take_job-IsWellFormed c [] h = h
  take_job-IsWellFormed c (job ∷ rest) h = if_both IsWellFormed _ _ c h h

  Step-IsWellFormed : {c d : Controller} → Step prereqs c d → IsWellFormed c → IsWellFormed d
  unfolding queue_submit request_reconcile run_round take_job close begin_shutdown op_returned
      push_clear op_finished
  Step-IsWellFormed {c} (submits kind submitter blocking) h =
      if_both (λ (x : Controller × Option Rc). IsWellFormed x.0) c.q_closed _ _ h h
  Step-IsWellFormed {c} (requests alloc) h =
      if_both IsWellFormed (not alloc) c _ h
        (if_both IsWellFormed c.q_closed c _ h (if_both IsWellFormed c.reconcile_queued c _ h h))
  Step-IsWellFormed {c} (runs envs c' e) h = round-IsWellFormed envs c c' c.queue h e
  Step-IsWellFormed {c} (comes_to_stage env i) h = reconcile_round-IsWellFormed env c i h
  Step-IsWellFormed {c} begins_shutdown h = h
  Step-IsWellFormed {c} closes h = h
  Step-IsWellFormed {c} takes_job h = take_job-IsWellFormed c c.pool.jobs h
  Step-IsWellFormed {c} (op_returns err w worker at phase) h = h
  Step-IsWellFormed {c} (clears alloc w worker at phase) h =
      if_both IsWellFormed (not alloc) _ _ h (if_both IsWellFormed c.q_closed _ _ h h)
  Step-IsWellFormed {c} (op_finishes w worker at phase) h = h

  -- Whatever its threads do, a well-formed controller stays well formed: two path statuses and
  -- four stages, every stored status in the range of its enum and no stored stage state NO_TARGET,
  -- every route to a stage that exists and a state that can be stored, no more than sixteen
  -- listeners, and a positive timeout.
  pub Reach-IsWellFormed : {c d : Controller} → Reach prereqs c d → IsWellFormed c → IsWellFormed d
  Reach-IsWellFormed here h = h
  Reach-IsWellFormed (next r step) h = Step-IsWellFormed step (Reach-IsWellFormed r h)
