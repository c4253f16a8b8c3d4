-- ===== src/Controller/System/Frame.antt =====
-- What the handlers leave alone: none but the reconcile pass touches the pool and the wait group,
-- and none touches the queue, the flags or the route tables.
use strimserver.Prelude.{ℕ, ◌≡◌, Bool, true, false, if◌then◌else◌, arith}
use strimserver.Controller.Types.{
  PathEvent, ControlCommand, StageEvent, Listener, Prerequisites, Controller,
}
use strimserver.Controller.Queue.{returns, waits, ran}
use strimserver.Controller.Handlers.{
  set_stage, notify_listeners, apply_desired_stage_target, apply_route, handle_path_event,
  handle_control, handle_stage_event, handle_add_listener, handle_remove_listener,
  handle_clear_inflight, teardown_inner,
}

-- A round with an empty queue runs no action.
pub idle-ne-ran : (shut : Bool) {c' : Controller} → (if shut then returns else waits) ≡ ran c' → ⊥
idle-ne-ran true h = cc
idle-ne-ran false h = cc

-- The parts of the controller that the queue's machinery owns.
pub record Frame (c c' : Controller) : Type 0 where
  pub queue : c'.queue ≡ c.queue
  pub q_closed : c'.q_closed ≡ c.q_closed
  pub reconcile_queued : c'.reconcile_queued ≡ c.reconcile_queued
  pub shutting_down : c'.shutting_down ≡ c.shutting_down
  pub ops_wg : c'.ops_wg ≡ c.ops_wg
  pub pool : c'.pool ≡ c.pool
  pub path_routes : c'.path_routes ≡ c.path_routes
  pub control_routes : c'.control_routes ≡ c.control_routes
  pub timeout : c'.inflight_timeout_ms ≡ c.inflight_timeout_ms
  pub replies : c'.replies ≡ c.replies

module _ (prereqs : Prerequisites) where
  pub handle_path_event-Frame :
      (c : Controller) (e : PathEvent) → Frame c (handle_path_event prereqs c e).0
  unfolding handle_path_event apply_route apply_desired_stage_target notify_listeners set_stage
  handle_path_event-Frame c e = ground arith

  pub handle_control-Frame :
      (c : Controller) (cmd : ControlCommand) → Frame c (handle_control prereqs c cmd).0
  unfolding handle_control apply_route apply_desired_stage_target notify_listeners set_stage
  handle_control-Frame c cmd = ground arith

pub handle_stage_event-Frame :
    (c : Controller) (e : StageEvent) → Frame c (handle_stage_event c e).0
unfolding handle_stage_event notify_listeners set_stage
handle_stage_event-Frame c e = ground arith

pub handle_add_listener-Frame :
    (c : Controller) (l : Listener) → Frame c (handle_add_listener c l).0
unfolding handle_add_listener
handle_add_listener-Frame c l = ground arith

pub handle_remove_listener-Frame :
    (c : Controller) (l : Listener) → Frame c (handle_remove_listener c l).0
unfolding handle_remove_listener
handle_remove_listener-Frame c l = ground arith

pub handle_clear_inflight-Frame :
    (c : Controller) (stage generation : ℕ) → Frame c (handle_clear_inflight c stage generation)
unfolding handle_clear_inflight set_stage
handle_clear_inflight-Frame c stage generation = ground arith

pub teardown_inner-Frame : (c : Controller) → Frame c (teardown_inner c)
unfolding teardown_inner notify_listeners
teardown_inner-Frame c = ground arith
