-- ===== src/Tests/Controller.antt =====
-- The theorems on one action, one pass and construction, at the controller of the fixture.
use strimserver.Prelude.{
  ℕ, ◌≡◌, refl, ◌↔◌, true, false, none, some, [], ◌∷◌, arith, get_elem?, set, if◌then◌else◌, ◌==◌,
  ℤ, pos, negsuc,
}
use mathlib.Core.List.{map}
use strimserver.Controller.Names.{stage_name, from_string, to_string}
use strimserver.Controller.Names.WireRoundTrip.{from_string-to_string}
use strimserver.Controller.Types.{
  Listener, listener_called, stage_no_target, path_ready, stage_stopped, stage_running,
  path_ingress0, stage_media_mtx, stage_normalize, component_egress, action_start, route_path_event,
  route_control, ok, prereq, Prerequisites, Stage, Cancel, Controller, inc64,
}
use strimserver.Controller.Routes.{new, find_control_route, stage_op_for}
use strimserver.Controller.Handlers.{
  handle_status, handle_path_event, handle_control, handle_stage_event, handle_add_listener,
  handle_remove_listener, remove_first, set_stage, apply_route, apply_desired_stage_target, rejects,
  handle_clear_inflight,
}
use strimserver.Controller.Handlers.Refusal.{
  Unchanged, handlers-Unchanged, handle_remove_listener-handle_add_listener,
}
use strimserver.Controller.Reconcile.{
  FireEnv, fire, op_job, handle_reconcile, reconcile_from, reconcile_round, reconcile_stage,
  fire_due, workerpool_submit, fired,
}
use strimserver.Controller.Reconcile.Slots.{pass_from, after}
use strimserver.Controller.Reconcile.Refinement.{handle_reconcile-pass}
use strimserver.Controller.Reconcile.Once.{IsCalm, handle_reconcile-handle_reconcile}
use strimserver.Controller.Queue.{superseded, remaining_ms}
use strimserver.Controller.Queue.Supersede.{fire-supersedes}
use strimserver.Controller.WellFormed.Construction.{IsConstructed, IsAccepted, new-IsConstructed}
use strimserver.Controller.WellFormed.Intent.{
  Followed, handle_path_event-Followed, handle_control-Followed,
}
use strimserver.Tests.Fixture.{fresh, plenty, main_config, new-fresh, path_route, egress_route}

new-IsConstructed_example : ((new plenty main_config).0 ≡ ok) × IsConstructed fresh
new-IsConstructed_example = new-IsConstructed plenty main_config refl refl new-fresh

fresh-IsConstructed : IsConstructed fresh
fresh-IsConstructed = (new-IsConstructed plenty main_config refl refl new-fresh).1

-- The prerequisite of core/controller/c/main.c: ingress0 is ready.
abbrev ready_only : Prerequisites
ready_only = λ fn status userdata. elim (get_elem? status.paths path_ingress0) [
  | none ↦ negsuc 0
  | some s ↦ if s == path_ready then pos 0 else negsuc 0
]

normalize_route-IsAccepted :
    IsAccepted route_path_event fresh.stages fresh.path_routes (path_route path_ready stage_running)
normalize_route-IsAccepted = fresh-IsConstructed.paths_accepted.0

handle_path_event-Followed_example :
    let x =
      handle_path_event ready_only fresh (record { path = path_ingress0; status = path_ready }) in
    (x.0.paths ≡ set fresh.paths path_ingress0 path_ready)
    × Followed ready_only
        (record fresh { paths = set fresh.paths path_ingress0 path_ready })
        (path_route path_ready stage_running)
        x
handle_path_event-Followed_example =
    handle_path_event-Followed ready_only fresh (path_route path_ready stage_running) refl
      normalize_route-IsAccepted

egress_route-IsAccepted :
    IsAccepted route_control fresh.stages fresh.control_routes
      (egress_route action_start stage_running (some 7))
egress_route-IsAccepted = fresh-IsConstructed.controls_accepted.0

handle_control-Followed_example :
    Followed ready_only fresh (egress_route action_start stage_running (some 7)) (
      handle_control ready_only fresh
        (record { component = component_egress; action = action_start }))
handle_control-Followed_example =
    handle_control-Followed ready_only fresh (egress_route action_start stage_running (some 7)) refl
      egress_route-IsAccepted

-- Before ingress0 is ready, the start of egress is refused.
egress_refused :
    handle_control ready_only fresh (record { component = component_egress; action = action_start })
    ≡ (fresh, prereq)
unfolding handle_control apply_route find_control_route apply_desired_stage_target rejects
    handle_status
egress_refused = refl

abbrev calm_env : ℤ → FireEnv
calm_env now = record {
  check_now = now;
  fire_now = now;
  shutdown_races = false;
  job_alloc = true;
  submit_alloc = true;
}

calm_env-IsCalm : IsCalm (calm_env (pos 1000))
calm_env-IsCalm = ground arith

-- MediaMTX is launched by the first pass.
first_pass_launches :
    map (λ s. s.op_generation) (handle_reconcile (λ _. calm_env (pos 1000)) fresh).stages
    ≡ 1 ∷ 0 ∷ 0 ∷ 0 ∷ []
unfolding handle_reconcile reconcile_from reconcile_round reconcile_stage fire_due stage_op_for fire
    workerpool_submit set_stage fired inc64
first_pass_launches = refl

handle_reconcile-handle_reconcile_example :
    let c' = handle_reconcile (λ _. calm_env (pos 1000)) fresh in
    handle_reconcile (λ _. calm_env (pos 2000)) c' ≡ c'
unfolding handle_reconcile reconcile_from reconcile_round reconcile_stage fire_due stage_op_for fire
    workerpool_submit set_stage fired inc64
handle_reconcile-handle_reconcile_example =
    handle_reconcile-handle_reconcile (λ _. calm_env (pos 1000)) (λ _. calm_env (pos 2000)) fresh
      refl refl (λ _. calm_env-IsCalm) ground arith

handle_reconcile-pass_example :
    let envs = λ (k : ℕ). calm_env (pos 1000) in
    let p =
      pass_from envs fresh.inflight_timeout_ms fresh.pool.shutting_down fresh.shutting_down 0
        fresh.stages in
    handle_reconcile envs fresh ≡ after fresh p.stages p.jobs p.shut
handle_reconcile-pass_example = handle_reconcile-pass (λ _. calm_env (pos 1000)) fresh refl

abbrev busy_stage : Stage
busy_stage = record {
  name = stage_media_mtx;
  status = record { desired = stage_running; actual = stage_stopped };
  start_op = some 1;
  stop_op = some 2;
  op_ctx = 0;
  in_flight_since = pos 1000;
  op_generation = 1;
}

abbrev busy : Controller
busy = record fresh { stages = busy_stage ∷ [] }

abbrev old_handle : Cancel
old_handle = record { generation = 1; deadline_ms = pos 31000; current_generation = 0 }

fire-supersedes_example :
    let c' = fire (calm_env (pos 40000)) busy 0 busy_stage 1 in
    let fresh_handle = (op_job 0 busy_stage 1 (pos 40000) (pos 30000)).cancel in
    (superseded c'.stages old_handle ≡ true)
    × (superseded c'.stages fresh_handle ≡ false)
    × (remaining_ms (pos 40000) fresh_handle ≡ pos 30000)
    × (handle_clear_inflight c' 0 1 ≡ c')
unfolding superseded
fire-supersedes_example =
    fire-supersedes (calm_env (pos 40000)) busy 0 busy_stage 1 old_handle refl refl refl refl refl
      refl refl

-- MediaMTX has come up.
abbrev up : Controller
up = (handle_stage_event fresh (record { stage = stage_media_mtx; state = stage_running })).0

from_string-to_string_example :
    (from_string stage_name (some "normalize") ≡ some stage_normalize)
    ↔ (to_string stage_name stage_normalize ≡ some "normalize")
from_string-to_string_example = from_string-to_string stage_name "normalize" stage_normalize

-- A stage state that is out of range, at a controller without listeners.
handlers-Unchanged_example :
    let listener : Listener = record { fn = 9; userdata = 0 } in
    Unchanged fresh (
      handle_control ready_only fresh
        (record { component = component_egress; action = action_start }))
    × Unchanged fresh
        (handle_stage_event fresh (record { stage = stage_media_mtx; state = stage_no_target }))
    × Unchanged fresh (handle_add_listener fresh listener)
    × Unchanged fresh (handle_remove_listener fresh listener)
handlers-Unchanged_example =
    handlers-Unchanged ready_only fresh
      (record { component = component_egress; action = action_start })
      (record { stage = stage_media_mtx; state = stage_no_target })
      (record { fn = 9; userdata = 0 })

handle_remove_listener-handle_add_listener_example :
    let listener : Listener = record { fn = 9; userdata = 0 } in
    let (added, rc) = handle_add_listener fresh listener in
    (rc ≡ ok)
    × (handle_remove_listener added listener
        ≡ (record fresh { effects = listener_called listener (handle_status fresh) ∷ [] }, ok))
unfolding remove_first
handle_remove_listener-handle_add_listener_example =
    handle_remove_listener-handle_add_listener fresh (record { fn = 9; userdata = 0 }) refl
      (omega arith)
