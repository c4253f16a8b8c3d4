-- ===== src/Controller/WellFormed.antt =====
-- The well-formed controllers.
pub mod Handlers
pub mod Steps
pub mod Construction
pub mod Intent
use strimserver.Prelude.{
  ℕ, zero, suc, ◌+◌, ◌≤◌, ◌<◌, ◌≡◌, refl, ap, ◌∙◌, Bool, true, false, some, none, Option, List, [],
  ◌∷◌, ◌++◌, arith, ltb, leb, ltb→lt, length, length-append, length-set, get_elem?, set, All,
  All-set, All-get_elem?, Given, ◌==◌, ◌&&◌, ℤ, pos, ◌<ℤ◌, if_both, if_split, if◌then◌else◌, not,
  Option-cases, Bool-cases, inl, inr,
}
use mathlib.Core.Path.{subst}
use mathlib.Core.List.{map}
use strimserver.Controller.Handlers.Teardown.{halted, teardown_stages-map}
use strimserver.Controller.Types.{
  path_name_count, path_status_count, stage_name_count, stage_running, max_listeners, Rc, ok,
  unknown, badarg, prereq, nomem, component_count, action_count, PathEvent, ControlCommand,
  StageEvent, Listener, Prerequisites, Route, Stage, Controller,
}
use strimserver.Controller.Routes.{
  valid_path_status, valid_stage_state, find_path_event_route, find_control_route,
}
use strimserver.Controller.Handlers.{
  set_stage, notify_listeners, with_desired, rejects, handle_status, apply_desired_stage_target,
  apply_route, handle_path_event, handle_control, reported, handle_stage_event, handle_add_listener,
  remove_first, handle_remove_listener, handle_clear_inflight, torn_down, teardown_stages,
  teardown_inner,
}

-- A stored state is STOPPED or RUNNING, never NO_TARGET.
pub record IsStored (stage : Stage) : Type 0 where
  pub desired : stage.status.desired ≤ stage_running
  pub actual : stage.status.actual ≤ stage_running

pub record IsTarget (route : Route) : Type 0 where
  pub stage : route.target_stage < stage_name_count
  pub state : route.target_state ≤ stage_running

-- Over the parts that the handlers read, so that a change of any other part leaves it as it is.
pub record IsWellFormedData (paths : List ℕ) (stages : List Stage)
    (path_routes control_routes : List Route) (listeners : List Listener) (timeout : ℤ)
    : Type 0 where
  pub all_paths : length paths ≡ path_name_count
  pub all_stages : length stages ≡ stage_name_count
  pub valid_paths : All (λ s. s < path_status_count) paths
  pub stored_states : All IsStored stages
  pub path_targets : All IsTarget path_routes
  pub control_targets : All IsTarget control_routes
  pub few_listeners : length listeners ≤ max_listeners
  pub timeout_pos : pos 0 <ℤ timeout

abbrev pub IsWellFormed : Controller → Type 0
IsWellFormed c =
    IsWellFormedData c.paths c.stages c.path_routes c.control_routes c.listeners
      c.inflight_timeout_ms

pub set_stage-IsWellFormed :
    (c : Controller) (i : ℕ) (stage : Stage)
    → IsWellFormed c
    → IsStored stage
    → IsWellFormed (set_stage c i stage)
unfolding set_stage
set_stage-IsWellFormed c i stage h s = record {
  all_paths = h.all_paths;
  all_stages = length-set c.stages i stage ∙ h.all_stages;
  valid_paths = h.valid_paths;
  stored_states = All-set IsStored c.stages i stage h.stored_states s;
  path_targets = h.path_targets;
  control_targets = h.control_targets;
  few_listeners = h.few_listeners;
  timeout_pos = h.timeout_pos;
}

pub set_path-IsWellFormed :
    (c : Controller) (i s : ℕ)
    → IsWellFormed c
    → s < path_status_count
    → IsWellFormed (record c { paths = set c.paths i s })
set_path-IsWellFormed c i s h lt = record {
  all_paths = length-set c.paths i s ∙ h.all_paths;
  all_stages = h.all_stages;
  valid_paths = All-set (λ s. s < path_status_count) c.paths i s h.valid_paths lt;
  stored_states = h.stored_states;
  path_targets = h.path_targets;
  control_targets = h.control_targets;
  few_listeners = h.few_listeners;
  timeout_pos = h.timeout_pos;
}
