-- ===== src/Tests/Fixture.antt =====
-- A controller with the stages, routes and timeout of core/controller/c/main.c, and its theorems at work on it.
use strimserver.Prelude.{ℕ, ◌≡◌, refl, true, false, Option, none, some, [], ◌∷◌, pos}
use mathlib.Core.List.{map}
use strimserver.Controller.Types.{
  path_unknown, path_ready, path_not_ready, stage_stopped, stage_running, path_ingress0,
  stage_media_mtx, stage_normalize, stage_scale_and_egress, stage_single_stage_egress,
  component_egress, action_start, action_stop, route_path_event, route_control, Route, StageStatus,
  StageConfig, Stage, Controller, Config, entries,
}
use strimserver.Controller.Routes.{
  NewEnv, new, new_with_stages, init_stages, validate_and_copy_routes, validate_from, valid_route,
  has_key, route_keys_equal,
}

abbrev off : StageStatus
off = record { desired = stage_stopped; actual = stage_stopped }

abbrev pub on_demand : ℕ → StageConfig
on_demand name = record {
  name = name;
  status = off;
  start_op = some 1;
  stop_op = some 2;
  op_ctx = name;
}

-- MediaMTX is wanted from the start.
abbrev pub media_mtx : StageConfig
media_mtx = record {
  name = stage_media_mtx;
  status = record { desired = stage_running; actual = stage_stopped };
  start_op = some 1;
  stop_op = some 2;
  op_ctx = stage_media_mtx;
}

abbrev pub path_route : ℕ → ℕ → Route
path_route path_status target_state = record {
  path = path_ingress0;
  path_status = path_status;
  component = 0;
  action = 0;
  kind = route_path_event;
  target_stage = stage_normalize;
  target_state = target_state;
  prerequisite = none;
  prerequisite_userdata = 0;
}

abbrev pub egress_route : ℕ → ℕ → Option ℕ → Route
egress_route action target_state prerequisite = record {
  path = 0;
  path_status = 0;
  component = component_egress;
  action = action;
  kind = route_control;
  target_stage = stage_scale_and_egress;
  target_state = target_state;
  prerequisite = prerequisite;
  prerequisite_userdata = 0;
}

abbrev pub main_config : Config
main_config = record {
  initial_paths = path_unknown ∷ path_unknown ∷ [];
  stages =
      media_mtx
      ∷ on_demand stage_normalize
      ∷ on_demand stage_scale_and_egress
      ∷ on_demand stage_single_stage_egress
      ∷ [];
  path_routes =
      entries (path_route path_ready stage_running ∷ path_route path_not_ready stage_stopped ∷ []);
  control_routes = entries (
      egress_route action_start stage_running (some 7)
      ∷ egress_route action_stop stage_stopped none
      ∷ []);
  inflight_timeout_ms = pos 30000;
  actions_buffer_size = 64;
}

abbrev pub plenty : NewEnv
plenty = record {
  controller_alloc = true;
  path_routes_alloc = true;
  control_routes_alloc = true;
  pool_threads = true;
}

abbrev stage_of : StageConfig → Stage
stage_of sc = record {
  name = sc.name;
  status = sc.status;
  start_op = sc.start_op;
  stop_op = sc.stop_op;
  op_ctx = sc.op_ctx;
  in_flight_since = pos 0;
  op_generation = 0;
}

-- The controller that construction returns for main_config.
abbrev pub fresh : Controller
fresh = record {
  paths = main_config.initial_paths;
  stages = map stage_of main_config.stages;
  path_routes = path_route path_ready stage_running ∷ path_route path_not_ready stage_stopped ∷ [];
  control_routes =
      egress_route action_start stage_running (some 7)
      ∷ egress_route action_stop stage_stopped none
      ∷ [];
  listeners = [];
  inflight_timeout_ms = pos 30000;
  actions_buffer_size = 64;
  queue = [];
  q_closed = false;
  reconcile_queued = false;
  shutting_down = false;
  ops_wg = 0;
  pool = record { jobs = []; taken = []; shutting_down = false };
  effects = [];
  replies = [];
}

pub new-fresh : (new plenty main_config).1 ≡ some fresh
unfolding new init_stages new_with_stages validate_and_copy_routes validate_from valid_route has_key
    route_keys_equal
new-fresh = refl
