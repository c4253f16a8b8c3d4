-- ===== src/Controller/Routes.antt =====
-- Route lookup and construction: the small helpers, validate_and_copy_routes and
-- strim_controller_new of core/controller/c/core/controller.c.
use strimserver.Prelude.{
  ◌++◌, ℕ, zero, suc, ◌+◌, Bool, true, false, not, ◌&&◌, ◌||◌, Option, none, some, List, [], ◌∷◌,
  ltb, leb, ◌==◌, if◌then◌else◌, is_none, get_elem?, pos, leb_ℤ,
}
use strimserver.Controller.Types.{
  path_status_count, path_name_count, stage_name_count, component_count, action_count,
  stage_running, Rc, ok, badarg, nomem, Route, RouteTable, null_table, entries, StageConfig, Stage,
  Controller, Config, route_path_event, route_control,
}

unfoldable pub valid_path_status : ℕ → Bool
valid_path_status s = ltb s path_status_count

-- NO_TARGET is never a stored state.
unfoldable pub valid_stage_state : ℕ → Bool
valid_stage_state s = leb s stage_running

unfoldable pub stage_op_for : Stage → ℕ → Option ℕ
stage_op_for stage target = if target == stage_running then stage.start_op else stage.stop_op

unfoldable pub route_keys_equal : Route → Route → ℕ → Bool
route_keys_equal a b kind_expected =
    if kind_expected == route_path_event
    then (a.path == b.path) && (a.path_status == b.path_status)
    else (a.component == b.component) && (a.action == b.action)

unfoldable pub find_path_event_route : List Route → ℕ → ℕ → Option Route
find_path_event_route [] path status = none
find_path_event_route (r ∷ routes) path status =
    if (r.path == path) && (r.path_status == status)
    then some r
    else find_path_event_route routes path status

unfoldable pub find_control_route : List Route → ℕ → ℕ → Option Route
find_control_route [] component action = none
find_control_route (r ∷ routes) component action =
    if (r.component == component) && (r.action == action)
    then some r
    else find_control_route routes component action

-- The enum ranges of the key, by kind.
unfoldable pub valid_route_key : Route → ℕ → Bool
unfolding valid_path_status
valid_route_key r kind_expected =
    if kind_expected == route_path_event
    then ltb r.path path_name_count && valid_path_status r.path_status
    else ltb r.component component_count && ltb r.action action_count

unfoldable pub has_op : List Stage → Route → Bool
unfolding stage_op_for
has_op stages r = elim (get_elem? stages r.target_stage) [
  | none ↦ false
  | some stage ↦ not (is_none (stage_op_for stage r.target_state))
]

-- The inner loop: some earlier entry has the key of r.
unfoldable pub has_key : List Route → Route → ℕ → Bool
has_key [] r kind_expected = false
has_key (s ∷ earlier) r kind_expected =
    route_keys_equal s r kind_expected || has_key earlier r kind_expected

-- One round of the validation loop; every refusal is STRIM_CTRL_ERR_BADARG.
unfoldable pub valid_route : List Stage → List Route → Route → ℕ → Bool
unfolding valid_route_key valid_stage_state has_op
valid_route stages earlier r kind_expected =
    (r.kind == kind_expected)
    && valid_route_key r kind_expected
    && ltb r.target_stage stage_name_count
    && valid_stage_state r.target_state
    && has_op stages r
    && not (has_key earlier r kind_expected)

unfoldable pub validate_from : List Stage → List Route → List Route → ℕ → Bool
validate_from stages earlier [] kind_expected = true
validate_from stages earlier (r ∷ rest) kind_expected =
    valid_route stages earlier r kind_expected
    && validate_from stages (earlier ++ r ∷ []) rest kind_expected

-- `alloc` is what malloc answers; it is called for a table that is not empty.
unfoldable pub validate_and_copy_routes : Bool → List Stage → RouteTable → ℕ → Rc × List Route
validate_and_copy_routes alloc stages (null_table zero) kind_expected = (ok, [])
validate_and_copy_routes alloc stages (null_table (suc count)) kind_expected = (badarg, [])
validate_and_copy_routes alloc stages (entries []) kind_expected = (ok, [])
validate_and_copy_routes alloc stages (entries (r ∷ rest)) kind_expected =
    if not alloc
    then (nomem, [])
    else if validate_from stages [] (r ∷ rest) kind_expected
    then (ok, r ∷ rest)
    else (badarg, [])

unfoldable pub all_valid_paths : List ℕ → Bool
unfolding valid_path_status
all_valid_paths [] = true
all_valid_paths (s ∷ rest) = valid_path_status s && all_valid_paths rest

-- The loop over `cfg->stages` from index i on; `none` is a refused entry.
unfoldable pub init_stages : ℕ → List StageConfig → Option (List Stage)
unfolding valid_stage_state
init_stages i [] = some []
init_stages i (sc ∷ rest) =
    let stage : Stage = record {
      name = sc.name;
      status = sc.status;
      start_op = sc.start_op;
      stop_op = sc.stop_op;
      op_ctx = sc.op_ctx;
      in_flight_since = pos 0;
      op_generation = 0;
    } in
    if (sc.name == i) && valid_stage_state sc.status.desired && valid_stage_state sc.status.actual
    then elim (init_stages (i + 1) rest) [ none ↦ none | some stages ↦ some (stage ∷ stages) ]
    else none

-- What the allocator and pthread_create answer during construction.
pub record NewEnv : Type 0 where
  pub controller_alloc : Bool
  pub path_routes_alloc : Bool
  pub control_routes_alloc : Bool
  pub pool_threads : Bool

unfoldable pub is_ok : Rc → Bool
is_ok ok = true
is_ok _ = false

-- The part of strim_controller_new behind the stage loop.
unfoldable pub new_with_stages : NewEnv → Config → List Stage → Rc × Option Controller
unfolding is_ok
new_with_stages env cfg stages =
    let (path_rc, path_routes) =
      validate_and_copy_routes env.path_routes_alloc stages cfg.path_routes route_path_event in
    let (control_rc, control_routes) =
      validate_and_copy_routes env.control_routes_alloc stages cfg.control_routes route_control in
    if not (is_ok path_rc)
    then (path_rc, none)
    else if not (is_ok control_rc)
    then (control_rc, none)
    else if not env.pool_threads
    then (nomem, none)
    else (
      ok,
      some (record {
        paths = cfg.initial_paths;
        stages = stages;
        path_routes = path_routes;
        control_routes = control_routes;
        listeners = [];
        inflight_timeout_ms = cfg.inflight_timeout_ms;
        actions_buffer_size = cfg.actions_buffer_size;
        queue = [];
        q_closed = false;
        reconcile_queued = false;
        shutting_down = false;
        ops_wg = 0;
        pool = record { jobs = []; taken = []; shutting_down = false };
        effects = [];
        replies = [];
      }),
    )

unfoldable pub new : NewEnv → Config → Rc × Option Controller
unfolding all_valid_paths
new env cfg =
    if leb_ℤ cfg.inflight_timeout_ms (pos 0)
    then (badarg, none)
    else if cfg.actions_buffer_size == 0
    then (badarg, none)
    else if not (all_valid_paths cfg.initial_paths)
    then (badarg, none)
    else if not env.controller_alloc
    then (nomem, none)
    else elim (init_stages 0 cfg.stages) [
      | none ↦ (badarg, none)
      | some stages ↦ new_with_stages env cfg stages
    ]
