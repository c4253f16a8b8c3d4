-- ===== src/Controller/Handlers.antt =====
-- The handlers of core/controller/c/core/controller.c that run on the queue thread, but for the reconcile pass.
-- Each returns the controller that it leaves and its result; a call of a listener or of a stop op
-- is appended to `effects`.
pub mod Teardown
pub mod Refusal
use strimserver.Prelude.{
  ℕ, Bool, false, not, ◌&&◌, Option, none, some, List, [], ◌∷◌, ◌++◌, ltb, leb, ◌==◌, if◌then◌else◌,
  length, get_elem?, set, ℤ, pos, eq_ℤ,
}
use mathlib.Core.List.{map}
use strimserver.Controller.Types.{
  path_name_count, stage_name_count, component_count, action_count, stage_running, stage_stopped,
  max_listeners, Rc, ok, badarg, unknown, prereq, nomem, StageStatus, ControllerStatus, PathEvent,
  StageEvent, ControlCommand, Prerequisites, Route, Stage, inc64, Listener, Effect, listener_called,
  stop_called, Controller,
}
use strimserver.Controller.Routes.{
  valid_path_status, valid_stage_state, find_path_event_route, find_control_route,
}

unfoldable pub set_stage : Controller → ℕ → Stage → Controller
set_stage c i stage = record c { stages = set c.stages i stage }

unfoldable pub stage_statuses : List Stage → List StageStatus
stage_statuses = map (λ stage. stage.status)

unfoldable pub handle_status : Controller → ControllerStatus
handle_status c = record { paths = c.paths; stages = stage_statuses c.stages }

unfoldable pub calls : List Listener → ControllerStatus → List Effect
calls listeners snapshot = map (λ l. listener_called l snapshot) listeners

unfoldable pub notify_listeners : Controller → Controller
notify_listeners c = record c { effects = c.effects ++ calls c.listeners (handle_status c) }

-- The stage with another desired state.
unfoldable pub with_desired : Stage → ℕ → Stage
with_desired stage target = record stage {
  status = record { desired = target; actual = stage.status.actual };
}

module _ (prereqs : Prerequisites) where
  -- The prerequisite answered with a non-zero code.
  unfoldable pub rejects : Option ℕ → ControllerStatus → ℕ → Bool
  rejects none status userdata = false
  rejects (some check) status userdata = not (eq_ℤ (prereqs check status userdata) (pos 0))

  unfoldable pub apply_desired_stage_target : Controller → Route → Controller × Rc
  apply_desired_stage_target c target = elim (get_elem? c.stages target.target_stage) [
    | none ↦ (c, ok)
    | some stage ↦
        if stage.status.desired == target.target_state
        then (c, ok)
        else if rejects target.prerequisite (handle_status c) target.prerequisite_userdata
        then (c, prereq)
        else (
          notify_listeners
              (set_stage c target.target_stage (with_desired stage target.target_state)),
          ok,
        )
  ]

  -- A route that is not found leaves the controller, with the result `missing`.
  unfoldable pub apply_route : Controller → Option Route → Rc → Controller × Rc
  apply_route c none missing = (c, missing)
  apply_route c (some route) missing = apply_desired_stage_target c route

  unfoldable pub handle_path_event : Controller → PathEvent → Controller × Rc
  unfolding valid_path_status
  handle_path_event c e =
      let stored = record c { paths = set c.paths e.path e.status } in
      if not (ltb e.path path_name_count)
      then (c, unknown)
      else if not (valid_path_status e.status)
      then (c, badarg)
      else apply_route stored (find_path_event_route c.path_routes e.path e.status) ok

  unfoldable pub handle_control : Controller → ControlCommand → Controller × Rc
  handle_control c cmd =
      if not (ltb cmd.component component_count)
      then (c, unknown)
      else if not (ltb cmd.action action_count)
      then (c, unknown)
      else apply_route c (find_control_route c.control_routes cmd.component cmd.action) unknown

-- The stage as a reported state leaves it.
unfoldable pub reported : Stage → ℕ → Stage
reported stage state = record stage {
  status = record { desired = stage.status.desired; actual = state };
  in_flight_since = pos 0;
}

unfoldable pub handle_stage_event : Controller → StageEvent → Controller × Rc
unfolding valid_stage_state reported
handle_stage_event c e =
    if not (ltb e.stage stage_name_count)
    then (c, unknown)
    else if not (valid_stage_state e.state)
    then (c, badarg)
    else elim (get_elem? c.stages e.stage) [
      | none ↦ (c, ok)
      | some stage ↦
          let stored = set_stage c e.stage (reported stage e.state) in
          (if stage.status.actual == e.state then stored else notify_listeners stored, ok)
    ]

unfoldable pub handle_add_listener : Controller → Listener → Controller × Rc
handle_add_listener c l = if leb max_listeners (length c.listeners) then (c, nomem) else (
  record c {
    listeners = c.listeners ++ l ∷ [];
    effects = c.effects ++ listener_called l (handle_status c) ∷ [];
  },
  ok,
)

unfoldable pub same_listener : Listener → Listener → Bool
same_listener a b = (a.fn == b.fn) && (a.userdata == b.userdata)

-- The list without its first entry equal to l; `none` when there is none.
unfoldable pub remove_first : List Listener → Listener → Option (List Listener)
unfolding same_listener
remove_first [] l = none
remove_first (m ∷ rest) l =
    let deeper : Option (List Listener) = elim (remove_first rest l) [
      | none ↦ none
      | some kept ↦ some (m ∷ kept)
    ] in
    if same_listener m l then some rest else deeper

unfoldable pub handle_remove_listener : Controller → Listener → Controller × Rc
handle_remove_listener c l = elim (remove_first c.listeners l) [
  | none ↦ (c, unknown)
  | some kept ↦ (record c { listeners = kept }, ok)
]

-- ACTION_CLEAR_INFLIGHT: only the clear of the current fire wipes the marker.
unfoldable pub handle_clear_inflight : Controller → ℕ → ℕ → Controller
handle_clear_inflight c clear_stage clear_generation = elim (get_elem? c.stages clear_stage) [
  | none ↦ c
  | some stage ↦
      if stage.op_generation == clear_generation
      then set_stage c clear_stage (record stage { in_flight_since = pos 0 })
      else c
]

-- The stage as teardown leaves it.
unfoldable pub torn_down : Stage → Stage
torn_down stage = record stage {
  op_generation = inc64 stage.op_generation;
  status = record { desired = stage_stopped; actual = stage_stopped };
  in_flight_since = pos 0;
}

-- The loop of teardown_inner: the stages, and the stop ops that it calls.
unfoldable pub teardown_stages : ℤ → List Stage → List Stage × List Effect
unfolding torn_down
teardown_stages timeout [] = ([], [])
teardown_stages timeout (stage ∷ rest) =
    let (stages, stops) = teardown_stages timeout rest in
    elim stage.stop_op [
      | none ↦ (stage ∷ stages, stops)
      | some op ↦
          if stage.status.actual == stage_running
          then (torn_down stage ∷ stages, stop_called op stage.op_ctx timeout ∷ stops)
          else (stage ∷ stages, stops)
    ]

unfoldable pub teardown_inner : Controller → Controller
teardown_inner c =
    let (stages, stops) = teardown_stages c.inflight_timeout_ms c.stages in
    notify_listeners (record c { stages = stages; effects = c.effects ++ stops })
