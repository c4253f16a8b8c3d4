-- ===== src/Controller/WellFormed/Handlers.antt =====
-- Every handler keeps the controller well formed.
use strimserver.Prelude.{
  ℕ, suc, ◌≤◌, ◌≡◌, refl, ap, ◌∙◌, some, none, Option, List, [], ◌∷◌, ◌++◌, arith, ltb, leb, length,
  length-append, get_elem?, set, All, All-get_elem?, Given, ◌==◌, ◌&&◌, pos, if_both, if_split, not,
  Option-cases, inl, inr,
}
use mathlib.Core.Path.{subst}
use mathlib.Core.List.{map}
use strimserver.Controller.Handlers.Teardown.{halted, teardown_stages-map}
use strimserver.Controller.Types.{
  path_name_count, path_status_count, stage_name_count, stage_running, max_listeners, Rc, ok,
  unknown, badarg, prereq, nomem, component_count, action_count, PathEvent, ControlCommand,
  StageEvent, Listener, Prerequisites, Route, Stage, Controller,
}
use strimserver.Controller.Routes.{
  valid_path_status, valid_stage_state, find_path_event_route, find_control_route,
}
use strimserver.Controller.Handlers.{
  set_stage, notify_listeners, with_desired, rejects, handle_status, apply_desired_stage_target,
  apply_route, handle_path_event, handle_control, reported, handle_stage_event, handle_add_listener,
  remove_first, handle_remove_listener, handle_clear_inflight, torn_down, teardown_inner,
}
use strimserver.Controller.WellFormed.{
  IsStored, IsTarget, IsWellFormed, set_stage-IsWellFormed, set_path-IsWellFormed,
}

path_route-IsTarget :
    (routes : List Route) (path status : ℕ)
    → All IsTarget routes
    → Given IsTarget (find_path_event_route routes path status)
unfolding find_path_event_route
path_route-IsTarget [] path status h = tt
path_route-IsTarget (r ∷ routes) path status h =
    if_both (Given IsTarget) ((r.path == path) && (r.path_status == status)) (some r) _ h.0
      (path_route-IsTarget routes path status h.1)

control_route-IsTarget :
    (routes : List Route) (component action : ℕ)
    → All IsTarget routes
    → Given IsTarget (find_control_route routes component action)
unfolding find_control_route
control_route-IsTarget [] component action h = tt
control_route-IsTarget (r ∷ routes) component action h =
    if_both (Given IsTarget) ((r.component == component) && (r.action == action)) (some r) _ h.0
      (control_route-IsTarget routes component action h.1)

-- The stage that stands at an index is stored.
pub IsStored-at :
    (c : Controller) (i : ℕ) {stage : Stage}
    → IsWellFormed c
    → get_elem? c.stages i ≡ some stage
    → IsStored stage
IsStored-at c i h at = subst (Given IsStored) at (All-get_elem? IsStored c.stages i h.stored_states)

module _ (prereqs : Prerequisites) where
  apply_desired-IsWellFormed :
      (c : Controller) (r : Route)
      → IsWellFormed c
      → IsTarget r
      → IsWellFormed (apply_desired_stage_target prereqs c r).0
  unfolding apply_desired_stage_target notify_listeners with_desired
  apply_desired-IsWellFormed c r h target =
      elim (Option-cases (get_elem? c.stages r.target_stage)) [
        | inl out ↦ rw (out, apply_desired_stage_target) h
        | inr (stage, at) ↦
            let stored = IsStored-at c r.target_stage h at in
            let moved =
              set_stage-IsWellFormed c r.target_stage (with_desired stage r.target_state) h
                (record { desired = target.state; actual = stored.actual }) in
            rw (at, apply_desired_stage_target)
              (if_both (λ (x : Controller × Rc). IsWellFormed x.0)
                (stage.status.desired == r.target_state) (c, ok) _ h
                (if_both (λ (x : Controller × Rc). IsWellFormed x.0)
                  (rejects prereqs r.prerequisite (handle_status c) r.prerequisite_userdata)
                  (c, prereq) _ h moved))
      ]

  apply_route-IsWellFormed :
      (c : Controller) (found : Option Route) (missing : Rc)
      → IsWellFormed c
      → Given IsTarget found
      → IsWellFormed (apply_route prereqs c found missing).0
  unfolding apply_route
  apply_route-IsWellFormed c none missing h g = h
  apply_route-IsWellFormed c (some r) missing h g = apply_desired-IsWellFormed c r h g

  pub handle_path_event-IsWellFormed :
      (c : Controller) (e : PathEvent)
      → IsWellFormed c
      → IsWellFormed (handle_path_event prereqs c e).0
  unfolding handle_path_event valid_path_status
  handle_path_event-IsWellFormed c e h =
      let P = λ (x : Controller × Rc). IsWellFormed x.0 in
      if_both P (not (ltb e.path path_name_count)) (c, unknown) _ h
        (if_split P (not (ltb e.status path_status_count)) (c, badarg) _ (λ _. h)
          (λ valid.
            apply_route-IsWellFormed (record c { paths = set c.paths e.path e.status })
              (find_path_event_route c.path_routes e.path e.status) ok
              (set_path-IsWellFormed c e.path e.status h (ground arith))
              (path_route-IsTarget c.path_routes e.path e.status h.path_targets)))

  pub handle_control-IsWellFormed :
      (c : Controller) (cmd : ControlCommand)
      → IsWellFormed c
      → IsWellFormed (handle_control prereqs c cmd).0
  unfolding handle_control
  handle_control-IsWellFormed c cmd h =
      let P = λ (x : Controller × Rc). IsWellFormed x.0 in
      if_both P (not (ltb cmd.component component_count)) (c, unknown) _ h
        (if_both P (not (ltb cmd.action action_count)) (c, unknown) _ h
          (apply_route-IsWellFormed c (find_control_route c.control_routes cmd.component cmd.action)
            unknown h
            (control_route-IsTarget c.control_routes cmd.component cmd.action h.control_targets)))

pub handle_stage_event-IsWellFormed :
    (c : Controller) (e : StageEvent) → IsWellFormed c → IsWellFormed (handle_stage_event c e).0
unfolding handle_stage_event valid_stage_state reported notify_listeners
handle_stage_event-IsWellFormed c e h =
    let P = λ (x : Controller × Rc). IsWellFormed x.0 in
    if_both P (not (ltb e.stage stage_name_count)) (c, unknown) _ h
      (if_split P (not (leb e.state stage_running)) (c, badarg) _ (λ _. h)
        (λ valid. elim (Option-cases (get_elem? c.stages e.stage)) [
          | inl out ↦ rw out h
          | inr (stage, at) ↦
              let stored = IsStored-at c e.stage h at in
              let moved =
                set_stage-IsWellFormed c e.stage (reported stage e.state) h
                  (record { desired = stored.desired; actual = ground arith }) in
              rw at (
                if_both IsWellFormed (stage.status.actual == e.state)
                  (set_stage c e.stage (reported stage e.state)) _ moved moved)
        ]))

-- Other listeners, no more than there is room for.
with_listeners :
    (c : Controller) (listeners : List Listener)
    → length listeners ≤ max_listeners
    → IsWellFormed c
    → IsWellFormed (record c { listeners = listeners })
with_listeners c listeners few h = record {
  all_paths = h.all_paths;
  all_stages = h.all_stages;
  valid_paths = h.valid_paths;
  stored_states = h.stored_states;
  path_targets = h.path_targets;
  control_targets = h.control_targets;
  few_listeners = few;
  timeout_pos = h.timeout_pos;
}

pub handle_add_listener-IsWellFormed :
    (c : Controller) (l : Listener) → IsWellFormed c → IsWellFormed (handle_add_listener c l).0
unfolding handle_add_listener
handle_add_listener-IsWellFormed c l h =
    if_split (λ (x : Controller × Rc). IsWellFormed x.0) (leb max_listeners (length c.listeners))
      (c, nomem) _ (λ _. h)
      (λ room.
        with_listeners c (c.listeners ++ l ∷ [])
          (ground (arith, length-append c.listeners (l ∷ []))) h)

length-remove_first :
    (listeners : List Listener) (l : Listener)
    → Given (λ kept. length kept ≤ length listeners) (remove_first listeners l)
unfolding remove_first
length-remove_first [] l = tt
length-remove_first (m ∷ rest) l = ground (arith, length-remove_first rest l)

pub handle_remove_listener-IsWellFormed :
    (c : Controller) (l : Listener) → IsWellFormed c → IsWellFormed (handle_remove_listener c l).0
unfolding handle_remove_listener
handle_remove_listener-IsWellFormed c l h = elim (Option-cases (remove_first c.listeners l)) [
  | inl out ↦ rw (out, handle_remove_listener) h
  | inr (kept, found) ↦
      let fewer : length kept ≤ length c.listeners =
        subst (Given (λ kept. length kept ≤ length c.listeners)) found
          (length-remove_first c.listeners l) in
      rw (found, handle_remove_listener) (with_listeners c kept (omega arith) h)
]

pub handle_clear_inflight-IsWellFormed :
    (c : Controller) (i generation : ℕ)
    → IsWellFormed c
    → IsWellFormed (handle_clear_inflight c i generation)
unfolding handle_clear_inflight
handle_clear_inflight-IsWellFormed c i generation h = elim (Option-cases (get_elem? c.stages i)) [
  | inl out ↦ rw (out, handle_clear_inflight) h
  | inr (stage, at) ↦
      let stored = IsStored-at c i h at in
      rw (at, handle_clear_inflight)
        (if_both IsWellFormed (stage.op_generation == generation) _ c
          (set_stage-IsWellFormed c i (record stage { in_flight_since = pos 0 }) h
            (record { desired = stored.desired; actual = stored.actual }))
          h)
]

halted-IsStored : (stage : Stage) → IsStored stage → IsStored (halted stage)
unfolding halted torn_down
halted-IsStored stage h = ground arith

map-halted :
    (stages : List Stage)
    → All IsStored stages
    → (length (map halted stages) ≡ length stages) × All IsStored (map halted stages)
map-halted [] h = (refl, tt)
map-halted (stage ∷ rest) (h, hs) =
    let (same, stored) = map-halted rest hs in (ap suc same, (halted-IsStored stage h, stored))

pub teardown_inner-IsWellFormed :
    (c : Controller) → IsWellFormed c → IsWellFormed (teardown_inner c)
unfolding teardown_inner notify_listeners
teardown_inner-IsWellFormed c h =
    let shape = (teardown_stages-map c.inflight_timeout_ms c.stages).0 in
    let (same, stored) = map-halted c.stages h.stored_states in
    record {
      all_paths = h.all_paths;
      all_stages = ap length shape ∙ same ∙ h.all_stages;
      valid_paths = h.valid_paths;
      stored_states = rw shape stored;
      path_targets = h.path_targets;
      control_targets = h.control_targets;
      few_listeners = h.few_listeners;
      timeout_pos = h.timeout_pos;
    }
