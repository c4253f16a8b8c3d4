-- ===== src/Controller/Handlers/Refusal.antt =====
-- What a handler leaves behind when it refuses, and listeners that come and go.
use strimserver.Prelude.{
  ◌≡◌, ◌<◌, refl, ◌⊎◌, inl, inr, Bool, true, false, not, Option, none, some, List, [], ◌∷◌, ◌++◌,
  arith, ltb, leb, ◌==◌, if◌then◌else◌, if_both, length, get_elem?, Option-cases,
}
use strimserver.Controller.Types.{
  component_count, action_count, stage_name_count, max_listeners, Rc, ok, unknown, Prerequisites,
  Route, ControlCommand, StageEvent, Listener, listener_called, Controller,
}
use strimserver.Controller.Routes.{valid_stage_state, find_control_route}
use strimserver.Controller.Handlers.{
  handle_status, rejects, apply_desired_stage_target, apply_route, handle_control,
  handle_stage_event, handle_add_listener, same_listener, remove_first, handle_remove_listener,
}

-- The handler succeeded, or the controller is as it was.
abbrev pub Unchanged : Controller → Controller × Rc → Type 0
Unchanged c x = (x.1 ≡ ok) ⊎ (x.0 ≡ c)

apply-Unchanged :
    (prereqs : Prerequisites) (c : Controller) (r : Route)
    → Unchanged c (apply_desired_stage_target prereqs c r)
unfolding apply_desired_stage_target
apply-Unchanged prereqs c r = elim (Option-cases (get_elem? c.stages r.target_stage)) [
  | inl out ↦ rw (out, apply_desired_stage_target) (inl refl)
  | inr (stage, at) ↦
      rw (at, apply_desired_stage_target)
        (if_both (Unchanged c) (stage.status.desired == r.target_state) _ _ (inl refl) (
          if_both (Unchanged c)
            (rejects prereqs r.prerequisite (handle_status c) r.prerequisite_userdata) _ _
            (inr refl) (inl refl)))
]

apply_route-Unchanged :
    (prereqs : Prerequisites) (c : Controller) (found : Option Route)
    → Unchanged c (apply_route prereqs c found unknown)
unfolding apply_route
apply_route-Unchanged prereqs c none = inr refl
apply_route-Unchanged prereqs c (some r) = apply-Unchanged prereqs c r

handle_stage_event-Unchanged :
    (c : Controller) (e : StageEvent) → Unchanged c (handle_stage_event c e)
unfolding handle_stage_event
handle_stage_event-Unchanged c e =
    if_both (Unchanged c) (not (ltb e.stage stage_name_count)) _ _ (inr refl) (
      if_both (Unchanged c) (not (valid_stage_state e.state)) _ _ (inr refl)
        (elim (Option-cases (get_elem? c.stages e.stage)) [
          | inl out ↦ rw out (inl refl)
          | inr (stage, at) ↦ rw at (inl refl)
        ]))

handle_remove_listener-Unchanged :
    (c : Controller) (l : Listener) → Unchanged c (handle_remove_listener c l)
unfolding handle_remove_listener
handle_remove_listener-Unchanged c l = elim (Option-cases (remove_first c.listeners l)) [
  | inl out ↦ rw (out, handle_remove_listener) (inr refl)
  | inr (kept, found) ↦ rw (found, handle_remove_listener) (inl refl)
]

-- A control command, a stage event, or the registration or removal of a listener that does not
-- succeed changes nothing of the controller, whatever is wrong with it.
pub handlers-Unchanged :
    (prereqs : Prerequisites) (c : Controller) (cmd : ControlCommand) (e : StageEvent)
    (l : Listener)
    → Unchanged c (handle_control prereqs c cmd)
      × Unchanged c (handle_stage_event c e)
      × Unchanged c (handle_add_listener c l)
      × Unchanged c (handle_remove_listener c l)
unfolding handle_control handle_add_listener
handlers-Unchanged prereqs c cmd e l = (
  if_both (Unchanged c) (not (ltb cmd.component component_count)) _ _ (inr refl) (
      if_both (Unchanged c) (not (ltb cmd.action action_count)) _ _ (inr refl) (
        apply_route-Unchanged prereqs c
          (find_control_route c.control_routes cmd.component cmd.action))),
  handle_stage_event-Unchanged c e,
  if_both (Unchanged c) (leb max_listeners (length c.listeners)) _ _ (inr refl) (inl refl),
  handle_remove_listener-Unchanged c l,
)

same_listener_refl : (l : Listener) → same_listener l l ≡ true
unfolding same_listener
same_listener_refl l = ground arith

no_match :
    (same : Bool) (m : Listener) (xs : List Listener) (deeper : Option (List Listener))
    → (if same then some xs else elim deeper [ none ↦ none | some kept ↦ some (m ∷ kept) ]) ≡ none
    → (same ≡ false) × (deeper ≡ none)
no_match true m xs deeper h = cc h
no_match false m xs none h = (refl, refl)
no_match false m xs (some kept) h = cc h

remove_first-append :
    (xs : List Listener) (l : Listener)
    → remove_first xs l ≡ none
    → remove_first (xs ++ (l ∷ [])) l ≡ some xs
unfolding remove_first
remove_first-append [] l h = rw (same_listener_refl l) refl
remove_first-append (m ∷ xs) l h =
    let (differs, deeper) = no_match (same_listener m l) m xs (remove_first xs l) h in
    rw (differs, remove_first-append xs l deeper) refl

-- A listener that is not registered, added while there is room and then removed: both succeed, the
-- listener is called once, with the status of that moment, and nothing else remains of it.
pub handle_remove_listener-handle_add_listener :
    (c : Controller) (l : Listener)
    → remove_first c.listeners l ≡ none
    → length c.listeners < max_listeners
    → let (added, rc) = handle_add_listener c l in
      (rc ≡ ok)
      × (handle_remove_listener added l
          ≡ (record c { effects = c.effects ++ (listener_called l (handle_status c) ∷ []) }, ok))
unfolding handle_add_listener handle_remove_listener
handle_remove_listener-handle_add_listener c l new room =
    let free : leb max_listeners (length c.listeners) ≡ false = ground arith in
    rw free (refl, rw (remove_first-append c.listeners l new, handle_remove_listener) refl)
