-- ===== src/Controller/WellFormed/Intent.antt =====
-- What an event or a command does to the desired states, route by route.
use strimserver.Prelude.{
  ℕ, zero, suc, ◌<◌, ◌≡◌, refl, ap, ◌⊎◌, false, true, some, none, Option, List, [], ◌∷◌, not, ltb,
  ◌==◌, arith, length, get_elem?, get_elem?-set_self, set, inl, inr, if_split, ◌≢◌, pos, eq_ℤ,
  Option-cases, subst, ℤ, Bool,
}
use strimserver.Controller.Types.{
  path_name_count, path_status_count, stage_name_count, component_count, action_count,
  route_path_event, route_control, Rc, ok, prereq, Prerequisites, Route, Stage, Controller,
}
use strimserver.Controller.Routes.{
  valid_path_status, valid_route_key, find_path_event_route, find_control_route,
}
use strimserver.Controller.Handlers.{
  set_stage, handle_status, notify_listeners, with_desired, rejects, apply_desired_stage_target,
  apply_route, handle_path_event, handle_control,
}
use strimserver.Controller.WellFormed.Construction.{IsAccepted}

-- The desired state of stage i.
abbrev pub desired_at : List Stage → ℕ → Option ℕ
desired_at stages i = elim (get_elem? stages i) [
  | none ↦ none
  | some stage ↦ some stage.status.desired
]

-- The route has nothing to ask: its target is desired already, it has no prerequisite, or its
-- prerequisite answers 0 to the status of b.
pub data IsAllowed (prereqs : Prerequisites) (b : Controller) (r : Route) : Type 0 where
  already : desired_at b.stages r.target_stage ≡ some r.target_state → IsAllowed prereqs b r
  unconditional : r.prerequisite ≡ none → IsAllowed prereqs b r
  agreed :
      (check : ℕ)
      → r.prerequisite ≡ some check
      → prereqs check (handle_status b) r.prerequisite_userdata ≡ pos 0
      → IsAllowed prereqs b r

-- The target is not desired yet, and the prerequisite answers another code to the status of b.
pub record IsRefused (prereqs : Prerequisites) (b : Controller) (r : Route) : Type 0 where
  pub differs : desired_at b.stages r.target_stage ≢ some r.target_state
  pub check : ℕ
  pub asked : r.prerequisite ≡ some check
  pub answered : prereqs check (handle_status b) r.prerequisite_userdata ≢ pos 0

-- A route was followed from b to x: it is allowed and its target is desired, or it is refused and no
-- stage was touched and no listener called.
abbrev pub Followed : Prerequisites → Controller → Route → Controller × Rc → Type 0
Followed prereqs b r x =
    (IsAllowed prereqs b r
      × (x.1 ≡ ok)
      × (desired_at x.0.stages r.target_stage ≡ some r.target_state))
    ⊎ (IsRefused prereqs b r × (x.1 ≡ prereq) × (x.0.stages ≡ b.stages) × (x.0.effects ≡ b.effects))

in_range :
    (stages : List Stage) (i : ℕ)
    → i < length stages
    → (stage : Stage) × (get_elem? stages i ≡ some stage)
in_range [] i h = absurd (omega arith)
in_range (stage ∷ rest) zero h = (stage, refl)
in_range (stage ∷ rest) (suc i) h = in_range rest i (omega arith)

differs_at :
    (c : Controller) (r : Route) (stage : Stage)
    → get_elem? c.stages r.target_stage ≡ some stage
    → (stage.status.desired == r.target_state) ≡ false
    → desired_at c.stages r.target_stage ≢ some r.target_state
differs_at c r stage at other same =
    let here : desired_at c.stages r.target_stage ≡ some stage.status.desired =
      rw (at, desired_at) refl in
    let equal : stage.status.desired ≡ r.target_state = cc (here, same) in
    ground (arith, other, equal)

desired-moved :
    (c : Controller) (i target : ℕ) (stage : Stage)
    → i < length c.stages
    → desired_at (notify_listeners (set_stage c i (with_desired stage target))).stages i
      ≡ some target
unfolding notify_listeners set_stage with_desired
desired-moved c i target stage h =
    rw (get_elem?-set_self c.stages i (with_desired stage target) h, desired_at)

zero_code : (rc : ℤ) → not (eq_ℤ rc (pos 0)) ≡ false → rc ≡ pos 0
zero_code rc is_zero = ground (arith, is_zero)

other_code : (rc : ℤ) → not (eq_ℤ rc (pos 0)) ≡ true → rc ≢ pos 0
other_code rc is_other same = ground (arith, is_other, same)

module _ (prereqs : Prerequisites) where
  -- Whether the prerequisite of a route rejects it, with the reason.
  rejects-IsAllowed :
      (c : Controller) (r : Route)
      → rejects prereqs r.prerequisite (handle_status c) r.prerequisite_userdata ≡ false
      → IsAllowed prereqs c r
  unfolding rejects
  rejects-IsAllowed c r accepted = elim (Option-cases r.prerequisite) [
    | inl out ↦ unconditional out
    | inr (check, asked) ↦ agreed check asked (
        zero_code (prereqs check (handle_status c) r.prerequisite_userdata) (
          subst
            (λ (o : Option ℕ). rejects prereqs o (handle_status c) r.prerequisite_userdata ≡ false)
            asked accepted))
  ]

  rejects-IsRefused :
      (c : Controller) (r : Route)
      → desired_at c.stages r.target_stage ≢ some r.target_state
      → rejects prereqs r.prerequisite (handle_status c) r.prerequisite_userdata ≡ true
      → IsRefused prereqs c r
  unfolding rejects
  rejects-IsRefused c r differs rejected =
      let said : Option ℕ → Bool =
        λ o. rejects prereqs o (handle_status c) r.prerequisite_userdata in
      elim (Option-cases r.prerequisite) [
        | inl out ↦ absurd (cc (subst (λ o. said o ≡ true) out rejected))
        | inr (check, asked) ↦ record {
          differs = differs;
          check = check;
          asked = asked;
          answered =
              other_code (prereqs check (handle_status c) r.prerequisite_userdata)
                (subst (λ o. said o ≡ true) asked rejected);
        }
      ]

  apply-Followed :
      (c : Controller) (r : Route)
      → r.target_stage < length c.stages
      → Followed prereqs c r (apply_desired_stage_target prereqs c r)
  unfolding apply_desired_stage_target
  apply-Followed c r h =
      let (stage, at) = in_range c.stages r.target_stage h in
      let moved =
        notify_listeners (set_stage c r.target_stage (with_desired stage r.target_state)) in
      let said_no = rejects prereqs r.prerequisite (handle_status c) r.prerequisite_userdata in
      rw (at, apply_desired_stage_target)
        (if_split (Followed prereqs c r) (stage.status.desired == r.target_state) (c, ok) _
          (λ same.
            let there : desired_at c.stages r.target_stage ≡ some r.target_state =
              rw (at, desired_at) (ap some (ground arith)) in
            inl (already there, refl, there))
          (λ other.
            if_split (Followed prereqs c r) said_no (c, prereq) (moved, ok)
              (λ rejected.
                inr (
                  rejects-IsRefused c r (differs_at c r stage at other) rejected,
                  refl,
                  refl,
                  refl,
                ))
              (λ accepted. inl (
                rejects-IsAllowed c r accepted,
                refl,
                desired-moved c r.target_stage r.target_state stage h,
              ))))

  apply-paths :
      (c : Controller) (r : Route) → (apply_desired_stage_target prereqs c r).0.paths ≡ c.paths
  unfolding apply_desired_stage_target notify_listeners set_stage
  apply-paths c r = ground arith

  -- An accepted path-event route does what it says: its event is recorded in `paths`, and either
  -- the target state is now desired of the target stage, or every stage is as it was and no listener
  -- was called. The first needs that the target was desired already, that there is no prerequisite,
  -- or that it answers 0 to the status with the event in it; the second that the target was not
  -- desired and the prerequisite answers another code. The stages number four.
  pub handle_path_event-Followed :
      (c : Controller) (r : Route)
      → length c.stages ≡ stage_name_count
      → IsAccepted route_path_event c.stages c.path_routes r
      → let x = handle_path_event prereqs c (record { path = r.path; status = r.path_status }) in
        let stored = record c { paths = set c.paths r.path r.path_status } in
        (x.0.paths ≡ set c.paths r.path r.path_status) × Followed prereqs stored r x
  unfolding handle_path_event apply_route valid_route_key valid_path_status
  handle_path_event-Followed c r four a =
      let stored = record c { paths = set c.paths r.path r.path_status } in
      let found : find_path_event_route c.path_routes r.path r.path_status ≡ some r = a.reached in
      let path : not (ltb r.path path_name_count) ≡ false = ground arith in
      let status : not (ltb r.path_status path_status_count) ≡ false = ground arith in
      rw (path, status, found)
        (apply-paths stored r, apply-Followed stored r (omega (arith, a.target.stage)))

  -- An accepted control route does what it says: either the target state is now desired of the
  -- target stage, or every stage is as it was and no listener was called. The first needs that the
  -- target was desired already, that there is no prerequisite, or that it answers 0 to the present
  -- status; the second that the target was not desired and the prerequisite answers another code.
  -- The stages number four.
  pub handle_control-Followed :
      (c : Controller) (r : Route)
      → length c.stages ≡ stage_name_count
      → IsAccepted route_control c.stages c.control_routes r
      → Followed prereqs c r
          (handle_control prereqs c (record { component = r.component; action = r.action }))
  unfolding handle_control apply_route valid_route_key
  handle_control-Followed c r four a =
      let found : find_control_route c.control_routes r.component r.action ≡ some r = a.reached in
      let component : not (ltb r.component component_count) ≡ false = ground arith in
      let action : not (ltb r.action action_count) ≡ false = ground arith in
      rw (component, action, found) (apply-Followed c r (omega (arith, a.target.stage)))
