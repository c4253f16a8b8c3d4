-- ===== src/Controller/WellFormed/Construction.antt =====
-- What strim_controller_new guarantees of the controller that it returns.
use strimserver.Prelude.{
  ℕ, zero, suc, ◌+◌, ◌<◌, ◌≡◌, refl, sym, ap, subst, ◌∙◌, Bool, true, false, some, none, Option,
  List, [], ◌∷◌, ◌++◌, append_assoc, not, ◌&&◌, leb, ◌==◌, if◌then◌else◌, arith, length, All, Given,
  if_both, if_split, pos, leb_ℤ, ◌<ℤ◌, Option-cases, inl, inr,
}
use strimserver.Controller.Types.{
  path_name_count, path_status_count, stage_name_count, stage_running, route_path_event,
  route_control, Rc, ok, badarg, nomem, Route, RouteTable, null_table, entries, Stage, StageConfig,
  Controller, Config,
}
use strimserver.Controller.Routes.{
  valid_stage_state, route_keys_equal, find_path_event_route, find_control_route, valid_route,
  valid_route_key, has_op, has_key, validate_from, validate_and_copy_routes, all_valid_paths,
  init_stages, NewEnv, is_ok, new_with_stages, new,
}
use strimserver.Controller.System.Accounting.{IsSound}
use strimserver.Controller.WellFormed.{IsStored, IsTarget, IsWellFormed}

-- The lookup of a route's own key in a table of its kind.
abbrev pub find_own : ℕ → List Route → Route → Option Route
find_own kind routes r =
    if kind == route_path_event
    then find_path_event_route routes r.path r.path_status
    else find_control_route routes r.component r.action

-- A route of a table that was accepted: it can be driven to, and the lookup reaches it.
pub record IsAccepted (kind : ℕ) (stages : List Stage) (table : List Route) (r : Route)
    : Type 0 where
  pub target : IsTarget r
  pub key : valid_route_key r kind ≡ true
  pub drivable : has_op stages r ≡ true
  pub reached : find_own kind table r ≡ some r

-- Entries with another key are passed over.
find_own_skip :
    (kind : ℕ) (earlier rest : List Route) (r : Route)
    → has_key earlier r kind ≡ false
    → find_own kind (earlier ++ rest) r ≡ find_own kind rest r
unfolding has_key route_keys_equal find_path_event_route find_control_route
find_own_skip kind [] rest r h = refl
find_own_skip kind (s ∷ earlier) rest r h = ground (arith, find_own_skip kind earlier rest r)

find_own_head : (kind : ℕ) (rest : List Route) (r : Route) → find_own kind (r ∷ rest) r ≡ some r
unfolding find_path_event_route find_control_route
find_own_head kind rest r = ground arith

IsAccepted-one :
    (kind : ℕ) (stages : List Stage) (earlier rest : List Route) (r : Route)
    → valid_route stages earlier r kind ≡ true
    → IsAccepted kind stages (earlier ++ r ∷ rest) r
unfolding valid_route valid_stage_state
IsAccepted-one kind stages earlier rest r h =
    let other : has_key earlier r kind ≡ false = ground arith in
    record {
      target = ground arith;
      key = ground arith;
      drivable = ground arith;
      reached = find_own_skip kind earlier (r ∷ rest) r other ∙ find_own_head kind rest r;
    }

IsAccepted-from :
    (kind : ℕ) (stages : List Stage) (earlier rest table : List Route)
    → table ≡ earlier ++ rest
    → validate_from stages earlier rest kind ≡ true
    → All (IsAccepted kind stages table) rest
unfolding validate_from
IsAccepted-from kind stages earlier [] table e h = tt
IsAccepted-from kind stages earlier (r ∷ rest) table e h = (
  subst (λ t. IsAccepted kind stages t r) (sym e)
      (IsAccepted-one kind stages earlier rest r (ground arith)),
  IsAccepted-from kind stages (earlier ++ r ∷ []) rest table
      (e ∙ sym (append_assoc earlier (r ∷ []) rest)) (ground arith),
)

-- If the table was accepted, so is each of its routes.
abbrev Accepted : ℕ → List Stage → Rc × List Route → Type 0
Accepted kind stages x = is_ok x.0 ≡ true → All (IsAccepted kind stages x.1) x.1

Accepted-table :
    (alloc : Bool) (kind : ℕ) (stages : List Stage) (table : RouteTable)
    → Accepted kind stages (validate_and_copy_routes alloc stages table kind)
unfolding validate_and_copy_routes is_ok
Accepted-table alloc kind stages (null_table zero) = λ h. tt
Accepted-table alloc kind stages (null_table (suc n)) = λ h. tt
Accepted-table alloc kind stages (entries []) = λ h. tt
Accepted-table alloc kind stages (entries (r ∷ rest)) =
    if_both (Accepted kind stages) (not alloc) (nomem, []) _ (λ h. tt)
      (if_split (Accepted kind stages) (validate_from stages [] (r ∷ rest) kind) (ok, r ∷ rest)
        (badarg, []) (λ valid h. IsAccepted-from kind stages [] (r ∷ rest) (r ∷ rest) refl valid)
        (λ _ h. tt))

all_valid_paths-All :
    (paths : List ℕ) → all_valid_paths paths ≡ true → All (λ s. s < path_status_count) paths
unfolding all_valid_paths
all_valid_paths-All [] h = tt
all_valid_paths-All (s ∷ rest) h = (ground arith, all_valid_paths-All rest (ground arith))

stage_cons :
    (i : ℕ) (sc : StageConfig) (rest : List StageConfig)
    → Given
        (λ stages. (length stages ≡ length rest) × All IsStored stages)
        (init_stages (i + 1) rest)
    → Given
        (λ stages. (length stages ≡ suc (length rest)) × All IsStored stages)
        (init_stages i (sc ∷ rest))
unfolding init_stages valid_stage_state
stage_cons i sc rest later = elim (Option-cases (init_stages (i + 1) rest)) [
  | inl out ↦ rw out (if_both (Given P) _ none none tt tt)
  | inr (stages, found) ↦
      let (same, stored) =
        subst (Given (λ stages. (length stages ≡ length rest) × All IsStored stages)) found later in
      rw found (
        if_split (Given P)
          (sc.name == i
            && leb sc.status.desired stage_running
            && leb sc.status.actual stage_running)
          (some _) none
          (λ valid.
            (ap suc same, (record { desired = ground arith; actual = ground arith }, stored)))
          (λ _. tt))
]
  where
    P : List Stage → Type 0
    P stages = (length stages ≡ suc (length rest)) × All IsStored stages

init_stages-IsStored :
    (i : ℕ) (configs : List StageConfig)
    → Given
        (λ stages. (length stages ≡ length configs) × All IsStored stages)
        (init_stages i configs)
unfolding init_stages
init_stages-IsStored i [] = (refl, tt)
init_stages-IsStored i (sc ∷ rest) = stage_cons i sc rest (init_stages-IsStored (i + 1) rest)

-- What a controller is when strim_controller_new hands it out.
pub record IsConstructed (c : Controller) : Type 0 where
  pub well_formed : IsWellFormed c
  pub sound : IsSound c
  pub paths_accepted : All (IsAccepted route_path_event c.stages c.path_routes) c.path_routes
  pub controls_accepted : All (IsAccepted route_control c.stages c.control_routes) c.control_routes
  pub running : c.shutting_down ≡ false

abbrev Constructed : Rc × Option Controller → Type 0
Constructed x = Given (λ c. (x.0 ≡ ok) × IsConstructed c) x.1

map-IsTarget :
    (kind : ℕ) (stages : List Stage) (table routes : List Route)
    → All (IsAccepted kind stages table) routes
    → All IsTarget routes
map-IsTarget kind stages table [] h = tt
map-IsTarget kind stages table (r ∷ rest) (h, hs) =
    (h.target, map-IsTarget kind stages table rest hs)

new_with_stages-IsConstructed :
    (env : NewEnv) (cfg : Config) (stages : List Stage)
    → length cfg.initial_paths ≡ path_name_count
    → length stages ≡ stage_name_count
    → All (λ s. s < path_status_count) cfg.initial_paths
    → All IsStored stages
    → pos 0 <ℤ cfg.inflight_timeout_ms
    → Constructed (new_with_stages env cfg stages)
unfolding new_with_stages
new_with_stages-IsConstructed env cfg stages two four paths stored timeout =
    let P =
      validate_and_copy_routes env.path_routes_alloc stages cfg.path_routes route_path_event in
    let C =
      validate_and_copy_routes env.control_routes_alloc stages cfg.control_routes route_control in
    if_split Constructed (not (is_ok P.0)) (P.0, none) _ (λ _. tt)
      (λ p.
        if_split Constructed (not (is_ok C.0)) (C.0, none) _ (λ _. tt)
          (λ q.
            if_both Constructed (not env.pool_threads) (nomem, none) _ tt
              (let ps =
                  Accepted-table env.path_routes_alloc route_path_event stages cfg.path_routes
                    (ground arith) in
                let cs =
                  Accepted-table env.control_routes_alloc route_control stages cfg.control_routes
                    (ground arith) in
                (
                  refl,
                  record {
                    well_formed = record {
                      all_paths = two;
                      all_stages = four;
                      valid_paths = paths;
                      stored_states = stored;
                      path_targets = map-IsTarget route_path_event stages P.1 P.1 ps;
                      control_targets = map-IsTarget route_control stages C.1 C.1 cs;
                      few_listeners = omega arith;
                      timeout_pos = timeout;
                    };
                    sound = omega arith;
                    paths_accepted = ps;
                    controls_accepted = cs;
                    running = refl;
                  },
                ))))

init-IsConstructed :
    (env : NewEnv) (cfg : Config) (found : Option (List Stage))
    → length cfg.initial_paths ≡ path_name_count
    → Given (λ stages. (length stages ≡ stage_name_count) × All IsStored stages) found
    → All (λ s. s < path_status_count) cfg.initial_paths
    → pos 0 <ℤ cfg.inflight_timeout_ms
    → Constructed
        (elim found [ none ↦ (badarg, none) | some stages ↦ new_with_stages env cfg stages ])
init-IsConstructed env cfg none two h paths timeout = tt
init-IsConstructed env cfg (some stages) two (four, stored) paths timeout =
    new_with_stages-IsConstructed env cfg stages two four paths stored timeout

-- If strim_controller_new returns a controller, the result is 0 and the controller is well formed
-- and sound, not shutting down, and each of its routes leads to a configured op and is the one that
-- the lookup of its own key finds, so no route is shadowed by another. The arrays of the
-- configuration have the lengths that their C types give them.
pub new-IsConstructed :
    (env : NewEnv) (cfg : Config)
    → length cfg.initial_paths ≡ path_name_count
    → length cfg.stages ≡ stage_name_count
    → {c : Controller} → (new env cfg).1 ≡ some c
    → ((new env cfg).0 ≡ ok) × IsConstructed c
unfolding new
new-IsConstructed env cfg two four {c} returned =
    subst (Given (λ d. ((new env cfg).0 ≡ ok) × IsConstructed d)) returned (
      if_split Constructed (leb_ℤ cfg.inflight_timeout_ms (pos 0)) (badarg, none) _ (λ _. tt)
        (λ timeout.
          if_both Constructed (cfg.actions_buffer_size == 0) (badarg, none) _ tt
            (if_split Constructed (not (all_valid_paths cfg.initial_paths)) (badarg, none) _
              (λ _. tt)
              (λ valid.
                if_both Constructed (not env.controller_alloc) (nomem, none) _ tt
                  (init-IsConstructed env cfg (init_stages 0 cfg.stages) two
                    (subst
                      (λ n.
                        Given (λ stages. (length stages ≡ n) × All IsStored stages)
                          (init_stages 0 cfg.stages))
                      four (init_stages-IsStored 0 cfg.stages))
                    (all_valid_paths-All cfg.initial_paths (ground arith)) (ground arith))))))
