-- ===== src/Controller/Reconcile/Slots.antt =====
-- The specification of a reconcile pass: what becomes of one stage, as a function of that stage
-- alone, and of the list of stages from left to right.
use strimserver.Prelude.{
  ℕ, ◌+◌, ◌≡◌, inl, inr, Bool-cases, Option-cases, Bool, true, false, not, ◌||◌, none, some, List,
  [], ◌∷◌, ◌++◌, arith, append-nil, ◌==◌, if◌then◌else◌, length, set, set-set, ℤ, pos,
}
use native.Mathlib.Nat.{add-zero}
use strimserver.Controller.Types.{Stage, OpJob, Controller}
use strimserver.Controller.Routes.{stage_op_for}
use strimserver.Controller.Handlers.{set_stage}
use strimserver.Controller.Reconcile.{
  FireEnv, fire_due, fired, op_job, undone, workerpool_submit, fire, lock_for_fire, reconcile_stage,
}

-- What one stage and its environment come to: the stage, the jobs handed to the pool, and whether
-- fires are suppressed from here on.
pub record Slot : Type 0 where
  pub stage : Stage
  pub jobs : List OpJob
  pub shut : Bool

-- A launch that got through the lock: refused by malloc, refused by the pool, or handed over.
unfoldable pub launch : FireEnv → (timeout : ℤ) (pool_shut : Bool) → ℕ → Stage → ℕ → Slot
launch env timeout pool_shut i stage op =
    let running = fired stage env.fire_now in
    if not env.job_alloc
    then record { stage = stage; jobs = []; shut = false }
    else if not env.submit_alloc || pool_shut
    then record { stage = undone running; jobs = []; shut = false }
    else record {
      stage = running;
      jobs = op_job i stage op env.fire_now timeout ∷ [];
      shut = false;
    }

unfoldable pub slot : FireEnv → (timeout : ℤ) (pool_shut shut : Bool) → ℕ → Stage → Slot
unfolding launch
slot env timeout pool_shut shut i stage =
    let kept : Slot = record { stage = stage; jobs = []; shut = shut } in
    if stage.status.desired == stage.status.actual
    then record { stage = record stage { in_flight_since = pos 0 }; jobs = []; shut = shut }
    else if not (fire_due stage env.check_now timeout)
    then kept
    else elim (stage_op_for stage stage.status.desired) [
      | none ↦ kept
      | some op ↦
          if shut || env.shutdown_races
          then record { stage = stage; jobs = []; shut = true }
          else launch env timeout pool_shut i stage op
    ]

-- The whole pass, from the stage with index i on.
pub record Pass : Type 0 where
  pub stages : List Stage
  pub jobs : List OpJob
  pub shut : Bool

unfoldable pub pass_from :
    (ℕ → FireEnv) → (timeout : ℤ) (pool_shut shut : Bool) → ℕ → List Stage → Pass
pass_from envs timeout pool_shut shut i [] = record { stages = []; jobs = []; shut = shut }
pass_from envs timeout pool_shut shut i (stage ∷ rest) =
    let first = slot (envs i) timeout pool_shut shut i stage in
    let later = pass_from envs timeout pool_shut first.shut (i + 1) rest in
    record {
      stages = first.stage ∷ later.stages;
      jobs = first.jobs ++ later.jobs;
      shut = later.shut;
    }

-- A controller with other stages, more jobs in the pool that the wait group counts, and the flag.
unfoldable pub after : Controller → List Stage → List OpJob → Bool → Controller
after c stages jobs shut = record c {
  stages = stages;
  ops_wg = c.ops_wg + length jobs;
  pool = record {
    jobs = c.pool.jobs ++ jobs;
    taken = c.pool.taken;
    shutting_down = c.pool.shutting_down;
  };
  shutting_down = shut;
}

-- The section under q_lock does to the controller what the launch says, if no shutdown came first.
fire-launch :
    (env : FireEnv) (c : Controller) (i : ℕ) (stage : Stage) (op : ℕ)
    → set c.stages i stage ≡ c.stages
    → fire env (lock_for_fire env c) i stage op ≡ (
        let s =
          if c.shutting_down || env.shutdown_races
          then record { stage = stage; jobs = []; shut = true }
          else launch env c.inflight_timeout_ms c.pool.shutting_down i stage op in
        after c (set c.stages i s.stage) s.jobs s.shut)
unfolding fire workerpool_submit launch after set_stage lock_for_fire
fire-launch env c i stage op same = ground (
  arith,
  append-nil c.pool.jobs,
  add-zero c.ops_wg,
  set-set c.stages i (fired stage env.fire_now) (undone (fired stage env.fire_now)),
)

-- One round does to the controller what the slot says.
pub reconcile_stage-slot :
    (env : FireEnv) (c : Controller) (i : ℕ) (stage : Stage)
    → set c.stages i stage ≡ c.stages
    → reconcile_stage env c i stage ≡ (
        let s = slot env c.inflight_timeout_ms c.pool.shutting_down c.shutting_down i stage in
        after c (set c.stages i s.stage) s.jobs s.shut)
unfolding reconcile_stage slot
reconcile_stage-slot env c i stage same =
    elim (Bool-cases (stage.status.desired == stage.status.actual)) [
      | inl e ↦ rw e (unfold set_stage after in rw (append-nil, add-zero))
      | inr e ↦ rw e (elim (Bool-cases (fire_due stage env.check_now c.inflight_timeout_ms)) [
        | inr idle ↦ rw idle (unfold after in rw (append-nil, add-zero, same))
        | inl due ↦ rw due (elim (Option-cases (stage_op_for stage stage.status.desired)) [
          | inl missing ↦ rw missing (unfold after in rw (append-nil, add-zero, same))
          | inr (op, found) ↦ rw found (fire-launch env c i stage op same)
        ])
      ])
    ]

-- The four ways through a slot, with their conditions.
module _ (env : FireEnv) (timeout : ℤ) (pool_shut shut : Bool) (i : ℕ) (stage : Stage) where
  pub slot_converged :
      (stage.status.desired == stage.status.actual) ≡ true
      → slot env timeout pool_shut shut i stage
        ≡ record { stage = record stage { in_flight_since = pos 0 }; jobs = []; shut = shut }
  unfolding slot
  slot_converged e = rw e

  pub slot_waiting :
      (stage.status.desired == stage.status.actual) ≡ false
      → fire_due stage env.check_now timeout ≡ false
      → slot env timeout pool_shut shut i stage ≡ record { stage = stage; jobs = []; shut = shut }
  unfolding slot
  slot_waiting e idle = rw (e, idle)

  pub slot_without_op :
      (stage.status.desired == stage.status.actual) ≡ false
      → stage_op_for stage stage.status.desired ≡ none
      → slot env timeout pool_shut shut i stage ≡ record { stage = stage; jobs = []; shut = shut }
  unfolding slot
  slot_without_op e missing = elim (Bool-cases (fire_due stage env.check_now timeout)) [
    | inl due ↦ rw (e, due, missing)
    | inr idle ↦ rw (e, idle)
  ]

  pub slot_due :
      (op : ℕ)
      → (stage.status.desired == stage.status.actual) ≡ false
      → fire_due stage env.check_now timeout ≡ true
      → stage_op_for stage stage.status.desired ≡ some op
      → slot env timeout pool_shut shut i stage ≡ (
          if shut || env.shutdown_races
          then record { stage = stage; jobs = []; shut = true }
          else launch env timeout pool_shut i stage op)
  unfolding slot
  slot_due op e due found = rw (e, due, found)
