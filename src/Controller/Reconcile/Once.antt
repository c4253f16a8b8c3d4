-- ===== src/Controller/Reconcile/Once.antt =====
-- The exactly-once firing contract: a repeated pass fires nothing while no op has timed out.
use strimserver.Prelude.{
  ℕ, suc, ◌+◌, ◌≡◌, refl, sym, ap, ◌∙◌, ◌≢◌, Bool, true, false, inl, inr, List, [], ◌∷◌, ◌++◌, ◌||◌,
  arith, append-nil, ◌==◌, if◌then◌else◌, length, ℤ, pos, ◌-ℤ◌, ◌<ℤ◌, Bool-cases, Option-cases,
}
use native.Mathlib.Nat.{add-zero}
use mathlib.Core.Path.{subst}
use strimserver.Controller.Types.{stage_name_count, Stage, OpJob, Controller}
use strimserver.Controller.Routes.{stage_op_for}
use strimserver.Controller.Reconcile.{FireEnv, fire_due, fired, op_job, handle_reconcile}
use strimserver.Controller.Reconcile.Slots.{
  Slot, Pass, slot, launch, pass_from, after, slot_converged, slot_waiting, slot_without_op,
  slot_due,
}
use strimserver.Controller.Reconcile.Refinement.{handle_reconcile-pass}

-- Nothing outside disturbs the fires of a pass: no shutdown, no failed allocation, and a clock
-- that does not read 0, the value that marks a stage as not in flight.
pub record IsCalm (env : FireEnv) : Type 0 where
  pub no_shutdown : env.shutdown_races ≡ false
  pub job_allocated : env.job_alloc ≡ true
  pub submit_allocated : env.submit_alloc ≡ true
  pub clock_ne_zero : env.fire_now ≢ pos 0

-- At the reading of `env` the op of a stage has not been in flight for the timeout.
abbrev pub InTime : FireEnv → ℤ → Stage → Type 0
InTime env timeout stage =
    stage.in_flight_since ≢ pos 0 → (env.check_now -ℤ stage.in_flight_since) <ℤ timeout

abbrev pub AllInTime : (ℕ → FireEnv) → ℤ → ℕ → List Stage → Type 0
AllInTime envs timeout i [] = Unit
AllInTime envs timeout i (stage ∷ rest) =
    InTime (envs i) timeout stage × AllInTime envs timeout (i + 1) rest

-- In time and in flight, a stage is not due.
fire_due-InTime :
    (env : FireEnv) (timeout : ℤ) (stage : Stage)
    → stage.in_flight_since ≢ pos 0
    → InTime env timeout stage
    → fire_due stage env.check_now timeout ≡ false
unfolding fire_due
fire_due-InTime env timeout stage busy late = ground (arith, late busy)

-- A stage that is not due is in flight.
fire_due-busy :
    (stage : Stage) (now timeout : ℤ)
    → fire_due stage now timeout ≡ false
    → stage.in_flight_since ≢ pos 0
unfolding fire_due
fire_due-busy stage now timeout idle zero_time = ground arith

launch_calm :
    (env : FireEnv) (timeout : ℤ) (i : ℕ) (stage : Stage) (op : ℕ)
    → IsCalm env
    → (if false || env.shutdown_races
        then record { stage = stage; jobs = []; shut = true }
        else launch env timeout false i stage op)
      ≡ record {
        stage = fired stage env.fire_now;
        jobs = op_job i stage op env.fire_now timeout ∷ [];
        shut = false;
      }
unfolding launch
launch_calm env timeout i stage op calm = ground arith

-- The slot of a stage that is passed a second time.
abbrev Again : FireEnv → ℤ → ℕ → Slot → Type 0
Again env' timeout i s =
    InTime env' timeout s.stage
    → (s.shut ≡ false)
      × (slot env' timeout false false i s.stage
          ≡ record { stage = s.stage; jobs = []; shut = false })

Again-fired :
    (env env' : FireEnv) (timeout : ℤ) (i : ℕ) (stage : Stage) (jobs : List OpJob)
    → IsCalm env
    → (stage.status.desired == stage.status.actual) ≡ false
    → Again env' timeout i (record { stage = fired stage env.fire_now; jobs = jobs; shut = false })
Again-fired env env' timeout i stage jobs calm e late = (
  refl,
  slot_waiting env' timeout false false i (fired stage env.fire_now) (unfold fired in e) (
      fire_due-InTime env' timeout (fired stage env.fire_now) (unfold fired in calm.clock_ne_zero)
        late),
)

-- A stage that a calm slot has passed once is left alone, and fires nothing, the second time.
slot-Again :
    (env env' : FireEnv) (timeout : ℤ) (i : ℕ) (stage : Stage)
    → IsCalm env
    → Again env' timeout i (slot env timeout false false i stage)
slot-Again env env' timeout i stage calm =
    elim (Bool-cases (stage.status.desired == stage.status.actual)) [
      | inl e ↦
          subst (Again env' timeout i) (sym (slot_converged env timeout false false i stage e))
            (λ late. (
              refl,
              slot_converged env' timeout false false i (record stage { in_flight_since = pos 0 })
                  e,
            ))
      | inr e ↦ elim (Option-cases (stage_op_for stage stage.status.desired)) [
        | inl missing ↦
            subst (Again env' timeout i)
              (sym (slot_without_op env timeout false false i stage e missing))
              (λ late. (refl, slot_without_op env' timeout false false i stage e missing))
        | inr (op, found) ↦ elim (Bool-cases (fire_due stage env.check_now timeout)) [
          | inl due ↦
              subst (Again env' timeout i)
                (sym (
                  slot_due env timeout false false i stage op e due found
                  ∙ launch_calm env timeout i stage op calm))
                (Again-fired env env' timeout i stage (op_job i stage op env.fire_now timeout ∷ [])
                  calm e)
          | inr idle ↦
              subst (Again env' timeout i)
                (sym (slot_waiting env timeout false false i stage e idle))
                (λ late. (
                  refl,
                  slot_waiting env' timeout false false i stage e (
                      fire_due-InTime env' timeout stage
                        (fire_due-busy stage env.check_now timeout idle) late),
                ))
        ]
      ]
    ]

slot_open :
    (env : FireEnv) (timeout : ℤ) (i : ℕ) (stage : Stage)
    → IsCalm env
    → (slot env timeout false false i stage).shut ≡ false
unfolding slot launch
slot_open env timeout i stage calm = ground arith

-- A pass whose first slot leaves the lock open goes on so.
pass_cons :
    (envs : ℕ → FireEnv) (timeout : ℤ) (i : ℕ) (stage : Stage) (rest : List Stage)
    → let s = slot (envs i) timeout false false i stage in
      let p = pass_from envs timeout false false (i + 1) rest in
      s.shut ≡ false
      → pass_from envs timeout false false i (stage ∷ rest)
        ≡ record { stages = s.stage ∷ p.stages; jobs = s.jobs ++ p.jobs; shut = p.shut }
unfolding pass_from
pass_cons envs timeout i stage rest lock_open = rw lock_open

abbrev PassAgain : (ℕ → FireEnv) → ℤ → ℕ → Pass → Type 0
PassAgain envs' timeout i p =
    AllInTime envs' timeout i p.stages
    → (p.shut ≡ false)
      × (pass_from envs' timeout false false i p.stages
          ≡ record { stages = p.stages; jobs = []; shut = false })

cons_again :
    (envs envs' : ℕ → FireEnv) (timeout : ℤ) (i : ℕ) (stage : Stage) (rest : List Stage)
    → IsCalm (envs i)
    → PassAgain envs' timeout (i + 1) (pass_from envs timeout false false (i + 1) rest)
    → PassAgain envs' timeout i (pass_from envs timeout false false i (stage ∷ rest))
cons_again envs envs' timeout i stage rest calm later =
    let s = slot (envs i) timeout false false i stage in
    subst (PassAgain envs' timeout i)
      (sym (pass_cons envs timeout i stage rest (slot_open (envs i) timeout i stage calm)))
      (λ late.
        let (shut, same) = later late.1 in
        let (_, alone) = slot-Again (envs i) (envs' i) timeout i stage calm late.0 in
        (shut, pass_cons envs' timeout i s.stage _ (rw alone) ∙ rw (alone, same)))

-- So for a whole pass: the second one changes no stage and hands over no job.
pass_again :
    (envs envs' : ℕ → FireEnv) (timeout : ℤ) (i : ℕ) (stages : List Stage)
    → ((k : ℕ) → IsCalm (envs k))
    → PassAgain envs' timeout i (pass_from envs timeout false false i stages)
pass_again envs envs' timeout i [] calm = unfold pass_from in λ late. (refl, refl)
pass_again envs envs' timeout i (stage ∷ rest) calm =
    cons_again envs envs' timeout i stage rest (calm i)
      (pass_again envs envs' timeout (i + 1) rest calm)

length-pass_from :
    (envs : ℕ → FireEnv) (timeout : ℤ) (pool_shut shut : Bool) (i : ℕ) (stages : List Stage)
    → length (pass_from envs timeout pool_shut shut i stages).stages ≡ length stages
unfolding pass_from
length-pass_from envs timeout pool_shut shut i [] = refl
length-pass_from envs timeout pool_shut shut i (stage ∷ rest) = ap suc (
    length-pass_from envs timeout pool_shut (slot (envs i) timeout pool_shut shut i stage).shut
      (i + 1) rest)

-- The refinement at a controller whose pool and whose fires are open.
open_pass :
    (envs : ℕ → FireEnv) (c : Controller)
    → length c.stages ≡ stage_name_count
    → c.pool.shutting_down ≡ false
    → c.shutting_down ≡ false
    → handle_reconcile envs c ≡ (
        let p = pass_from envs c.inflight_timeout_ms false false 0 c.stages in
        after c p.stages p.jobs p.shut)
open_pass envs c four pool_open running =
    let F = λ (b s : Bool).
      let p = pass_from envs c.inflight_timeout_ms b s 0 c.stages in
      if s then c else after c p.stages p.jobs p.shut in
    handle_reconcile-pass envs c four
    ∙ ap (λ b. F b c.shutting_down) pool_open
    ∙ ap (λ s. F false s) running

suppressed :
    (envs : ℕ → FireEnv) (c : Controller) → c.shutting_down ≡ true → handle_reconcile envs c ≡ c
unfolding handle_reconcile
suppressed envs c down = rw down

abbrev Settled : (ℕ → FireEnv) → Controller → Type 0
Settled envs' c' =
    AllInTime envs' c'.inflight_timeout_ms 0 c'.stages → handle_reconcile envs' c' ≡ c'

Settled-open :
    (envs envs' : ℕ → FireEnv) (c : Controller)
    → length c.stages ≡ stage_name_count
    → c.pool.shutting_down ≡ false
    → ((k : ℕ) → IsCalm (envs k))
    → let p = pass_from envs c.inflight_timeout_ms false false 0 c.stages in
      Settled envs' (after c p.stages p.jobs p.shut)
Settled-open envs envs' c four pool_open calm late =
    let p = pass_from envs c.inflight_timeout_ms false false 0 c.stages in
    let (lock_open, same) =
      pass_again envs envs' c.inflight_timeout_ms 0 c.stages calm (unfold after in late) in
    let c' = after c p.stages p.jobs p.shut in
    open_pass envs' c'
      (unfold after in (length-pass_from envs c.inflight_timeout_ms false false 0 c.stages ∙ four))
      (unfold after in pool_open) (unfold after in lock_open)
    ∙ unfold after in
      (ap (λ (q : Pass). after c' q.stages q.jobs q.shut) same
        ∙ rw (append-nil, add-zero) (ap (λ b. record c' { shutting_down = b }) (sym lock_open)))

-- Exactly-once firing: after a calm pass, a second pass changes nothing at all and fires nothing,
-- whatever the clock and the allocator answer then, as long as no op that is in flight has reached
-- the timeout. The controller has its four stages, and its pool is not shut down.
pub handle_reconcile-handle_reconcile :
    (envs envs' : ℕ → FireEnv) (c : Controller)
    → length c.stages ≡ stage_name_count
    → c.pool.shutting_down ≡ false
    → ((k : ℕ) → IsCalm (envs k))
    → let c' = handle_reconcile envs c in
      AllInTime envs' c'.inflight_timeout_ms 0 c'.stages → handle_reconcile envs' c' ≡ c'
handle_reconcile-handle_reconcile envs envs' c four pool_open calm =
    elim (Bool-cases c.shutting_down) [
      | inl down ↦
          subst (Settled envs') (sym (suppressed envs c down)) (λ _. suppressed envs' c down)
      | inr running ↦
          subst (Settled envs') (sym (open_pass envs c four pool_open running))
            (Settled-open envs envs' c four pool_open calm)
    ]
