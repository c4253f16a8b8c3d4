-- ===== src/Controller/Reconcile/Refinement.antt =====
-- The loop over the stages, which writes one array entry after another and hands jobs to the pool
-- as it goes, against the specification that maps each stage by itself.
use strimserver.Prelude.{
  ℕ, ◌+◌, ◌≡◌, refl, sym, ap, ◌∙◌, some, Bool, List, [], ◌∷◌, ◌++◌, arith, append-nil, append_assoc,
  if◌then◌else◌, length, length-append, get_elem?, set, set_same, get_elem?-append, set-append,
}
use native.Mathlib.Nat.{add-zero, add_assoc}
use strimserver.Controller.Types.{stage_name_count, Stage, OpJob, Controller}
use strimserver.Controller.Reconcile.{FireEnv, reconcile_round, reconcile_from, handle_reconcile}
use strimserver.Controller.Reconcile.Slots.{slot, pass_from, after, reconcile_stage-slot}

after-after :
    (c : Controller) (s t : List Stage) (j k : List OpJob) (a b : Bool)
    → after (after c s j a) t k b ≡ after c t (j ++ k) b
unfolding after
after-after c s t j k a b = rw (append_assoc, length-append, ← add_assoc)

-- A round at the first stage behind `seen`.
round-slot :
    (env : FireEnv) (c : Controller) (i : ℕ) (seen rest : List Stage) (stage : Stage)
    → length seen ≡ i
    → c.stages ≡ seen ++ stage ∷ rest
    → reconcile_round env c i ≡ (
        let s = slot env c.inflight_timeout_ms c.pool.shutting_down c.shutting_down i stage in
        after c (seen ++ s.stage ∷ rest) s.jobs s.shut)
unfolding reconcile_round
round-slot env c i seen rest stage at e =
    let here : get_elem? c.stages i ≡ some stage = rw e (get_elem?-append seen rest stage i at) in
    let s = slot env c.inflight_timeout_ms c.pool.shutting_down c.shutting_down i stage in
    let written : set c.stages i s.stage ≡ seen ++ s.stage ∷ rest =
      rw e (set-append seen rest stage s.stage i at) in
    rw (here, reconcile_round)
      (reconcile_stage-slot env c i stage (set_same c.stages i here)
        ∙ ap (λ stages. after c stages s.jobs s.shut) written)

-- Behind `seen`, the rest of the loop is the specification's pass over the rest of the stages.
loop-pass :
    (envs : ℕ → FireEnv) (c : Controller) (i : ℕ) (seen rest : List Stage)
    → length seen ≡ i
    → c.stages ≡ seen ++ rest
    → reconcile_from envs (length rest) i c ≡ (
        let p = pass_from envs c.inflight_timeout_ms c.pool.shutting_down c.shutting_down i rest in
        after c (seen ++ p.stages) p.jobs p.shut)
unfolding reconcile_from pass_from after
loop-pass envs c i seen [] at e =
    rw (append-nil seen, append-nil c.pool.jobs, add-zero)
      (ap (λ stages. record c { stages = stages }) (e ∙ append-nil seen))
loop-pass envs c i seen (stage ∷ rest) at e =
    let s = slot (envs i) c.inflight_timeout_ms c.pool.shutting_down c.shutting_down i stage in
    let c' = after c (seen ++ s.stage ∷ rest) s.jobs s.shut in
    let p = pass_from envs c.inflight_timeout_ms c.pool.shutting_down s.shut (i + 1) rest in
    ap (reconcile_from envs (length rest) (i + 1)) (round-slot (envs i) c i seen rest stage at e)
    ∙ (loop-pass envs c' (i + 1) (seen ++ s.stage ∷ []) rest
          (omega (arith, length-append seen (s.stage ∷ [])))
          (sym (append_assoc seen (s.stage ∷ []) rest))
        ∙ after-after c (seen ++ s.stage ∷ rest) ((seen ++ s.stage ∷ []) ++ p.stages) s.jobs p.jobs
            s.shut p.shut
        ∙ ap (λ stages. after c stages (s.jobs ++ p.jobs) p.shut)
            (append_assoc seen (s.stage ∷ []) p.stages))

-- A reconcile pass refines the specification: if no shutdown has begun, every stage becomes what
-- its own slot says, the jobs of the slots reach the worker pool in the order of the stages, the
-- wait group grows by as many, and nothing else of the controller changes; after a shutdown has
-- begun the pass changes nothing at all. The controller has its four stages.
pub handle_reconcile-pass :
    (envs : ℕ → FireEnv) (c : Controller)
    → length c.stages ≡ stage_name_count
    → handle_reconcile envs c ≡ (
        let p =
          pass_from envs c.inflight_timeout_ms c.pool.shutting_down c.shutting_down 0 c.stages in
        if c.shutting_down then c else after c p.stages p.jobs p.shut)
unfolding handle_reconcile
handle_reconcile-pass envs c four =
    ap (λ looped. if c.shutting_down then c else looped)
      (ap (λ n. reconcile_from envs n 0 c) (sym four) ∙ loop-pass envs c 0 [] c.stages refl refl)
