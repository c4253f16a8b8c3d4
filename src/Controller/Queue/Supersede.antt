-- ===== src/Controller/Queue/Supersede.antt =====
-- The cancellation handles: a newer fire supersedes the older one, whose late failure is harmless.
use strimserver.Prelude.{
  ℕ, ◌≡◌, ◌≢◌, sym, ap, ◌∙◌, true, false, not, ◌==◌, some, arith, get_elem?, get_elem?-set_self,
  set, lt_of_get_elem?,
}
use strimserver.Controller.Types.{inc64, Cancel, Stage, Controller}
use strimserver.Controller.Handlers.{set_stage, handle_clear_inflight}
use strimserver.Controller.Reconcile.{FireEnv, fired, op_job, workerpool_submit, fire}
use strimserver.Controller.Queue.{superseded, remaining_ms}

inc64_ne : (g : ℕ) → inc64 g ≢ g
unfolding inc64
inc64_ne g e = omega arith

-- A fire that gets through writes the stage.
fire-stages :
    (env : FireEnv) (c : Controller) (i : ℕ) (stage : Stage) (op : ℕ)
    → env.job_alloc ≡ true
    → env.submit_alloc ≡ true
    → c.shutting_down ≡ false
    → c.pool.shutting_down ≡ false
    → (fire env c i stage op).stages ≡ set c.stages i (fired stage env.fire_now)
unfolding fire workerpool_submit set_stage
fire-stages env c i stage op a b down closed = ground arith

-- The handle at a stage is superseded exactly when the generations differ.
superseded_at :
    (c : Controller) (cancel : Cancel) {stage : Stage}
    → get_elem? c.stages cancel.current_generation ≡ some stage
    → superseded c.stages cancel ≡ not (stage.op_generation == cancel.generation)
unfolding superseded
superseded_at c cancel at = rw (at, superseded)

-- The clear of another generation does nothing.
stale_clear :
    (c : Controller) (i generation : ℕ) {stage : Stage}
    → get_elem? c.stages i ≡ some stage
    → stage.op_generation ≢ generation
    → handle_clear_inflight c i generation ≡ c
unfolding handle_clear_inflight
stale_clear c i generation at other = rw (at, handle_clear_inflight) (ground arith)

-- A fire that gets through supersedes the handle that was live for its stage; its own handle is
-- live and has the whole timeout left; and the clear that a failure of the older op may still send
-- leaves the controller exactly as the fire left it, so the new marker survives.
pub fire-supersedes :
    (env : FireEnv) (c : Controller) (i : ℕ) (stage : Stage) (op : ℕ) (old : Cancel)
    → env.job_alloc ≡ true
    → env.submit_alloc ≡ true
    → c.shutting_down ≡ false
    → c.pool.shutting_down ≡ false
    → get_elem? c.stages i ≡ some stage
    → old.current_generation ≡ i
    → superseded c.stages old ≡ false
    → let c' = fire env c i stage op in
      let fresh = (op_job i stage op env.fire_now c.inflight_timeout_ms).cancel in
      (superseded c'.stages old ≡ true)
      × (superseded c'.stages fresh ≡ false)
      × (remaining_ms env.fire_now fresh ≡ c.inflight_timeout_ms)
      × (handle_clear_inflight c' i old.generation ≡ c')
unfolding op_job remaining_ms
fire-supersedes env c i stage op old a b down closed at points live =
    let c' = fire env c i stage op in
    let run = fired stage env.fire_now in
    let there : get_elem? c'.stages i ≡ some run =
      ap (λ stages. get_elem? stages i) (fire-stages env c i stage op a b down closed)
      ∙ get_elem?-set_self c.stages i run (lt_of_get_elem? c.stages i at) in
    let old_at : get_elem? c.stages old.current_generation ≡ some stage = rw points at in
    let old_there : get_elem? c'.stages old.current_generation ≡ some run = rw points there in
    let was : stage.op_generation ≡ old.generation = ground (arith, superseded_at c old old_at) in
    let now_ne : run.op_generation ≢ old.generation =
      unfold fired in (λ e. inc64_ne stage.op_generation (e ∙ sym was)) in
    let fresh = (op_job i stage op env.fire_now c.inflight_timeout_ms).cancel in
    (
      superseded_at c' old old_there ∙ ground arith,
      superseded_at c' fresh there ∙ unfold fired in ground arith,
      ground arith,
      stale_clear c' i old.generation there now_ne,
    )
