-- ===== src/StageOps/Guards.antt =====
-- The guards and the checked calls of both ops, under the monitor.
use strimserver.Prelude.{
  ◌≡◌, refl, Bool, true, false, some, if◌then◌else◌, if_split, arith, subst, ℤ, pos, leb_ℤ, eq_ℤ,
}
use strimserver.StageOps.{
  is_ok, failure, StageOps, Call, Op, done, op_rpc_budget, unless_superseded, ok_or_return,
  unless_spent, within_budget,
}
use strimserver.StageOps.Contract.{
  Phase, unknown, failed, told, has_waiter, Watch, watch, ends_well, then_phase,
}
use strimserver.StageOps.Runs.{called}
use strimserver.StageOps.Watching.{Keeps, EndsWell}

abbrev pub at : Phase → ℤ → Watch
at p limit_ms = record { phase = p; halted = false; limit_ms = limit_ms }

abbrev pub halted_at : Phase → ℤ → Watch
halted_at p limit_ms = record { phase = p; halted = true; limit_ms = limit_ms }

eq_ℤ_refl : (a : ℤ) → eq_ℤ a a ≡ true
eq_ℤ_refl a = ground arith

-- Two conditionals of one test.
pub if_pair :
    {A B : Type 0} (P : A → B → Type 0) (b : Bool) (x y : A) (u v : B)
    → (b ≡ true → P x u)
    → (b ≡ false → P y v)
    → P (if b then x else y) (if b then u else v)
if_pair P true x y u v px py = px refl
if_pair P false x y u v px py = py refl

module _ (goal : Phase → Bool) (stop_ms limit : ℤ) where
  pub failed-ends : (rc : ℤ) → is_ok rc ≡ false → EndsWell goal (at (failed rc) limit) rc
  unfolding ends_well
  failed-ends rc e = rw e (eq_ℤ_refl rc)

  pub done-Keeps :
      (rc : ℤ) (m : Watch) → EndsWell goal m rc → Keeps stop_ms (EndsWell goal) (done rc) m
  unfolding Keeps
  done-Keeps rc m ends = ends

  -- A call in order, whose error is the result.
  pub ok_or_return-Keeps :
      (c : Call) (next : Op) (p p' : Phase)
      → ((rc : ℤ) → watch stop_ms (at p limit) (called c rc) ≡ some (at (then_phase p' rc) limit))
      → Keeps stop_ms (EndsWell goal) next (at p' limit)
      → Keeps stop_ms (EndsWell goal) (ok_or_return c next) (at p limit)
  unfolding Keeps ok_or_return
  ok_or_return-Keeps c next p p' moves keeps = λ rc. rw (moves rc) (
      if_pair (λ op q. Keeps stop_ms (EndsWell goal) op (at q limit)) (is_ok rc) next (done rc) p'
        (failed rc) (λ _. keeps) (failed-ends rc))

  -- Superseded, the op ends with 0.
  pub unless_superseded-Keeps :
      (next : Op) (p : Phase)
      → has_waiter p ≡ false
      → Keeps stop_ms (EndsWell goal) next (at p limit)
      → Keeps stop_ms (EndsWell goal) (unless_superseded next) (at p limit)
  unfolding Keeps unless_superseded ends_well
  unless_superseded-Keeps next p free keeps true _ = rw free refl
  unless_superseded-Keeps next p free keeps false _ = keeps

-- The budget is what the op was told to keep to.
op_rpc_budget-told : (ms timeout_ms : ℤ) → op_rpc_budget ms timeout_ms ≡ told ms timeout_ms
unfolding op_rpc_budget
op_rpc_budget-told ms timeout_ms = ground arith

-- The guards of an op: the body runs under the limit that the monitor knows.
pub within_budget-Keeps :
    (goal : Phase → Bool) (stop_ms timeout_ms : ℤ) (ops : StageOps) (body : ℤ → Op)
    → goal unknown ≡ false
    → ((limit : ℤ)
        → leb_ℤ limit (pos 0) ≡ false
        → Keeps stop_ms (EndsWell goal) (body limit) (at unknown limit))
    → Keeps stop_ms (EndsWell goal) (within_budget ops timeout_ms body) (at unknown timeout_ms)
unfolding within_budget Keeps ends_well unless_spent
within_budget-Keeps goal stop_ms timeout_ms ops body far keeps =
    if_split (λ op. Keeps stop_ms (EndsWell goal) op (at unknown timeout_ms)) ops.client _ _
      (λ _. unless_superseded-Keeps goal stop_ms timeout_ms _ unknown refl (λ ms.
        let limit = op_rpc_budget ms timeout_ms in
        let guarded : Op = if leb_ℤ limit (pos 0) then done failure else body limit in
        subst (λ l. Keeps stop_ms (EndsWell goal) guarded (at unknown l))
          (op_rpc_budget-told ms timeout_ms)
          (if_split (λ op. Keeps stop_ms (EndsWell goal) op (at unknown limit))
            (leb_ℤ limit (pos 0)) _ _ (λ _. refl) (keeps limit))))
      (λ _. refl)
