-- ===== src/StageOps/Stopping.antt =====
-- The stop op keeps its contract, from its last call back to its first.
use strimserver.Prelude.{
  ◌≡◌, refl, Bool, true, false, ◌&&◌, some, if◌then◌else◌, if_split, arith, ℤ, pos, leb_ℤ, eq_ℤ,
}
use strimserver.StageOps.{
  task_delete, delete_container, err_notfound, err_timeout, failure, is_ok, StageOps, Op, done,
  call, join_waiter, delete_last, reap, signal_task, grace_period, stop_task, stop_container,
  stop_within, stage_stop_op,
}
use strimserver.StageOps.Contract.{
  Phase, unknown, present, has_task, waiting, signalled, refused, exited, taskless, absent, failed,
  is_absent, Watch, watch, ends_well, then_phase,
}
use strimserver.StageOps.Runs.{called}
use strimserver.StageOps.Watching.{Keeps, EndsWell}
use strimserver.StageOps.Guards.{
  at, if_pair, failed-ends, ok_or_return-Keeps, unless_superseded-Keeps, within_budget-Keeps,
}

grace_period-lem :
    (stop_ms limit : ℤ)
    → leb_ℤ limit (pos 0) ≡ false
    → (leb_ℤ (grace_period stop_ms limit) stop_ms && leb_ℤ (grace_period stop_ms limit) limit)
      ≡ true
unfolding grace_period
grace_period-lem stop_ms limit some_left = ground arith

module _ (stop_ms limit : ℤ) where
  Stopped : Op → Watch → Type 0
  Stopped op m = Keeps stop_ms (EndsWell is_absent) op m

  delete_last-Keeps :
      (p : Phase)
      → ((rc : ℤ)
          → watch stop_ms (at p limit) (called (delete_container true) rc)
            ≡ some (at (then_phase absent rc) limit))
      → Stopped delete_last (at p limit)
  unfolding delete_last Keeps ends_well Stopped
  delete_last-Keeps p moves =
      ok_or_return-Keeps is_absent stop_ms limit (delete_container true) (done (pos 0)) p absent
        moves refl

  reap-Keeps : (wait_rc : ℤ) → Stopped (reap wait_rc) (at (exited wait_rc) limit)
  unfolding reap watch Stopped ends_well Keeps
  reap-Keeps wait_rc =
      let deleted =
        unless_superseded-Keeps is_absent stop_ms limit delete_last taskless refl
          (delete_last-Keeps taskless (λ rc. refl)) in
      if_split (λ op. Stopped op (at (exited wait_rc) limit)) (is_ok wait_rc) _ _
        (λ graceful.
          ok_or_return-Keeps is_absent stop_ms limit (task_delete false) _ (exited wait_rc) taskless
            (λ rc. rw graceful refl) deleted)
        (λ ended.
          if_split (λ op. Stopped op (at (exited wait_rc) limit)) (eq_ℤ wait_rc err_timeout) _ _
            (λ late.
              ok_or_return-Keeps is_absent stop_ms limit (task_delete true) _ (exited wait_rc)
                taskless (λ rc. rw late refl) deleted)
            (λ _.
              if_split (λ op. Stopped op (at (exited wait_rc) limit)) (eq_ℤ wait_rc err_notfound) _
                _
                (λ gone.
                  unless_superseded-Keeps is_absent stop_ms limit delete_last (exited wait_rc) refl
                    (delete_last-Keeps (exited wait_rc) (λ rc. rw gone refl)))
                (λ _. rw ended refl)))

  signal_task-Keeps : Stopped signal_task (at waiting limit)
  unfolding signal_task watch Stopped Keeps
  signal_task-Keeps rc =
      if_pair (λ op p. Stopped op (at p limit)) (is_ok rc) _ _ signalled (refused rc)
        (λ _ wait_rc.
          unless_superseded-Keeps is_absent stop_ms limit (reap wait_rc) (exited wait_rc) refl
            (reap-Keeps wait_rc))
        (λ failing _. failed-ends is_absent stop_ms limit rc failing)

  -- The safe point behind the start of the waiter, which is joined in any case.
  before_signal-Keeps :
      (b : Bool)
      → Stopped
          (if b then call join_waiter (λ _. done (pos 0)) else signal_task)
          (record { phase = waiting; halted = b; limit_ms = limit })
  unfolding Stopped Keeps watch ends_well
  before_signal-Keeps true = λ _. refl
  before_signal-Keeps false = signal_task-Keeps

  stop_task-Keeps :
      (wait_ms : ℤ)
      → (leb_ℤ wait_ms stop_ms && leb_ℤ wait_ms limit) ≡ true
      → Stopped (stop_task wait_ms) (at has_task limit)
  unfolding stop_task watch Stopped Keeps ends_well
  stop_task-Keeps wait_ms short rc = rw short (
      if_pair (λ op p. Stopped op (at p limit)) (is_ok rc) _ _ waiting (failed failure)
        (λ _ b _. before_signal-Keeps b) (λ _. refl))

  stop_container-Keeps :
      (wait_ms : ℤ)
      → (leb_ℤ wait_ms stop_ms && leb_ℤ wait_ms limit) ≡ true
      → Stopped (stop_container wait_ms) (at present limit)
  unfolding stop_container watch Stopped Keeps
  stop_container-Keeps wait_ms short rc =
      if_pair (λ op p. Stopped op (at p limit)) (eq_ℤ rc err_notfound) _ _ taskless _
        (λ _. delete_last-Keeps taskless (λ rc'. refl))
        (λ _.
          if_pair (λ op p. Stopped op (at p limit)) (is_ok rc) _ _ has_task (failed rc)
            (λ _.
              unless_superseded-Keeps is_absent stop_ms limit (stop_task wait_ms) has_task refl
                (stop_task-Keeps wait_ms short))
            (failed-ends is_absent stop_ms limit rc))

  stop_within-Keeps :
      (ops : StageOps)
      → ops.stage_stop_timeout_ms ≡ stop_ms
      → leb_ℤ limit (pos 0) ≡ false
      → Stopped (stop_within ops limit) (at unknown limit)
  unfolding stop_within watch Stopped Keeps ends_well
  stop_within-Keeps ops same left rc =
      if_pair (λ op p. Stopped op (at p limit)) (eq_ℤ rc err_notfound) _ _ absent _ (λ _. refl)
        (λ _.
          if_pair (λ op p. Stopped op (at p limit)) (is_ok rc) _ _ present (failed rc)
            (λ _.
              unless_superseded-Keeps is_absent stop_ms limit _ present refl
                (stop_container-Keeps _ (rw same (grace_period-lem stop_ms limit left))))
            (failed-ends is_absent stop_ms limit rc))

pub stage_stop_op-Keeps :
    (ops : StageOps) (timeout_ms : ℤ)
    → Keeps ops.stage_stop_timeout_ms
        (EndsWell is_absent)
        (stage_stop_op ops timeout_ms)
        (at unknown timeout_ms)
unfolding stage_stop_op Stopped
stage_stop_op-Keeps ops timeout_ms =
    within_budget-Keeps is_absent ops.stage_stop_timeout_ms timeout_ms ops
      (λ budget_ms. stop_within ops budget_ms) refl
      (λ limit. stop_within-Keeps ops.stage_stop_timeout_ms limit ops refl)
