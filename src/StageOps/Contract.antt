-- ===== src/StageOps/Contract.antt =====
-- What an op promises: a monitor that reads the log of a run, whatever the host answers. It knows
-- nothing of the code of the op.
use strimserver.Prelude.{
  Bool, true, false, not, ◌&&◌, Option, none, some, List, [], ◌∷◌, ◌>>=◌, if◌then◌else◌, ◌==◌, ℤ,
  pos, leb_ℤ, eq_ℤ,
}
use strimserver.StageOps.{
  err_notfound, err_timeout, failure, sigterm, is_ok, Call, load_container, load_task, spawn_waiter,
  join_waiter, task_kill, task_delete, delete_container, cdi_ref_parse, cdi_scan, cdi_resolve,
  cdi_merge_edits, new_container, new_task, task_start,
}
use strimserver.StageOps.Runs.{Event, checked, asked, called}

-- What the calls so far say of the stage's container and task, and of the waiter thread.
pub data Phase : Type 0 where
  unknown present has_task : Phase
  waiting signalled : Phase  -- the waiter runs
  refused : ℤ → Phase  -- the waiter runs, and the signal was refused
  exited : ℤ → Phase  -- the waiter's answer
  taskless absent bare tasked started : Phase
  failed : ℤ → Phase

-- The waiter thread is running.
abbrev pub has_waiter : Phase → Bool
has_waiter waiting = true
has_waiter signalled = true
has_waiter (refused _) = true
has_waiter _ = false

abbrev pub is_absent : Phase → Bool
is_absent absent = true
is_absent _ = false

abbrev pub is_started : Phase → Bool
is_started started = true
is_started _ = false

-- Only the calls that look, and those of the waiter thread, change nothing.
abbrev pub changes : Call → Bool
changes (load_container _) = false
changes load_task = false
changes (spawn_waiter _) = false
changes join_waiter = false
changes _ = true

abbrev pub then_phase : Phase → ℤ → Phase
then_phase p rc = if is_ok rc then p else failed rc

-- The same, where an absent object is an answer.
abbrev pub looked_up : (missing found : Phase) → ℤ → Phase
looked_up missing found rc = if eq_ℤ rc err_notfound then missing else then_phase found rc

abbrev pub allowed : Bool → Phase → Option Phase
allowed true p = some p
allowed false p = none

-- A task is deleted by force exactly when the wait timed out.
abbrev pub may_delete : (force : Bool) → (wait_rc : ℤ) → Bool
may_delete true wait_rc = eq_ℤ wait_rc err_timeout
may_delete false wait_rc = is_ok wait_rc

-- The call is in order in this phase, and leads to the next one. The waiter gets a wait that is no
-- longer than the stop timeout of the stage and than the limit.
abbrev pub moved : (stop_ms limit_ms : ℤ) → Phase → Call → ℤ → Option Phase
moved stop_ms limit_ms unknown (load_container _) rc = some (looked_up absent present rc)
moved stop_ms limit_ms present load_task rc = some (looked_up taskless has_task rc)
moved stop_ms limit_ms has_task (spawn_waiter ms) rc =
    allowed (leb_ℤ ms stop_ms && leb_ℤ ms limit_ms) (if is_ok rc then waiting else failed failure)
moved stop_ms limit_ms waiting (task_kill signum) rc =
    allowed (signum == sigterm) (if is_ok rc then signalled else refused rc)
moved stop_ms limit_ms waiting join_waiter rc = some has_task
moved stop_ms limit_ms (refused kill_rc) join_waiter rc = some (failed kill_rc)
moved stop_ms limit_ms signalled join_waiter rc = some (exited rc)
moved stop_ms limit_ms (exited wait_rc) (task_delete force) rc =
    allowed (may_delete force wait_rc) (then_phase taskless rc)
moved stop_ms limit_ms (exited wait_rc) (delete_container _) rc =
    allowed (eq_ℤ wait_rc err_notfound) (then_phase absent rc)
moved stop_ms limit_ms taskless (delete_container _) rc = some (then_phase absent rc)
moved stop_ms limit_ms absent (cdi_ref_parse _) rc =
    some (if is_ok rc then absent else failed failure)
moved stop_ms limit_ms absent cdi_scan rc = some (if is_ok rc then absent else failed failure)
moved stop_ms limit_ms absent cdi_resolve rc = some (if is_ok rc then absent else failed failure)
moved stop_ms limit_ms absent cdi_merge_edits rc =
    some (if is_ok rc then absent else failed failure)
moved stop_ms limit_ms absent (new_container _ _ _ _) rc = some (then_phase bare rc)
moved stop_ms limit_ms bare (new_task _) rc = some (then_phase tasked rc)
moved stop_ms limit_ms tasked task_start rc = some (then_phase started rc)
moved stop_ms limit_ms _ _ _ = none

-- The shorter of the two times; a remaining time below 0 is none.
abbrev pub told : (remaining_ms limit_ms : ℤ) → ℤ
told remaining_ms limit_ms =
    if leb_ℤ (pos 0) remaining_ms && leb_ℤ remaining_ms limit_ms then remaining_ms else limit_ms

-- `halted`: the last safe point said that a newer op owns the stage. `limit_ms`: the least of the
-- timeout and of the remaining times from 0 on that the op was told.
pub record Watch : Type 0 where
  pub phase : Phase
  pub halted : Bool
  pub limit_ms : ℤ

abbrev pub in_phase : Watch → Phase → Watch
in_phase w p = record w { phase = p }

-- After a safe point that said so, nothing changes any more.
unfoldable pub watch : (stop_ms : ℤ) → Watch → Event → Option Watch
watch stop_ms w (checked b) = some (record w { halted = b })
watch stop_ms w (asked ms) = some (record w { limit_ms = told ms w.limit_ms })
watch stop_ms w (called c rc) =
    if w.halted && changes c
    then none
    else moved stop_ms w.limit_ms w.phase c rc >>= (λ p. some (in_phase w p))

-- An error of a call is the result.
abbrev pub reported : Phase → ℤ → Bool
reported (failed code) rc = eq_ℤ rc code
reported _ rc = true

-- The waiter is joined; a superseded op answers 0, any other answers 0 only at its goal.
unfoldable pub ends_well : (goal : Phase → Bool) → Watch → ℤ → Bool
ends_well goal w rc =
    let unfinished = if is_ok rc then goal w.phase else reported w.phase rc in
    not (has_waiter w.phase) && (if w.halted then is_ok rc else unfinished)

unfoldable pub accepts :
    (goal : Phase → Bool) → (stop_ms : ℤ) → Watch → List Event → (result : ℤ) → Bool
unfolding watch ends_well
accepts goal stop_ms w [] rc = ends_well goal w rc
accepts goal stop_ms w (e ∷ log) rc = elim (watch stop_ms w e) [
  | none ↦ false
  | some w' ↦ accepts goal stop_ms w' log rc
]
