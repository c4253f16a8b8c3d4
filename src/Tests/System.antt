-- ===== src/Tests/System.antt =====
-- The theorems on interleavings at work on short runs of the fixture's controller.
use strimserver.Prelude.{suc, ◌≡◌, refl, true, false, some, [], ◌∷◌, ◌++◌, length, pos, negsuc}
use strimserver.Controller.Types.{Prerequisites, status, reconcile, Controller, Queued}
use strimserver.Controller.Reconcile.{FireEnv, begin_shutdown}
use strimserver.Controller.Queue.{
  queue_submit, enqueue_locked, close, request_reconcile, run_round, run_action, dequeued,
}
use strimserver.Controller.System.{Reach, here, next, requests, runs, begins_shutdown}
use strimserver.Controller.System.Accounting.{IsSound, Reach-IsSound}
use strimserver.Controller.System.Shutdown.{Reach-quiet}
use strimserver.Controller.System.Drain.{run, submitters, waiting, run-closed}
use strimserver.Controller.WellFormed.{IsWellFormed}
use strimserver.Controller.WellFormed.Steps.{Reach-IsWellFormed}
use strimserver.Controller.WellFormed.Construction.{IsConstructed, new-IsConstructed}
use strimserver.Tests.Fixture.{fresh, plenty, main_config, new-fresh}

abbrev prereqs : Prerequisites
prereqs = λ fn status userdata. negsuc 0

abbrev env : FireEnv
env = record {
  check_now = pos 1000;
  fire_now = pos 1000;
  shutdown_races = false;
  job_alloc = true;
  submit_alloc = true;
}

fresh-IsConstructed : IsConstructed fresh
fresh-IsConstructed = (new-IsConstructed plenty main_config refl refl new-fresh).1

-- A pass is asked for twice; one is queued.
abbrev asked : Controller
asked = request_reconcile true (request_reconcile true fresh)

asked_once : length asked.queue ≡ 1
unfolding request_reconcile enqueue_locked
asked_once = refl

fresh⟶asked : Reach prereqs fresh asked
fresh⟶asked = next (next here (requests true)) (requests true)

Reach-IsSound_example : IsSound asked
Reach-IsSound_example = Reach-IsSound prereqs fresh⟶asked fresh-IsConstructed.sound

Reach-IsWellFormed_example : IsWellFormed asked
Reach-IsWellFormed_example = Reach-IsWellFormed prereqs fresh⟶asked fresh-IsConstructed.well_formed

-- Shutdown begins, and then a pass is asked for and run.
abbrev down : Controller
down = begin_shutdown fresh

abbrev pass : Queued
pass = record { kind = reconcile; self_allocated = true; submitter = 0 }

abbrev asked_late : Controller
asked_late = request_reconcile true down

abbrev ran_late : Controller
ran_late = run_action prereqs (λ _. env) (dequeued asked_late pass []) pass

down⟶ran_late : Reach prereqs down ran_late
unfolding request_reconcile enqueue_locked run_round begin_shutdown
down⟶ran_late = next (next here (requests true)) (runs (λ _. env) ran_late refl)

down-IsSound : IsSound down
down-IsSound = Reach-IsSound prereqs (next here begins_shutdown) fresh-IsConstructed.sound

Reach-quiet_example :
    (ran_late.shutting_down ≡ true)
    × (ran_late.ops_wg ≡ 0)
    × (ran_late.pool.jobs ≡ [])
    × (ran_late.pool.taken ≡ [])
unfolding begin_shutdown
Reach-quiet_example = Reach-quiet prereqs down-IsSound refl refl down⟶ran_late

-- A status query waits in the queue when the controller is closed.
abbrev closed_busy : Controller
closed_busy = close (queue_submit fresh status 5).0

run-closed_example :
    (d : Controller) × (run prereqs (λ _ _. env) (suc (length closed_busy.queue)) closed_busy
      ≡ some d)
    × (d.queue ≡ [])
    × (submitters d.replies ≡ submitters closed_busy.replies ++ waiting closed_busy.queue)
unfolding close
run-closed_example = run-closed prereqs (λ _ _. env) closed_busy refl

answers_status : waiting closed_busy.queue ≡ 5 ∷ []
unfolding close queue_submit enqueue_locked
answers_status = refl
