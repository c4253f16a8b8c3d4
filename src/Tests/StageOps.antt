-- ===== src/Tests/StageOps.antt =====
-- The stage operations against a small containerd.
use strimserver.Prelude.{◌≡◌, refl, true, false, none, List, [], ◌∷◌, arith, ℤ, pos, ◌≤ℤ◌, ◌+ℤ◌}
use strimserver.Controller.Types.{Cancel}
use strimserver.Controller.Queue.{remaining_ms}
use strimserver.Spec.{default_layout}
use strimserver.Spec.Argv.{stage_argv, stage_str}
use strimserver.Spec.Mounts.{ffmpeg_mounts}
use strimserver.StageOps.{
  failure, StageOps, op_rpc_budget, stage_stop_op, stage_start_op, within_budget, unless_superseded,
  unless_spent, stop_within, stop_container, stop_task, signal_task, reap, ok_or_return,
  delete_last, grace_period, bind, start_after, create_stage, create_ffmpeg, prepare_ffmpeg_cdi,
  cdi_step, create,
}
use strimserver.StageOps.Runs.{Host, run}
use strimserver.StageOps.Progress.{View, has_task, outcomes, disturbed}
use strimserver.StageOps.Budget.{op_rpc_budget-within}

abbrev pick : View → List (View × ℤ) → View × ℤ
pick v [] = (v, failure)
pick v (o ∷ rest) = o

abbrev small_host : Host View
small_host = record {
  answer = λ c v. pick v (outcomes v c);
  superseded_in = λ _. false;
  remaining_in = λ _. pos 5000;
}

abbrev normalize_ops : StageOps
normalize_ops = record {
  client = true;
  container_id = "normalize";
  snapshot_id = "normalize-snap";
  image_name = "ffmpeg";
  logfile = "/tmp/normalize.log";
  ffmpeg = true;
  layout = default_layout none;
  stage_table = [];
  stage_stop_timeout_ms = pos 10000;
}

-- Nothing disturbs these.
runs_undisturbed :
    (disturbed (run small_host (stage_stop_op normalize_ops (pos 30000)) has_task).log ≡ false)
    × (disturbed (run small_host (stage_start_op normalize_ops (pos 30000)) has_task).log ≡ false)
unfolding run stage_stop_op stage_start_op within_budget unless_superseded unless_spent
    op_rpc_budget stop_within stop_container stop_task signal_task reap ok_or_return delete_last
    grace_period bind start_after create_stage create_ffmpeg prepare_ffmpeg_cdi cdi_step create
    stage_argv stage_str ffmpeg_mounts default_layout
runs_undisturbed = (refl, refl)

abbrev handle : Cancel
handle = record { generation = 1; deadline_ms = pos 1000; current_generation = 1 }

op_rpc_budget-within_example :
    let budget = op_rpc_budget (remaining_ms (pos 400) handle) (pos 5000) in
    (budget ≤ℤ pos 5000) × (pos 400 +ℤ budget ≤ℤ pos 1000)
op_rpc_budget-within_example = op_rpc_budget-within handle (pos 400) (pos 5000) (omega arith)
