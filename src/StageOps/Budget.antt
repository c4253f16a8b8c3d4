-- ===== src/StageOps/Budget.antt =====
-- The budget of an op against the deadline of its cancellation handle.
use strimserver.Prelude.{arith, ℤ, ◌≤ℤ◌, ◌+ℤ◌}
use strimserver.Controller.Types.{Cancel}
use strimserver.Controller.Queue.{remaining_ms}
use strimserver.StageOps.{op_rpc_budget}

-- Up to its deadline an op gets a budget that is no longer than its timeout and ends by the
-- deadline.
pub op_rpc_budget-within :
    (cancel : Cancel) (now timeout_ms : ℤ)
    → now ≤ℤ cancel.deadline_ms
    → let budget = op_rpc_budget (remaining_ms now cancel) timeout_ms in
      (budget ≤ℤ timeout_ms) × (now +ℤ budget ≤ℤ cancel.deadline_ms)
unfolding op_rpc_budget remaining_ms
op_rpc_budget-within cancel now timeout_ms early = (ground arith, ground arith)
