-- ===== src/Controller/System.antt =====
-- The controller as its threads see it: each step is one section under a lock, or one action of
-- the queue thread, and any thread may make the next step.
pub mod Frame
pub mod Accounting
pub mod Shutdown
pub mod Drain
use strimserver.Prelude.{ℕ, ◌≡◌, Bool, true, some, List, [], ℤ, get_elem?}
use strimserver.Controller.Types.{
  Prerequisites, Action, Worker, in_op, clearing, leaving, Controller,
}
use strimserver.Controller.Reconcile.{FireEnv, begin_shutdown, reconcile_round}
use strimserver.Controller.Queue.{
  is_blocking, queue_submit, request_reconcile, close, ran, run_round, take_job, op_returned,
  push_clear, op_finished,
}

module _ (prereqs : Prerequisites) where
  pub data Step (c : Controller) : Controller → Type 0 where
    -- another thread submits an action and waits, or asks for a pass
    submits :
        (kind : Action) (submitter : ℕ)
        → is_blocking kind ≡ true
        → Step c (queue_submit c kind submitter).0
    requests : (alloc : Bool) → Step c (request_reconcile alloc c)
    -- the queue thread runs one action
    runs : (envs : ℕ → FireEnv) (c' : Controller) → run_round prereqs envs c ≡ ran c' → Step c c'
    -- the queue thread is in the middle of a pass and comes to a stage, whatever the other threads
    -- did since the stage before
    comes_to_stage : (env : FireEnv) (i : ℕ) → Step c (reconcile_round env c i)
    -- the shutdown thread
    begins_shutdown : Step c (begin_shutdown c)
    closes : Step c (close c)
    -- a worker thread takes a job, and goes through run_stage_op
    takes_job : Step c (take_job c)
    op_returns :
        (err : ℤ) (w : ℕ) (worker : Worker)
        → get_elem? c.pool.taken w ≡ some worker
        → worker.phase ≡ in_op
        → Step c (op_returned err c w worker)
    clears :
        (alloc : Bool) (w : ℕ) (worker : Worker)
        → get_elem? c.pool.taken w ≡ some worker
        → worker.phase ≡ clearing
        → Step c (push_clear alloc c w worker)
    op_finishes :
        (w : ℕ) (worker : Worker)
        → get_elem? c.pool.taken w ≡ some worker
        → worker.phase ≡ leaving
        → Step c (op_finished c w)

  pub data Reach (c : Controller) : Controller → Type 0 where
    here : Reach c c
    next : {d e : Controller} → Reach c d → Step d e → Reach c e
