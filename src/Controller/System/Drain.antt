-- ===== src/Controller/System/Drain.antt =====
-- The queue thread after close: it runs what is queued, answers every waiting submitter, returns.
use strimserver.Prelude.{
  ℕ, zero, suc, ◌+◌, ◌≡◌, refl, sym, ap, ◌∙◌, Bool, true, false, some, none, Option, List, [], ◌∷◌,
  ◌++◌, append_assoc, append-nil, arith, length, get_elem?, if◌then◌else◌, if_both, Option-cases,
  inl, inr,
}
use strimserver.Controller.Types.{
  stage_name_count, Prerequisites, Action, path_event, control, stage_event, status, add_listener,
  remove_listener, reconcile, clear_inflight, teardown, Stage, Queued, Reply, Controller,
}
use strimserver.Controller.Handlers.{set_stage}
use strimserver.Controller.Reconcile.{
  FireEnv, fire, lock_for_fire, workerpool_submit, reconcile_stage, reconcile_round, reconcile_from,
  handle_reconcile,
}
use strimserver.Controller.Queue.{
  dispatch, run_action, dequeued, run_round, run_round_on, waits, returns, ran,
}
use strimserver.Controller.System.Frame.{
  Frame, handle_path_event-Frame, handle_control-Frame, handle_stage_event-Frame,
  handle_add_listener-Frame, handle_remove_listener-Frame, handle_clear_inflight-Frame,
  teardown_inner-Frame,
}

module _ (prereqs : Prerequisites) (envs : ℕ → ℕ → FireEnv) where
  -- strim_controller_run with no other thread at work: `some` is a return. Round k of the loop
  -- from the end sees the environment `envs k`.
  unfoldable pub run : ℕ → Controller → Option Controller
  run zero c = none
  run (suc fuel) c = elim (run_round prereqs (envs fuel) c) [
    | waits ↦ none
    | returns ↦ some c
    | ran c' ↦ run fuel c'
  ]

abbrev pub submitters : List Reply → List ℕ
submitters [] = []
submitters (reply ∷ rest) = reply.submitter ∷ submitters rest

-- The submitters that wait for an action of the queue.
abbrev pub waiting : List Queued → List ℕ
waiting [] = []
waiting (act ∷ rest) =
    let later = waiting rest in if act.self_allocated then later else act.submitter ∷ later

waiting_cons :
    (b : Bool) (s : ℕ) (later : List ℕ)
    → (if b then [] else s ∷ []) ++ later ≡ (if b then later else s ∷ later)
waiting_cons true s later = refl
waiting_cons false s later = refl

submitters-append : (xs ys : List Reply) → submitters (xs ++ ys) ≡ submitters xs ++ submitters ys
submitters-append [] ys = refl
submitters-append (x ∷ xs) ys = ap (λ l. x.submitter ∷ l) (submitters-append xs ys)

-- What no handler touches.
record Kept (c c' : Controller) : Type 0 where
  queue : c'.queue ≡ c.queue
  q_closed : c'.q_closed ≡ c.q_closed
  replies : c'.replies ≡ c.replies

Frame-Kept : {c c' : Controller} → Frame c c' → Kept c c'
Frame-Kept frame = ground arith

reconcile_stage-Kept :
    (env : FireEnv) (b c : Controller) (i : ℕ) (stage : Stage)
    → Kept b c
    → Kept b (reconcile_stage env c i stage)
unfolding reconcile_stage fire lock_for_fire workerpool_submit set_stage
reconcile_stage-Kept env b c i stage kept = ground arith

reconcile_from-Kept :
    (env : ℕ → FireEnv) (b : Controller) (n i : ℕ) (c : Controller)
    → Kept b c
    → Kept b (reconcile_from env n i c)
unfolding reconcile_from reconcile_round
reconcile_from-Kept env b zero i c kept = kept
reconcile_from-Kept env b (suc n) i c kept =
    reconcile_from-Kept env b n (i + 1) (reconcile_round (env i) c i)
      (elim (Option-cases (get_elem? c.stages i)) [
        | inl out ↦ rw (out, reconcile_round) kept
        | inr (stage, at) ↦ rw (at, reconcile_round) (reconcile_stage-Kept (env i) b c i stage kept)
      ])

module _ (prereqs : Prerequisites) (env : ℕ → FireEnv) (c : Controller) where
  dispatch-Kept : (kind : Action) → Kept c (dispatch prereqs env c kind).0
  unfolding dispatch handle_reconcile
  dispatch-Kept (path_event e) = Frame-Kept (handle_path_event-Frame prereqs c e)
  dispatch-Kept (control cmd) = Frame-Kept (handle_control-Frame prereqs c cmd)
  dispatch-Kept (stage_event e) = Frame-Kept (handle_stage_event-Frame c e)
  dispatch-Kept status = ground arith
  dispatch-Kept (add_listener l) = Frame-Kept (handle_add_listener-Frame c l)
  dispatch-Kept (remove_listener l) = Frame-Kept (handle_remove_listener-Frame c l)
  dispatch-Kept reconcile =
      let same : Kept c c = ground arith in
      if_both (Kept c) c.shutting_down c (reconcile_from env stage_name_count 0 c) same
        (reconcile_from-Kept env c stage_name_count 0 c same)
  dispatch-Kept (clear_inflight stage generation) =
      Frame-Kept (handle_clear_inflight-Frame c stage generation)
  dispatch-Kept teardown = Frame-Kept (teardown_inner-Frame c)

  -- One action answers its submitter, if one waits.
  run_action-answers :
      (act : Queued)
      → let d = run_action prereqs env c act in
        (d.queue ≡ c.queue)
        × (d.q_closed ≡ c.q_closed)
        × (submitters d.replies
            ≡ submitters c.replies ++ (if act.self_allocated then [] else act.submitter ∷ []))
  unfolding run_action
  run_action-answers act =
      let (c', rc, out) = dispatch prereqs env c act.kind in
      ground (
        arith,
        dispatch-Kept act.kind,
        append-nil (submitters c.replies),
        submitters-append c.replies
            ((record { submitter = act.submitter; reply_result = rc; status_out = out }) ∷ []),
      )

module _ (prereqs : Prerequisites) (env : ℕ → FireEnv) (c : Controller) where
  -- So for the head of the queue.
  round-answers :
      (act : Queued) (rest : List Queued)
      → let d = run_action prereqs env (dequeued c act rest) act in
        (d.queue ≡ rest)
        × (d.q_closed ≡ c.q_closed)
        × (submitters d.replies ++ waiting rest ≡ submitters c.replies ++ waiting (act ∷ rest))
  unfolding dequeued
  round-answers act rest =
      let d = dequeued c act rest in
      let (queue, q_closed, answers) = run_action-answers prereqs env d act in
      (
        queue,
        q_closed,
        ap (λ l. l ++ waiting rest) answers
            ∙ append_assoc (submitters c.replies)
                (if act.self_allocated then [] else act.submitter ∷ []) (waiting rest)
            ∙ ap (λ l. submitters c.replies ++ l)
                (waiting_cons act.self_allocated act.submitter (waiting rest)),
      )

module _ (prereqs : Prerequisites) (envs : ℕ → ℕ → FireEnv) where
  run-returns :
      (fuel : ℕ) (c : Controller)
      → c.queue ≡ []
      → c.q_closed ≡ true
      → run prereqs envs (suc fuel) c ≡ some c
  unfolding run run_round run_round_on
  run-returns fuel c e shut =
      let round : run_round prereqs (envs fuel) c ≡ returns =
        ap (run_round_on prereqs (envs fuel) c) e ∙ rw shut in
      rw (round, run)

  run-ran :
      (fuel : ℕ) (c : Controller) (act : Queued) (rest : List Queued)
      → c.queue ≡ act ∷ rest
      → run prereqs envs (suc fuel) c
        ≡ run prereqs envs fuel (run_action prereqs (envs fuel) (dequeued c act rest) act)
  unfolding run run_round run_round_on
  run-ran fuel c act rest e =
      let round : run_round prereqs (envs fuel) c
          ≡ ran (run_action prereqs (envs fuel) (dequeued c act rest) act) =
        ap (run_round_on prereqs (envs fuel) c) e in
      rw (round, run)

  drain_from :
      (queue : List Queued) (c : Controller)
      → c.queue ≡ queue
      → c.q_closed ≡ true
      → (d : Controller) × (run prereqs envs (suc (length queue)) c ≡ some d)
        × (d.queue ≡ [])
        × (submitters d.replies ≡ submitters c.replies ++ waiting queue)
  drain_from [] c e shut =
      (c, run-returns zero c e shut, e, sym (append-nil (submitters c.replies)))
  drain_from (act ∷ rest) c e shut =
      let env = envs (suc (length rest)) in
      let c' = run_action prereqs env (dequeued c act rest) act in
      let (queue, q_closed, answers) = round-answers prereqs env c act rest in
      let (d, returned, empty, replies) = drain_from rest c' queue (q_closed ∙ shut) in
      (d, run-ran (suc (length rest)) c act rest e ∙ returned, empty, replies ∙ answers)

  -- After close the queue thread comes to an end: as many rounds as actions are queued, and one
  -- more to see the empty queue, suffice for strim_controller_run to return; then the queue is
  -- empty, and every submitter that waited has exactly one new reply, in the order of the queue.
  pub run-closed :
      (c : Controller)
      → c.q_closed ≡ true
      → (d : Controller) × (run prereqs envs (suc (length c.queue)) c ≡ some d)
        × (d.queue ≡ [])
        × (submitters d.replies ≡ submitters c.replies ++ waiting c.queue)
  run-closed c shut = drain_from c.queue c refl shut
