-- ===== src/StageOps/Progress.antt =====
-- What the ops achieve against a containerd whose calls do what they are for or fail.
use strimserver.Prelude.{
  ◌≡◌, refl, Bool, Bool-cases, true, false, not, ◌||◌, arith, List, [], ◌∷◌, ℤ, All, pos, eq_ℤ, inl,
  inr, subst, sym, ◌⊎◌,
}
use strimserver.StageOps.{
  err_notfound, err_timeout, Call, load_container, load_task, spawn_waiter, join_waiter, task_kill,
  task_delete, delete_container, cdi_ref_parse, cdi_scan, cdi_resolve, cdi_merge_edits,
  new_container, new_task, task_start, Op, done, safe_point, remaining, call, bind,
}
use strimserver.StageOps.Runs.{Host, Event, checked, asked, called, Run, logged, run}

-- What there is of the stage in containerd. A task that exists may have exited.
pub data View : Type 0 where
  no_container no_task has_task exited running : View

-- The outcomes of a call that does not fail, a new view and a result code each, as containerd_client.h
-- documents them. The empty list promises nothing.
abbrev pub outcomes : View → Call → List (View × ℤ)
outcomes no_container (load_container _) = (no_container, err_notfound) ∷ []
outcomes no_container (cdi_ref_parse _) = (no_container, pos 0) ∷ []
outcomes no_container cdi_scan = (no_container, pos 0) ∷ []
outcomes no_container cdi_resolve = (no_container, pos 0) ∷ []
outcomes no_container cdi_merge_edits = (no_container, pos 0) ∷ []
outcomes no_container (new_container _ _ _ _) = (no_task, pos 0) ∷ []
outcomes no_task load_task = (no_task, err_notfound) ∷ []
outcomes no_task (delete_container _) = (no_container, pos 0) ∷ []
outcomes no_task (new_task _) = (has_task, pos 0) ∷ []
outcomes has_task task_start = (running, pos 0) ∷ []
outcomes has_task (task_delete true) = (no_task, pos 0) ∷ []
outcomes exited (task_delete _) = (no_task, pos 0) ∷ []
outcomes no_container _ = []
outcomes v (load_container _) = (v, pos 0) ∷ []
outcomes no_task _ = []
outcomes v load_task = (v, pos 0) ∷ []
outcomes v (spawn_waiter _) = (v, pos 0) ∷ []
outcomes v (task_kill _) = (v, pos 0) ∷ []
outcomes v join_waiter = (exited, pos 0) ∷ (has_task, err_timeout) ∷ (no_task, err_notfound) ∷ []
outcomes _ _ = []

abbrev IsOneOf : List (View × ℤ) → View → ℤ → Type 0
IsOneOf [] v rc = ⊥
IsOneOf (o ∷ rest) v rc = ((v ≡ o.0) × (rc ≡ o.1)) ⊎ IsOneOf rest v rc

-- An answer that is no failure of the call: 0, an absent object where one is looked up or waited for,
-- or a wait that timed out.
abbrev pub is_expected : Call → ℤ → Bool
is_expected (load_container _) rc = eq_ℤ rc (pos 0) || eq_ℤ rc err_notfound
is_expected load_task rc = eq_ℤ rc (pos 0) || eq_ℤ rc err_notfound
is_expected join_waiter rc = eq_ℤ rc (pos 0) || eq_ℤ rc err_notfound || eq_ℤ rc err_timeout
is_expected _ rc = eq_ℤ rc (pos 0)

-- What may keep an op from its goal: it is superseded, its time is used up to the millisecond, or a
-- call fails.
abbrev pub disturbs : Event → Bool
disturbs (checked superseded) = superseded
disturbs (asked ms) = eq_ℤ ms (pos 0)
disturbs (called c rc) = not (is_expected c rc)

abbrev pub disturbed : List Event → Bool
disturbed [] = false
disturbed (e ∷ log) = disturbs e || disturbed log

-- A call has one of its outcomes, or fails with any code and any effect.
pub record IsDocumented {W : Type 0} (host : Host W) (view : W → View) : Type 0 where
  pub answers :
      (c : Call) (w : W) (o : View × ℤ) (rest : List (View × ℤ))
      → outcomes (view w) c ≡ o ∷ rest
      → IsOneOf (o ∷ rest) (view (host.answer c w).0) (host.answer c w).1
        ⊎ (is_expected c (host.answer c w).1 ≡ false)

abbrev Each : (View → ℤ → Type 0) → List (View × ℤ) → Type 0
Each P [] = ⊥
Each P (o ∷ rest) = All (λ x. P x.0 x.1) (o ∷ rest)

-- Every way through the op on which nothing disturbs it ends in Q.
unfoldable pub Reaches : (View → ℤ → Type 0) → Op → View → Type 0
Reaches Q (done rc) v = Q v rc
Reaches Q (safe_point next) v = Reaches Q (next false) v
Reaches Q (remaining next) v = (ms : ℤ) → eq_ℤ ms (pos 0) ≡ false → Reaches Q (next ms) v
Reaches Q (call c next) v = Each (λ v' rc. Reaches Q (next rc) v') (outcomes v c)

module _ {W : Type 0} (host : Host W) (view : W → View) (documented : IsDocumented host view)
    (Q : View → ℤ → Type 0) where
  -- The promised outcomes cover what the host did.
  one_of :
      (P : View → ℤ → Type 0) (outs : List (View × ℤ)) (v : View) (rc : ℤ)
      → All (λ x. P x.0 x.1) outs
      → IsOneOf outs v rc
      → P v rc
  one_of P [] v rc every none_such = elim none_such [ ]
  one_of P (o ∷ outs) v rc every (inl (sv, src)) =
      subst (λ u. P u rc) (sym sv) (subst (λ r. P o.0 r) (sym src) every.0)
  one_of P (o ∷ outs) v rc every (inr later) = one_of P outs v rc every.1 later

  covered_or_failed :
      (P : View → ℤ → Type 0) (c : Call) (w : W) (outs : List (View × ℤ))
      → outcomes (view w) c ≡ outs
      → Each P outs
      → P (view (host.answer c w).0) (host.answer c w).1
        ⊎ (is_expected c (host.answer c w).1 ≡ false)
  covered_or_failed P c w [] same each = absurd each
  covered_or_failed P c w (o ∷ outs) same each = elim (documented.answers c w o outs same) [
    | inl outcome ↦ inl (one_of P (o ∷ outs) _ _ each outcome)
    | inr failed ↦ inr failed
  ]

  -- Disturbed, or in Q.
  abbrev pub Finishes : Run W → Type 0
  Finishes r = (disturbed r.log ≡ true) ⊎ Q (view r.world) r.result

  undisturbed_event : (e : Event) (r : Run W) → Finishes r → Finishes (logged e r)
  undisturbed_event e r (inl happened) = inl (rw happened ground arith)
  undisturbed_event e r (inr reached) = inr reached

  disturbing_event : (e : Event) (r : Run W) → disturbs e ≡ true → Finishes (logged e r)
  disturbing_event e r happened = inl (rw happened refl)

  pub Reaches-run : (op : Op) (w : W) → Reaches Q op (view w) → Finishes (run host op w)
  unfolding Reaches run
  Reaches-run (done rc) w reaches = inr reaches
  Reaches-run (safe_point next) w reaches =
      let b = host.superseded_in w in
      elim (Bool-cases b) [
        | inl superseded ↦ disturbing_event (checked b) (run host (next b) w) superseded
        | inr current ↦ undisturbed_event (checked b) (run host (next b) w) (
            Reaches-run (next b) w (subst (λ b. Reaches Q (next b) (view w)) (sym current) reaches))
      ]
  Reaches-run (remaining next) w reaches =
      let ms = host.remaining_in w in
      elim (Bool-cases (eq_ℤ ms (pos 0))) [
        | inl spent ↦ disturbing_event (asked ms) (run host (next ms) w) spent
        | inr timely ↦
            undisturbed_event (asked ms) (run host (next ms) w)
              (Reaches-run (next ms) w (reaches ms timely))
      ]
  Reaches-run (call c next) w reaches =
      let w' = (host.answer c w).0 in
      let rc = (host.answer c w).1 in
      elim (covered_or_failed (λ v rc. Reaches Q (next rc) v) c w (outcomes (view w) c) refl
        reaches) [
          | inl reached ↦
              undisturbed_event (called c rc) (run host (next rc) w')
                (Reaches-run (next rc) w' reached)
          | inr failed ↦ disturbing_event (called c rc) (run host (next rc) w') (rw failed refl)
        ]

module _ (Q R : View → ℤ → Type 0) (k : ℤ → Op) where
  Each-map :
      {P S : View → ℤ → Type 0} (outs : List (View × ℤ))
      → Each P outs
      → ((v : View) (rc : ℤ) → P v rc → S v rc)
      → Each S outs
  Each-map [] each f = each
  Each-map (o ∷ []) each f = (f o.0 o.1 each.0, tt)
  Each-map (o ∷ o' ∷ outs) each f = (f o.0 o.1 each.0, Each-map (o' ∷ outs) each.1 f)

  pub Reaches-bind :
      (op : Op) (v : View)
      → Reaches Q op v
      → ((v' : View) (rc : ℤ) → Q v' rc → Reaches R (k rc) v')
      → Reaches R (bind op k) v
  unfolding Reaches bind
  Reaches-bind (done rc) v reaches after = after v rc reaches
  Reaches-bind (safe_point next) v reaches after = Reaches-bind (next false) v reaches after
  Reaches-bind (remaining next) v reaches after =
      λ ms other. Reaches-bind (next ms) v (reaches ms other) after
  Reaches-bind (call c next) v reaches after =
      Each-map (outcomes v c) reaches (λ v' rc reached. Reaches-bind (next rc) v' reached after)
