-- ===== src/StageOps/Watching.antt =====
-- To show that an op keeps its contract: a predicate of the tree of the op, which passes to every
-- run of it.
use strimserver.Prelude.{
  ◌≡◌, refl, subst, Bool, true, false, ◌&&◌, Option, none, some, Option-cases, inl, inr, ◌>>=◌,
  if◌then◌else◌, ℤ,
}
use strimserver.StageOps.{Call, Op, done, safe_point, remaining, call, bind}
use strimserver.StageOps.Runs.{Host, called, run}
use strimserver.StageOps.Contract.{
  Phase, told, changes, moved, Watch, in_phase, watch, ends_well, accepts,
}

abbrev pub Must : {A : Type 0} → (A → Type 0) → Option A → Type 0
Must P none = ⊥
Must P (some x) = P x

Must-map :
    {A : Type 0} {P Q : A → Type 0} (o : Option A) → Must P o → ((x : A) → P x → Q x) → Must Q o
Must-map none p f = p
Must-map (some x) p f = f x p

-- What is halted is superseded.
abbrev pub IsHaltedOnly : (halted superseded : Bool) → Type 0
IsHaltedOnly true superseded = superseded ≡ true
IsHaltedOnly false superseded = Unit

-- Every way through the op keeps the monitor going and ends in Q.
unfoldable pub Keeps : (stop_ms : ℤ) → (Watch → ℤ → Type 0) → Op → Watch → Type 0
Keeps stop_ms Q (done rc) m = Q m rc
Keeps stop_ms Q (safe_point next) m =
    (b : Bool) → IsHaltedOnly m.halted b → Keeps stop_ms Q (next b) (record m { halted = b })
Keeps stop_ms Q (remaining next) m =
    (ms : ℤ) → Keeps stop_ms Q (next ms) (record m { limit_ms = told ms m.limit_ms })
Keeps stop_ms Q (call c next) m =
    (rc : ℤ) → Must (λ m'. Keeps stop_ms Q (next rc) m') (watch stop_ms m (called c rc))

abbrev pub EndsWell : (Phase → Bool) → Watch → ℤ → Type 0
EndsWell goal m rc = ends_well goal m rc ≡ true

-- Superseding is for good: no call takes it back.
unfoldable pub IsFinal : {W : Type 0} → Host W → Type 0
IsFinal {W} host =
    (c : Call) (w : W) → host.superseded_in w ≡ true → host.superseded_in (host.answer c w).0 ≡ true

IsHaltedOnly-refl : (b : Bool) → IsHaltedOnly b b
IsHaltedOnly-refl true = refl
IsHaltedOnly-refl false = tt

IsHaltedOnly-later : (h s s' : Bool) → (s ≡ true → s' ≡ true) → IsHaltedOnly h s → IsHaltedOnly h s'
IsHaltedOnly-later true s s' f e = f e
IsHaltedOnly-later false s s' f e = tt

in_phase-halted :
    (m m' : Watch) (o : Option Phase)
    → o >>= (λ p. some (in_phase m p)) ≡ some m'
    → m.halted ≡ m'.halted
in_phase-halted m m' none e = cc
in_phase-halted m m' (some p) e = cc

unless_none :
    {A C : Type 0} {x : A} (b : Bool) (o : Option A)
    → (if b then none else o) ≡ some x
    → (o ≡ some x → C)
    → C
unless_none true o e f = absurd (cc e)
unless_none false o e f = f e

-- A call does not tell the monitor whether the op is superseded.
watch-halted :
    (stop_ms : ℤ) (m m' : Watch) (c : Call) (rc : ℤ)
    → watch stop_ms m (called c rc) ≡ some m'
    → m.halted ≡ m'.halted
unfolding watch
watch-halted stop_ms m m' c rc e =
    let onward = moved stop_ms m.limit_ms m.phase c rc >>= (λ p. some (in_phase m p)) in
    unless_none (m.halted && changes c) onward e
      (in_phase-halted m m' (moved stop_ms m.limit_ms m.phase c rc))

module _ {W : Type 0} (host : Host W) (final : IsFinal host) (goal : Phase → Bool)
    (stop_ms : ℤ) where
  pub Keeps-accepts :
      (op : Op) (w : W) (m : Watch)
      → IsHaltedOnly m.halted (host.superseded_in w)
      → Keeps stop_ms (EndsWell goal) op m
      → let r = run host op w in accepts goal stop_ms m r.log r.result ≡ true
  unfolding Keeps run accepts IsFinal
  Keeps-accepts (done rc) w m agrees keeps = keeps
  Keeps-accepts (safe_point next) w m agrees keeps =
      let b = host.superseded_in w in
      Keeps-accepts (next b) w (record m { halted = b }) (IsHaltedOnly-refl b) (keeps b agrees)
  Keeps-accepts (remaining next) w m agrees keeps =
      let ms = host.remaining_in w in
      Keeps-accepts (next ms) w (record m { limit_ms = told ms m.limit_ms }) agrees (keeps ms)
  Keeps-accepts (call c next) w m agrees keeps =
      let w' = (host.answer c w).0 in
      let rc = (host.answer c w).1 in
      let onward : Watch → Type 0 = λ m'. Keeps stop_ms (EndsWell goal) (next rc) m' in
      elim (Option-cases (watch stop_ms m (called c rc))) [
        | inl stuck ↦ absurd (subst (Must onward) stuck (keeps rc))
        | inr (m', goes) ↦
            let same = watch-halted stop_ms m m' c rc goes in
            let before =
              IsHaltedOnly-later m.halted (host.superseded_in w) (host.superseded_in w') (final c w)
                agrees in
            let later = subst (λ h. IsHaltedOnly h (host.superseded_in w')) same before in
            rw (goes, accepts, run)
              (Keeps-accepts (next rc) w' m' later (subst (Must onward) goes (keeps rc)))
      ]

module _ (stop_ms : ℤ) (Q R : Watch → ℤ → Type 0) (k : ℤ → Op) where
  pub Keeps-bind :
      (op : Op) (m : Watch)
      → Keeps stop_ms Q op m
      → ((m' : Watch) (rc : ℤ) → Q m' rc → Keeps stop_ms R (k rc) m')
      → Keeps stop_ms R (bind op k) m
  unfolding Keeps bind
  Keeps-bind (done rc) m keeps after = after m rc keeps
  Keeps-bind (safe_point next) m keeps after =
      λ b only. Keeps-bind (next b) (record m { halted = b }) (keeps b only) after
  Keeps-bind (remaining next) m keeps after =
      λ ms. Keeps-bind (next ms) (record m { limit_ms = told ms m.limit_ms }) (keeps ms) after
  Keeps-bind (call c next) m keeps after = λ rc.
      Must-map (watch stop_ms m (called c rc)) (keeps rc)
        (λ m' kept. Keeps-bind (next rc) m' kept after)
