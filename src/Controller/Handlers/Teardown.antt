-- ===== src/Controller/Handlers/Teardown.antt =====
-- What teardown does to each stage, and which calls it makes.
use strimserver.Prelude.{
  ◌≡◌, refl, ap, ◌∙◌, ◌+◌, ◌%◌, ◌^◌, pos, Bool, false, not, ◌&&◌, some, none, List, [], ◌∷◌, ◌++◌,
  ◌==◌, if◌then◌else◌, is_none, ℤ, Option-cases, Bool-cases, inl, inr,
}
use mathlib.Core.List.{map, flat_map}
use strimserver.Controller.Types.{
  stage_running, stage_stopped, inc64, Stage, Effect, stop_called, Controller,
}
use strimserver.Controller.Handlers.{torn_down, teardown_stages}

-- A running stage with a stop op.
unfoldable pub must_stop : Stage → Bool
must_stop stage = not (is_none stage.stop_op) && (stage.status.actual == stage_running)

-- What is promised of a stage: a stop op that is called leaves it stopped in both states, in flight
-- no more, and of the next generation, so that an older op is superseded.
unfoldable pub halted : Stage → Stage
unfolding must_stop
halted stage =
    if must_stop stage
    then record stage {
      op_generation = (stage.op_generation + 1) % 2 ^ 64;
      status = record { desired = 0; actual = 0 };
      in_flight_since = pos 0;
    }
    else stage

unfoldable pub stop_calls : ℤ → Stage → List Effect
stop_calls timeout stage = elim stage.stop_op [
  | none ↦ []
  | some op ↦
      if stage.status.actual == stage_running then stop_called op stage.op_ctx timeout ∷ [] else []
]

-- One round of the loop.
teardown_cons :
    (timeout : ℤ) (stage : Stage) (rest : List Stage)
    → let r = teardown_stages timeout rest in
      ((teardown_stages timeout (stage ∷ rest)).0 ≡ halted stage ∷ r.0)
      × ((teardown_stages timeout (stage ∷ rest)).1 ≡ stop_calls timeout stage ++ r.1)
unfolding teardown_stages halted stop_calls torn_down inc64
teardown_cons timeout stage rest = elim (Option-cases stage.stop_op) [
  | inl out ↦ rw out (refl, refl)
  | inr (op, found) ↦ elim (Bool-cases (stage.status.actual == stage_running)) [
    | inl up ↦ rw (found, up) (refl, refl)
    | inr down ↦ rw (found, down) (refl, refl)
  ]
]

pub teardown_stages-map :
    (timeout : ℤ) (stages : List Stage)
    → ((teardown_stages timeout stages).0 ≡ map halted stages)
      × ((teardown_stages timeout stages).1 ≡ flat_map (stop_calls timeout) stages)
unfolding flat_map
teardown_stages-map timeout [] = unfold teardown_stages in (refl, refl)
teardown_stages-map timeout (stage ∷ rest) =
    let (stages, stops) = teardown_stages-map timeout rest in
    let (first, call) = teardown_cons timeout stage rest in
    (
      first ∙ ap (λ l. halted stage ∷ l) stages,
      call ∙ ap (λ l. stop_calls timeout stage ++ l) stops,
    )

-- No stage that could be stopped is left running.
abbrev pub IsDown : Stage → Type 0
IsDown stage = is_none stage.stop_op ≡ false → stage.status.actual ≡ stage_stopped
