-- ===== src/StageOps/Runs.antt =====
-- An op at work: what answers it, the calls that it makes, and its result.
use strimserver.Prelude.{Bool, List, [], ◌∷◌, ℤ}
use strimserver.StageOps.{Call, Op, done, safe_point, remaining, call}

-- Whatever the op runs against, with a state of its own: containerd, the CDI registry, the threads,
-- and the controller that supersedes the op.
pub record Host (W : Type 0) : Type 0 where
  pub answer : Call → W → W × ℤ
  pub superseded_in : W → Bool
  pub remaining_in : W → ℤ

pub data Event : Type 0 where
  checked : Bool → Event
  asked : ℤ → Event
  called : Call → ℤ → Event

pub record Run (W : Type 0) : Type 0 where
  pub world : W
  pub result : ℤ
  pub log : List Event

abbrev pub logged : {W : Type 0} → Event → Run W → Run W
logged e r = record r { log = e ∷ r.log }

unfoldable pub run : {W : Type 0} → Host W → Op → W → Run W
run host (done rc) w = record { world = w; result = rc; log = [] }
run host (safe_point next) w =
    logged (checked (host.superseded_in w)) (run host (next (host.superseded_in w)) w)
run host (remaining next) w =
    logged (asked (host.remaining_in w)) (run host (next (host.remaining_in w)) w)
run host (call c next) w =
    let (w', rc) = host.answer c w in logged (called c rc) (run host (next rc) w')
