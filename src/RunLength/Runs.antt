-- ===== src/RunLength/Runs.antt =====
-- Runs of the run-length function.
use swift_xdelta.Prelude.{◌≡◌, refl, arith, [], ◌∷◌}
use swift_xdelta.RunLength.{comprun}
use swift_xdelta.RunLength.Longest.{IsRun, comprun-IsRun}

comprun_run : comprun (5 ∷ 7 ∷ 7 ∷ 7 ∷ []) ≡ (7, 3)
unfolding comprun
comprun_run = refl

comprun-IsRun_example : IsRun (5 ∷ 7 ∷ 7 ∷ 7 ∷ []) (comprun (5 ∷ 7 ∷ 7 ∷ 7 ∷ []))
comprun-IsRun_example = comprun-IsRun (5 ∷ 7 ∷ 7 ∷ 7 ∷ []) (omega arith)
