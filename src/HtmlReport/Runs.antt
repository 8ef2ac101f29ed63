-- ===== src/HtmlReport/Runs.antt =====
-- The counts in the rows of generate_report.py.
use my_besu_net.Base.{
  ℕ, ◌+◌, ◌-◌, ◌≤◌, List, [], ◌∷◌, ◌≡◌, refl, arith, if◌then◌else◌, All, Bool-cases, inl, inr,
}
use my_besu_net.Base.Int.{pos, ◌+ℤ◌}
use my_besu_net.Eval.Report.{Report}
use my_besu_net.HtmlReport.Parts.{aggregate_runs}

module _ {F : Type 0} where
  -- the runs that went wrong: no trigger where there should be one, or a trigger where there should not
  abbrev pub wrong_runs : List (Report F) → ℕ
  wrong_runs [] = 0
  wrong_runs (r ∷ rs) =
      (if r.should_trigger then r.runs - r.triggers else r.triggers) + wrong_runs rs

  -- If no query triggers in more runs than it has, the right runs are a natural number, and together with
  -- the wrong ones they are all runs.
  pub aggregate_runs-wrong_runs :
      (rs : List (Report F))
      → All (λ r. r.triggers ≤ r.runs) rs
      → (correct : ℕ) × ((aggregate_runs rs).0 ≡ pos correct)
        × (correct + wrong_runs rs ≡ (aggregate_runs rs).1)
  unfolding aggregate_runs ◌+ℤ◌
  aggregate_runs-wrong_runs [] h = (0, refl, refl)
  aggregate_runs-wrong_runs (r ∷ rs) h =
      let (c, right, total) = aggregate_runs-wrong_runs rs h.1 in
      let within : r.triggers ≤ r.runs = h.0 in
      elim (Bool-cases r.should_trigger) [
        | inl e ↦ (c + r.triggers, rw (e, right) (ground arith), rw e (omega arith))
        | inr e ↦ (c + (r.runs - r.triggers), rw (e, right) (ground arith), rw e (omega arith))
      ]
