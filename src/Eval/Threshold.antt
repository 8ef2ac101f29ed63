-- ===== src/Eval/Threshold.antt =====
-- The pass criterion (run_eval.py, lines 229 to 234).
use my_besu_net.Base.{ℕ, ◌≤◌, Bool, true, false, not, ◌≡◌, refl, Bool-cases, inl, inr, ◌∙◌, ap}
use my_besu_net.Eval.Report.{did_pass}
use my_besu_net.Floats.{Floats, IsOrdered, IsMonotone}

not-injective : (b : Bool) → not b ≡ true → b ≡ false
not-injective true h = cc
not-injective false h = refl

module _ (fl : Floats) (trigger_threshold : fl.F) where
  -- With float comparison total on the values at hand and the quotient monotone: an entry with the
  -- opposite label gets the opposite verdict; more triggers in as many runs never fail an entry that
  -- should trigger, and fewer never fail one that should not.
  pub did_pass_monotone :
      (a b runs : ℕ)
      → IsOrdered fl
      → IsMonotone fl
      → a ≤ b
      → let pass =
          λ (should : Bool) (n : ℕ). did_pass fl trigger_threshold should (fl.ratio n runs) in
        (pass false a ≡ not (pass true a))
        × (pass true a ≡ true → pass true b ≡ true)
        × (pass false b ≡ true → pass false a ≡ true)
  unfolding did_pass
  did_pass_monotone a b runs ordered monotone le =
      let up = monotone a b runs trigger_threshold le in
      (
        ordered (fl.ratio a runs) trigger_threshold,
        up,
        λ h. elim (Bool-cases (fl.geb (fl.ratio a runs) trigger_threshold)) [
          | inl e ↦ cc (ordered (fl.ratio b runs) trigger_threshold, h, ap not (up e))
          | inr e ↦ ordered (fl.ratio a runs) trigger_threshold ∙ ap not e
        ],
      )
