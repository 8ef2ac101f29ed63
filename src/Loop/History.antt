-- ===== src/Loop/History.antt =====
-- The entries of `history`, and what the improvement model sees of them (run_loop.py, lines 102 to
-- 137 and 194 to 198).
use my_besu_net.Base.{
  ℕ, ◌-◌, Bool, not, List, [], ◌∷◌, Option, none, some, ◌≡◌, refl, ap₂, arith, ◌↔◌, keep, length,
  count_if, any,
}
use my_besu_net.Base.Dict.{Dict}
use my_besu_net.Base.Text.{Text, codes, equal, starts_with}
use my_besu_net.Eval.Pool.{Item}
use my_besu_net.Eval.Report.{Report}

-- `{"passed": …, "failed": …, "total": …}`
pub record Summary : Type 0 where
  pub passed : ℕ
  pub failed : ℕ
  pub total : ℕ

pub record Entry (F : Type 0) : Type 0 where
  pub iteration : ℕ
  pub description : Text
  pub train : Summary
  pub train_results : List (Report F)
  pub test : Option Summary
  pub test_results : Option (List (Report F))

-- a value of an entry's dict
pub data Cell (F : Type 0) : Type 0 where
  number : ℕ → Cell F
  text : Text → Cell F
  reports : List (Report F) → Cell F
  missing : Cell F

module _ {F : Type 0} where
  abbrev pub passes : Report F → Bool
  passes r = r.pass

  unfoldable pub summary : List (Report F) → Summary
  summary rs = record {
    passed = count_if passes rs;
    failed = length rs - count_if passes rs;
    total = length rs;
  }

  -- `r["query"] in {q["query"] for q in items}`
  unfoldable pub asked_in : List Item → Report F → Bool
  asked_in items r = any (λ (q : Item). equal q.query r.query) items

  unfoldable pub train_part : List Item → List (Report F) → List (Report F)
  unfolding asked_in
  train_part train_set rs = keep (asked_in train_set) rs

  unfoldable pub test_part : List Item → List (Report F) → List (Report F)
  unfolding asked_in
  test_part train_set rs = keep (λ r. not (asked_in train_set r)) rs

  -- The entry that one evaluation appends; without a test set its test fields are `None`.
  unfoldable pub entry_of : ℕ → Text → List Item → List Item → List (Report F) → Entry F
  unfolding summary train_part test_part
  entry_of iteration description train_set test_set rs = record {
    iteration = iteration;
    description = description;
    train = summary (train_part train_set rs);
    train_results = train_part train_set rs;
    test = (elim test_set [ [] ↦ none | _ ∷ _ ↦ some (summary (test_part train_set rs)) ]);
    test_results = (elim test_set [ [] ↦ none | _ ∷ _ ↦ some (test_part train_set rs) ]);
  }

  unfoldable pub test_cell : (Summary → ℕ) → Option Summary → Cell F
  test_cell f none = missing
  test_cell f (some s) = number (f s)

  unfoldable pub results_cell : Option (List (Report F)) → Cell F
  results_cell none = missing
  results_cell (some rs) = reports rs

  -- The entry as the dict that the source keeps.
  unfoldable pub to_dict : Entry F → Dict (Cell F)
  unfolding test_cell results_cell
  to_dict e =
      (codes "iteration", number e.iteration)
      ∷ (codes "description", text e.description)
      ∷ (codes "train_passed", number e.train.passed)
      ∷ (codes "train_failed", number e.train.failed)
      ∷ (codes "train_total", number e.train.total)
      ∷ (codes "train_results", reports e.train_results)
      ∷ (codes "test_passed", test_cell (λ s. s.passed) e.test)
      ∷ (codes "test_failed", test_cell (λ s. s.failed) e.test)
      ∷ (codes "test_total", test_cell (λ s. s.total) e.test)
      ∷ (codes "test_results", results_cell e.test_results)
      ∷ (codes "passed", number e.train.passed)
      ∷ (codes "failed", number e.train.failed)
      ∷ (codes "total", number e.train.total)
      ∷ (codes "results", reports e.train_results)
      ∷ []

  -- `{k: v for k, v in h.items() if not k.startswith("test_")}`
  unfoldable pub blind : Dict (Cell F) → Dict (Cell F)
  unfolding starts_with
  blind d = keep (λ (cell : Text × Cell F). not (starts_with cell.0 (codes "test_"))) d

  unfoldable pub blinded_history : List (Entry F) → List (Dict (Cell F))
  unfolding to_dict blind
  blinded_history [] = []
  blinded_history (e ∷ es) = blind (to_dict e) ∷ blinded_history es

  -- The entry with other test scores.
  abbrev pub SameTraining : Entry F → Entry F → Type 0
  SameTraining e e' =
      (e.iteration ≡ e'.iteration)
      × (e.description ≡ e'.description)
      × (e.train ≡ e'.train)
      × (e.train_results ≡ e'.train_results)

  abbrev pub SameTrainings : List (Entry F) → List (Entry F) → Type 0
  SameTrainings [] [] = Unit
  SameTrainings (e ∷ es) (e' ∷ es') = SameTraining e e' × SameTrainings es es'
  SameTrainings _ _ = ⊥

  blind-SameTraining : (e e' : Entry F) → SameTraining e e' → blind (to_dict e) ≡ blind (to_dict e')
  unfolding blind to_dict
  blind-SameTraining e e' h = ground arith

  SameTraining-blind : (e e' : Entry F) → blind (to_dict e) ≡ blind (to_dict e') → SameTraining e e'
  unfolding blind to_dict
  SameTraining-blind e e' h = ground arith

  -- Two histories look the same to the improvement model exactly when they agree on everything but
  -- the test scores and test results.
  pub blinded_history_iff :
      (es es' : List (Entry F)) → (blinded_history es ≡ blinded_history es') ↔ SameTrainings es es'
  unfolding blinded_history
  blinded_history_iff [] [] = (λ h. tt, λ h. refl)
  blinded_history_iff [] (_ ∷ _) = (λ h. cc, λ h. absurd h)
  blinded_history_iff (_ ∷ _) [] = (λ h. cc, λ h. absurd h)
  blinded_history_iff (e ∷ es) (e' ∷ es') = (
    λ h. (SameTraining-blind e e' (cc), (blinded_history_iff es es').0 (cc)),
    λ h. ap₂ ◌∷◌ (blind-SameTraining e e' h.0) ((blinded_history_iff es es').1 h.1),
  )
