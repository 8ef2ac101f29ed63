-- ===== src/Loop/Vacuous.antt =====
-- A holdout that takes every query (run_loop.py, lines 37 to 44, 177 to 181).
use mathlib.Core.List.{Perm}
use my_besu_net.Base.{
  ℕ, zero, suc, ◌<◌, ◌≤◌, Bool, true, List, [], ◌∷◌, ◌++◌, Option, none, some, ◌≡◌, ◌≢◌, ◌⊎◌, inl,
  inr, refl, arith, count_if, length-perm,
}
use my_besu_net.Base.Text.{Text}
use my_besu_net.Eval.Pool.{Item}
use my_besu_net.Eval.Report.{Report}
use my_besu_net.Eval.Total.{run_eval-ok}
use my_besu_net.Floats.{Floats}
use my_besu_net.Json.{ok}
use my_besu_net.Loop.Best.{first_max}
use my_besu_net.Loop.History.{entry_of, train_part}
use my_besu_net.Loop.Live.{IsWritable, Runs, Ended-Runs, write_live-Ended}
use my_besu_net.Loop.Run.{
  LivePage, LoopOutput, Calls, all_passed, report, run_sets, run_loop, choose,
}
use my_besu_net.Loop.Tested.{entry_of-Tested}
use my_besu_net.Loop.Split.{
  split_eval_set, split_eval_set_small, split_eval_set-perm, labelled, unlabelled,
}

-- Without train queries the test set is empty only where the eval set is.
test-ne-nil :
    (train test eval_set : List Item)
    → Perm (train ++ test) eval_set
    → train ≡ []
    → eval_set ≢ []
    → test ≢ []
test-ne-nil (t ∷ train) test eval_set p none_left ne h = cc
test-ne-nil [] test [] p none_left ne h = ne refl
test-ne-nil [] (t ∷ test) (e ∷ eval_set) p none_left ne h = cc
test-ne-nil [] [] (e ∷ eval_set) p none_left ne h = absurd (omega (arith, length-perm p))

Runs-of :
    {F : Type 0} (live : Option (LivePage F)) (test_set : List Item)
    → (live ≡ none) ⊎ (test_set ≢ [])
    → Runs live test_set
Runs-of none test_set h = tt
Runs-of (some page) (t ∷ ts) h = tt
Runs-of (some page) [] (inl e) = cc
Runs-of (some page) [] (inr ne) = ne refl

module _ (fl : Floats) (trigger_threshold : fl.F) (calls : Calls fl.F) (skill_name : Text) where
  train_part-nil : (rs : List (Report fl.F)) → train_part [] rs ≡ []
  unfolding train_part
  train_part-nil [] = refl
  train_part-nil (r ∷ rs) = train_part-nil rs

  entry_of-nil :
      (d : Text) (test_set : List Item) (rs : List (Report fl.F))
      → (entry_of 1 d [] test_set rs).train.failed ≡ 0
  unfolding entry_of
  entry_of-nil d test_set rs = rw (train_part-nil rs)

  run_sets-nil :
      (test_set : List Item) (limit : ℕ) (original start : Text)
      → IsWritable calls.live
      → Runs calls.live test_set
      → 0 < limit
      → (out : LoopOutput fl.F) × (run_sets fl trigger_threshold calls skill_name [] test_set limit
            original start
          ≡ ok out)
        × (out.exit_reason ≡ all_passed 1)
        × (out.best_description ≡ start)
  unfolding run_sets first_max entry_of
  run_sets-nil test_set zero original start w runs h = elim h [ ]
  run_sets-nil test_set (suc left) original start w runs h =
      let (o, run, _, _, _) =
        run_eval-ok fl trigger_threshold skill_name start (calls.pool 1 start test_set) in
      let e = entry_of 1 start [] test_set o.results in
      let (_, live) = Ended-Runs calls.live test_set _ runs (
        write_live-Ended fl trigger_threshold calls skill_name [] calls.live test_set (suc left)
          original 1 start (e ∷ []) w (λ h. cc)
          (entry_of-Tested 1 start [] test_set o.results, tt)) in
      (
        report fl trigger_threshold calls skill_name [] test_set (suc left) original
            (record { exit_reason = all_passed 1; current_description = start; history = e ∷ [] })
            e,
        rw run (rw live (rw (entry_of-nil start test_set o.results))),
        refl,
        refl,
      )

  -- With a holdout and at most one entry of each label, and no live report or one on an eval set that
  -- is not empty, whose writes are done and that compares ints as Python does, the loop stops in its
  -- first iteration, says that all passed and returns the description that it started with, whatever
  -- the queries did.
  pub run_loop_vacuous :
      (portion : ℕ → ℕ) (shuffle : Bool → List Item → List Item)
      → ((b : Bool) (xs : List Item) → Perm (shuffle b xs) xs)
      → (eval_set : List Item) (limit : ℕ) (original : Text) (override : Option Text)
      → count_if labelled eval_set ≤ 1
      → count_if unlabelled eval_set ≤ 1
      → IsWritable calls.live
      → (calls.live ≡ none) ⊎ (eval_set ≢ [])
      → 0 < limit
      → (out : LoopOutput fl.F) × (run_loop fl trigger_threshold calls skill_name true portion
            shuffle eval_set limit original override
          ≡ ok out)
        × (out.exit_reason ≡ all_passed 1)
        × (out.best_description ≡ choose override original)
  unfolding run_loop
  run_loop_vacuous portion shuffle shuffles eval_set limit original override h k w some_live pos =
      let sets = split_eval_set portion shuffle eval_set in
      let no_train = split_eval_set_small portion shuffle shuffles eval_set h k in
      let runs = Runs-of calls.live sets.1 (elim some_live [
        | inl e ↦ inl e
        | inr ne ↦ inr (
            test-ne-nil sets.0 sets.1 eval_set
              (split_eval_set-perm portion shuffle shuffles eval_set) no_train ne)
      ]) in
      rw no_train (
        run_sets-nil (split_eval_set portion shuffle eval_set).1 limit original
          (choose override original) w runs pos)
