-- ===== src/HtmlReport/Written.antt =====
-- The report of the dict that run_loop.py returns.
use my_besu_net.Base.{ℕ, List, [], ◌∷◌, ◌++◌, Option, none, some, false}
use my_besu_net.Base.Dict.{Dict}
use my_besu_net.Base.Text.{Text, codes}
use my_besu_net.Eval.Report.{Report}
use my_besu_net.Floats.{Floats}
use my_besu_net.HtmlReport.Live.{dicts}
use my_besu_net.HtmlReport.Page.{CellOrder, generate_html}
use my_besu_net.Json.{Result}
use my_besu_net.Loop.Cells.{shown_count, fraction_of}
use my_besu_net.Loop.History.{Cell, number, text, missing}
use my_besu_net.Loop.Run.{ExitReason, unknown, all_passed, max_iterations, LoopOutput}

unfoldable pub shown_reason : ExitReason → Text
unfolding shown_count
shown_reason unknown = codes "unknown"
shown_reason (all_passed i) = codes "all_passed (iteration " ++ shown_count i ++ codes ")"
shown_reason (max_iterations n) = codes "max_iterations (" ++ shown_count n ++ codes ")"

unfoldable pub shown_score : ℕ × ℕ → Text
unfolding shown_count
shown_score (passed, total) = fraction_of (shown_count passed) (shown_count total)

module _ {F : Type 0} where
  abbrev score_cell : Option (ℕ × ℕ) → Cell F
  score_cell none = missing
  score_cell (some s) = text (shown_score s)

  abbrev some_score : Option (ℕ × ℕ) → Cell F
  some_score none = text (codes "None/None")
  some_score (some s) = text (shown_score s)

  -- the dict that run_loop returns, without its history and its holdout
  unfoldable pub output_info : LoopOutput F → Dict (Cell F)
  unfolding shown_reason shown_score
  output_info out =
      (codes "exit_reason", text (shown_reason out.exit_reason))
      ∷ (codes "original_description", text out.original_description)
      ∷ (codes "best_description", text out.best_description)
      ∷ (codes "best_score", some_score out.best_score)
      ∷ (codes "best_train_score", text (shown_score out.best_train_score))
      ∷ (codes "best_test_score", score_cell out.best_test_score)
      ∷ (codes "final_description", text out.final_description)
      ∷ (codes "iterations_run", number out.iterations_run)
      ∷ (codes "train_size", number out.train_size)
      ∷ (codes "test_size", number out.test_size)
      ∷ []

module _ (fl : Floats) (four_fifths half : fl.F) (o : CellOrder fl.F)
    (repr : List (Report fl.F) → Text) (skill_name : Text) where
  -- the report of the dict that run_loop returns
  unfoldable pub final_report : LoopOutput fl.F → Result Text
  unfolding generate_html output_info
  final_report out =
      generate_html fl four_fifths half o repr (output_info out) (dicts out.history) false
        skill_name
