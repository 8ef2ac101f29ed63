-- ===== src/HtmlReport/Live.antt =====
-- The report that run_loop.py writes behind each iteration (lines 140 to 151).
use my_besu_net.Base.{ℕ, List, [], ◌∷◌, length, true}
use my_besu_net.Base.Dict.{Dict}
use my_besu_net.Base.Text.{Text, codes}
use my_besu_net.Eval.Report.{Report}
use my_besu_net.Floats.{Floats}
use my_besu_net.HtmlReport.Page.{CellOrder, generate_html}
use my_besu_net.Json.{Result}
use my_besu_net.Loop.History.{Cell, Entry, number, text, to_dict}

module _ {F : Type 0} where
  abbrev pub dicts : List (Entry F) → List (Dict (Cell F))
  dicts [] = []
  dicts (e ∷ es) = to_dict e ∷ dicts es

  -- `partial_output`, without its history and its holdout
  unfoldable pub partial_info : Text → Text → ℕ → ℕ → List (Entry F) → Dict (Cell F)
  partial_info original current train_size test_size history =
      (codes "original_description", text original)
      ∷ (codes "best_description", text current)
      ∷ (codes "best_score", text (codes "in progress"))
      ∷ (codes "iterations_run", number (length history))
      ∷ (codes "train_size", number train_size)
      ∷ (codes "test_size", number test_size)
      ∷ []

module _ (fl : Floats) (four_fifths half : fl.F) (o : CellOrder fl.F)
    (repr : List (Report fl.F) → Text) (skill_name : Text) where
  -- what the live report is written with, behind an iteration
  unfoldable pub live_report : Text → Text → ℕ → ℕ → List (Entry fl.F) → Result Text
  unfolding generate_html partial_info
  live_report original current train_size test_size history =
      generate_html fl four_fifths half o repr
        (partial_info original current train_size test_size history) (dicts history) true skill_name
