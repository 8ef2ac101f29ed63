-- ===== src/Improve/Attempts.antt =====
-- The earlier attempts in the prompt of improve_description.py.
use my_besu_net.Base.{List, [], ◌∷◌, ◌++◌, Option, none, some, if◌then◌else◌, take}
use my_besu_net.Base.Dict.{Dict, lookup}
use my_besu_net.Base.Text.{Text, codes}
use my_besu_net.Eval.Report.{Report, get_item}
use my_besu_net.Json.{Result, ok, raise, ◌>>=◌, type_error}
use my_besu_net.Loop.Cells.{shown_count, fraction_of, get_cell, present, is_truthy, shown_cell}
use my_besu_net.Loop.History.{Cell, number, text, reports, missing}

module _ {F : Type 0} where
  -- a line of an attempt
  unfoldable pub attempt_lines : List (Report F) → Text
  unfolding shown_count
  attempt_lines [] = []
  attempt_lines (r ∷ rs) =
      codes "  ["
      ++ (if r.pass then codes "PASS" else codes "FAIL")
      ++ codes "] \""
      ++ take 80 r.query
      ++ codes "\" (triggered "
      ++ fraction_of (shown_count r.triggers) (shown_count r.runs)
      ++ codes ")\n"
      ++ attempt_lines rs

  unfoldable pub results_text : Option (Cell F) → Result Text
  unfolding attempt_lines
  results_text none = ok []
  results_text (some (reports rs)) = ok (codes "Train results:\n" ++ attempt_lines rs)
  results_text (some (text [])) = ok (codes "Train results:\n")
  results_text (some _) = raise type_error

  -- `repr` is `str` of a list of results.
  module _ (repr : List (Report F) → Text) where
    -- `score_str`
    unfoldable pub score_str : Dict (Cell F) → Text
    unfolding shown_cell lookup
    score_str h =
        codes "train="
        ++ fraction_of
            (shown_cell repr
              (get_cell (codes "train_passed") (get_cell (codes "passed") (number 0) h) h))
            (shown_cell repr
              (get_cell (codes "train_total") (get_cell (codes "total") (number 0) h) h))
        ++ (elim (present (get_cell (codes "test_passed") missing h)) [
          | none ↦ []
          | some c ↦
              codes ", test="
              ++ fraction_of (shown_cell repr c)
                  (shown_cell repr (get_cell (codes "test_total") (text (codes "?")) h))
        ])

    unfoldable pub attempt : Dict (Cell F) → Result Text
    unfolding score_str get_item results_text lookup
    attempt h = do
      description ← get_item (codes "description") h
      results ← results_text (lookup (codes "results") h)
      let note = get_cell (codes "note") missing h
      ok (
          codes "<attempt "
          ++ score_str h
          ++ codes ">\nDescription: \""
          ++ shown_cell repr description
          ++ codes "\"\n"
          ++ results
          ++ (if is_truthy note then codes "Note: " ++ shown_cell repr note ++ codes "\n" else [])
          ++ codes "</attempt>\n\n")

    unfoldable pub attempts : List (Dict (Cell F)) → Result Text
    unfolding attempt
    attempts [] = ok []
    attempts (h ∷ hs) = do first ← attempt h; others ← attempts hs; ok (first ++ others)

    unfoldable pub previous_attempts : List (Dict (Cell F)) → Result Text
    unfolding attempts
    previous_attempts [] = ok []
    previous_attempts (h ∷ hs) = do
      all ← attempts (h ∷ hs)
      ok (
          codes
            "PREVIOUS ATTEMPTS (do NOT repeat these — try something structurally different):\n\n"
          ++ all)
