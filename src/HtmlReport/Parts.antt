-- ===== src/HtmlReport/Parts.antt =====
-- The parts of the page of generate_report.py.
use my_besu_net.Base.{
  ℕ, zero, suc, ◌+◌, Bool, false, List, [], ◌∷◌, ◌++◌, Option, none, some, if◌then◌else◌,
}
use my_besu_net.Base.Dict.{Dict}
use my_besu_net.Base.Int.{ℤ, pos, negsuc, ◌+ℤ◌, sub_ℕ, shown}
use my_besu_net.Base.Text.{Text, codes}
use my_besu_net.Eval.Report.{Report}
use my_besu_net.Floats.{Floats}
use my_besu_net.HtmlReport.Escape.{escape}
use my_besu_net.Loop.Cells.{shown_count, get_cell, is_truthy, shown_cell}
use my_besu_net.Loop.History.{Cell, number, text, missing}

unfoldable pub legend : Text
legend =
    codes "\n"
    ++ codes "    <div class=\"legend\">\n"
    ++ codes "        <span style=\"font-weight:600\">Query columns:</span>\n"
    ++ codes
        "        <span class=\"legend-item\"><span class=\"legend-swatch swatch-positive\"></span> Should trigger</span>\n"
    ++ codes
        "        <span class=\"legend-item\"><span class=\"legend-swatch swatch-negative\"></span> Should NOT trigger</span>\n"
    ++ codes
        "        <span class=\"legend-item\"><span class=\"legend-swatch swatch-train\"></span> Train</span>\n"
    ++ codes
        "        <span class=\"legend-item\"><span class=\"legend-swatch swatch-test\"></span> Test</span>\n"
    ++ codes "    </div>\n"

unfoldable pub table_head : Text
table_head =
    codes "\n"
    ++ codes "    <div class=\"table-container\">\n"
    ++ codes "    <table>\n"
    ++ codes "        <thead>\n"
    ++ codes "            <tr>\n"
    ++ codes "                <th>Iter</th>\n"
    ++ codes "                <th>Train</th>\n"
    ++ codes "                <th>Test</th>\n"
    ++ codes "                <th class=\"query-col\">Description</th>\n"

unfoldable pub head_end : Text
head_end = codes "            </tr>\n" ++ codes "        </thead>\n" ++ codes "        <tbody>\n"

unfoldable pub page_end : Text
page_end =
    codes "        </tbody>\n"
    ++ codes "    </table>\n"
    ++ codes "    </div>\n"
    ++ codes "\n"
    ++ codes "</body>\n"
    ++ codes "</html>\n"

-- a query with its label
abbrev pub Query : Type 0
Query = Text × Bool

unfoldable pub polarity : Query → Text
polarity q = if q.1 then codes "positive-col" else codes "negative-col"

unfoldable pub train_column : Query → Text
unfolding polarity
train_column q =
    codes "                <th class=\""
    ++ polarity q
    ++ codes "\">"
    ++ escape q.0
    ++ codes "</th>\n"

unfoldable pub test_column : Query → Text
unfolding polarity
test_column q =
    codes "                <th class=\"test-col "
    ++ polarity q
    ++ codes "\">"
    ++ escape q.0
    ++ codes "</th>\n"

module _ {F : Type 0} where
  -- the runs that were right, as an int, and all runs
  unfoldable pub aggregate_runs : List (Report F) → ℤ × ℕ
  unfolding ◌+ℤ◌
  aggregate_runs [] = (pos 0, 0)
  aggregate_runs (r ∷ rs) =
      let (correct, total) = aggregate_runs rs in
      (
        (if r.should_trigger
            then correct +ℤ pos r.triggers
            else correct +ℤ sub_ℕ r.runs r.triggers),
        total + r.runs,
      )

  -- the result of a query, with the values of `{}` where there is none
  abbrev pub did_pass_of : Option (Report F) → Bool
  did_pass_of none = false
  did_pass_of (some r) = r.pass

  abbrev pub triggers_of : Option (Report F) → ℕ
  triggers_of none = 0
  triggers_of (some r) = r.triggers

  abbrev pub runs_of : Option (Report F) → ℕ
  runs_of none = 0
  runs_of (some r) = r.runs

  abbrev pub icon : Option (Report F) → Text
  icon r = if did_pass_of r then codes "✓" else codes "✗"

  abbrev pub css_class : Option (Report F) → Text
  css_class r = if did_pass_of r then codes "pass" else codes "fail"

  unfoldable pub train_cell : Option (Report F) → Text
  unfolding shown_count
  train_cell r =
      codes "                <td class=\"result "
      ++ css_class r
      ++ codes "\">"
      ++ icon r
      ++ codes "<span class=\"rate\">"
      ++ shown_count (triggers_of r)
      ++ codes "/"
      ++ shown_count (runs_of r)
      ++ codes "</span></td>\n"

  unfoldable pub test_cell : Option (Report F) → Text
  unfolding shown_count
  test_cell r =
      codes "                <td class=\"result test-result "
      ++ css_class r
      ++ codes "\">"
      ++ icon r
      ++ codes "<span class=\"rate\">"
      ++ shown_count (triggers_of r)
      ++ codes "/"
      ++ shown_count (runs_of r)
      ++ codes "</span></td>\n"

  module _ (repr : List (Report F) → Text) where
    unfoldable pub summary_part : Dict (Cell F) → Text → Text → Text
    unfolding shown_cell
    summary_part info original best =
        codes "\n"
        ++ codes "    <div class=\"summary\">\n"
        ++ codes "        <p><strong>Original:</strong> "
        ++ original
        ++ codes "</p>\n"
        ++ codes "        <p class=\"best\"><strong>Best:</strong> "
        ++ best
        ++ codes "</p>\n"
        ++ codes "        <p><strong>Best Score:</strong> "
        ++ shown_cell repr (get_cell (codes "best_score") (text (codes "N/A")) info)
        ++ codes " "
        ++ (if is_truthy (get_cell (codes "best_test_score") missing info)
            then codes "(test)"
            else codes "(train)")
        ++ codes "</p>\n"
        ++ codes "        <p><strong>Iterations:</strong> "
        ++ shown_cell repr (get_cell (codes "iterations_run") (number 0) info)
        ++ codes " | <strong>Train:</strong> "
        ++ shown_cell repr (get_cell (codes "train_size") (text (codes "?")) info)
        ++ codes " | <strong>Test:</strong> "
        ++ shown_cell repr (get_cell (codes "test_size") (text (codes "?")) info)
        ++ codes "</p>\n"
        ++ codes "    </div>\n"

-- `four_fifths` and `half` are 0.8 and 0.5; a quotient of a negative int is below both.
module _ (fl : Floats) (four_fifths half : fl.F) where
  unfoldable pub score_class : ℤ × ℕ → Text
  score_class (correct, zero) = codes "score-bad"
  score_class (negsuc n, suc total) = codes "score-bad"
  score_class (pos n, suc total) =
      let ratio = fl.ratio n (suc total) in
      if fl.geb ratio four_fifths
      then codes "score-good"
      else if fl.geb ratio half
      then codes "score-ok"
      else codes "score-bad"

  unfoldable pub row_head :
      (List (Report fl.F) → Text) → Bool → Cell fl.F → ℤ × ℕ → ℤ × ℕ → Text → Text
  unfolding score_class shown_cell
  row_head repr is_best iteration train test description =
      codes "            <tr class=\""
      ++ (if is_best then codes "best-row" else [])
      ++ codes "\">\n"
      ++ codes "                <td>"
      ++ shown_cell repr iteration
      ++ codes "</td>\n"
      ++ codes "                <td><span class=\"score "
      ++ score_class train
      ++ codes "\">"
      ++ shown train.0
      ++ codes "/"
      ++ shown_count train.1
      ++ codes "</span></td>\n"
      ++ codes "                <td><span class=\"score "
      ++ score_class test
      ++ codes "\">"
      ++ shown test.0
      ++ codes "/"
      ++ shown_count test.1
      ++ codes "</span></td>\n"
      ++ codes "                <td class=\"description\">"
      ++ escape description
      ++ codes "</td>\n"

abbrev pub row_end : Text
row_end = codes "            </tr>\n"
