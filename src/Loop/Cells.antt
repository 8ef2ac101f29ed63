-- ===== src/Loop/Cells.antt =====
-- The values of a history entry as a dict (run_loop.py), as improve_description.py and
-- generate_report.py read them.
use my_besu_net.Base.{ℕ, suc, Bool, true, false, not, List, [], ◌∷◌, ◌++◌, Option, none, some, ◌==◌}
use my_besu_net.Base.Dict.{Dict, lookup}
use my_besu_net.Base.Int.{digits}
use my_besu_net.Base.Text.{Text, codes}
use my_besu_net.Eval.Report.{Report}
use my_besu_net.Loop.History.{Cell, number, text, reports, missing}

unfoldable pub shown_count : ℕ → Text
unfolding digits
shown_count n = digits (suc n) n []

-- `f"{a}/{b}"`
abbrev pub fraction_of : Text → Text → Text
fraction_of a b = a ++ codes "/" ++ b

module _ {F : Type 0} where
  abbrev pub or_cell : Option (Cell F) → Cell F → Cell F
  or_cell none d = d
  or_cell (some c) d = c

  -- `h.get(k, d)`
  abbrev pub get_cell : Text → Cell F → Dict (Cell F) → Cell F
  get_cell k d h = or_cell (lookup k h) d

  -- the cell, where it is not `None`
  abbrev pub present : Cell F → Option (Cell F)
  present missing = none
  present c = some c

  abbrev pub is_truthy : Cell F → Bool
  is_truthy (number n) = not (n == 0)
  is_truthy (text []) = false
  is_truthy (text (c ∷ t)) = true
  is_truthy (reports []) = false
  is_truthy (reports (r ∷ rs)) = true
  is_truthy missing = false

  -- `str(c)`; `repr` is that of a list of results
  unfoldable pub shown_cell : (List (Report F) → Text) → Cell F → Text
  unfolding shown_count
  shown_cell repr (number n) = shown_count n
  shown_cell repr (text t) = t
  shown_cell repr (reports rs) = repr rs
  shown_cell repr missing = codes "None"
