-- ===== src/HtmlReport/Outcome.antt =====
-- When the reports of run_loop.py can be written.
use my_besu_net.Base.{Bool, List, [], ◌∷◌, ◌≡◌, refl, All}
use my_besu_net.Base.Dict.{Dict}
use my_besu_net.Base.Text.{Text, codes}
use my_besu_net.Eval.Pool.{Item}
use my_besu_net.Eval.Report.{Report}
use my_besu_net.Floats.{Floats}
use my_besu_net.HtmlReport.Entries.{
  train_queries-ok, test_queries-ok, best_iter-dicts, rows-none, rows-ok,
}
use my_besu_net.HtmlReport.Live.{dicts}
use my_besu_net.HtmlReport.Page.{
  CellOrder, IsPython, escape_cell, best_iter, page_text, generate_html,
}
use my_besu_net.HtmlReport.Escape.{escape}
use my_besu_net.HtmlReport.Parts.{Query}
use my_besu_net.Json.{Result, ok, raise, type_error}
use my_besu_net.Loop.Cells.{get_cell}
use my_besu_net.Loop.History.{Cell, Entry, text}
use my_besu_net.Loop.Tested.{Tested}

module _ (fl : Floats) (four_fifths half : fl.F) (o : CellOrder fl.F) (python : IsPython o)
    (repr : List (Report fl.F) → Text) where
  -- The dict has the two descriptions as texts.
  abbrev Described : Dict (Cell fl.F) → Type 0
  Described info =
      ((t : Text) × (get_cell (codes "original_description") (text (codes "N/A")) info ≡ text t))
      × ((t : Text) × (get_cell (codes "best_description") (text (codes "N/A")) info ≡ text t))

  -- Without a test set the report raises, with one there is a page.
  abbrev pub Reported : List Item → Result Text → Type 0
  Reported [] page = page ≡ raise type_error
  Reported (q ∷ qs) page = (html : Text) × (page ≡ ok html)

  best_iter-ok :
      (qs : List Query) (e : Entry fl.F) (es : List (Entry fl.F))
      → (b : Cell fl.F) × (best_iter o qs (dicts (e ∷ es)) ≡ ok b)
  best_iter-ok [] e es = (_, (best_iter-dicts o python e es).0)
  best_iter-ok (q ∷ qs) e es = (_, (best_iter-dicts o python e es).1 q qs)

  pub generate_html-Reported :
      (test_set : List Item) (info : Dict (Cell fl.F)) (e : Entry fl.F) (es : List (Entry fl.F))
      (refresh : Bool) (name : Text)
      → Described info
      → All (Tested test_set) (e ∷ es)
      → Reported test_set
          (generate_html fl four_fifths half o repr info (dicts (e ∷ es)) refresh name)
  unfolding generate_html escape_cell
  generate_html-Reported [] info e es refresh name ((t, original), (u, best)) tested =
      let (train, got) = train_queries-ok (e ∷ es) in
      let (test, gotten) = test_queries-ok (e ∷ es) in
      let (b, chosen) = best_iter-ok test e es in
      rw
        (
          got,
          gotten,
          original,
          best,
          chosen,
          rows-none fl four_fifths half o repr train test b e es tested.0,
        )
        refl
  generate_html-Reported (q ∷ qs) info e es refresh name ((t, original), (u, best)) tested =
      let (train, got) = train_queries-ok (e ∷ es) in
      let (test, gotten) = test_queries-ok (e ∷ es) in
      let (b, chosen) = best_iter-ok test e es in
      let (body, made) = rows-ok fl four_fifths half o repr train test b (e ∷ es) tested in
      (
        page_text fl four_fifths half o repr info refresh name train test (escape t) (escape u)
            body,
        rw (got, gotten, original, best, chosen, made) refl,
      )
