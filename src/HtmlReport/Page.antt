-- ===== src/HtmlReport/Page.antt =====
-- `generate_html` of generate_report.py: `info` is the dict `data` without its history. `CellOrder` is
-- Python's `==` and `<` of the values of a history entry.
use my_besu_net.Base.{ℕ, Bool, true, false, List, [], ◌∷◌, ◌++◌, if◌then◌else◌, ltb, ◌==◌, ◌≡◌, map}
use my_besu_net.Base.Dict.{Dict, lookup, insert}
use my_besu_net.Base.Text.{Text, codes}
use my_besu_net.Eval.Report.{Report}
use my_besu_net.Floats.{Floats}
use my_besu_net.HtmlReport.Escape.{escape}
use my_besu_net.HtmlReport.Parts.{
  Query, legend, table_head, head_end, page_end, train_column, test_column, aggregate_runs,
  train_cell, test_cell, summary_part, row_head, row_end,
}
use my_besu_net.HtmlReport.Style.{page_head}
use my_besu_net.Json.{Result, ok, raise, ◌>>=◌, type_error, attribute_error, value_error}
use my_besu_net.Loop.Cells.{get_cell, is_truthy}
use my_besu_net.Loop.History.{Cell, number, text, reports, missing}

pub record CellOrder (F : Type 0) : Type 0 where
  pub same : Cell F → Cell F → Bool
  pub less : Cell F → Cell F → Result Bool

-- What Python says of ints.
pub record IsPython {F : Type 0} (o : CellOrder F) : Type 0 where
  pub same_number : (m n : ℕ) → o.same (number m) (number n) ≡ (m == n)
  pub less_number : (m n : ℕ) → o.less (number m) (number n) ≡ ok (ltb m n)

-- `"".join(html_parts)`
abbrev pub joined : List Text → Text
joined [] = []
joined (t ∷ ts) = t ++ joined ts

module _ {F : Type 0} where
  -- `for r in c`
  unfoldable pub reports_of : Cell F → Result (List (Report F))
  reports_of (reports rs) = ok rs
  reports_of (text []) = ok []
  reports_of _ = raise type_error

  -- `html.escape(c)`
  unfoldable pub escape_cell : Cell F → Result Text
  unfolding escape
  escape_cell (text t) = ok (escape t)
  escape_cell _ = raise attribute_error

  abbrev pub query_of : Report F → Query
  query_of r = (r.query, r.should_trigger)

  abbrev pub train_results_of : Dict (Cell F) → Cell F
  train_results_of h =
      get_cell (codes "train_results") (get_cell (codes "results") (reports []) h) h

  unfoldable pub train_queries : List (Dict (Cell F)) → Result (List Query)
  unfolding lookup reports_of
  train_queries [] = ok []
  train_queries (h ∷ hs) = do rs ← reports_of (train_results_of h); ok (map query_of rs)

  unfoldable pub test_queries : List (Dict (Cell F)) → Result (List Query)
  unfolding lookup reports_of
  test_queries [] = ok []
  test_queries (h ∷ hs) =
      let results = get_cell (codes "test_results") missing h in
      if is_truthy results then (do rs ← reports_of results; ok (map query_of rs)) else ok []

  -- `h.get("test_passed") or 0`
  abbrev pub test_key : Dict (Cell F) → Cell F
  test_key h =
      let passed = get_cell (codes "test_passed") missing h in
      if is_truthy passed then passed else number 0

  abbrev pub train_key : Dict (Cell F) → Cell F
  train_key h = get_cell (codes "train_passed") (get_cell (codes "passed") (number 0) h) h

  -- `{r["query"]: r for r in rs}`, in front of the entries so far
  unfoldable pub by_query : List (Report F) → Dict (Report F) → Dict (Report F)
  unfolding insert
  by_query [] d = d
  by_query (r ∷ rs) d = by_query rs (insert r.query r d)

  module _ (o : CellOrder F) (key : Dict (Cell F) → Cell F) where
    -- `max(history, key=…)`, behind the first entry
    unfoldable pub greatest : Dict (Cell F) → List (Dict (Cell F)) → Result (Dict (Cell F))
    greatest best [] = ok best
    greatest best (h ∷ hs) = do
      larger ← o.less (key best) (key h)
      greatest (if larger then h else best) hs

    unfoldable pub best_of : List (Dict (Cell F)) → Result (Cell F)
    unfolding greatest lookup
    best_of [] = raise value_error
    best_of (h ∷ hs) = do best ← greatest h hs; ok (get_cell (codes "iteration") missing best)

  unfoldable pub best_iter : CellOrder F → List Query → List (Dict (Cell F)) → Result (Cell F)
  unfolding best_of
  best_iter o [] history = best_of o train_key history
  best_iter o (q ∷ qs) history = best_of o test_key history

module _ (fl : Floats) (four_fifths half : fl.F) (o : CellOrder fl.F)
    (repr : List (Report fl.F) → Text) where
  -- the row of an entry
  unfoldable pub row : List Query → List Query → Cell fl.F → Dict (Cell fl.F) → Result Text
  unfolding row_head train_cell test_cell reports_of by_query aggregate_runs escape_cell lookup
  row train test best_iteration h = do
    let iteration = get_cell (codes "iteration") (text (codes "?")) h
    let test_results = get_cell (codes "test_results") (reports []) h
    train_rs ← reports_of (train_results_of h)
    let train_by_query = by_query train_rs []
    test_by_query ←
        (if is_truthy test_results
          then (do rs ← reports_of test_results; ok (by_query rs []))
          else ok [])
    test_rs ← reports_of test_results
    description ← escape_cell (get_cell (codes "description") (text []) h)
    ok (
        row_head fl four_fifths half repr (o.same iteration best_iteration) iteration
          (aggregate_runs train_rs) (aggregate_runs test_rs) description
        ++ joined (map (λ (q : Query). train_cell (lookup q.0 train_by_query)) train)
        ++ joined (map (λ (q : Query). test_cell (lookup q.0 test_by_query)) test)
        ++ row_end)

  unfoldable pub rows : List Query → List Query → Cell fl.F → List (Dict (Cell fl.F)) → Result Text
  unfolding row
  rows train test best_iteration [] = ok []
  rows train test best_iteration (h ∷ hs) = do
    first ← row train test best_iteration h
    others ← rows train test best_iteration hs
    ok (first ++ others)

  -- `title_prefix`
  abbrev pub title_prefix : Text → Text
  title_prefix [] = []
  title_prefix (c ∷ name) = escape ((c ∷ name) ++ codes " — ")

  abbrev pub refresh_tag : Bool → Text
  refresh_tag true = codes "    <meta http-equiv=\"refresh\" content=\"5\">\n"
  refresh_tag false = []

  -- the joined parts
  unfoldable pub page_text :
      Dict (Cell fl.F) → Bool → Text → List Query → List Query → Text → Text → Text → Text
  unfolding summary_part
  page_text info auto_refresh skill_name train test original best body =
      page_head (refresh_tag auto_refresh) (title_prefix skill_name)
      ++ summary_part repr info original best
      ++ legend
      ++ table_head
      ++ joined (map train_column train)
      ++ joined (map test_column test)
      ++ head_end
      ++ body
      ++ page_end

  unfoldable pub generate_html :
      Dict (Cell fl.F) → List (Dict (Cell fl.F)) → Bool → Text → Result Text
  unfolding train_queries test_queries escape_cell best_iter rows page_text lookup
  generate_html info history auto_refresh skill_name = do
    train ← train_queries history
    test ← test_queries history
    original ← escape_cell (get_cell (codes "original_description") (text (codes "N/A")) info)
    best ← escape_cell (get_cell (codes "best_description") (text (codes "N/A")) info)
    best_iteration ← best_iter o test history
    body ← rows train test best_iteration history
    ok (page_text info auto_refresh skill_name train test original best body)
