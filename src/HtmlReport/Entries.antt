-- ===== src/HtmlReport/Entries.antt =====
-- The report of generate_report.py on entries that run_loop.py writes.
use my_besu_net.Base.{
  ℕ, List, [], ◌∷◌, ◌++◌, Option, none, some, ◌≡◌, inl, inr, refl, sym, ap, subst, ◌∙◌, arith,
  if◌then◌else◌, ltb, ◌==◌, map, All, Bool-cases,
}
use my_besu_net.Base.Dict.{Dict, lookup}
use my_besu_net.Base.Text.{Text, equal}
use my_besu_net.Eval.Report.{Report}
use my_besu_net.Floats.{Floats}
use my_besu_net.HtmlReport.Live.{dicts}
use my_besu_net.HtmlReport.Page.{
  CellOrder, IsPython, train_queries, test_queries, test_key, train_key, reports_of, escape_cell,
  greatest, best_of, best_iter, row, rows, query_of,
}
use my_besu_net.HtmlReport.Parts.{Query}
use my_besu_net.Json.{Result, ok, raise, ◌>>=◌, type_error}
use my_besu_net.Loop.Best.{first_max}
use my_besu_net.Loop.Cells.{is_truthy}
use my_besu_net.Loop.History.{Cell, Entry, number, to_dict, test_cell, results_cell, Summary}
use my_besu_net.Loop.Run

module _ {F : Type 0} where
  abbrev pub HasTests : Entry F → Type 0
  HasTests e = (rs : List (Report F)) × (e.test_results ≡ some rs)

  train_key-to_dict : (e : Entry F) → train_key (to_dict e) ≡ number (Run.train_key e)
  unfolding to_dict lookup equal
  train_key-to_dict e = refl

  passed_key :
      (o : Option Summary)
      → (let passed = test_cell {F = F} (λ s. s.passed) o in
          if is_truthy passed then passed else number 0)
        ≡ number (elim o as (λ x. ℕ) [ none ↦ 0 | some s ↦ s.passed ])
  unfolding test_cell
  passed_key none = refl
  passed_key (some s) = elim (Bool-cases (s.passed == 0)) [
    | inl zeroed ↦ rw zeroed (ap number (ground arith))
    | inr more ↦ rw more refl
  ]

  test_key-to_dict : (e : Entry F) → test_key (to_dict e) ≡ number (Run.test_key e)
  unfolding to_dict lookup equal
  test_key-to_dict e = passed_key e.test

  pub train_queries-ok :
      (es : List (Entry F)) → (qs : List Query) × (train_queries (dicts es) ≡ ok qs)
  unfolding train_queries to_dict lookup equal reports_of
  train_queries-ok [] = ([], refl)
  train_queries-ok (e ∷ es) = (_, refl)

  pub test_queries-ok :
      (es : List (Entry F)) → (qs : List Query) × (test_queries (dicts es) ≡ ok qs)
  unfolding test_queries to_dict lookup equal reports_of results_cell
  test_queries-ok [] = ([], refl)
  test_queries-ok (e ∷ es) = queries e.test_results
    where
      queries :
          (o : Option (List (Report F)))
          → (qs : List Query) × ((if is_truthy (results_cell o)
                then (reports_of (results_cell o) >>= λ rs. ok (map query_of rs))
                else ok [])
              ≡ ok qs)
      queries none = ([], refl)
      queries (some []) = ([], refl)
      queries (some (r ∷ rs)) = (_, refl)

  module _ (o : CellOrder F) (python : IsPython o) where
    greatest-to_dict :
        (key : Dict (Cell F) → Cell F) (k : Entry F → ℕ)
        → ((e : Entry F) → key (to_dict e) ≡ number (k e))
        → (b : Entry F) (es : List (Entry F))
        → greatest o key (to_dict b) (dicts es) ≡ ok (to_dict (first_max k b es))
    unfolding greatest first_max
    greatest-to_dict key k same b [] = refl
    greatest-to_dict key k same b (e ∷ es) =
        let compared =
          ap (λ c. o.less c (key (to_dict e))) (same b)
          ∙ ap (o.less (number (k b))) (same e)
          ∙ python.less_number (k b) (k e) in
        rw compared (elim (Bool-cases (ltb (k b) (k e))) [
          | inl up ↦ rw up (greatest-to_dict key k same e es)
          | inr down ↦ rw down (greatest-to_dict key k same b es)
        ])

    -- The best iteration is that of the entry that run_loop chooses.
    pub best_iter-dicts :
        (b : Entry F) (es : List (Entry F))
        → (best_iter o [] (dicts (b ∷ es)) ≡ ok (number (first_max Run.train_key b es).iteration))
          × ((q : Query) (qs : List Query)
              → best_iter o (q ∷ qs) (dicts (b ∷ es))
                ≡ ok (number (first_max Run.test_key b es).iteration))
    unfolding best_iter best_of to_dict lookup equal
    best_iter-dicts b es = (
      rw (greatest-to_dict train_key Run.train_key train_key-to_dict b es) refl,
      λ q qs. rw (greatest-to_dict test_key Run.test_key test_key-to_dict b es) refl,
    )

module _ (fl : Floats) (four_fifths half : fl.F) (o : CellOrder fl.F)
    (repr : List (Report fl.F) → Text) where
  abbrev row_of : List Query → List Query → Cell fl.F → Dict (Cell fl.F) → Result Text
  row_of = row fl four_fifths half o repr

  row-none :
      (train test : List Query) (b : Cell fl.F) (e : Entry fl.F)
      → e.test_results ≡ none
      → row_of train test b (to_dict e) ≡ raise type_error
  unfolding row to_dict lookup equal reports_of results_cell
  row-none train test b e h = rw h refl

  row-tested :
      (train test : List Query) (b : Cell fl.F) (e : Entry fl.F) (rs : List (Report fl.F))
      → (t : Text) × (row_of train test b (to_dict (record e { test_results = some rs })) ≡ ok t)
  unfolding row to_dict lookup equal reports_of results_cell escape_cell
  row-tested train test b e [] = (_, refl)
  row-tested train test b e (r ∷ rs) = (_, refl)

  row-some :
      (train test : List Query) (b : Cell fl.F) (e : Entry fl.F)
      → HasTests e
      → (t : Text) × (row_of train test b (to_dict e) ≡ ok t)
  row-some train test b e (rs, h) =
      let same : record e { test_results = some rs } ≡ e =
        ap (λ o. record e { test_results = o }) (sym h) in
      subst (λ e. (t : Text) × (row_of train test b (to_dict e) ≡ ok t)) same
        (row-tested train test b e rs)

  -- The rows fail at an entry without test results, and are written where there is none.
  pub rows-none :
      (train test : List Query) (b : Cell fl.F) (e : Entry fl.F) (es : List (Entry fl.F))
      → e.test_results ≡ none
      → rows fl four_fifths half o repr train test b (dicts (e ∷ es)) ≡ raise type_error
  unfolding rows
  rows-none train test b e es h = rw (row-none train test b e h) refl

  pub rows-ok :
      (train test : List Query) (b : Cell fl.F) (es : List (Entry fl.F))
      → All HasTests es
      → (t : Text) × (rows fl four_fifths half o repr train test b (dicts es) ≡ ok t)
  unfolding rows
  rows-ok train test b [] h = ([], refl)
  rows-ok train test b (e ∷ es) h =
      let (first, made) = row-some train test b e h.0 in
      let (others, more) = rows-ok train test b es h.1 in (first ++ others, rw (made, more) refl)
