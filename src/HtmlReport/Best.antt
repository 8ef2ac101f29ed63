-- ===== src/HtmlReport/Best.antt =====
-- The row that the report of generate_report.py marks as the best.
use my_besu_net.Base.{
  ℕ, List, [], ◌∷◌, none, ◌≡◌, ◌≢◌, ◌⊎◌, inl, inr, refl, sym, subst, All, IsIn, IsIn-append,
}
use my_besu_net.Base.Dict.{lookup}
use my_besu_net.Base.Text.{Text, equal}
use my_besu_net.Eval.Pool.{Item}
use my_besu_net.Floats.{Floats}
use my_besu_net.HtmlReport.Entries.{best_iter-dicts}
use my_besu_net.HtmlReport.Live.{dicts}
use my_besu_net.HtmlReport.Page.{CellOrder, IsPython, reports_of, test_queries, best_iter}
use my_besu_net.HtmlReport.Parts.{Query}
use my_besu_net.Json.{ok}
use my_besu_net.Loop.Best.{first_max, first_max-IsFirstMax}
use my_besu_net.Loop.History.{Entry, number, to_dict, results_cell}
use my_besu_net.Loop.Run
use my_besu_net.Loop.Run.{Calls, LoopOutput, run_sets, score_key}
use my_besu_net.Loop.Tested.{Tested, run_sets-Tested}

first_max-IsIn :
    {A : Type 0} (key : A → ℕ) (b : A) (xs : List A) → IsIn (first_max key b xs) (b ∷ xs)
first_max-IsIn key b xs =
    let first = first_max-IsFirstMax key b xs in
    subst (IsIn (first_max key b xs)) (sym first.splits) (
      IsIn-append (first_max key b xs) first.before (first_max key b xs ∷ first.behind)
        (inr (inl refl)))

test_queries-nil :
    {F : Type 0} (e : Entry F) (es : List (Entry F))
    → e.test_results ≡ none
    → test_queries (dicts (e ∷ es)) ≡ ok []
unfolding test_queries to_dict lookup equal results_cell reports_of
test_queries-nil e es h = rw h refl

module _ {F : Type 0} (o : CellOrder F) (python : IsPython o) where
  abbrev key_of : List Item → Entry F → ℕ
  key_of test_set e = elim test_set [ [] ↦ Run.train_key e | _ ∷ _ ↦ Run.test_key e ]

  best_iter-Tested :
      (test_set : List Item) (qs : List Query) (e : Entry F) (es : List (Entry F))
      → All (Tested test_set) (e ∷ es)
      → test_queries (dicts (e ∷ es)) ≡ ok qs
      → (test_set ≡ []) ⊎ (qs ≢ [])
      → best_iter o qs (dicts (e ∷ es)) ≡ ok (number (first_max (key_of test_set) e es).iteration)
  best_iter-Tested [] [] e es tested asked some_query = (best_iter-dicts o python e es).0
  best_iter-Tested [] (q ∷ qs) e es tested asked some_query = cc (test_queries-nil e es tested.0)
  best_iter-Tested (t ∷ ts) (q ∷ qs) e es tested asked some_query =
      (best_iter-dicts o python e es).1 q qs
  best_iter-Tested (t ∷ ts) [] e es tested asked (inl h) = cc
  best_iter-Tested (t ∷ ts) [] e es tested asked (inr h) = absurd (h refl)

module _ (fl : Floats) (o : CellOrder fl.F) (python : IsPython o) (trigger_threshold : fl.F)
    (calls : Calls fl.F) (skill_name : Text) (train_set test_set : List Item) (limit : ℕ) where
  -- The row of the best iteration is that of an entry that has the best description of run_loop, if the
  -- report has a test query whenever there is a test set.
  pub best_iter-run_sets :
      (original start : Text) (qs : List Query) {out : LoopOutput fl.F}
      → run_sets fl trigger_threshold calls skill_name train_set test_set limit original start
        ≡ ok out
      → test_queries (dicts out.history) ≡ ok qs
      → (test_set ≡ []) ⊎ (qs ≢ [])
      → (b : Entry fl.F) × IsIn b out.history
        × (b.description ≡ out.best_description)
        × (best_iter o qs (dicts out.history) ≡ ok (number b.iteration))
  best_iter-run_sets original start qs {out} run asked some_query =
      let (e, es, split, best, tested) =
        run_sets-Tested fl trigger_threshold calls skill_name train_set test_set limit original
          start run in
      let key = score_key fl trigger_threshold calls skill_name train_set test_set limit in
      let b = first_max key e es in
      (
        b,
        subst (IsIn b) (sym split) (first_max-IsIn key e es),
        sym best,
        subst (λ h. best_iter o qs (dicts h) ≡ ok (number b.iteration)) (sym split)
            (best_iter-Tested o python test_set qs e es tested
              (subst (λ h. test_queries (dicts h) ≡ ok qs) split asked) some_query),
      )
