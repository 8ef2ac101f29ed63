-- ===== src/Eval/Counts.antt =====
-- Every run that is asked for is counted once (run_eval.py, lines 198 to 256).
use mathlib.Core.List.{Perm}
use my_besu_net.Base.{
  ℕ, zero, suc, ◌+◌, ◌*◌, Bool, List, [], ◌∷◌, Option, none, some, ◌≡◌, ◌≢◌, refl, ap, ◌∙◌, map,
  arith, if◌then◌else◌, length, count_if, count_if-perm,
}
use my_besu_net.Base.Text.{Text, equal}
use my_besu_net.Eval.Pool.{
  Item, Completion, repeat_onto, submissions, outcomes_for, last_item, extend,
}
use my_besu_net.Eval.Report.{Report, EvalOutput, run_eval, find}
use my_besu_net.Eval.Total.{verdict, last_item-found, run_eval-ok}
use my_besu_net.Floats.{Floats}
use my_besu_net.Json.{ok}

abbrev pub item_of : Completion → Item
item_of c = c.item

abbrev pub asks : Text → Item → Bool
asks q item = equal item.query q

-- `as_completed` yields each submitted future once, in some order.
abbrev pub IsSchedule : ℕ → List Item → List Completion → Type 0
IsSchedule runs_per_query eval_set cs = Perm (map item_of cs) (submissions runs_per_query eval_set)

length-outcomes_for :
    (q : Text) (cs : List Completion)
    → length (outcomes_for q cs) ≡ count_if (asks q) (map item_of cs)
unfolding outcomes_for
length-outcomes_for q [] = refl
length-outcomes_for q (c ∷ cs) = ground (arith, length-outcomes_for q cs)

count_if-repeat_onto :
    (p : Item → Bool) (runs : ℕ) (item : Item) (rest : List Item)
    → count_if p (repeat_onto runs item rest) ≡ runs * (if p item then 1 else 0) + count_if p rest
unfolding repeat_onto
count_if-repeat_onto p zero item rest = omega arith
count_if-repeat_onto p (suc runs) item rest = omega (arith, count_if-repeat_onto p runs item rest)

count_if-submissions :
    (p : Item → Bool) (runs : ℕ) (items : List Item)
    → count_if p (submissions runs items) ≡ runs * count_if p items
unfolding submissions
count_if-submissions p runs [] = omega arith
count_if-submissions p runs (item ∷ items) =
    count_if-repeat_onto p runs item (submissions runs items)
    ∙ omega (arith, count_if-submissions p runs items)

-- the results of a query, however the pool orders the futures
length-outcomes_for-IsSchedule :
    (runs_per_query : ℕ) (eval_set : List Item) (cs : List Completion) (q : Text)
    → IsSchedule runs_per_query eval_set cs
    → length (outcomes_for q cs) ≡ runs_per_query * count_if (asks q) eval_set
length-outcomes_for-IsSchedule runs_per_query eval_set cs q h =
    length-outcomes_for q cs
    ∙ count_if-perm (asks q) h
    ∙ count_if-submissions (asks q) runs_per_query eval_set

-- the runs that are reported for a query, 0 where there is no report
abbrev pub runs_in : {F : Type 0} → Option (Report F) → ℕ
runs_in none = 0
runs_in (some r) = r.runs

module _ (fl : Floats) (trigger_threshold : fl.F) where
  runs_in-verdict :
      (q : Text) (bs : List Bool) (o : Option Item)
      → (bs ≢ [] → (item : Item) × (o ≡ some item))
      → runs_in (verdict fl trigger_threshold q o (extend none bs)) ≡ length bs
  runs_in-verdict q [] o h = refl
  runs_in-verdict q (b ∷ bs) none h = let (item, e) = h (λ e. cc) in cc
  runs_in-verdict q (b ∷ bs) (some item) h = refl

  -- However the pool orders the futures of an eval set, `run_eval` returns, and the runs that it
  -- reports for a query are `runs_per_query` for each entry of the eval set that asks it; a query
  -- without a report counts as one with no runs.
  pub run_eval-IsSchedule :
      (skill_name description : Text) (runs_per_query : ℕ) (eval_set : List Item)
      (cs : List Completion) (q : Text)
      → IsSchedule runs_per_query eval_set cs
      → (out : EvalOutput fl.F) × (run_eval fl trigger_threshold skill_name description cs ≡ ok out)
        × (runs_in (find q out.results) ≡ runs_per_query * count_if (asks q) eval_set)
  run_eval-IsSchedule skill_name description runs_per_query eval_set cs q h =
      let (out, run, reads, _, _) = run_eval-ok fl trigger_threshold skill_name description cs in
      (
        out,
        run,
        ap runs_in (reads q)
            ∙ runs_in-verdict q (outcomes_for q cs) (last_item q none cs)
                (last_item-found q cs none)
            ∙ length-outcomes_for-IsSchedule runs_per_query eval_set cs q h,
      )
