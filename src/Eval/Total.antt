-- ===== src/Eval/Total.antt =====
-- `run_eval` finds an entry for every key that it looks up, and what it reports of each query
-- (run_eval.py).
use my_besu_net.Base.{
  ℕ, ◌+◌, ◌-◌, Bool, List, [], ◌∷◌, Option, none, some, ◌≡◌, ◌≢◌, refl, sym, ◌∙◌, arith, Bool-cases,
  inl, inr, length, count_if, count_if-le-length,
}
use my_besu_net.Base.Dict.{Dict, lookup, NodupKeys}
use my_besu_net.Base.Text.{Text, equal, equal_iff, equal_refl}
use my_besu_net.Eval.Pool.{
  Item, Completion, empty, collect, outcomes_for, last_item, extend, lookup-collect,
  lookup-collect-items, collect-NodupKeys,
}
use my_besu_net.Eval.Report.{
  Report, EvalOutput, judge_all, judge, get_item, run_eval, find, self, did_pass, passes,
}
use my_besu_net.Floats.{Floats}
use my_besu_net.Json.{ok}

extend-eq-some : (bs cs : List Bool) → extend none bs ≡ some cs → (bs ≡ cs) × (cs ≢ [])
extend-eq-some [] cs h = cc
extend-eq-some (b ∷ bs) cs h = ground arith

last_item-some :
    (q : Text) (cs : List Completion) (item : Item)
    → (last : Item) × (last_item q (some item) cs ≡ some last)
unfolding last_item
last_item-some q [] item = (item, refl)
last_item-some q (c ∷ cs) item = elim (Bool-cases (equal c.item.query q)) [
  | inl e ↦ rw e (last_item-some q cs c.item)
  | inr e ↦ rw e (last_item-some q cs item)
]

pub last_item-found :
    (q : Text) (cs : List Completion) (before : Option Item)
    → outcomes_for q cs ≢ []
    → (last : Item) × (last_item q before cs ≡ some last)
unfolding last_item outcomes_for
last_item-found q [] before h = absurd (h refl)
last_item-found q (c ∷ cs) before h = elim (Bool-cases (equal c.item.query q)) [
  | inl e ↦ rw e (last_item-some q cs c.item)
  | inr e ↦ rw e (last_item-found q cs before (λ none_left. h (rw e none_left)))
]

module _ (fl : Floats) (trigger_threshold : fl.F) where
  -- The report of a query that triggered in some of its runs.
  abbrev pub report_by : Text → Item → ℕ → ℕ → Report fl.F
  report_by q item triggers runs = record {
    query = q;
    should_trigger = item.should_trigger;
    trigger_rate = fl.ratio triggers runs;
    triggers = triggers;
    runs = runs;
    pass = did_pass fl trigger_threshold item.should_trigger (fl.ratio triggers runs);
  }

  abbrev pub report_on : Text → Item → List Bool → Report fl.F
  report_on q item bs = report_by q item (count_if self bs) (length bs)

  abbrev pub verdict : Text → Option Item → Option (List Bool) → Option (Report fl.F)
  verdict q item none = none
  verdict q none (some bs) = none
  verdict q (some item) (some bs) = some (report_on q item bs)

  -- The report that a query is due: none without a completion, and else by its own results.
  abbrev pub expected : Text → List Completion → Option (Report fl.F)
  expected q cs = verdict q (last_item q none cs) (extend none (outcomes_for q cs))

  -- every entry has an item and a result
  abbrev Ready : Dict Item → Dict (List Bool) → Type 0
  Ready items d =
      (q : Text) (bs : List Bool)
      → lookup q d ≡ some bs
      → ((item : Item) × (lookup q items ≡ some item)) × (bs ≢ [])

  Ready-tail :
      (items : Dict Item) (k : Text) (bs : List Bool) (d : Dict (List Bool))
      → lookup k d ≡ none
      → Ready items ((k, bs) ∷ d)
      → Ready items d
  unfolding lookup
  Ready-tail items k bs d fresh h q cs e = h q cs (ground (arith, equal_iff k q))

  judge-ok :
      (q : Text) (item : Item) (bs : List Bool)
      → bs ≢ []
      → judge fl trigger_threshold q item bs ≡ ok (report_on q item bs)
  unfolding judge
  judge-ok q item [] ne = absurd (ne refl)
  judge-ok q item (b ∷ bs) ne = refl

  judge_all-ok :
      (items : Dict Item) (d : Dict (List Bool))
      → NodupKeys d
      → Ready items d
      → (rs : List (Report fl.F)) × (judge_all fl trigger_threshold items d ≡ ok rs)
        × ((q : Text) → find q rs ≡ verdict q (lookup q items) (lookup q d))
  unfolding judge_all lookup find
  judge_all-ok items [] u h = ([], refl, λ q. refl)
  judge_all-ok items ((k, bs) ∷ d) (fresh, u) h =
      let ((item, found), ne) = h k bs (rw (equal_refl k)) in
      let (rs, run, reads) = judge_all-ok items d u (Ready-tail items k bs d fresh h) in
      (
        report_on k item bs ∷ rs,
        rw (found, get_item) (rw (judge-ok k item bs ne) (rw run)),
        λ q. elim (Bool-cases (equal k q)) [
          | inl e ↦ let same = (equal_iff k q).0 e in rw e (rw (← same) (rw found))
          | inr e ↦ rw e (reads q)
        ],
      )

  collect-Ready :
      (cs : List Completion)
      → Ready (collect cs empty).query_items (collect cs empty).query_triggers
  unfolding lookup
  collect-Ready cs q bs e =
      let e' = extend-eq-some (outcomes_for q cs) bs (sym (lookup-collect q cs empty) ∙ e) in
      let (item, found) = last_item-found q cs none (λ h. e'.1 (sym e'.0 ∙ h)) in
      ((item, lookup-collect-items q cs empty ∙ found), e'.1)

  -- Whatever order the futures complete in and whatever they raise, `run_eval` itself raises
  -- nothing (no missing key, no division by zero). It reports on each query that has a completion,
  -- and on no other: the runs are its completions, the triggers those that returned True, and the
  -- verdict compares their ratio with the threshold. Passed and failed add up to the total.
  pub run_eval-ok :
      (skill_name description : Text) (cs : List Completion)
      → (out : EvalOutput fl.F) × (run_eval fl trigger_threshold skill_name description cs ≡ ok out)
        × ((q : Text) → find q out.results ≡ expected q cs)
        × (out.passed + out.failed ≡ out.total)
        × (out.total ≡ length out.results)
  unfolding run_eval lookup
  run_eval-ok skill_name description cs =
      let pool = collect cs empty in
      let (rs, run, reads) =
        judge_all-ok pool.query_items pool.query_triggers (collect-NodupKeys cs empty tt)
          (collect-Ready cs) in
      (
        record {
          skill_name = skill_name;
          description = description;
          results = rs;
          total = length rs;
          passed = count_if (passes fl trigger_threshold) rs;
          failed = length rs - count_if (passes fl trigger_threshold) rs;
        },
        rw run,
        λ q. reads q ∙ rw (lookup-collect q cs empty, lookup-collect-items q cs empty),
        omega (arith, count_if-le-length (passes fl trigger_threshold) rs),
        refl,
      )
