-- ===== src/Eval/Report.antt =====
-- The verdicts of `run_eval` (run_eval.py, lines 227 to 256).
use my_besu_net.Base.{
  ℕ, ◌-◌, Bool, List, [], ◌∷◌, Option, none, some, if◌then◌else◌, length, count_if,
}
use my_besu_net.Base.Dict.{Dict, lookup}
use my_besu_net.Base.Text.{Text, equal}
use my_besu_net.Eval.Pool.{Item, Completion, empty, collect}
use my_besu_net.Floats.{Floats}
use my_besu_net.Json.{Result, ok, raise, ◌>>=◌, key_error, zero_division_error}

-- an entry of `results`
pub record Report (F : Type 0) : Type 0 where
  pub query : Text
  pub should_trigger : Bool
  pub trigger_rate : F
  pub triggers : ℕ
  pub runs : ℕ
  pub pass : Bool

pub record EvalOutput (F : Type 0) : Type 0 where
  pub skill_name : Text
  pub description : Text
  pub results : List (Report F)
  pub total : ℕ
  pub passed : ℕ
  pub failed : ℕ

abbrev pub self : Bool → Bool
self b = b

-- `d[k]`
unfoldable pub get_item {ℓ} : {V : Type ℓ} → Text → Dict V → Result V
get_item k d = elim (lookup k d) [ none ↦ raise key_error | some v ↦ ok v ]

-- The report of a query.
unfoldable pub find : {F : Type 0} → Text → List (Report F) → Option (Report F)
find q [] = none
find q (r ∷ rs) = if equal r.query q then some r else find q rs

module _ (fl : Floats) (trigger_threshold : fl.F) where
  -- `sum(triggers) / len(triggers)`
  unfoldable pub rate : List Bool → Result fl.F
  rate [] = raise zero_division_error
  rate (b ∷ bs) = ok (fl.ratio (count_if self (b ∷ bs)) (length (b ∷ bs)))

  unfoldable pub did_pass : Bool → fl.F → Bool
  did_pass should_trigger trigger_rate =
      if should_trigger
      then fl.geb trigger_rate trigger_threshold
      else fl.ltb trigger_rate trigger_threshold

  -- the body of the loop over `query_triggers.items()`
  unfoldable pub judge : Text → Item → List Bool → Result (Report fl.F)
  unfolding rate did_pass
  judge query item triggers = do
    trigger_rate ← rate triggers
    ok (record {
      query = query;
      should_trigger = item.should_trigger;
      trigger_rate = trigger_rate;
      triggers = count_if self triggers;
      runs = length triggers;
      pass = did_pass item.should_trigger trigger_rate;
    })

  unfoldable pub judge_all : Dict Item → Dict (List Bool) → Result (List (Report fl.F))
  unfolding judge get_item
  judge_all items [] = ok []
  judge_all items ((query, triggers) ∷ d) = do
    item ← get_item query items
    report ← judge query item triggers
    reports ← judge_all items d
    ok (report ∷ reports)

  abbrev pub passes : Report fl.F → Bool
  passes r = r.pass

  -- The futures are given in the order in which they complete.
  unfoldable pub run_eval : Text → Text → List Completion → Result (EvalOutput fl.F)
  unfolding judge_all
  run_eval skill_name description completions =
      let pool = collect completions empty in
      do
        results ← judge_all pool.query_items pool.query_triggers
        let passed = count_if passes results
        let total = length results
        ok (record {
          skill_name = skill_name;
          description = description;
          results = results;
          total = total;
          passed = passed;
          failed = total - passed;
        })
