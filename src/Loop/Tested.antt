-- ===== src/Loop/Tested.antt =====
-- The test results in the history of run_loop.py: every entry has them, or none has.
use my_besu_net.Base.{
  ℕ, zero, suc, ◌+◌, List, [], ◌∷◌, ◌++◌, none, some, ◌≡◌, refl, sym, ap, subst, ◌∙◌, ◌==◌, All,
  All-append, Bool-cases, inl, inr,
}
use my_besu_net.Base.Text.{Text}
use my_besu_net.Eval.Pool.{Item}
use my_besu_net.Eval.Report.{Report, run_eval}
use my_besu_net.Floats.{Floats}
use my_besu_net.Json.{>>=-ok, Result, ok}
use my_besu_net.Loop.Best.{first_max}
use my_besu_net.Loop.Exit.{step_evaluate, step_improve, loop, stopped, iterate-step}
use my_besu_net.Loop.History.{Entry, entry_of, test_part}
use my_besu_net.Loop.Run.{
  unknown, all_passed, max_iterations, LoopState, LoopOutput, Calls, evaluate, iterate, conclude,
  run_sets, score_key, report,
}

module _ {F : Type 0} where
  -- With a test set an entry has test results, without one it has none.
  abbrev pub Tested : List Item → Entry F → Type 0
  Tested [] e = e.test_results ≡ none
  Tested (q ∷ qs) e = (rs : List (Report F)) × (e.test_results ≡ some rs)

  pub entry_of-Tested :
      (i : ℕ) (d : Text) (train_set test_set : List Item) (rs : List (Report F))
      → Tested test_set (entry_of i d train_set test_set rs)
  unfolding entry_of
  entry_of-Tested i d train_set [] rs = refl
  entry_of-Tested i d train_set (q ∷ qs) rs = (test_part train_set rs, refl)

module _ (fl : Floats) (trigger_threshold : fl.F) (calls : Calls fl.F) (skill_name : Text)
    (train_set test_set : List Item) (limit : ℕ) where
  abbrev looping : Text → ℕ → ℕ → Text → List (Entry fl.F) → Result (LoopState fl.F)
  looping = loop fl trigger_threshold calls skill_name train_set test_set limit

  pub evaluate-Tested :
      (i : ℕ) (d : Text) {e : Entry fl.F}
      → step_evaluate fl trigger_threshold calls skill_name train_set test_set limit i d ≡ ok e
      → Tested test_set e
  unfolding evaluate
  evaluate-Tested i d {e} h =
      let (out, run, last) =
        >>=-ok (run_eval fl trigger_threshold skill_name d (calls.pool i d (train_set ++ test_set)))
          (λ out. ok (entry_of i d train_set test_set out.results)) h in
      let same : entry_of i d train_set test_set out.results ≡ e = cc in
      subst (Tested test_set) same (entry_of-Tested i d train_set test_set out.results)

  -- Every entry of the history of a loop has test results, or none has.
  pub iterate-Tested :
      (original : Text) (left i : ℕ) (d : Text) (before : List (Entry fl.F)) {s : LoopState fl.F}
      → All (Tested test_set) before
      → looping original left i d before ≡ ok s
      → All (Tested test_set) s.history
  unfolding iterate
  iterate-Tested original zero i d before {s} h run =
      let same : record { exit_reason = unknown; current_description = d; history = before } ≡ s =
        cc in
      subst (λ (s : LoopState fl.F). All (Tested test_set) s.history) same h
  iterate-Tested original (suc left) i d before {s} h run =
      let (e, evaluated, _, _, next) =
        iterate-step fl trigger_threshold calls skill_name train_set test_set limit original left i
          d before run in
      let history = before ++ e ∷ [] in
      let tested : All (Tested test_set) history =
        All-append (Tested test_set) before (e ∷ []) h (evaluate-Tested i d evaluated, tt) in
      elim (Bool-cases (e.train.failed == 0)) [
        | inl passed ↦
            let same : stopped fl trigger_threshold calls skill_name train_set test_set limit
                  (all_passed i) d history
                ≡ s =
              cc (rw passed at next) in
            subst (λ s. All (Tested test_set) s.history) same tested
        | inr failing ↦ elim (Bool-cases (i == limit)) [
          | inl over ↦
              let same : stopped fl trigger_threshold calls skill_name train_set test_set limit
                    (max_iterations limit) d history
                  ≡ s =
                cc (rw (failing, over) at next) in
              subst (λ s. All (Tested test_set) s.history) same tested
          | inr going ↦
              let (d', _, rest) =
                >>=-ok
                  (step_improve fl trigger_threshold calls skill_name train_set test_set limit i d e
                    history)
                  (λ d'. looping original left (i + 1) d' history) (rw (failing, going) at next) in
              iterate-Tested original left (i + 1) d' history tested rest
        ]
      ]

  -- What a run that raises nothing returns: its history has a first entry, and its best description is
  -- that of the first entry of the history with the largest score.
  pub run_sets-Tested :
      (original start : Text) {out : LoopOutput fl.F}
      → run_sets fl trigger_threshold calls skill_name train_set test_set limit original start
        ≡ ok out
      → (e : Entry fl.F) × (es : List (Entry fl.F)) × (out.history ≡ e ∷ es)
        × (out.best_description
            ≡ (first_max
                (score_key fl trigger_threshold calls skill_name train_set test_set limit)
                e
                es).description)
        × All (Tested test_set) (e ∷ es)
  unfolding run_sets conclude
  run_sets-Tested original start {out} run =
      let (s, looped, ended) =
        >>=-ok (looping original limit 1 start [])
          (λ s.
            conclude fl trigger_threshold calls skill_name train_set test_set limit original s
              s.history)
          run in
      concluded s s.history refl ended (iterate-Tested original limit 1 start [] tt looped)
    where
      concluded :
          (s : LoopState fl.F) (h : List (Entry fl.F))
          → s.history ≡ h
          → conclude fl trigger_threshold calls skill_name train_set test_set limit original s h
            ≡ ok out
          → All (Tested test_set) h
          → (e : Entry fl.F) × (es : List (Entry fl.F)) × (out.history ≡ e ∷ es)
            × (out.best_description
                ≡ (first_max
                    (score_key fl trigger_threshold calls skill_name train_set test_set limit)
                    e
                    es).description)
            × All (Tested test_set) (e ∷ es)
      concluded s [] h ended tested = cc
      concluded s (e ∷ es) h ended tested =
          let same : report fl trigger_threshold calls skill_name train_set test_set limit original
                s
                (first_max
                  (score_key fl trigger_threshold calls skill_name train_set test_set limit) e es)
              ≡ out =
            cc in
          (
            e,
            es,
            ap (λ (o : LoopOutput fl.F). o.history) (sym same) ∙ h,
            ap (λ (o : LoopOutput fl.F). o.best_description) (sym same),
            tested,
          )
