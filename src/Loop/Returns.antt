-- ===== src/Loop/Returns.antt =====
-- When `run_loop` returns, and what it raises else (run_loop.py, lines 76 to 241).
use my_besu_net.Base.{
  ℕ, zero, suc, ◌+◌, List, [], ◌∷◌, ◌++◌, ◌≡◌, ◌≢◌, inl, inr, refl, arith, ltb, ◌==◌, length, All,
  All-append, Bool-cases,
}
use my_besu_net.Base.Text.{Text}
use my_besu_net.Eval.Pool.{Item}
use my_besu_net.Floats.{Floats}
use my_besu_net.Improve.{improve_description, parse_answer, hard_limit}
use my_besu_net.Json.{Result, ok}
use my_besu_net.Loop.Exit.{
  evaluate-ok, iterate-proceed, loop, step_improve, step_live, proceed, stopped,
}
use my_besu_net.Loop.History.{Entry}
use my_besu_net.Loop.Result.{conclude-ok, run-Ends, Ends-ne-nil, output}
use my_besu_net.Loop.Run.{
  ExitReason, unknown, all_passed, max_iterations, LoopState, Calls, improve, iterate, run_sets,
}
use my_besu_net.Loop.Tested.{Tested, evaluate-Tested}
use my_besu_net.Loop.Live.{
  IsWritable, Runs, Ended, Returns, Ended-Runs, Ended->>=, write_live-Ended,
}

-- each call of `claude -p` gives an answer
abbrev pub Answers : {F : Type 0} → Calls F → Type 0
Answers calls = (i : ℕ) (text : Text) → (answer : Text) × (calls.call_claude i text ≡ ok answer)

improve_description-ok :
    (call_claude : Text → Result Text) (shorten_prompt : Text → Text → Text) (prompt : Text)
    → ((text : Text) → (answer : Text) × (call_claude text ≡ ok answer))
    → (d : Text) × (improve_description call_claude shorten_prompt prompt ≡ ok d)
unfolding improve_description
improve_description-ok call_claude shorten_prompt prompt h =
    let (answer, e) = h prompt in
    let (answer', e') = h (shorten_prompt prompt (parse_answer answer)) in
    elim (Bool-cases (ltb hard_limit (length (parse_answer answer)))) [
      | inl long ↦ (parse_answer answer', rw e (rw long (rw e')))
      | inr short ↦ (parse_answer answer, rw e (rw short))
    ]

append-ne-nil : {A : Type 0} (before : List A) (e : A) → before ++ e ∷ [] ≢ []
append-ne-nil [] e h = cc
append-ne-nil (b ∷ before) e h = cc

module _ (fl : Floats) (trigger_threshold : fl.F) (calls : Calls fl.F) (skill_name : Text)
    (train_set test_set : List Item) (limit : ℕ) (original : Text) where
  abbrev looping : ℕ → ℕ → Text → List (Entry fl.F) → Result (LoopState fl.F)
  looping = loop fl trigger_threshold calls skill_name train_set test_set limit original

  abbrev halted : ExitReason → Text → List (Entry fl.F) → LoopState fl.F
  halted = stopped fl trigger_threshold calls skill_name train_set test_set limit

  abbrev going_on : ℕ → ℕ → Text → List (Entry fl.F) → Entry fl.F → Result (LoopState fl.F)
  going_on = proceed fl trigger_threshold calls skill_name train_set test_set limit original

  improve-ok :
      Answers calls
      → (i : ℕ) (d : Text) (e : Entry fl.F) (h : List (Entry fl.F))
      → (d' : Text) × (step_improve fl trigger_threshold calls skill_name train_set test_set limit i
            d e h
          ≡ ok d')
  unfolding improve
  improve-ok answers i d e h =
      improve_description-ok (calls.call_claude i) calls.shorten_prompt _ (answers i)

  proceed-ok :
      (left i : ℕ) (d : Text) (before : List (Entry fl.F)) (e : Entry fl.F)
      → Answers calls
      → ((d' : Text) → (s : LoopState fl.F) × (looping left (i + 1) d' (before ++ e ∷ []) ≡ ok s))
      → (s : LoopState fl.F) × (going_on left i d before e ≡ ok s)
  proceed-ok left i d before e answers more =
      let (d', improved) = improve-ok answers i d e (before ++ e ∷ []) in
      let (s, rest) = more d' in
      elim (Bool-cases (e.train.failed == 0)) [
        | inl passed ↦ (halted (all_passed i) d (before ++ e ∷ []), rw passed refl)
        | inr failing ↦ elim (Bool-cases (i == limit)) [
          | inl over ↦ (halted (max_iterations limit) d (before ++ e ∷ []), rw (failing, over) refl)
          | inr going ↦ (s, rw (failing, going) (rw improved rest))
        ]
      ]

  module _ (answers : Answers calls) (writable : IsWritable calls.live) where
    -- One iteration ends as its live report does, if what follows it has a result.
    iterate-Ended :
        (left i : ℕ) (d : Text) (before : List (Entry fl.F))
        → All (Tested test_set) before
        → ((d' : Text) (h : List (Entry fl.F))
            → Runs calls.live test_set
            → All (Tested test_set) h
            → (s : LoopState fl.F) × (looping left (i + 1) d' h ≡ ok s))
        → Ended calls.live test_set (looping (suc left) i d before)
    iterate-Ended left i d before tested more =
        let (e, evaluated, _, _) =
          evaluate-ok fl trigger_threshold calls skill_name train_set test_set limit i d in
        let history = before ++ e ∷ [] in
        let tested' : All (Tested test_set) history =
          All-append (Tested test_set) before (e ∷ []) tested (
            evaluate-Tested fl trigger_threshold calls skill_name train_set test_set limit i d
                evaluated,
            tt,
          ) in
        rw
          (iterate-proceed fl trigger_threshold calls skill_name train_set test_set limit original
            left i d before e evaluated)
          (Ended->>= calls.live test_set
            (step_live fl trigger_threshold calls skill_name train_set test_set limit original i d
              history)
            (λ _. going_on left i d before e)
            (write_live-Ended fl trigger_threshold calls skill_name train_set calls.live test_set
              limit original i d history writable (append-ne-nil before e) tested')
            (λ _ _ runs. proceed-ok left i d before e answers (λ d'. more d' history runs tested')))

    iterate-ok :
        (left i : ℕ) (d : Text) (before : List (Entry fl.F))
        → Runs calls.live test_set
        → All (Tested test_set) before
        → (s : LoopState fl.F) × (looping left i d before ≡ ok s)
    iterate-ok zero i d before runs tested = (halted unknown d before, unfold iterate in refl)
    iterate-ok (suc left) i d before runs tested =
        Ended-Runs calls.live test_set (looping (suc left) i d before) runs
          (iterate-Ended left i d before tested (iterate-ok left (i + 1)))

module _ (fl : Floats) (trigger_threshold : fl.F) (calls : Calls fl.F) (skill_name : Text)
    (train_set test_set : List Item) where
  pub run_sets-Returns :
      (limit : ℕ) (original start : Text)
      → Answers calls
      → IsWritable calls.live
      → Returns limit calls.live test_set
          (run_sets fl trigger_threshold calls skill_name train_set test_set limit original start)
  unfolding run_sets
  run_sets-Returns zero original start answers writable = refl
  run_sets-Returns (suc left) original start answers writable =
      Ended->>= calls.live test_set
        (loop fl trigger_threshold calls skill_name train_set test_set (suc left) original
          (suc left) 1 start [])
        _
        (iterate-Ended fl trigger_threshold calls skill_name train_set test_set (suc left) original
          answers writable left 1 start [] tt
          (iterate-ok fl trigger_threshold calls skill_name train_set test_set (suc left) original
            answers writable left (1 + 1)))
        (λ s looped _.
          let ended =
            run-Ends fl trigger_threshold calls skill_name train_set test_set (suc left) original
              start s (omega arith) looped in
          let ne =
            Ends-ne-nil fl trigger_threshold calls skill_name train_set test_set (suc left) s
              ended in
          let (best, made, _) =
            conclude-ok fl trigger_threshold calls skill_name train_set test_set (suc left) original
              s s.history ne in
          (
            output fl trigger_threshold calls skill_name train_set test_set (suc left) original s
                best,
            made,
          ))
