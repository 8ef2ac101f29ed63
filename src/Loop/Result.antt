-- ===== src/Loop/Result.antt =====
-- What `run_loop` returns (run_loop.py, lines 216 to 241).
use my_besu_net.Base.{
  ℕ, ◌≤◌, ◌<◌, List, [], ◌∷◌, ◌++◌, ◌≡◌, ◌≢◌, refl, sym, subst, ◌∙◌, arith, length, length-append,
}
use my_besu_net.Base.Text.{Text}
use my_besu_net.Eval.Pool.{Item}
use my_besu_net.Floats.{Floats}
use my_besu_net.Json.{>>=-ok, Result, ok}
use my_besu_net.Loop.Best.{first_max, IsFirstMax, first_max-IsFirstMax}
use my_besu_net.Loop.Exit.{Ends, iterate-Ends, loop}
use my_besu_net.Loop.History.{Entry}
use my_besu_net.Loop.Run.{LoopState, LoopOutput, Calls, conclude, report, run_sets, score_key}

module _ (fl : Floats) (trigger_threshold : fl.F) (calls : Calls fl.F) (skill_name : Text)
    (train_set test_set : List Item) (limit : ℕ) where
  abbrev pub result : Text → Text → Result (LoopOutput fl.F)
  result = run_sets fl trigger_threshold calls skill_name train_set test_set limit

  abbrev pub key : Entry fl.F → ℕ
  key = score_key fl trigger_threshold calls skill_name train_set test_set limit

  abbrev iterating : Text → ℕ → ℕ → Text → List (Entry fl.F) → Result (LoopState fl.F)
  iterating = loop fl trigger_threshold calls skill_name train_set test_set limit

  abbrev pub concluded : Text → LoopState fl.F → List (Entry fl.F) → Result (LoopOutput fl.F)
  concluded = conclude fl trigger_threshold calls skill_name train_set test_set limit

  abbrev pub output : Text → LoopState fl.F → Entry fl.F → LoopOutput fl.F
  output = report fl trigger_threshold calls skill_name train_set test_set limit

  abbrev state_of : LoopOutput fl.F → LoopState fl.F
  state_of out = record {
    exit_reason = out.exit_reason;
    current_description = out.final_description;
    history = out.history;
  }

  pub conclude-ok :
      (original : Text) (s : LoopState fl.F) (h : List (Entry fl.F))
      → h ≢ []
      → (best : Entry fl.F) × (concluded original s h ≡ ok (output original s best))
        × IsFirstMax key best h
  unfolding conclude
  conclude-ok original s [] ne = absurd (ne refl)
  conclude-ok original s (e ∷ es) ne = (first_max key e es, refl, first_max-IsFirstMax key e es)

  pub run-Ends :
      (original start : Text) (s : LoopState fl.F)
      → 0 < limit
      → iterating original limit 1 start [] ≡ ok s
      → Ends 1 limit s []
  run-Ends original start s h =
      iterate-Ends fl trigger_threshold calls skill_name train_set test_set limit original limit 1
        start [] s (omega arith) (omega arith)

  pub Ends-ne-nil : (s : LoopState fl.F) → Ends 1 limit s [] → s.history ≢ []
  Ends-ne-nil s t h = ne t.earlier (sym t.splits ∙ h)
    where
      ne : (es : List (Entry fl.F)) → es ++ t.last ∷ [] ≢ []
      ne [] h = cc
      ne (_ ∷ _) h = cc

  -- What a run that raises nothing returns: the loop has stopped at the first iteration all of whose
  -- train queries passed, or at the last one, and the exit reason says which; the description last
  -- tried is the final one; and the best description is that of the first entry of the history with
  -- the largest score, which is the test score where there is a test set, else the train score.
  pub run_sets-Ends :
      (original start : Text) {out : LoopOutput fl.F}
      → 0 < limit
      → result original start ≡ ok out
      → Ends 1 limit (state_of out) []
        × ((best : Entry fl.F) × (out.best_description ≡ best.description)
            × IsFirstMax key best out.history)
        × (out.iterations_run ≡ length out.history)
        × (out.iterations_run ≤ limit)
  unfolding run_sets
  run_sets-Ends original start {out} h run =
      let (s, looped, ended) =
        >>=-ok (iterating original limit 1 start []) (λ s. concluded original s s.history) run in
      let t = run-Ends original start s h looped in
      let (best, made, first) = conclude-ok original s s.history (Ends-ne-nil s t) in
      let same : output original s best ≡ out = cc in
      subst
        (λ o.
          Ends 1 limit (state_of o) []
          × ((b : Entry fl.F) × (o.best_description ≡ b.description) × IsFirstMax key b o.history)
          × (o.iterations_run ≡ length o.history)
          × (o.iterations_run ≤ limit))
        same
        (
          t,
          (best, refl, first),
          refl,
          rw t.splits (omega (arith, length-append t.earlier (t.last ∷ []), t.in_time)),
        )
