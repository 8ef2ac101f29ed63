-- ===== src/Loop/Exit.antt =====
-- How the loop of run_loop.py ends, and what its history holds.
use my_besu_net.Base.{
  ℕ, zero, suc, ◌+◌, ◌≤◌, List, [], ◌∷◌, ◌++◌, ◌≡◌, ◌≢◌, ◌⊎◌, inl, inr, refl, ap, sym, subst, ◌∙◌,
  arith, ◌==◌, if◌then◌else◌, length, All, Bool-cases, append_assoc,
}
use my_besu_net.Base.Text.{Text}
use my_besu_net.Eval.Pool.{Item}
use my_besu_net.Eval.Total.{run_eval-ok}
use my_besu_net.Floats.{Floats}
use my_besu_net.Json.{>>=-ok, Result, ok, ◌>>=◌}
use my_besu_net.Loop.History.{Entry, entry_of}
use my_besu_net.Loop.Run.{
  ExitReason, all_passed, max_iterations, LoopState, Calls, evaluate, improve, iterate, write_live,
}

module _ {F : Type 0} where
  -- the entries are numbered from `n`
  abbrev pub Numbered : ℕ → List (Entry F) → Type 0
  Numbered n [] = Unit
  Numbered n (e ∷ es) = (e.iteration ≡ n) × Numbered (n + 1) es

  abbrev pub Failing : Entry F → Type 0
  Failing e = e.train.failed ≢ 0

  -- How a run of the loop from iteration `first` to `limit` ends: all entries but the last have a
  -- failing train query; the last has none, or is the one of the last iteration.
  pub record Ends (first limit : ℕ) (s : LoopState F) (before : List (Entry F)) : Type 0 where
    pub earlier : List (Entry F)
    pub last : Entry F
    pub splits : s.history ≡ before ++ (earlier ++ last ∷ [])
    pub numbered : Numbered first (earlier ++ last ∷ [])
    pub earlier_fail : All Failing earlier
    pub reason :
        ((last.train.failed ≡ 0) × (s.exit_reason ≡ all_passed (first + length earlier)))
        ⊎ (Failing last × (s.exit_reason ≡ max_iterations limit) × (first + length earlier ≡ limit))
    pub in_time : first + length earlier ≤ limit
    pub final : s.current_description ≡ last.description

  -- a failing iteration in front of the others
  Ends-cons :
      (i limit : ℕ) (s : LoopState F) (before : List (Entry F)) (e : Entry F)
      → e.iteration ≡ i
      → Failing e
      → Ends (i + 1) limit s (before ++ e ∷ [])
      → Ends i limit s before
  Ends-cons i limit s before e number fails t = record {
    earlier = e ∷ t.earlier;
    last = t.last;
    splits = t.splits ∙ append_assoc before (e ∷ []) (t.earlier ++ t.last ∷ []);
    numbered = (number, t.numbered);
    earlier_fail = (fails, t.earlier_fail);
    reason = elim (t.reason) [
      | inl r ↦ inl (r.0, r.1 ∙ ap all_passed (omega arith))
      | inr r ↦ inr (r.0, r.1, omega arith)
    ];
    in_time = omega (arith, t.in_time);
    final = t.final;
  }

module _ (fl : Floats) (trigger_threshold : fl.F) (calls : Calls fl.F) (skill_name : Text)
    (train_set test_set : List Item) (limit : ℕ) where
  abbrev pub step_evaluate : ℕ → Text → Result (Entry fl.F)
  step_evaluate = evaluate fl trigger_threshold calls skill_name train_set test_set limit

  abbrev pub step_improve : ℕ → Text → Entry fl.F → List (Entry fl.F) → Result Text
  step_improve = improve fl trigger_threshold calls skill_name train_set test_set limit

  -- An evaluation succeeds, with an entry for its iteration and its description.
  pub evaluate-ok :
      (i : ℕ) (d : Text)
      → (e : Entry fl.F) × (step_evaluate i d ≡ ok e) × (e.iteration ≡ i) × (e.description ≡ d)
  unfolding evaluate entry_of
  evaluate-ok i d =
      let (out, run, _, _, _) =
        run_eval-ok fl trigger_threshold skill_name d (calls.pool i d (train_set ++ test_set)) in
      (entry_of i d train_set test_set out.results, rw run, refl, refl)

  abbrev pub stopped : ExitReason → Text → List (Entry fl.F) → LoopState fl.F
  stopped reason d history = record {
    exit_reason = reason;
    current_description = d;
    history = history;
  }

  Ends-last :
      (i : ℕ) (d : Text) (before : List (Entry fl.F)) (e : Entry fl.F) (reason : ExitReason)
      → e.iteration ≡ i
      → e.description ≡ d
      → i ≤ limit
      → ((e.train.failed ≡ 0) × (reason ≡ all_passed i))
        ⊎ (Failing e × (reason ≡ max_iterations limit) × (i ≡ limit))
      → Ends i limit (stopped reason d (before ++ e ∷ [])) before
  Ends-last i d before e reason number text le why = record {
    earlier = [];
    last = e;
    splits = refl;
    numbered = (number, tt);
    earlier_fail = tt;
    reason = elim why [
      | inl r ↦ inl (r.0, r.1 ∙ ap all_passed (omega arith))
      | inr r ↦ inr (r.0, r.1, omega arith)
    ];
    in_time = omega arith;
    final = sym text;
  }

  -- a run of the loop, and the write of its live report
  abbrev pub loop : Text → ℕ → ℕ → Text → List (Entry fl.F) → Result (LoopState fl.F)
  loop = iterate fl trigger_threshold calls skill_name train_set test_set limit

  abbrev pub step_live : Text → ℕ → Text → List (Entry fl.F) → Result (Unit {0})
  step_live original =
      write_live fl trigger_threshold calls skill_name train_set test_set limit original calls.live

  module _ (original : Text) where
    -- the three ways on behind the live report
    abbrev pub proceed : ℕ → ℕ → Text → List (Entry fl.F) → Entry fl.F → Result (LoopState fl.F)
    proceed left i d before e =
        if e.train.failed == 0
        then ok (stopped (all_passed i) d (before ++ e ∷ []))
        else if i == limit
        then ok (stopped (max_iterations limit) d (before ++ e ∷ []))
        else (step_improve i d e (before ++ e ∷ []) >>= λ d'.
            loop original left (i + 1) d' (before ++ e ∷ []))

    pub iterate-proceed :
        (left i : ℕ) (d : Text) (before : List (Entry fl.F)) (e : Entry fl.F)
        → step_evaluate i d ≡ ok e
        → loop original (suc left) i d before
          ≡ (step_live original i d (before ++ e ∷ []) >>= λ _. proceed left i d before e)
    unfolding iterate
    iterate-proceed left i d before e h = rw h

    -- an iteration of a run that raises nothing
    pub iterate-step :
        (left i : ℕ) (d : Text) (before : List (Entry fl.F)) {s : LoopState fl.F}
        → loop original (suc left) i d before ≡ ok s
        → (e : Entry fl.F) × (step_evaluate i d ≡ ok e)
          × (e.iteration ≡ i)
          × (e.description ≡ d)
          × (proceed left i d before e ≡ ok s)
    iterate-step left i d before run =
        let (e, evaluated, number, text) = evaluate-ok i d in
        let (_, _, rest) =
          >>=-ok (step_live original i d (before ++ e ∷ [])) (λ _. proceed left i d before e)
            (sym (iterate-proceed left i d before e evaluated) ∙ run) in
        (e, evaluated, number, text, rest)

    -- what is left when the loop goes on
    abbrev pub Continues : ℕ → Type 0
    Continues left =
        (i : ℕ) (d : Text) (before : List (Entry fl.F)) (s : LoopState fl.F)
        → i + left ≡ limit + 1
        → i ≢ limit + 1
        → loop original left i d before ≡ ok s
        → Ends i limit s before

    proceed-Ends :
        (left i : ℕ) (d : Text) (before : List (Entry fl.F)) (s : LoopState fl.F) (e : Entry fl.F)
        → Continues left
        → i + left ≡ limit
        → e.iteration ≡ i
        → e.description ≡ d
        → proceed left i d before e ≡ ok s
        → Ends i limit s before
    proceed-Ends left i d before s e more h number text run =
        elim (Bool-cases (e.train.failed == 0)) [
          | inl passed ↦
              let same : stopped (all_passed i) d (before ++ e ∷ []) ≡ s = cc (rw passed at run) in
              subst (λ s'. Ends i limit s' before) same
                (Ends-last i d before e (all_passed i) number text (omega arith)
                  (inl (ground arith, refl)))
          | inr failing ↦ elim (Bool-cases (i == limit)) [
            | inl over ↦
                let same : stopped (max_iterations limit) d (before ++ e ∷ []) ≡ s =
                  cc (rw (failing, over) at run) in
                subst (λ s'. Ends i limit s' before) same
                  (Ends-last i d before e (max_iterations limit) number text (omega arith)
                    (inr (ground arith, refl, ground arith)))
            | inr going ↦
                let (d', _, rest) =
                  >>=-ok (step_improve i d e (before ++ e ∷ []))
                    (λ d'. loop original left (i + 1) d' (before ++ e ∷ []))
                    (rw (failing, going) at run) in
                Ends-cons i limit s before e number (ground arith)
                  (more (i + 1) d' (before ++ e ∷ []) s (omega arith) (ground arith) rest)
          ]
        ]

    pub iterate-Ends : (left : ℕ) → Continues left
    iterate-Ends zero i d before s h ne run = absurd (ne (omega arith))
    iterate-Ends (suc left) i d before s h ne run =
        let (e, _, number, text, rest) = iterate-step left i d before run in
        proceed-Ends left i d before s e (iterate-Ends left) (omega arith) number text rest
