-- ===== src/Benchmark/Generate.antt =====
-- `generate_benchmark` (aggregate_benchmark.py, lines 227 to 278): the runs, the summary, the ids of
-- the evals. Benchmark.Markdown has the rest of the metadata.
use my_besu_net.Base.{
  ℕ, ◌+◌, List, [], ◌∷◌, ◌++◌, Option, none, some, ◌≡◌, refl, sym, ap, subst, ◌∙◌, arith, map,
  if◌then◌else◌, Bool-cases, inl, inr, append-nil,
}
use my_besu_net.Base.Dict.{
  Dict, lookup, or_empty, ensure, NodupKeys, ensure-NodupKeys, append_at-NodupKeys,
}
use my_besu_net.Base.Text.{Text, equal, equal_iff}
use my_besu_net.Benchmark.Aggregate.{Summary, aggregate_results, runs_of}
use my_besu_net.Benchmark.Load.{
  RunDir, ConfigDir, EvalDir, RunResult, Results, read_run, add_run, load_runs, load_dir,
  load_config, load_configs, load_evals, eval_id_of, load_run_results,
}
use my_besu_net.Benchmark.Loaded.{evals_read, lookup-load_run_results}
use my_besu_net.Benchmark.Numbers.{Numbers}
use my_besu_net.Json.{Value, Result, ok, ◌>>=◌, >>=-ok}

pub record Benchmark (N : Type 0) : Type 0 where
  pub runs : List (Text × RunResult N)
  pub run_summary : Dict (Summary N)
  pub evals_run : List (Value N)

module _ (n : Numbers) (int_of : Text → Option n.N) where
  -- the ids in the order of the runs, before `sorted(set(…))`
  unfoldable pub eval_ids : List (Text × RunResult n.N) → List (Value n.N)
  eval_ids [] = []
  eval_ids ((config, r) ∷ rest) = r.eval_id ∷ eval_ids rest

  -- `sorted_set` is `sorted(set(…))`, which raises on ids that have no hash or no order.
  unfoldable pub generate_benchmark :
      (List (Value n.N) → Result (List (Value n.N)))
      → Option (List (EvalDir n.N))
      → List (EvalDir n.N)
      → Result (Benchmark n.N)
  unfolding eval_ids load_run_results aggregate_results runs_of
  generate_benchmark sorted_set runs_dir here = do
    results ← load_run_results n int_of runs_dir here
    run_summary ← aggregate_results n int_of results
    ids ← sorted_set (eval_ids (runs_of n int_of results))
    ok (record { runs = runs_of n int_of results; run_summary = run_summary; evals_run = ids })

  -- The runs of one configuration.
  abbrev pub under : Text → List (Text × RunResult n.N) → List (RunResult n.N)
  under k [] = []
  under k ((config, r) ∷ rest) = if equal config k then r ∷ under k rest else under k rest

  under-same :
      (k config : Text) (rs : List (RunResult n.N)) (rest : List (Text × RunResult n.N))
      → under k (map (λ r. (config, r)) rs ++ rest)
        ≡ (if equal config k then rs ++ under k rest else under k rest)
  under-same k config [] rest = ground (arith, equal_iff config k)
  under-same k config (r ∷ rs) rest =
      ground (arith, equal_iff config k, under-same k config rs rest)

  under-absent :
      (k : Text) (d : Results n int_of) → lookup k d ≡ none → under k (runs_of n int_of d) ≡ []
  unfolding runs_of lookup
  under-absent k [] h = refl
  under-absent k ((config, rs) ∷ d) h = elim (Bool-cases (equal config k)) [
    | inl same ↦ cc (rw same at h)
    | inr other ↦
        under-same k config rs (runs_of n int_of d) ∙ rw other (under-absent k d (rw other at h))
  ]

  under-runs_of :
      (k : Text) (d : Results n int_of)
      → NodupKeys d
      → under k (runs_of n int_of d) ≡ or_empty (lookup k d)
  unfolding runs_of lookup
  under-runs_of k [] u = refl
  under-runs_of k ((config, rs) ∷ d) (fresh, u) = elim (Bool-cases (equal config k)) [
    | inl same ↦
        let key : config ≡ k = (equal_iff config k).0 same in
        let absent : lookup k d ≡ none = ap (λ c. lookup c d) (sym key) ∙ fresh in
        under-same k config rs (runs_of n int_of d)
        ∙ rw same (ap (λ x. rs ++ x) (under-absent k d absent) ∙ append-nil rs)
    | inr other ↦ under-same k config rs (runs_of n int_of d) ∙ rw other (under-runs_of k d u)
  ]

  load_runs-NodupKeys :
      (eval_id : Value n.N) (config : Text) (runs : List (RunDir n.N)) (d d' : Results n int_of)
      → NodupKeys d
      → load_runs n int_of eval_id config runs d ≡ ok d'
      → NodupKeys d'
  unfolding load_runs add_run
  load_runs-NodupKeys eval_id config [] d d' u e = let same : d ≡ d' = cc in subst NodupKeys same u
  load_runs-NodupKeys eval_id config (run ∷ runs) d d' u e =
      let (o, was_read, rest) =
        >>=-ok (read_run n int_of eval_id run)
          (λ o. load_runs n int_of eval_id config runs (add_run n int_of config o d)) e in
      load_runs-NodupKeys eval_id config runs (add_run n int_of config o d) d' (added o) rest
    where
      added : (o : Option (RunResult n.N)) → NodupKeys (add_run n int_of config o d)
      added none = u
      added (some r) = append_at-NodupKeys config r d u

  load_config-NodupKeys :
      (eval_id : Value n.N) (dir : ConfigDir n.N) (d d' : Results n int_of)
      → NodupKeys d
      → load_config n int_of eval_id dir d ≡ ok d'
      → NodupKeys d'
  unfolding load_config load_dir
  load_config-NodupKeys eval_id dir d d' u e = elim (Bool-cases (dir.is_dir)) [
    | inl b ↦ inside (dir.runs) (rw b at e)
    | inr b ↦ let same : ok d ≡ ok d' = rw b at e in let eq : d ≡ d' = cc in subst NodupKeys eq u
  ]
    where
      inside :
          (runs : List (RunDir n.N))
          → load_dir n int_of eval_id dir.name runs d ≡ ok d'
          → NodupKeys d'
      inside [] h = let same : d ≡ d' = cc in subst NodupKeys same u
      inside (run ∷ runs) h =
          load_runs-NodupKeys eval_id dir.name (run ∷ runs) (ensure dir.name d) d'
            (ensure-NodupKeys dir.name d u) h

  load_configs-NodupKeys :
      (eval_id : Value n.N) (dirs : List (ConfigDir n.N)) (d d' : Results n int_of)
      → NodupKeys d
      → load_configs n int_of eval_id dirs d ≡ ok d'
      → NodupKeys d'
  unfolding load_configs
  load_configs-NodupKeys eval_id [] d d' u e = let same : d ≡ d' = cc in subst NodupKeys same u
  load_configs-NodupKeys eval_id (dir ∷ dirs) d d' u e =
      let (m, loaded, rest) =
        >>=-ok (load_config n int_of eval_id dir d) (load_configs n int_of eval_id dirs) e in
      load_configs-NodupKeys eval_id dirs m d' (load_config-NodupKeys eval_id dir d m u loaded) rest

  load_evals-NodupKeys :
      (index : ℕ) (dirs : List (EvalDir n.N)) (d d' : Results n int_of)
      → NodupKeys d
      → load_evals n int_of index dirs d ≡ ok d'
      → NodupKeys d'
  unfolding load_evals
  load_evals-NodupKeys index [] d d' u e = let same : d ≡ d' = cc in subst NodupKeys same u
  load_evals-NodupKeys index (dir ∷ dirs) d d' u e =
      let (eval_id, named, e') =
        >>=-ok (eval_id_of n int_of dir index)
          (λ v. load_configs n int_of v dir.configs d >>= load_evals n int_of (index + 1) dirs) e in
      let (m, loaded, rest) =
        >>=-ok (load_configs n int_of eval_id dir.configs d) (load_evals n int_of (index + 1) dirs)
          e' in
      load_evals-NodupKeys (index + 1) dirs m d'
        (load_configs-NodupKeys eval_id dir.configs d m u loaded) rest

  load_run_results-NodupKeys :
      (runs_dir : Option (List (EvalDir n.N))) (here : List (EvalDir n.N)) (d : Results n int_of)
      → load_run_results n int_of runs_dir here ≡ ok d
      → NodupKeys d
  unfolding load_run_results
  load_run_results-NodupKeys none here d e = load_evals-NodupKeys 0 here [] d tt e
  load_run_results-NodupKeys (some evals) here d e = load_evals-NodupKeys 0 evals [] d tt e

  -- If nothing raises, the runs of the benchmark under a configuration are those that were read below
  -- its directories, over all evals, each once and in the order of the directories, and nothing else;
  -- runs whose grading is absent or no JSON are left out. The directory is `runs/` where that exists.
  pub generate_benchmark-under :
      (sorted_set : List (Value n.N) → Result (List (Value n.N))) (config : Text)
      (runs_dir : Option (List (EvalDir n.N))) (here : List (EvalDir n.N)) {b : Benchmark n.N}
      → generate_benchmark sorted_set runs_dir here ≡ ok b
      → under config b.runs
        ≡ evals_read n int_of config 0 (elim runs_dir [ none ↦ here | some evals ↦ evals ])
  unfolding generate_benchmark
  generate_benchmark-under sorted_set config runs_dir here {b} e =
      let (d, loaded, e1) =
        >>=-ok (load_run_results n int_of runs_dir here)
          (λ d. aggregate_results n int_of d >>= (λ s.
            sorted_set (eval_ids (runs_of n int_of d)) >>= (λ ids.
              ok (record { runs = runs_of n int_of d; run_summary = s; evals_run = ids }))))
          e in
      let (s, summed, e2) =
        >>=-ok (aggregate_results n int_of d)
          (λ s. sorted_set (eval_ids (runs_of n int_of d)) >>= (λ ids.
            ok (record { runs = runs_of n int_of d; run_summary = s; evals_run = ids })))
          e1 in
      let (ids, sorted, e3) =
        >>=-ok (sorted_set (eval_ids (runs_of n int_of d)))
          (λ ids. ok (record { runs = runs_of n int_of d; run_summary = s; evals_run = ids })) e2 in
      let runs_same : runs_of n int_of d ≡ b.runs = cc in
      rw (← runs_same) (
        under-runs_of config d (load_run_results-NodupKeys runs_dir here d loaded)
        ∙ lookup-load_run_results n int_of config runs_dir here loaded)
