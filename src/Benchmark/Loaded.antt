-- ===== src/Benchmark/Loaded.antt =====
-- What `load_run_results` returns (aggregate_benchmark.py): every run that was read, once, under its
-- configuration.
use my_besu_net.Base.{
  ℕ, ◌+◌, Bool, true, false, ◌&&◌, List, [], ◌∷◌, ◌++◌, Option, none, some, ◌≡◌, refl, sym, ap, ◌∙◌,
  arith, if◌then◌else◌, Bool-cases, inl, inr, append_assoc, append-nil,
}
use my_besu_net.Base.Dict.{lookup, ensure, or_empty, lookup-ensure, lookup-append_at}
use my_besu_net.Base.Text.{Text, equal, equal_iff, equal_refl}
use my_besu_net.Benchmark.Load.{
  RunDir, ConfigDir, EvalDir, RunResult, Results, read_run, add_run, load_runs, load_dir,
  load_config, load_configs, load_evals, eval_id_of, load_run_results,
}
use my_besu_net.Benchmark.Numbers.{Numbers}
use my_besu_net.Json.{Value, Result, ok, raise, ◌>>=◌, >>=-ok}

module _ (n : Numbers) (int_of : Text → Option n.N) where
  abbrev read_one : Result (Option (RunResult n.N)) → List (RunResult n.N)
  read_one (ok (some r)) = r ∷ []
  read_one (ok none) = []
  read_one (raise e) = []

  -- The runs that were read, of some run directories, in their order.
  abbrev pub runs_read : Value n.N → List (RunDir n.N) → List (RunResult n.N)
  runs_read eval_id [] = []
  runs_read eval_id (run ∷ runs) =
      read_one (read_run n int_of eval_id run) ++ runs_read eval_id runs

  -- The runs that were read below the directories of one configuration.
  abbrev pub configs_read : Text → Value n.N → List (ConfigDir n.N) → List (RunResult n.N)
  configs_read config eval_id [] = []
  configs_read config eval_id (dir ∷ dirs) =
      (if dir.is_dir && equal dir.name config then runs_read eval_id dir.runs else [])
      ++ configs_read config eval_id dirs

  abbrev below : Text → Result (Value n.N) → List (ConfigDir n.N) → List (RunResult n.N)
  below config (ok eval_id) dirs = configs_read config eval_id dirs
  below config (raise e) dirs = []

  abbrev pub evals_read : Text → ℕ → List (EvalDir n.N) → List (RunResult n.N)
  evals_read config index [] = []
  evals_read config index (dir ∷ dirs) =
      below config (eval_id_of n int_of dir index) dir.configs ++ evals_read config (index + 1) dirs

  lookup-add_run :
      (k config : Text) (r : Result (Option (RunResult n.N))) (o : Option (RunResult n.N))
      (d : Results n int_of) (vs : List (RunResult n.N))
      → lookup config d ≡ some vs
      → r ≡ ok o
      → lookup k (add_run n int_of config o d)
        ≡ (if equal config k then some (vs ++ read_one r) else lookup k d)
  unfolding add_run
  lookup-add_run k config r none d vs h e =
      rw (e, append-nil vs) (ground (arith, equal_iff config k))
  lookup-add_run k config r (some v) d vs h e = rw e (lookup-append_at k config v d vs h)

  lookup-load_runs :
      (k config : Text) (eval_id : Value n.N) (runs : List (RunDir n.N)) (d d' : Results n int_of)
      (vs : List (RunResult n.N))
      → lookup config d ≡ some vs
      → load_runs n int_of eval_id config runs d ≡ ok d'
      → lookup k d' ≡ (if equal config k then some (vs ++ runs_read eval_id runs) else lookup k d)
  unfolding load_runs
  lookup-load_runs k config eval_id [] d d' vs h e =
      rw (append-nil vs) (ground (arith, equal_iff config k))
  lookup-load_runs k config eval_id (run ∷ runs) d d' vs h e =
      let (o, was_read, rest) =
        >>=-ok (read_run n int_of eval_id run)
          (λ o. load_runs n int_of eval_id config runs (add_run n int_of config o d)) e in
      let one = lookup-add_run config config (read_run n int_of eval_id run) o d vs h was_read in
      let all =
        lookup-load_runs k config eval_id runs (add_run n int_of config o d) d'
          (vs ++ read_one (read_run n int_of eval_id run)) (one ∙ rw (equal_refl config)) rest in
      elim (Bool-cases (equal config k)) [
        | inl same ↦ rw same (
            all
            ∙ rw same (
                ap some (
                  append_assoc vs (read_one (read_run n int_of eval_id run))
                    (runs_read eval_id runs))))
        | inr other ↦ rw other (
            all
            ∙ rw other (
                lookup-add_run k config (read_run n int_of eval_id run) o d vs h was_read
                ∙ rw other))
      ]

  -- what a key holds after some runs were added under a configuration
  abbrev added : Text → Text → List (RunResult n.N) → Results n int_of → List (RunResult n.N)
  added k config rs d = or_empty (lookup k d) ++ (if equal config k then rs else [])

  lookup-load_dir :
      (k config : Text) (eval_id : Value n.N) (runs : List (RunDir n.N)) (d d' : Results n int_of)
      → load_dir n int_of eval_id config runs d ≡ ok d'
      → or_empty (lookup k d') ≡ added k config (runs_read eval_id runs) d
  unfolding load_dir
  lookup-load_dir k config eval_id [] d d' e =
      let same : d ≡ d' = cc in
      rw (← same) (elim (Bool-cases (equal config k)) [
        | inl f ↦ rw (f, append-nil (or_empty (lookup k d))) refl
        | inr f ↦ rw (f, append-nil (or_empty (lookup k d))) refl
      ])
  lookup-load_dir k config eval_id (run ∷ runs) d d' e =
      let loaded =
        lookup-load_runs k config eval_id (run ∷ runs) (ensure config d) d'
          (or_empty (lookup config d)) (lookup-ensure config config d ∙ rw (equal_refl config)) e in
      elim (Bool-cases (equal config k)) [
        | inl f ↦
            let same = (equal_iff config k).0 f in
            let step : lookup k d'
                ≡ some (or_empty (lookup config d) ++ runs_read eval_id (run ∷ runs)) =
              loaded
              ∙ ap
                  (λ b.
                    if b
                    then some (or_empty (lookup config d) ++ runs_read eval_id (run ∷ runs))
                    else lookup k (ensure config d))
                  f in
            let named : or_empty (lookup config d) ≡ or_empty (lookup k d) =
              ap (λ c. or_empty (lookup c d)) same in
            ap or_empty step
            ∙ ap (λ rs. rs ++ runs_read eval_id (run ∷ runs)) named
            ∙ ap (λ b. or_empty (lookup k d) ++ (if b then runs_read eval_id (run ∷ runs) else []))
                (sym f)
        | inr f ↦
            let step : lookup k d' ≡ lookup k d = loaded ∙ rw f (lookup-ensure k config d ∙ rw f) in
            rw f (ap or_empty step ∙ sym (append-nil (or_empty (lookup k d))))
      ]

  lookup-load_configs :
      (k : Text) (eval_id : Value n.N) (dirs : List (ConfigDir n.N)) (d d' : Results n int_of)
      → load_configs n int_of eval_id dirs d ≡ ok d'
      → or_empty (lookup k d') ≡ or_empty (lookup k d) ++ configs_read k eval_id dirs
  unfolding load_configs load_config
  lookup-load_configs k eval_id [] d d' e =
      let same : d ≡ d' = cc in rw (← same) (sym (append-nil (or_empty (lookup k d))))
  lookup-load_configs k eval_id (dir ∷ dirs) d d' e =
      let (m, loaded, rest) =
        >>=-ok (load_config n int_of eval_id dir d) (load_configs n int_of eval_id dirs) e in
      let later = lookup-load_configs k eval_id dirs m d' rest in
      later
      ∙ ap (λ rs. rs ++ configs_read k eval_id dirs) (one (dir.is_dir) loaded)
      ∙ append_assoc (or_empty (lookup k d)) _ (configs_read k eval_id dirs)
    where
      one :
          {m : Results n int_of} (b : Bool)
          → (if b then load_dir n int_of eval_id dir.name dir.runs d else ok d) ≡ ok m
          → or_empty (lookup k m)
            ≡ or_empty (lookup k d)
              ++ (if b && equal dir.name k then runs_read eval_id dir.runs else [])
      one {m} true h = lookup-load_dir k dir.name eval_id dir.runs d m h
      one {m} false h =
          let same : d ≡ m = cc in rw (← same) (sym (append-nil (or_empty (lookup k d))))

  lookup-load_evals :
      (k : Text) (index : ℕ) (dirs : List (EvalDir n.N)) (d d' : Results n int_of)
      → load_evals n int_of index dirs d ≡ ok d'
      → or_empty (lookup k d') ≡ or_empty (lookup k d) ++ evals_read k index dirs
  unfolding load_evals
  lookup-load_evals k index [] d d' e =
      let same : d ≡ d' = cc in rw (← same) (sym (append-nil (or_empty (lookup k d))))
  lookup-load_evals k index (dir ∷ dirs) d d' e =
      let (eval_id, named, e') =
        >>=-ok (eval_id_of n int_of dir index)
          (λ v. load_configs n int_of v dir.configs d >>= load_evals n int_of (index + 1) dirs) e in
      let (m, loaded, rest) =
        >>=-ok (load_configs n int_of eval_id dir.configs d) (load_evals n int_of (index + 1) dirs)
          e' in
      lookup-load_evals k (index + 1) dirs m d' rest
      ∙ ap (λ rs. rs ++ evals_read k (index + 1) dirs)
          (lookup-load_configs k eval_id dir.configs d m loaded)
      ∙ append_assoc (or_empty (lookup k d)) (configs_read k eval_id dir.configs)
          (evals_read k (index + 1) dirs)
      ∙ rw named

  -- If nothing raises, a configuration's list holds the runs read below its directories, over all
  -- evals, each once and in the order of the directories, and nothing else; runs whose grading is
  -- absent or no JSON are left out.
  pub lookup-load_run_results :
      (config : Text) (runs_dir : Option (List (EvalDir n.N))) (here : List (EvalDir n.N))
      {d : Results n int_of}
      → load_run_results n int_of runs_dir here ≡ ok d
      → or_empty (lookup config d)
        ≡ evals_read config 0 (elim runs_dir [ none ↦ here | some evals ↦ evals ])
  unfolding load_run_results lookup
  lookup-load_run_results config none here {d} e = lookup-load_evals config 0 here [] d e
  lookup-load_run_results config (some evals) here {d} e = lookup-load_evals config 0 evals [] d e
