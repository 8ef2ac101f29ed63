-- ===== src/Benchmark/Aggregate.antt =====
-- `aggregate_results` and the runs of `generate_benchmark` (aggregate_benchmark.py, lines 176 to 254).
-- Benchmark.Markdown formats the differences. `as_nums` raises on the values that `sum` raises on.
use my_besu_net.Base.{
  false, List, [], ◌∷◌, ◌++◌, Option, some, ◌≡◌, refl, sym, ap, ◌∙◌, map, Bool-cases, inl, inr,
}
use my_besu_net.Base.Dict.{Dict, lookup, insert, lookup-insert}
use my_besu_net.Base.Text.{Text, codes, equal, equal_refl}
use my_besu_net.Benchmark.Load.{RunResult, Results}
use my_besu_net.Benchmark.Numbers.{Numbers}
use my_besu_net.Benchmark.Stats.{Stats, zeros, calculate_stats}
use my_besu_net.Json.{Value, Result, ok, raise, ◌>>=◌, >>=-ok, type_error, num, boolean}

-- the statistics of a configuration
pub record ConfigStats (N : Type 0) : Type 0 where
  pub pass_rate : Stats N
  pub time_seconds : Stats N
  pub tokens : Stats N

-- the entry `delta`, not yet formatted
pub record Delta (N : Type 0) : Type 0 where
  pub pass_rate : N
  pub time_seconds : N
  pub tokens : N

-- an entry of `run_summary`
pub data Summary (N : Type 0) : Type 0 where
  stats : ConfigStats N → Summary N
  delta : Delta N → Summary N

module _ (n : Numbers) (int_of : Text → Option n.N) where
  -- a value as arithmetic takes it
  unfoldable pub as_num : Value n.N → Result n.N
  as_num (num k) = ok k
  as_num (boolean b) = ok (n.of_bool b)
  as_num _ = raise type_error

  unfoldable pub as_nums : List (Value n.N) → Result (List n.N)
  unfolding as_num
  as_nums [] = ok []
  as_nums (v ∷ vs) = do k ← as_num v; ks ← as_nums vs; ok (k ∷ ks)

  abbrev pub no_stats : ConfigStats n.N
  no_stats = record { pass_rate = zeros n; time_seconds = zeros n; tokens = zeros n }

  -- the entry of one configuration
  unfoldable pub summarize : List (RunResult n.N) → Result (ConfigStats n.N)
  unfolding as_nums
  summarize [] = ok no_stats
  summarize (r ∷ rs) = do
    pass_rates ← as_nums (map (λ x. x.pass_rate) (r ∷ rs))
    times ← as_nums (map (λ x. x.time_seconds) (r ∷ rs))
    tokens ← as_nums (map (λ x. x.tokens) (r ∷ rs))
    ok (record {
      pass_rate = calculate_stats n pass_rates;
      time_seconds = calculate_stats n times;
      tokens = calculate_stats n tokens;
    })

  -- `run_summary`, of the configurations in the order of the dict, whose keys are distinct
  unfoldable pub summarize_all : Results n int_of → Result (List (Text × ConfigStats n.N))
  unfolding summarize
  summarize_all [] = ok []
  summarize_all ((config, runs) ∷ d) = do
    entry ← summarize runs
    more ← summarize_all d
    ok ((config, entry) ∷ more)

  abbrev pub sub_stats : ConfigStats n.N → ConfigStats n.N → Delta n.N
  sub_stats p b = record {
    pass_rate = n.sub p.pass_rate.mean b.pass_rate.mean;
    time_seconds = n.sub p.time_seconds.mean b.time_seconds.mean;
    tokens = n.sub p.tokens.mean b.tokens.mean;
  }

  -- the first configuration's means less the second's; where there is none, 0 is taken for it
  unfoldable pub delta_of : List (Text × ConfigStats n.N) → Delta n.N
  delta_of [] = sub_stats no_stats no_stats
  delta_of ((c, p) ∷ []) = sub_stats p no_stats
  delta_of ((c, p) ∷ (j, b) ∷ rest) = sub_stats p b

  unfoldable pub entries : List (Text × ConfigStats n.N) → Dict (Summary n.N)
  entries [] = []
  entries ((config, s) ∷ rest) = (config, stats s) ∷ entries rest

  unfoldable pub aggregate_results : Results n int_of → Result (Dict (Summary n.N))
  unfolding summarize_all delta_of entries insert
  aggregate_results results = do
    run_summary ← summarize_all results
    ok (insert (codes "delta") (delta (delta_of run_summary)) (entries run_summary))

  -- an element of `runs`: the configuration, and the run
  unfoldable pub runs_of : Results n int_of → List (Text × RunResult n.N)
  runs_of [] = []
  runs_of ((config, rs) ∷ d) = map (λ r. (config, r)) rs ++ runs_of d

  lookup-summarize_all :
      (k : Text) (runs : List (RunResult n.N)) (d : Results n int_of)
      (s : List (Text × ConfigStats n.N))
      → summarize_all d ≡ ok s
      → lookup k d ≡ some runs
      → (e : ConfigStats n.N) × (summarize runs ≡ ok e) × (lookup k (entries s) ≡ some (stats e))
  unfolding summarize_all entries lookup
  lookup-summarize_all k runs [] s h found = cc
  lookup-summarize_all k runs ((config, rs) ∷ d) s h found =
      let (e, first, h') =
        >>=-ok (summarize rs) (λ e. summarize_all d >>= (λ more. ok ((config, e) ∷ more))) h in
      let (more, rest, last) = >>=-ok (summarize_all d) (λ more. ok ((config, e) ∷ more)) h' in
      let made : (config, e) ∷ more ≡ s = cc in
      rw (← made) (elim (Bool-cases (equal config k)) [
        | inl same ↦
            let runs_same : rs ≡ runs = cc (rw same at found) in
            (e, ap summarize (sym runs_same) ∙ first, rw same refl)
        | inr other ↦
            let (e', good, at) = lookup-summarize_all k runs d more rest (rw other at found) in
            (e', good, rw other at)
      ])

  -- The summary of two configurations and more.
  pub aggregate_results-two :
      (c j : Text) (rs bs : List (RunResult n.N)) (d : Results n int_of) {s : Dict (Summary n.N)}
      → aggregate_results ((c, rs) ∷ (j, bs) ∷ d) ≡ ok s
      → (p : ConfigStats n.N) × (b : ConfigStats n.N) × (last : List (Text × ConfigStats n.N))
        × (summarize rs ≡ ok p)
        × (summarize bs ≡ ok b)
        × (summarize_all ((c, rs) ∷ (j, bs) ∷ d) ≡ ok ((c, p) ∷ (j, b) ∷ last))
        × (insert (codes "delta") (delta (sub_stats p b)) (entries ((c, p) ∷ (j, b) ∷ last)) ≡ s)
  unfolding aggregate_results summarize_all delta_of
  aggregate_results-two c j rs bs d {s} h =
      let (all, summed, made) =
        >>=-ok (summarize_all ((c, rs) ∷ (j, bs) ∷ d))
          (λ r. ok (insert (codes "delta") (delta (delta_of r)) (entries r))) h in
      let (p, first, h1) =
        >>=-ok (summarize rs) (λ e. summarize_all ((j, bs) ∷ d) >>= (λ more. ok ((c, e) ∷ more)))
          summed in
      let (more, rest, h2) = >>=-ok (summarize_all ((j, bs) ∷ d)) (λ more. ok ((c, p) ∷ more)) h1 in
      let (b, second, h3) =
        >>=-ok (summarize bs) (λ e. summarize_all d >>= (λ more. ok ((j, e) ∷ more))) rest in
      let (last, after, h4) = >>=-ok (summarize_all d) (λ more. ok ((j, b) ∷ more)) h3 in
      let is_all : all ≡ (c, p) ∷ (j, b) ∷ last = cc in
      let is_s : insert (codes "delta") (delta (delta_of all)) (entries all) ≡ s = cc in
      (
        p,
        b,
        last,
        first,
        second,
        summed ∙ ap ok is_all,
        sym (ap (λ r. insert (codes "delta") (delta (delta_of r)) (entries r)) is_all) ∙ is_s,
      )

  -- If nothing raises, `delta` holds the differences of the first two configurations' means, each
  -- computed from that configuration's own runs, and every configuration of another name than `delta`
  -- has the statistics of its own runs.
  lookup-aggregate_results :
      (c j k : Text) (rs bs runs : List (RunResult n.N)) (d : Results n int_of)
      {s : Dict (Summary n.N)}
      → aggregate_results ((c, rs) ∷ (j, bs) ∷ d) ≡ ok s
      → equal (codes "delta") k ≡ false
      → lookup k ((c, rs) ∷ (j, bs) ∷ d) ≡ some runs
      → ((p : ConfigStats n.N) × (b : ConfigStats n.N) × (summarize rs ≡ ok p)
          × (summarize bs ≡ ok b)
          × (lookup (codes "delta") s ≡ some (delta (sub_stats p b))))
        × ((e : ConfigStats n.N) × (summarize runs ≡ ok e) × (lookup k s ≡ some (stats e)))
  lookup-aggregate_results c j k rs bs runs d {s} h other found =
      let (p, b, last, first, second, summed, is_s) = aggregate_results-two c j rs bs d h in
      let all = (c, p) ∷ (j, b) ∷ last in
      let (e, good, at) = lookup-summarize_all k runs ((c, rs) ∷ (j, bs) ∷ d) all summed found in
      let in_s =
        λ (i : Text). lookup-insert i (codes "delta") (delta (sub_stats p b)) (entries all) in
      rw (← is_s) (
        (p, b, first, second, in_s (codes "delta") ∙ rw (equal_refl (codes "delta")) refl),
        (e, good, in_s k ∙ rw other at),
      )
