-- ===== src/Benchmark/Load.antt =====
-- `load_run_results` (aggregate_benchmark.py, lines 67 to 173). The directory is given as what the
-- script finds in it: directories in sorted order, files read. Warnings are not modelled.
use my_besu_net.Base.{
  ℕ, ◌+◌, Bool, false, not, List, [], ◌∷◌, ◌++◌, Option, none, some, if◌then◌else◌, String,
}
use my_besu_net.Base.Dict.{Dict, ensure, append_at}
use my_besu_net.Base.Text.{Text, codes, split_on}
use my_besu_net.Benchmark.Numbers.{Numbers}
use my_besu_net.Json.{
  Value, boolean, num, arr, obj, Items, nil, cons, end, Result, ok, raise, ◌>>=◌, get, iterate,
  contains, index_error, value_error,
}
use my_besu_net.Validate.Rules.{truthy}

-- A JSON file: absent, not JSON, or its value.
pub data JsonFile (N : Type 0) : Type 0 where
  absent : JsonFile N
  invalid : JsonFile N
  present : Value N → JsonFile N

-- `run-*`, with `grading.json` and `timing.json`
pub record RunDir (N : Type 0) : Type 0 where
  pub name : Text
  pub grading : JsonFile N
  pub timing : JsonFile N

-- an entry of an eval directory, with its `run-*` children
pub record ConfigDir (N : Type 0) : Type 0 where
  pub name : Text
  pub is_dir : Bool
  pub runs : List (RunDir N)

-- `eval-*`, with `eval_metadata.json`
pub record EvalDir (N : Type 0) : Type 0 where
  pub name : Text
  pub metadata : JsonFile N
  pub configs : List (ConfigDir N)

-- the dict `result`
pub record RunResult (N : Type 0) : Type 0 where
  pub eval_id : Value N
  pub run_number : N
  pub pass_rate : Value N
  pub passed : Value N
  pub failed : Value N
  pub total : Value N
  pub time_seconds : Value N
  pub tokens : Value N
  pub tool_calls : Value N
  pub errors : Value N
  pub expectations : Value N
  pub notes : List (Value N)

-- `int_of` is `int` on a text, `none` its `ValueError`.
module _ (n : Numbers) (int_of : Text → Option n.N) where
  abbrev V : Type 0
  V = Value n.N

  abbrev empty_dict : V
  empty_dict = obj end

  abbrev number : ℕ → V
  number k = num (n.of_int k)

  -- `int(name.split("-")[1])`
  unfoldable pub number_of_name : Text → Result n.N
  number_of_name name = second (split_on b'-' name)
    where
      parsed : Option n.N → Result n.N
      parsed none = raise value_error
      parsed (some k) = ok k

      second : List Text → Result n.N
      second [] = raise index_error
      second (a ∷ []) = raise index_error
      second (a ∷ b ∷ rest) = parsed (int_of b)

  -- the name's number, and the position where it is no number
  unfoldable pub id_of_name : Text → ℕ → Result V
  unfolding number_of_name
  id_of_name name index = elim (number_of_name name) [
    | ok k ↦ ok (num k)
    | raise e ↦ elim e [ value_error ↦ ok (number index) | other ↦ raise other ]
  ]

  unfoldable pub eval_id_of : EvalDir n.N → ℕ → Result V
  unfolding id_of_name
  eval_id_of dir index = elim (dir.metadata) [
    | absent ↦ id_of_name dir.name index
    | invalid ↦ ok (number index)
    | present v ↦ get v "eval_id" (number index)
  ]

  -- `v == 0.0`
  unfoldable pub equals_zero : V → Bool
  equals_zero (num k) = n.is_zero k
  equals_zero (boolean b) = not b
  equals_zero _ = false

  -- `time_seconds`, and the `tokens` of timing.json where it was read
  unfoldable pub timing_of : V → JsonFile n.N → Result (V × Option V)
  unfolding equals_zero
  timing_of time absent = ok (time, none)
  timing_of time invalid = ok (time, none)
  timing_of time (present v) =
      if equals_zero time
      then (do
        seconds ← get v "total_duration_seconds" (num n.zero)
        tokens ← get v "total_tokens" (number 0)
        ok (seconds, some tokens))
      else ok (time, none)

  -- `if not result.get("tokens")`
  unfoldable pub tokens_of : Option V → V → Result V
  tokens_of none metrics = get metrics "output_chars" (number 0)
  tokens_of (some t) metrics =
      if truthy n.is_zero t then ok t else get metrics "output_chars" (number 0)

  -- the loop that warns of incomplete expectations; it raises on an entry without `in`
  unfoldable pub check_expectations : Items n.N → Result (Unit {0})
  check_expectations nil = ok tt
  check_expectations (cons e es) = do
    text ← contains (codes "text") e
    passed ← (if text then contains (codes "passed") e else ok false)
    check_expectations es

  unfoldable pub to_list : Items n.N → List V
  to_list nil = []
  to_list (cons v vs) = v ∷ to_list vs

  -- `notes.extend(notes_summary.get(k, []))`
  unfoldable pub notes_under : V → String → Result (List V)
  unfolding to_list
  notes_under summary k = do v ← get summary k (arr nil); items ← iterate v; ok (to_list items)

  unfoldable pub result_of : V → n.N → JsonFile n.N → V → Result (RunResult n.N)
  unfolding timing_of tokens_of check_expectations notes_under
  result_of eval_id run_number timing_file grading = do
    summary ← get grading "summary" empty_dict
    pass_rate ← get summary "pass_rate" (num n.zero)
    passed ← get summary "passed" (number 0)
    failed ← get summary "failed" (number 0)
    total ← get summary "total" (number 0)
    timing ← get grading "timing" empty_dict
    time ← get timing "total_duration_seconds" (num n.zero)
    times ← timing_of time timing_file
    metrics ← get grading "execution_metrics" empty_dict
    tool_calls ← get metrics "total_tool_calls" (number 0)
    tokens ← tokens_of times.1 metrics
    errors ← get metrics "errors_encountered" (number 0)
    expectations ← get grading "expectations" (arr nil)
    items ← iterate expectations
    checked ← check_expectations items
    notes_summary ← get grading "user_notes_summary" empty_dict
    uncertainties ← notes_under notes_summary "uncertainties"
    needs_review ← notes_under notes_summary "needs_review"
    workarounds ← notes_under notes_summary "workarounds"
    ok (record {
      eval_id = eval_id;
      run_number = run_number;
      pass_rate = pass_rate;
      passed = passed;
      failed = failed;
      total = total;
      time_seconds = times.0;
      tokens = tokens;
      tool_calls = tool_calls;
      errors = errors;
      expectations = expectations;
      notes = uncertainties ++ (needs_review ++ workarounds);
    })

  unfoldable pub read_grading :
      V → RunDir n.N → n.N → JsonFile n.N → Result (Option (RunResult n.N))
  unfolding result_of
  read_grading eval_id run k absent = ok none
  read_grading eval_id run k invalid = ok none
  read_grading eval_id run k (present v) = do r ← result_of eval_id k run.timing v; ok (some r)

  -- one run directory: `none` where it is skipped with a warning
  unfoldable pub read_run : V → RunDir n.N → Result (Option (RunResult n.N))
  unfolding number_of_name read_grading
  read_run eval_id run = do
    run_number ← number_of_name run.name
    read_grading eval_id run run_number run.grading

  abbrev pub Results : Type 0
  Results = Dict (List (RunResult n.N))

  -- `results[config].append(result)`, where a run was read
  unfoldable pub add_run : Text → Option (RunResult n.N) → Results → Results
  add_run config none results = results
  add_run config (some r) results = append_at config r results

  unfoldable pub load_runs : V → Text → List (RunDir n.N) → Results → Result Results
  unfolding read_run add_run
  load_runs eval_id config [] results = ok results
  load_runs eval_id config (run ∷ runs) results = do
    read ← read_run eval_id run
    load_runs eval_id config runs (add_run config read results)

  -- the runs of a config directory; one with none is skipped
  unfoldable pub load_dir : V → Text → List (RunDir n.N) → Results → Result Results
  unfolding load_runs
  load_dir eval_id config [] results = ok results
  load_dir eval_id config (run ∷ runs) results =
      load_runs eval_id config (run ∷ runs) (ensure config results)

  -- one entry of an eval directory
  unfoldable pub load_config : V → ConfigDir n.N → Results → Result Results
  unfolding load_dir
  load_config eval_id dir results =
      if dir.is_dir then load_dir eval_id dir.name dir.runs results else ok results

  unfoldable pub load_configs : V → List (ConfigDir n.N) → Results → Result Results
  unfolding load_config
  load_configs eval_id [] results = ok results
  load_configs eval_id (dir ∷ dirs) results = do
    more ← load_config eval_id dir results
    load_configs eval_id dirs more

  unfoldable pub load_evals : ℕ → List (EvalDir n.N) → Results → Result Results
  unfolding eval_id_of load_configs
  load_evals index [] results = ok results
  load_evals index (dir ∷ dirs) results = do
    eval_id ← eval_id_of dir index
    more ← load_configs eval_id dir.configs results
    load_evals (index + 1) dirs more

  -- `runs/` where it exists, else the directory itself; no eval directories there give an empty dict
  unfoldable pub load_run_results :
      Option (List (EvalDir n.N)) → List (EvalDir n.N) → Result Results
  unfolding load_evals
  load_run_results (some evals) here = load_evals 0 evals []
  load_run_results none here = load_evals 0 here []
