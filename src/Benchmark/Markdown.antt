-- ===== src/Benchmark/Markdown.antt =====
-- `generate_markdown` (aggregate_benchmark.py, lines 281 to 335), on the benchmark of the script.
use my_besu_net.Base.{ℕ, List, [], ◌∷◌, ◌++◌, Option, none, some, ◌==◌, if◌then◌else◌, map}
use my_besu_net.Base.Dict.{Dict, lookup}
use my_besu_net.Base.Int.{shown, pos}
use my_besu_net.Base.Text.{Text, codes, equal, join}
use my_besu_net.Benchmark.Aggregate.{ConfigStats, Delta, Summary, stats, delta, no_stats}
use my_besu_net.Benchmark.Generate.{Benchmark}
use my_besu_net.Benchmark.Numbers.{Numbers}
use my_besu_net.Benchmark.Stats.{Stats}
use my_besu_net.Json.{Value, Result, ok, raise, ◌>>=◌, attribute_error}

-- What Python does with the numbers and the texts of the table.
pub record Formats (n : Numbers) : Type 0 where
  -- `f"{x:.kf}"` and `f"{x:+.kf}"`
  pub fixed : ℕ → n.N → Text
  pub signed : ℕ → n.N → Text
  -- `x * 100`
  pub percent : n.N → n.N
  -- `str` of a value, and of a dict of statistics
  pub shown_value : Value n.N → Text
  pub shown_stats : Stats n.N → Text
  -- `str.title`
  pub title : Text → Text

pub record Metadata : Type 0 where
  pub skill_name : Text
  pub skill_path : Text
  pub executor_model : Text
  pub analyzer_model : Text
  pub timestamp : Text
  pub runs_per_configuration : ℕ

abbrev text_or : Text → Text → Text
text_or [] d = d
text_or (c ∷ t) d = c ∷ t

-- `metadata`, but for the evals, which `Benchmark` has
abbrev pub metadata_of : Text → Text → Text → Metadata
metadata_of skill_name skill_path now = record {
  skill_name = text_or skill_name (codes "<skill-name>");
  skill_path = text_or skill_path (codes "<path/to/skill>");
  executor_model = codes "<model-name>";
  analyzer_model = codes "<model-name>";
  timestamp = now;
  runs_per_configuration = 3;
}

-- `configs`
unfoldable pub configs_of {ℓ} : {A : Type ℓ} → Dict A → List Text
configs_of [] = []
configs_of ((k, v) ∷ d) =
    let rest = configs_of d in if equal k (codes "delta") then rest else k ∷ rest

abbrev pub config_a : List Text → Text
config_a [] = codes "config_a"
config_a (c ∷ cs) = c

abbrev pub config_b : List Text → Text
config_b (c ∷ j ∷ cs) = j
config_b _ = codes "config_b"

-- `config.replace("_", " ")`
unfoldable pub spaced : Text → Text
spaced [] = []
spaced (c ∷ t) = (if c == b'_' then b' ' else c) ∷ spaced t

-- the last column of the table
pub record Cells : Type 0 where
  pub pass_rate : Text
  pub time_seconds : Text
  pub tokens : Text

module _ (n : Numbers) (int_of : Text → Option n.N) where
  -- the means that the table shows of a configuration: 0 where there is none
  unfoldable pub summary_at : Text → Dict (Summary n.N) → Result (ConfigStats n.N)
  summary_at config run_summary = elim (lookup config run_summary) [
    | none ↦ ok (no_stats n int_of)
    | some (stats s) ↦ ok s
    | some (delta d) ↦ raise attribute_error
  ]

module _ (n : Numbers) (int_of : Text → Option n.N) (f : Formats n) where
  -- the entry `delta` as `aggregate_results` formats it
  abbrev pub formatted : Delta n.N → Cells
  formatted d = record {
    pass_rate = f.signed 2 d.pass_rate;
    time_seconds = f.signed 1 d.time_seconds;
    tokens = f.signed 0 d.tokens;
  }

  unfoldable pub delta_at : Dict (Summary n.N) → Cells
  delta_at run_summary = elim (lookup (codes "delta") run_summary) [
    | none ↦ record { pass_rate = codes "—"; time_seconds = codes "—"; tokens = codes "—" }
    | some (delta d) ↦ formatted d
    | some (stats s) ↦ record {
      pass_rate = f.shown_stats s.pass_rate;
      time_seconds = f.shown_stats s.time_seconds;
      tokens = f.shown_stats s.tokens;
    }
  ]

  abbrev label : Text → Text
  label config = f.title (spaced config)

  -- the lines above the rows of the table
  unfoldable pub head_lines : Metadata → List (Value n.N) → Text → Text → List Text
  unfolding join shown spaced
  head_lines m evals_run a b =
      (codes "# Skill Benchmark: " ++ m.skill_name)
      ∷ []
      ∷ (codes "**Model**: " ++ m.executor_model)
      ∷ (codes "**Date**: " ++ m.timestamp)
      ∷ (codes "**Evals**: "
          ++ join (codes ", ") (map f.shown_value evals_run)
          ++ codes " ("
          ++ shown (pos m.runs_per_configuration)
          ++ codes " runs each per configuration)")
      ∷ []
      ∷ codes "## Summary"
      ∷ []
      ∷ (codes "| Metric | " ++ label a ++ codes " | " ++ label b ++ codes " | Delta |")
      ∷ codes "|--------|------------|---------------|-------|"
      ∷ []

  abbrev spread : (n.N → Text) → Text → Stats n.N → Text
  spread format unit s = format s.mean ++ unit ++ codes " ± " ++ format s.stddev ++ unit

  abbrev table_row : Text → Text → Text → Text → Text
  table_row metric a b d =
      codes "| " ++ metric ++ codes " | " ++ a ++ codes " | " ++ b ++ codes " | " ++ d ++ codes " |"

  -- the rows of the table
  unfoldable pub table_rows : ConfigStats n.N → ConfigStats n.N → Cells → List Text
  table_rows a b d =
      let rate = spread (λ x. f.fixed 0 (f.percent x)) (codes "%") in
      let time = spread (f.fixed 1) (codes "s") in
      let count = spread (f.fixed 0) [] in
      table_row (codes "Pass Rate") (rate a.pass_rate) (rate b.pass_rate) d.pass_rate
      ∷ table_row (codes "Time") (time a.time_seconds) (time b.time_seconds)
          (d.time_seconds ++ codes "s")
      ∷ table_row (codes "Tokens") (count a.tokens) (count b.tokens) d.tokens
      ∷ []

  -- the section of the notes
  unfoldable pub note_lines : List Text → List Text
  note_lines [] = []
  note_lines (note ∷ notes) = [] ∷ codes "## Notes" ∷ [] ∷ map (λ t. codes "- " ++ t) (note ∷ notes)

  unfoldable pub generate_markdown :
      Metadata → List (Value n.N) → Dict (Summary n.N) → List Text → Result Text
  unfolding configs_of summary_at delta_at head_lines table_rows note_lines join
  generate_markdown m evals_run run_summary notes = do
    a ← summary_at n int_of (config_a (configs_of run_summary)) run_summary
    b ← summary_at n int_of (config_b (configs_of run_summary)) run_summary
    ok (
        join (codes "\n") (
          head_lines m evals_run (config_a (configs_of run_summary))
            (config_b (configs_of run_summary))
          ++ table_rows a b (delta_at run_summary)
          ++ note_lines notes))

  -- what `main` writes to benchmark.md
  unfoldable pub benchmark_md : Text → Text → Text → Benchmark n.N → Result Text
  unfolding generate_markdown
  benchmark_md skill_name skill_path now b =
      generate_markdown (metadata_of skill_name skill_path now) b.evals_run b.run_summary []
