-- ===== src/Tests/BenchmarkTests.antt =====
-- aggregate_benchmark.py at concrete data, with whole numbers.
use my_besu_net.Base.{
  ℕ, ◌+◌, ◌-◌, ◌*◌, ◌/◌, ◌==◌, true, List, [], ◌∷◌, ◌++◌, Option, none, some, ◌≡◌, refl, arith, ltb,
  if◌then◌else◌, String,
}
use my_besu_net.Base.Dict.{Dict, lookup, insert, ensure, append_at}
use my_besu_net.Base.Text.{Text, codes, equal, split_on, is, join}
use my_besu_net.Base.Int.{shown, pos, digits}
use my_besu_net.Benchmark.Markdown
use my_besu_net.Benchmark.Markdown.{
  Formats, Metadata, metadata_of, formatted, head_lines, table_rows, note_lines, generate_markdown,
  benchmark_md,
}
use my_besu_net.Benchmark.Table.{generate_markdown-aggregate_results}
use my_besu_net.Benchmark.Aggregate.{
  Summary, ConfigStats, delta, stats, summarize, aggregate_results, sub_stats,
}
use my_besu_net.Benchmark.Generate.{Benchmark, generate_benchmark, generate_benchmark-under, under}
use my_besu_net.Benchmark.Load.{RunResult, RunDir, EvalDir, present, absent, invalid}
use my_besu_net.Benchmark.Loaded.{evals_read}
use my_besu_net.Benchmark.Numbers.{Numbers, IsOrder}
use my_besu_net.Benchmark.Stats.{Stats, calculate_stats}
use my_besu_net.Json.{Value, num, arr, nil, ok, get, iterate}
use my_besu_net.Tests.Samples.{one}

abbrev whole : Numbers
whole = record {
  N = ℕ;
  zero = 0;
  add = λ x y. x + y;
  sub = λ x y. x - y;
  square = λ x. x * x;
  over = λ x k. x / k;
  root = λ x. x;
  round = λ x. x;
  less = λ x y. ltb x y;
  of_bool = λ b. if b then 1 else 0;
  of_int = λ k. k;
  is_zero = λ x. x == 0;
}

whole-IsOrder : IsOrder whole
whole-IsOrder = record {
  irreflexive = λ x. ground arith;
  transitive_not = λ x y z h g. ground arith;
  asymmetric = λ x y h. ground arith;
}

abbrev one_digit : Text → Option ℕ
one_digit (c ∷ []) = some (c - b'0')
one_digit _ = none

abbrev result : ℕ → RunResult ℕ
result rate = record {
  eval_id = num 0;
  run_number = 1;
  pass_rate = num rate;
  passed = num 1;
  failed = num 0;
  total = num 1;
  time_seconds = num 2;
  tokens = num 5;
  tool_calls = num 0;
  errors = num 0;
  expectations = arr nil;
  notes = [];
}

abbrev constant : ℕ → Stats ℕ
constant k = record { mean = k; stddev = 0; minimum = k; maximum = k }

abbrev of_rate : ℕ → ConfigStats ℕ
of_rate k = record { pass_rate = constant k; time_seconds = constant 2; tokens = constant 5 }

abbrev expected_summary : Dict (Summary ℕ)
expected_summary =
    (codes "with", stats (of_rate 7))
    ∷ (codes "without", stats (of_rate 4))
    ∷ (codes "delta", delta (record { pass_rate = 3; time_seconds = 0; tokens = 0 }))
    ∷ []

abbrev without : List (RunResult ℕ)
without = result 4 ∷ []

aggregate_results-summary :
    aggregate_results whole one_digit
      ((codes "with", result 7 ∷ []) ∷ (codes "without", without) ∷ [])
    ≡ ok expected_summary
unfolding aggregate_results calculate_stats insert equal
aggregate_results-summary = refl

-- whole numbers without decimals, and no sign but plus
abbrev plain : Formats whole
plain = record {
  fixed = λ k x. shown (pos x);
  signed = λ k x. codes "+" ++ shown (pos x);
  percent = λ x. x * 100;
  shown_value = λ v. codes "3";
  shown_stats = λ s. codes "{}";
  title = λ t. t;
}

abbrev meta : Metadata
meta = metadata_of [] (codes "skills/pdf") (codes "2026-01-01T00:00:00Z")

generate_markdown-aggregate_results_example :
    (p : ConfigStats ℕ) × (b : ConfigStats ℕ) × (summarize whole one_digit (result 7 ∷ []) ≡ ok p)
    × (summarize whole one_digit without ≡ ok b)
    × (generate_markdown whole one_digit plain meta (num 3 ∷ []) expected_summary []
        ≡ ok (
            join (codes "\n") (
              head_lines whole one_digit plain meta (num 3 ∷ []) (codes "with") (codes "without")
              ++ table_rows whole one_digit plain p b
                  (formatted whole one_digit plain (sub_stats whole one_digit p b))
              ++ [])))
unfolding note_lines equal
generate_markdown-aggregate_results_example =
    generate_markdown-aggregate_results whole one_digit plain meta (num 3 ∷ []) [] (codes "with")
      (codes "without") (result 7 ∷ []) without [] refl refl refl aggregate_results-summary

abbrev markdown : Text
markdown =
    codes
      "# Skill Benchmark: <skill-name>\n\n**Model**: <model-name>\n**Date**: now\n**Evals**: 3, 3 (3 runs each per configuration)\n\n## Summary\n\n| Metric | with | without | Delta |\n|--------|------------|---------------|-------|\n| Pass Rate | 700% ± 0% | 400% ± 0% | +3 |\n| Time | 2s ± 0s | 2s ± 0s | +0s |\n| Tokens | 5 ± 0 | 5 ± 0 | +0 |"

benchmark_md-written :
    benchmark_md whole one_digit plain [] []
      (codes "now")
      (record { runs = []; run_summary = expected_summary; evals_run = num 3 ∷ num 4 ∷ [] })
    ≡ ok markdown
unfolding benchmark_md generate_markdown Markdown.configs_of Markdown.summary_at Markdown.delta_at
    head_lines Markdown.spaced table_rows note_lines join shown digits lookup equal
benchmark_md-written = refl

-- One eval with one configuration; the second run has no grading.
abbrev run : String → Value ℕ → RunDir ℕ
run name v = record { name = codes name; grading = present v; timing = absent }

abbrev here : List (EvalDir ℕ)
here =
    record {
      name = codes "eval-3";
      metadata = absent;
      configs =
          record {
            name = codes "with";
            is_dir = true;
            runs =
                run "run-1" (one "summary" (one "pass_rate" (num 7)))
                ∷ record { name = codes "run-2"; grading = absent; timing = invalid }
                ∷ [];
          }
          ∷ [];
    }
    ∷ []

abbrev read : RunResult ℕ
read = record {
  eval_id = num 3;
  run_number = 1;
  pass_rate = num 7;
  passed = num 0;
  failed = num 0;
  total = num 0;
  time_seconds = num 0;
  tokens = num 0;
  tool_calls = num 0;
  errors = num 0;
  expectations = arr nil;
  notes = [];
}

abbrev only : Stats ℕ → Stats ℕ → Stats ℕ → ConfigStats ℕ
only a b c = record { pass_rate = a; time_seconds = b; tokens = c }

abbrev benchmark : Benchmark ℕ
benchmark = record {
  runs = (codes "with", read) ∷ [];
  run_summary =
      (codes "with", stats (only (constant 7) (constant 0) (constant 0)))
      ∷ (codes "delta", delta (record { pass_rate = 7; time_seconds = 0; tokens = 0 }))
      ∷ [];
  evals_run = num 3 ∷ [];
}

generate_benchmark-here :
    generate_benchmark whole one_digit (λ ids. ok ids) none here ≡ ok benchmark
unfolding generate_benchmark aggregate_results calculate_stats insert lookup equal is split_on
    ensure append_at get iterate
generate_benchmark-here = refl

generate_benchmark-under_example :
    under whole one_digit (codes "with") benchmark.runs
    ≡ evals_read whole one_digit (codes "with") 0 here
generate_benchmark-under_example =
    generate_benchmark-under whole one_digit (λ ids. ok ids) (codes "with") none here
      generate_benchmark-here
