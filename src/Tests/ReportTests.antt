-- ===== src/Tests/ReportTests.antt =====
-- The report of generate_report.py at concrete data.
use my_besu_net.Base.{
  ℕ, ◌+◌, Bool, true, false, List, [], ◌∷◌, some, ◌≡◌, inr, refl, arith, ltb, ◌==◌, IsIn,
}
use my_besu_net.Base.Dict.{lookup, insert}
use my_besu_net.Base.Int.{pos}
use my_besu_net.Base.Text.{Text, codes, equal, strip, strip_char, partition, starts_with}
use my_besu_net.Eval.Pool.{Item, collect}
use my_besu_net.Eval.Report.{Report, run_eval}
use my_besu_net.HtmlReport.Best.{best_iter-run_sets}
use my_besu_net.HtmlReport.Escape.{escape}
use my_besu_net.HtmlReport.Live.{dicts}
use my_besu_net.HtmlReport.Page.{
  CellOrder, IsPython, test_queries, reports_of, best_iter, generate_html,
}
use my_besu_net.HtmlReport.Parts.{aggregate_runs}
use my_besu_net.HtmlReport.Runs.{wrong_runs, aggregate_runs-wrong_runs}
use my_besu_net.Improve.{improve_description}
use my_besu_net.Json.{Result, ok, raise, type_error, value_error}
use my_besu_net.Loop.Best.{first_max}
use my_besu_net.Loop.History.{Cell, Entry, number, text, entry_of, to_dict, results_cell}
use my_besu_net.Loop.Returns.{run_sets-Returns}
use my_besu_net.Loop.Run.{Calls, LoopOutput, run_sets, all_passed}
use my_besu_net.Tests.LoopTests.{item, calls, half}
use my_besu_net.Tests.Samples.{fractions}

abbrev same_cell : Cell (ℕ × ℕ) → Cell (ℕ × ℕ) → Bool
same_cell (number m) (number n) = m == n
same_cell _ _ = false

abbrev less_cell : Cell (ℕ × ℕ) → Cell (ℕ × ℕ) → Result Bool
less_cell (number m) (number n) = ok (ltb m n)
less_cell _ _ = raise type_error

abbrev order : CellOrder (ℕ × ℕ)
order = record { same = same_cell; less = less_cell }

order-IsPython : IsPython order
order-IsPython = record { same_number = λ m n. refl; less_number = λ m n. refl }

abbrev no_repr : List (Report (ℕ × ℕ)) → Text
no_repr rs = []

abbrev four_fifths : ℕ × ℕ
four_fifths = (4, 5)

abbrev train : List Item
train = item "a" true ∷ []

abbrev test : List Item
test = item "b" false ∷ []

abbrev result : Text → Bool → ℕ → Bool → Report (ℕ × ℕ)
result query should_trigger triggers pass = record {
  query = query;
  should_trigger = should_trigger;
  trigger_rate = (triggers, 1);
  triggers = triggers;
  runs = 1;
  pass = pass;
}

abbrev first : Entry (ℕ × ℕ)
first = record {
  iteration = 1;
  description = codes "bad";
  train = record { passed = 0; failed = 1; total = 1 };
  train_results = result (codes "a") true 0 false ∷ [];
  test = some (record { passed = 1; failed = 0; total = 1 });
  test_results = some (result (codes "b") false 0 true ∷ []);
}

abbrev second : Entry (ℕ × ℕ)
second = record {
  iteration = 2;
  description = codes "good";
  train = record { passed = 1; failed = 0; total = 1 };
  train_results = result (codes "a") true 1 true ∷ [];
  test = some (record { passed = 0; failed = 1; total = 1 });
  test_results = some (result (codes "b") false 1 false ∷ []);
}

abbrev out : LoopOutput (ℕ × ℕ)
out = record {
  exit_reason = all_passed 2;
  original_description = codes "bad";
  best_description = codes "bad";
  best_score = some (1, 1);
  best_train_score = (0, 1);
  best_test_score = some (1, 1);
  final_description = codes "good";
  iterations_run = 2;
  train_size = 1;
  test_size = 1;
  history = first ∷ second ∷ [];
}

run_sets-out :
    run_sets fractions half calls (codes "s") train test 3 (codes "bad") (codes "bad") ≡ ok out
unfolding run_sets first_max run_eval collect lookup insert equal entry_of improve_description
    partition strip strip_char starts_with
run_sets-out = refl

-- with a live report
abbrev live_calls : Calls (ℕ × ℕ)
live_calls = record calls {
  live = some (record {
    four_fifths = four_fifths;
    half = half;
    order = order;
    repr = no_repr;
    write_text = λ i html. ok tt;
  });
}

-- without a test set the live report of the first iteration ends the run
run_sets-raised :
    run_sets fractions half live_calls (codes "s") train [] 3 (codes "bad") (codes "bad")
    ≡ raise type_error
run_sets-raised =
    run_sets-Returns fractions half live_calls (codes "s") train [] 3 (codes "bad") (codes "bad")
      (λ i text. (codes "<new_description> good </new_description>", refl))
      (order-IsPython, λ i html. refl)

asked : test_queries (dicts out.history) ≡ ok ((codes "b", false) ∷ [])
unfolding test_queries to_dict lookup equal results_cell reports_of
asked = refl

best_iter-run_sets_example :
    (b : Entry (ℕ × ℕ)) × IsIn b out.history
    × (b.description ≡ codes "bad")
    × (best_iter order ((codes "b", false) ∷ []) (dicts out.history) ≡ ok (number b.iteration))
best_iter-run_sets_example =
    best_iter-run_sets fractions order order-IsPython half calls (codes "s") train test 3
      (codes "bad") (codes "bad") ((codes "b", false) ∷ []) run_sets-out asked (inr (cc))

aggregate_runs-wrong_runs_example :
    (correct : ℕ) × ((aggregate_runs first.train_results).0 ≡ pos correct)
    × (correct + wrong_runs first.train_results ≡ (aggregate_runs first.train_results).1)
aggregate_runs-wrong_runs_example = aggregate_runs-wrong_runs first.train_results (omega arith)

escaped : escape (codes "<a & 'b'>") ≡ codes "&lt;a &amp; &#x27;b&#x27;&gt;"
unfolding escape
escaped = refl

-- a history without entries has no greatest entry
empty_history :
    generate_html fractions four_fifths half order no_repr
      ((codes "original_description", text (codes "d"))
        ∷ (codes "best_description", text (codes "d"))
        ∷ [])
      []
      false
      []
    ≡ raise value_error
unfolding generate_html lookup equal
empty_history = refl
