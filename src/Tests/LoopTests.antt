-- ===== src/Tests/LoopTests.antt =====
-- The split and the loop of run_loop.py at concrete data.
use mathlib.Core.List.{Perm}
use mathlib.Core.List.Perm
use my_besu_net.Base.{
  ℕ, ◌*◌, ◌/◌, ◌≤◌, Bool, true, false, List, [], ◌∷◌, ◌++◌, none, some, String, ◌≡◌, ◌↔◌, inl, refl,
  arith, length, count_if,
}
use my_besu_net.Base.Dict.{lookup, insert}
use my_besu_net.Base.Text.{Text, codes, equal, is, strip, strip_char, partition, starts_with}
use my_besu_net.Eval.Pool.{Item, Completion, collect}
use my_besu_net.Eval.Report.{Report, run_eval}
use my_besu_net.Improve.{improve_description}
use my_besu_net.Json.{ok}
use my_besu_net.Loop.Best.{IsFirstMax, first_max}
use my_besu_net.Loop.Exit.{Ends}
use my_besu_net.Loop.History.{Entry, SameTrainings, blinded_history, blinded_history_iff, entry_of}
use my_besu_net.Loop.Result.{run_sets-Ends}
use my_besu_net.Loop.Run.{Calls, LoopOutput, run_sets, run_loop, choose, all_passed, score_key}
use my_besu_net.Loop.Vacuous.{run_loop_vacuous}
use my_besu_net.Loop.Split.{
  split_eval_set, split_eval_set-perm, split_eval_set_stratified, labelled,
}
use my_besu_net.Tests.Samples.{fractions}

abbrev pub item : String → Bool → Item
item q b = record { query = codes q; should_trigger = b }

abbrev eval_set : List Item
eval_set = item "a" true ∷ item "x" false ∷ item "b" true ∷ item "c" true ∷ item "y" false ∷ []

-- two fifths, rounded down
abbrev portion : ℕ → ℕ
portion n = n * 2 / 5

abbrev unshuffled : Bool → List Item → List Item
unshuffled b xs = xs

split_eval_set-perm_example :
    Perm
      ((split_eval_set portion unshuffled eval_set).0
        ++ (split_eval_set portion unshuffled eval_set).1)
      eval_set
split_eval_set-perm_example = split_eval_set-perm portion unshuffled (λ b xs. Perm.refl xs) eval_set

split_eval_set_stratified_example :
    (count_if labelled (split_eval_set portion unshuffled eval_set).1 ≡ 1)
    × (length (split_eval_set portion unshuffled eval_set).1 ≡ 2)
split_eval_set_stratified_example =
    split_eval_set_stratified portion unshuffled (λ b xs. Perm.refl xs) eval_set

-- Each query runs once; only the description "good" triggers.
abbrev pub run_all : Text → List Item → List Completion
run_all d [] = []
run_all d (i ∷ is) = record { item = i; outcome = ok (equal d (codes "good")) } ∷ run_all d is

abbrev pub calls : Calls (ℕ × ℕ)
calls = record {
  live = none;
  pool = λ i d items. run_all d items;
  call_claude = λ i text. ok (codes "<new_description> good </new_description>");
  prompt = λ d rs h. d;
  shorten_prompt = λ p d. p;
}

abbrev pub half : ℕ × ℕ
half = (1, 2)

abbrev train : List Item
train = item "a" true ∷ []

abbrev report : ℕ → ℕ → Bool → Report (ℕ × ℕ)
report triggers runs pass = record {
  query = codes "a";
  should_trigger = true;
  trigger_rate = (triggers, runs);
  triggers = triggers;
  runs = runs;
  pass = pass;
}

abbrev failing : Entry (ℕ × ℕ)
failing = record {
  iteration = 1;
  description = codes "bad";
  train = record { passed = 0; failed = 1; total = 1 };
  train_results = report 0 1 false ∷ [];
  test = none;
  test_results = none;
}

abbrev passing : Entry (ℕ × ℕ)
passing = record {
  iteration = 2;
  description = codes "good";
  train = record { passed = 1; failed = 0; total = 1 };
  train_results = report 1 1 true ∷ [];
  test = none;
  test_results = none;
}

abbrev tested : Entry (ℕ × ℕ)
tested = record failing {
  test = some (record { passed = 3; failed = 1; total = 4 });
  test_results = some [];
}

abbrev out : LoopOutput (ℕ × ℕ)
out = record {
  exit_reason = all_passed 2;
  original_description = codes "bad";
  best_description = codes "good";
  best_score = some (1, 1);
  best_train_score = (1, 1);
  best_test_score = none;
  final_description = codes "good";
  iterations_run = 2;
  train_size = 1;
  test_size = 0;
  history = failing ∷ passing ∷ [];
}

run_sets-out :
    run_sets fractions half calls (codes "s") train [] 3 (codes "bad") (codes "bad") ≡ ok out
unfolding run_sets first_max run_eval collect lookup insert equal entry_of improve_description
    partition strip strip_char starts_with
run_sets-out = refl

run_sets-Ends_example :
    Ends 1 3
      (record {
        exit_reason = all_passed 2;
        current_description = codes "good";
        history = out.history;
      })
      []
    × ((best : Entry (ℕ × ℕ)) × (codes "good" ≡ best.description)
        × IsFirstMax (score_key fractions half calls (codes "s") train [] 3) best out.history)
    × (◌≡◌ {A = ℕ} 2 (length out.history))
    × (2 ≤ 3)
run_sets-Ends_example =
    run_sets-Ends fractions half calls (codes "s") train [] 3 (codes "bad") (codes "bad")
      (omega arith) run_sets-out

blinded_history_iff_example :
    (blinded_history (failing ∷ passing ∷ []) ≡ blinded_history (tested ∷ passing ∷ []))
    ↔ SameTrainings (failing ∷ passing ∷ []) (tested ∷ passing ∷ [])
blinded_history_iff_example = blinded_history_iff (failing ∷ passing ∷ []) (tested ∷ passing ∷ [])

run_loop_vacuous_example :
    (o : LoopOutput (ℕ × ℕ)) × (run_loop fractions half calls
        (codes "s")
        true
        portion
        unshuffled
        (item "a" true ∷ item "x" false ∷ [])
        5
        (codes "bad")
        none
      ≡ ok o)
    × (o.exit_reason ≡ all_passed 1)
    × (o.best_description ≡ choose none (codes "bad"))
run_loop_vacuous_example =
    run_loop_vacuous fractions half calls (codes "s") portion unshuffled (λ b xs. Perm.refl xs)
      (item "a" true ∷ item "x" false ∷ []) 5 (codes "bad") none (omega arith) (omega arith) tt
      (inl refl) (omega arith)
