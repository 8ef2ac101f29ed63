-- ===== src/Tests/EvalTests.antt =====
-- `run_eval` and its criterion at concrete results.
use mathlib.Core.List.Perm
use my_besu_net.Base.{ℕ, ◌+◌, ◌*◌, true, false, List, [], ◌∷◌, ◌≡◌, refl, length, count_if}
use my_besu_net.Base.Dict.{lookup, insert}
use my_besu_net.Base.Text.{Text, codes, equal}
use my_besu_net.Eval.Counts.{IsSchedule, run_eval-IsSchedule, asks, runs_in}
use my_besu_net.Eval.Order.{Agree, Agree-of_All, run_eval-perm}
use my_besu_net.Eval.Pool.{Item, Completion, submissions, collect}
use my_besu_net.Eval.Report.{EvalOutput, run_eval, find}
use my_besu_net.Eval.Total.{expected, run_eval-ok}
use my_besu_net.Json.{ok, raise, timeout_expired}
use my_besu_net.Tests.Samples.{fractions}

abbrev half : ℕ × ℕ
half = (1, 2)

abbrev yes_item : Item
yes_item = record { query = codes "make a pdf"; should_trigger = true }

abbrev no_item : Item
no_item = record { query = codes "hello"; should_trigger = false }

abbrev first_run : Completion
first_run = record { item = yes_item; outcome = ok true }

abbrev second_run : Completion
second_run = record { item = no_item; outcome = raise timeout_expired }

abbrev third_run : Completion
third_run = record { item = yes_item; outcome = raise timeout_expired }

abbrev fourth_run : Completion
fourth_run = record { item = no_item; outcome = ok false }

abbrev runs : List Completion
runs = first_run ∷ second_run ∷ third_run ∷ fourth_run ∷ []

abbrev other_runs : List Completion
other_runs = second_run ∷ first_run ∷ third_run ∷ fourth_run ∷ []

abbrev output : List Completion → EvalOutput (ℕ × ℕ)
output _ = record {
  skill_name = codes "s";
  description = codes "d";
  results =
      record {
        query = codes "make a pdf";
        should_trigger = true;
        trigger_rate = (1, 2);
        triggers = 1;
        runs = 2;
        pass = true;
      }
      ∷ record {
        query = codes "hello";
        should_trigger = false;
        trigger_rate = (0, 2);
        triggers = 0;
        runs = 2;
        pass = true;
      }
      ∷ [];
  total = 2;
  passed = 2;
  failed = 0;
}

abbrev other_output : List Completion → EvalOutput (ℕ × ℕ)
other_output _ = record {
  skill_name = codes "s";
  description = codes "d";
  results =
      record {
        query = codes "hello";
        should_trigger = false;
        trigger_rate = (0, 2);
        triggers = 0;
        runs = 2;
        pass = true;
      }
      ∷ record {
        query = codes "make a pdf";
        should_trigger = true;
        trigger_rate = (1, 2);
        triggers = 1;
        runs = 2;
        pass = true;
      }
      ∷ [];
  total = 2;
  passed = 2;
  failed = 0;
}

run_eval-runs : run_eval fractions half (codes "s") (codes "d") runs ≡ ok (output runs)
unfolding run_eval collect lookup insert equal
run_eval-runs = refl

run_eval-ok_example :
    (out : EvalOutput (ℕ × ℕ)) × (run_eval fractions half (codes "s") (codes "d") runs ≡ ok out)
    × ((q : Text) → find q out.results ≡ expected fractions half q runs)
    × (out.passed + out.failed ≡ out.total)
    × (out.total ≡ length out.results)
run_eval-ok_example = run_eval-ok fractions half (codes "s") (codes "d") runs

schedule : IsSchedule 2 (yes_item ∷ no_item ∷ []) runs
unfolding submissions
schedule = Perm.cons yes_item (Perm.swap yes_item no_item (no_item ∷ []))

run_eval-IsSchedule_example :
    (out : EvalOutput (ℕ × ℕ)) × (run_eval fractions half (codes "s") (codes "d") runs ≡ ok out)
    × (runs_in (find (codes "hello") out.results)
        ≡ 2 * count_if (asks (codes "hello")) (yes_item ∷ no_item ∷ []))
run_eval-IsSchedule_example =
    run_eval-IsSchedule fractions half (codes "s") (codes "d") 2 (yes_item ∷ no_item ∷ []) runs
      (codes "hello") schedule

abbrev entry : Text → Item
entry q = record { query = q; should_trigger = equal q (codes "make a pdf") }

agreed : Agree entry runs
unfolding equal
agreed = Agree-of_All entry runs (refl, (refl, (refl, (refl, tt))))

other_runs_ok : run_eval fractions half (codes "s") (codes "d") other_runs ≡ ok (other_output runs)
unfolding run_eval collect lookup insert equal
other_runs_ok = refl

run_eval-perm_example :
    find (codes "hello") (output runs).results ≡ find (codes "hello") (other_output runs).results
run_eval-perm_example =
    run_eval-perm fractions half entry (codes "s") (codes "d") runs other_runs agreed
      (Perm.swap second_run first_run (third_run ∷ fourth_run ∷ [])) run_eval-runs other_runs_ok
      (codes "hello")
