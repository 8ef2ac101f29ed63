-- ===== src/Tests/ImproveTests.antt =====
-- The prompt of improve_description.py at concrete data.
use my_besu_net.Base.{ℕ, Bool, true, false, List, [], ◌∷◌, ◌++◌, none, ◌≡◌, refl, inl, inr}
use my_besu_net.Base.Dict.{Dict, lookup}
use my_besu_net.Base.Int.{digits}
use my_besu_net.Base.Text.{Text, codes, equal, partition, strip, strip_char}
use my_besu_net.Eval.Report.{Report, get_item}
use my_besu_net.Improve.Prompt
use my_besu_net.Improve.Attempts
use my_besu_net.Improve.Attempts
use my_besu_net.Loop.Cells
use my_besu_net.Loop.Cells.{shown_count}
use my_besu_net.Improve.Prompt.{
  prompt_of, prompt_head, prompt_tail, scores_summary, failures, section, title,
}
use my_besu_net.Improve.{improve_description, parse_answer, tagged}
use my_besu_net.Improve.Call.{Ran, finished, call_claude, improve}
use my_besu_net.Improve.Failures.{StandsIn, prompt_of-StandsIn}
use my_besu_net.Json.{ok}
use my_besu_net.Loop.History.{Cell, number, text, reports}

abbrev report : Text → Bool → ℕ → Bool → Report ℕ
report query should_trigger triggers pass = record {
  query = query;
  should_trigger = should_trigger;
  trigger_rate = triggers;
  triggers = triggers;
  runs = 3;
  pass = pass;
}

abbrev results : List (Report ℕ)
results =
    report (codes "a") true 3 true
    ∷ report (codes "b") false 2 false
    ∷ report (codes "c") true 0 false
    ∷ []

abbrev history : List (Dict (Cell ℕ))
history =
    ((codes "description", text (codes "d"))
      ∷ (codes "train_passed", number 1)
      ∷ (codes "total", number 2)
      ∷ (codes "results", reports (report (codes "a") true 3 true ∷ []))
      ∷ [])
    ∷ []

abbrev no_repr : List (Report ℕ) → Text
no_repr rs = []

abbrev tried : Text
tried =
    codes
      "PREVIOUS ATTEMPTS (do NOT repeat these — try something structurally different):\n\n<attempt train=1/2>\nDescription: \"d\"\nTrain results:\n  [PASS] \"a\" (triggered 3/3)\n</attempt>\n\n"

abbrev prompt : Text
prompt =
    prompt_head (codes "s") (codes "d") (scores_summary (1, 3) none)
    ++ (section (title true) (failures true results)
        ++ (section (title false) (failures false results)
            ++ (tried ++ prompt_tail (codes "body"))))

attempted : Attempts.previous_attempts no_repr history ≡ ok tried
unfolding Attempts.previous_attempts Attempts.attempts Attempts.attempt Attempts.score_str
    Cells.shown_cell Attempts.results_text Attempts.attempt_lines shown_count digits get_item lookup
    equal
attempted = refl

made :
    prompt_of no_repr (codes "s") (codes "body") (codes "d") results (1, 3) none history ≡ ok prompt
unfolding prompt_of Attempts.previous_attempts Attempts.attempts Attempts.attempt Attempts.score_str
    Cells.shown_cell Attempts.results_text Attempts.attempt_lines shown_count digits get_item lookup
    equal
made = refl

failed_section :
    section (title true) (failures true results)
    ≡ codes
        "FAILED TO TRIGGER (should have triggered but didn't):\n  - \"c\" (triggered 0/3 times)\n\n"
unfolding section Prompt.result_lines Prompt.result_line shown_count digits
failed_section = refl

prompt_of-StandsIn_example : StandsIn (report (codes "c") true 0 false) prompt
prompt_of-StandsIn_example =
    prompt_of-StandsIn no_repr (codes "s") (codes "body") (codes "d") results (1, 3) none history
      (report (codes "c") true 0 false) made (inr (inr (inl refl))) refl

-- a model that gives one answer
abbrev answers : List Text → Text → Ran
answers command stdin = finished 0 (codes "<new_description> \"e\" </new_description>")

improved :
    improve answers none no_repr (codes "s") (codes "body") (codes "d") results (1, 3) none history
    ≡ ok (codes "e")
unfolding improve improve_description parse_answer tagged call_claude prompt_of partition strip
    strip_char Attempts.previous_attempts Attempts.attempts Attempts.attempt Attempts.score_str
    Cells.shown_cell Attempts.results_text Attempts.attempt_lines shown_count digits get_item lookup
    equal
improved = refl
