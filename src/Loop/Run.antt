-- ===== src/Loop/Run.antt =====
-- `run_loop` (run_loop.py, lines 47 to 241), without its printing. What the world decides is a
-- parameter: `pool` gives the completed futures of one evaluation, `call_claude` the answers of
-- `claude -p` in one iteration, `write_text` what becomes of the write of the live report in one
-- iteration; `prompt` and `shorten_prompt` build the prompts.
use my_besu_net.Base.{
  ℕ, zero, suc, ◌+◌, Bool, List, [], ◌∷◌, ◌++◌, Option, none, some, ◌==◌, if◌then◌else◌, length,
}
use my_besu_net.Base.Dict.{Dict}
use my_besu_net.Base.Text.{Text}
use my_besu_net.Eval.Pool.{Item, Completion}
use my_besu_net.Eval.Report.{Report, run_eval}
use my_besu_net.Floats.{Floats}
use my_besu_net.HtmlReport.Live.{live_report}
use my_besu_net.HtmlReport.Page.{CellOrder}
use my_besu_net.Improve.{improve_description}
use my_besu_net.Json.{Result, ok, raise, ◌>>=◌, value_error}
use my_besu_net.Loop.Best.{first_max}
use my_besu_net.Loop.History.{Summary, Entry, Cell, entry_of, blinded_history}
use my_besu_net.Loop.Split.{split_eval_set}

pub data ExitReason : Type 0 where
  unknown : ExitReason
  all_passed : ℕ → ExitReason
  max_iterations : ℕ → ExitReason

-- what the loop leaves behind
pub record LoopState (F : Type 0) : Type 0 where
  pub exit_reason : ExitReason
  pub current_description : Text
  pub history : List (Entry F)

-- the dict that `run_loop` returns; a score is a pair of passed and total
pub record LoopOutput (F : Type 0) : Type 0 where
  pub exit_reason : ExitReason
  pub original_description : Text
  pub best_description : Text
  pub best_score : Option (ℕ × ℕ)
  pub best_train_score : ℕ × ℕ
  pub best_test_score : Option (ℕ × ℕ)
  pub final_description : Text
  pub iterations_run : ℕ
  pub train_size : ℕ
  pub test_size : ℕ
  pub history : List (Entry F)

-- `live_report_path`, with what the report is made and written with
pub record LivePage (F : Type 0) : Type 0 where
  pub four_fifths : F
  pub half : F
  pub order : CellOrder F
  pub repr : List (Report F) → Text
  pub write_text : ℕ → Text → Result (Unit {0})

-- What the loop calls; `live` is `none` where no path is given.
pub record Calls (F : Type 0) : Type 0 where
  pub live : Option (LivePage F)
  pub pool : ℕ → Text → List Item → List Completion
  pub call_claude : ℕ → Text → Result Text
  pub prompt : Text → List (Report F) → List (Dict (Cell F)) → Text
  pub shorten_prompt : Text → Text → Text

abbrev pub score : Summary → ℕ × ℕ
score s = (s.passed, s.total)

abbrev pub test_score : {F : Type 0} → Entry F → Option (ℕ × ℕ)
test_score e = elim (e.test) [ none ↦ none | some s ↦ some (score s) ]

-- `h["test_passed"] or 0`
abbrev pub test_key : {F : Type 0} → Entry F → ℕ
test_key e = elim (e.test) [ none ↦ 0 | some s ↦ s.passed ]

abbrev pub train_key : {F : Type 0} → Entry F → ℕ
train_key e = e.train.passed

-- `description_override or original_description`
unfoldable pub choose : Option Text → Text → Text
choose none original = original
choose (some []) original = original
choose (some (c ∷ t)) original = c ∷ t

module _ (fl : Floats) (trigger_threshold : fl.F) (calls : Calls fl.F) (skill_name : Text) where
  module _ (train_set test_set : List Item) (limit : ℕ) where
    unfoldable pub evaluate : ℕ → Text → Result (Entry fl.F)
    evaluate iteration description = do
      all_results ←
          run_eval fl trigger_threshold skill_name description
            (calls.pool iteration description (train_set ++ test_set))
      ok (entry_of iteration description train_set test_set all_results.results)

    unfoldable pub improve : ℕ → Text → Entry fl.F → List (Entry fl.F) → Result Text
    improve iteration description entry history =
        improve_description (calls.call_claude iteration) calls.shorten_prompt
          (calls.prompt description entry.train_results (blinded_history history))

    module _ (original : Text) where
      -- the live report behind an iteration, where there is a path for it
      unfoldable pub write_live :
          Option (LivePage fl.F) → ℕ → Text → List (Entry fl.F) → Result (Unit {0})
      write_live none iteration description history = ok tt
      write_live (some page) iteration description history = do
        html ←
            live_report fl page.four_fifths page.half page.order page.repr skill_name original
              description (length train_set) (length test_set) history
        page.write_text iteration html

      -- `for iteration in range(1, max_iterations + 1)`, with the iterations left
      unfoldable pub iterate : ℕ → ℕ → Text → List (Entry fl.F) → Result (LoopState fl.F)
      unfolding evaluate improve write_live
      iterate zero iteration description history =
          ok
            (record { exit_reason = unknown; current_description = description; history = history })
      iterate (suc left) iteration description before = do
        entry ← evaluate iteration description
        let history = before ++ entry ∷ []
        _ ← write_live calls.live iteration description history
        if entry.train.failed == 0
            then ok (record {
              exit_reason = all_passed iteration;
              current_description = description;
              history = history;
            })
            else if iteration == limit
            then ok (record {
              exit_reason = max_iterations limit;
              current_description = description;
              history = history;
            })
            else (do
              new_description ← improve iteration description entry history
              iterate left (iteration + 1) new_description history)

    -- the test score, or the train score where there is no test set
    abbrev pub score_key : Entry fl.F → ℕ
    score_key e = elim test_set [ [] ↦ train_key e | _ ∷ _ ↦ test_key e ]

    -- the dict that is returned
    abbrev pub report : Text → LoopState fl.F → Entry fl.F → LoopOutput fl.F
    report original s best = record {
      exit_reason = s.exit_reason;
      original_description = original;
      best_description = best.description;
      best_score = (elim test_set [ [] ↦ some (score best.train) | _ ∷ _ ↦ test_score best ]);
      best_train_score = score best.train;
      best_test_score = (elim test_set [ [] ↦ none | _ ∷ _ ↦ test_score best ]);
      final_description = s.current_description;
      iterations_run = length s.history;
      train_size = length train_set;
      test_size = length test_set;
      history = s.history;
    }

    -- the choice of the best entry behind the loop; `max` of an empty history raises
    unfoldable pub conclude : Text → LoopState fl.F → List (Entry fl.F) → Result (LoopOutput fl.F)
    conclude original s [] = raise value_error
    conclude original s (e ∷ es) = ok (report original s (first_max score_key e es))

    unfoldable pub run_sets : Text → Text → Result (LoopOutput fl.F)
    unfolding iterate conclude
    run_sets original start = do
      s ← iterate original limit 1 start []
      conclude original s s.history

  -- `holds_out` is `holdout > 0`; `portion` and `shuffle` are those of `split_eval_set`.
  unfoldable pub run_loop :
      Bool
      → (ℕ → ℕ)
      → (Bool → List Item → List Item)
      → List Item
      → ℕ
      → Text
      → Option Text
      → Result (LoopOutput fl.F)
  unfolding run_sets choose
  run_loop holds_out portion shuffle eval_set limit original override =
      let sets : List Item × List Item =
        if holds_out then split_eval_set portion shuffle eval_set else (eval_set, []) in
      run_sets sets.0 sets.1 limit original (choose override original)
