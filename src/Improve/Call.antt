-- ===== src/Improve/Call.antt =====
-- `_call_claude` of improve_description.py, and `improve_description` with its prompts. The environment of
-- the process and the log file are left out.
use my_besu_net.Base.{ℕ, List, [], ◌∷◌, Option, none, some, if◌then◌else◌, ◌==◌}
use my_besu_net.Base.Dict.{Dict}
use my_besu_net.Base.Text.{Text, codes}
use my_besu_net.Eval.Report.{Report}
use my_besu_net.Improve.{improve_description}
use my_besu_net.Improve.Prompt.{prompt_of, shorten_prompt}
use my_besu_net.Json.{Result, ok, raise, ◌>>=◌, runtime_error, timeout_expired, os_error}
use my_besu_net.Loop.History.{Cell}

-- What `subprocess.run` gives: a return code with the output, or an exception.
pub data Ran : Type 0 where
  finished : ℕ → Text → Ran
  timed_out : Ran
  unstarted : Ran

unfoldable pub claude_command : Option Text → List Text
claude_command none = codes "claude" ∷ codes "-p" ∷ codes "--output-format" ∷ codes "text" ∷ []
claude_command (some []) = codes "claude" ∷ codes "-p" ∷ codes "--output-format" ∷ codes "text" ∷ []
claude_command (some (c ∷ model)) =
    codes "claude"
    ∷ codes "-p"
    ∷ codes "--output-format"
    ∷ codes "text"
    ∷ codes "--model"
    ∷ (c ∷ model)
    ∷ []

-- `run` gets the command line and the text on stdin.
module _ (run : List Text → Text → Ran) (model : Option Text) where
  unfoldable pub call_claude : Text → Result Text
  unfolding claude_command
  call_claude prompt = elim (run (claude_command model) prompt) [
    | finished code stdout ↦ if code == 0 then ok stdout else raise runtime_error
    | timed_out ↦ raise timeout_expired
    | unstarted ↦ raise os_error
  ]

  unfoldable pub improve :
      {F : Type 0}
      → (List (Report F) → Text)
      → Text
      → Text
      → Text
      → List (Report F)
      → ℕ × ℕ
      → Option (ℕ × ℕ)
      → List (Dict (Cell F))
      → Result Text
  unfolding prompt_of improve_description call_claude shorten_prompt
  improve repr skill_name skill_content current_description results counts test_counts history = do
    prompt ←
        prompt_of repr skill_name skill_content current_description results counts test_counts
          history
    improve_description call_claude shorten_prompt prompt
