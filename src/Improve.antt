-- ===== src/Improve.antt =====
-- `improve_description` of .agents/skills/skill-creator/scripts/improve_description.py: what it makes
-- of the model's answer. The prompt's text and the call of `claude -p` are parameters.
pub mod Attempts
pub mod Prompt
pub mod Failures
pub mod Call
use my_besu_net.Base.{ℕ, Option, none, some, if◌then◌else◌, ltb, length}
use my_besu_net.Base.Text.{Text, codes, strip, strip_char, partition}
use my_besu_net.Json.{Result, ok, ◌>>=◌}

-- group 1 of `re.search(r"<new_description>(.*?)</new_description>", text, re.DOTALL)`
unfoldable pub tagged : Text → Option Text
unfolding partition
tagged text = elim (partition (codes "<new_description>") text) [
  | none ↦ none
  | some (_, rest) ↦ elim (partition (codes "</new_description>") rest) [
    | none ↦ none
    | some (inside, _) ↦ some inside
  ]
]

-- the description that an answer holds
unfoldable pub parse_answer : Text → Text
unfolding tagged strip strip_char
parse_answer text = elim (tagged text) [
  | none ↦ strip_char b'"' (strip text)
  | some inside ↦ strip_char b'"' (strip inside)
]

abbrev pub hard_limit : ℕ
hard_limit = 1024

-- `call_claude` is `_call_claude`, which raises when the command fails or times out; `shorten_prompt`
-- builds the second prompt from the first and the description that is too long.
module _ (call_claude : Text → Result Text) (shorten_prompt : Text → Text → Text) where
  unfoldable pub improve_description : Text → Result Text
  unfolding parse_answer
  improve_description prompt = do
    text ← call_claude prompt
    let description = parse_answer text
    if ltb hard_limit (length description)
        then (do
          shorten_text ← call_claude (shorten_prompt prompt description)
          ok (parse_answer shorten_text))
        else ok description
