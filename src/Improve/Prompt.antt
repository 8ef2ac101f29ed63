-- ===== src/Improve/Prompt.antt =====
-- The prompts of improve_description.py.
use my_besu_net.Base.{
  ℕ, Bool, true, false, not, ◌&&◌, List, [], ◌∷◌, ◌++◌, Option, none, some, keep, length,
}
use my_besu_net.Base.Dict.{Dict}
use my_besu_net.Base.Text.{Text, codes}
use my_besu_net.Eval.Report.{Report}
use my_besu_net.Json.{Result, ok, ◌>>=◌}
use my_besu_net.Loop.History.{Cell}
use my_besu_net.Improve.Attempts.{previous_attempts}
use my_besu_net.Loop.Cells.{shown_count, fraction_of}

unfoldable pub scores_summary : ℕ × ℕ → Option (ℕ × ℕ) → Text
unfolding shown_count
scores_summary (passed, total) none =
    codes "Train: " ++ fraction_of (shown_count passed) (shown_count total)
scores_summary (passed, total) (some (test_passed, test_total)) =
    codes "Train: "
    ++ fraction_of (shown_count passed) (shown_count total)
    ++ codes ", Test: "
    ++ fraction_of (shown_count test_passed) (shown_count test_total)

-- the prompt up to the failures
unfoldable pub prompt_head : Text → Text → Text → Text
prompt_head skill_name current_description scores_summary =
    codes "You are optimizing a skill description for a Claude Code skill called \""
    ++ skill_name
    ++ codes
        "\". A \"skill\" is sort of like a prompt, but with progressive disclosure -- there's a title and description that Claude sees when deciding whether to use the skill, and then if it does use the skill, it reads the .md file which has lots more details and potentially links to other resources in the skill folder like helper files and scripts and additional documentation or examples.\n\n"
    ++ codes
        "The description appears in Claude's \"available_skills\" list. When a user sends a query, Claude decides whether to invoke the skill based solely on the title and on this description. Your goal is to write a description that triggers for relevant queries, and doesn't trigger for irrelevant ones.\n\n"
    ++ codes "Here's the current description:\n"
    ++ codes "<current_description>\n"
    ++ codes "\""
    ++ current_description
    ++ codes "\"\n"
    ++ codes "</current_description>\n\n"
    ++ codes "Current scores ("
    ++ scores_summary
    ++ codes "):\n"
    ++ codes "<scores_summary>\n"

-- the prompt behind the attempts
unfoldable pub prompt_tail : Text → Text
prompt_tail skill_content =
    codes "</scores_summary>\n\n"
    ++ codes "Skill content (for context on what the skill does):\n"
    ++ codes "<skill_content>\n"
    ++ skill_content
    ++ codes "\n"
    ++ codes "</skill_content>\n\n"
    ++ codes
        "Based on the failures, write a new and improved description that is more likely to trigger correctly. When I say \"based on the failures\", it's a bit of a tricky line to walk because we don't want to overfit to the specific cases you're seeing. So what I DON'T want you to do is produce an ever-expanding list of specific queries that this skill should or shouldn't trigger for. Instead, try to generalize from the failures to broader categories of user intent and situations where this skill would be useful or not useful. The reason for this is twofold:\n\n"
    ++ codes "1. Avoid overfitting\n"
    ++ codes
        "2. The list might get loooong and it's injected into ALL queries and there might be a lot of skills, so we don't want to blow too much space on any given description.\n\n"
    ++ codes
        "Concretely, your description should not be more than about 100-200 words, even if that comes at the cost of accuracy. There is a hard limit of 1024 characters — descriptions over that will be truncated, so stay comfortably under it.\n\n"
    ++ codes "Here are some tips that we've found to work well in writing these descriptions:\n"
    ++ codes
        "- The skill should be phrased in the imperative -- \"Use this skill for\" rather than \"this skill does\"\n"
    ++ codes
        "- The skill description should focus on the user's intent, what they are trying to achieve, vs. the implementation details of how the skill works.\n"
    ++ codes
        "- The description competes with other skills for Claude's attention — make it distinctive and immediately recognizable.\n"
    ++ codes
        "- If you're getting lots of failures after repeated attempts, change things up. Try different sentence structures or wordings.\n\n"
    ++ codes
        "I'd encourage you to be creative and mix up the style in different iterations since you'll have multiple opportunities to try different approaches and we'll just grab the highest-scoring one at the end. \n\n"
    ++ codes
        "Please respond with only the new description text in <new_description> tags, nothing else."

unfoldable pub shorten_prompt : Text → Text → Text
unfolding shown_count
shorten_prompt prompt description =
    prompt
    ++ codes "\n\n---\n\nA previous attempt produced this description, which at "
    ++ shown_count (length description)
    ++ codes " characters is over the 1024-character hard limit:\n\n\""
    ++ description
    ++ codes
        "\"\n\nRewrite it to be under 1024 characters while keeping the most important trigger words and intent coverage. Respond with only the new description in <new_description> tags."

abbrev pub title : Bool → Text
title true = codes "FAILED TO TRIGGER (should have triggered but didn't):\n"
title false = codes "FALSE TRIGGERS (triggered but shouldn't have):\n"

module _ {F : Type 0} where
  -- a failure among the results that should trigger, or among those that should not
  abbrev pub failed_as : Bool → Report F → Bool
  failed_as true r = r.should_trigger && not r.pass
  failed_as false r = not r.should_trigger && not r.pass

  -- `failed_triggers` and `false_triggers`
  abbrev pub failures : Bool → List (Report F) → List (Report F)
  failures should_trigger results = keep (failed_as should_trigger) results

  unfoldable pub result_line : Report F → Text
  unfolding shown_count
  result_line r =
      codes "  - \""
      ++ r.query
      ++ codes "\" (triggered "
      ++ fraction_of (shown_count r.triggers) (shown_count r.runs)
      ++ codes " times)\n"

  unfoldable pub result_lines : List (Report F) → Text
  unfolding result_line
  result_lines [] = []
  result_lines (r ∷ rs) = result_line r ++ result_lines rs

  -- a section, where there are failures
  unfoldable pub section : Text → List (Report F) → Text
  unfolding result_lines
  section heading [] = []
  section heading (r ∷ rs) = heading ++ (result_lines (r ∷ rs) ++ codes "\n")

  -- `repr` is `str` of a list of results.
  module _ (repr : List (Report F) → Text) where
    -- the prompt, from the results with the counts of their summary
    unfoldable pub prompt_of :
        Text
        → Text
        → Text
        → List (Report F)
        → ℕ × ℕ
        → Option (ℕ × ℕ)
        → List (Dict (Cell F))
        → Result Text
    unfolding scores_summary prompt_head prompt_tail section previous_attempts
    prompt_of skill_name skill_content current_description results counts test_counts history = do
      tried ← previous_attempts repr history
      ok (
          prompt_head skill_name current_description (scores_summary counts test_counts)
          ++ (section (title true) (failures true results)
              ++ (section (title false) (failures false results)
                  ++ (tried ++ prompt_tail skill_content))))
