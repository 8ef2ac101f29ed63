-- ===== src/Tests/ValidateTests.antt =====
-- quick_validate.py at concrete data.
use my_besu_net.Base.{ℕ, some, ◌≡◌, ◌↔◌, ◌==◌}
use my_besu_net.Base.Text.{Text, codes, split_on}
use my_besu_net.Json.{obj, Fields}
use my_besu_net.Tests.Samples.{safe_load, skill}
use my_besu_net.Validate.Accepts.{Accepted, validate_skill_iff}
use my_besu_net.Validate.Names.{hyphen, is_kebab, is_kebab_words, all_words}
use my_besu_net.Validate.Rules.{frontmatter_of, validate_skill, valid}

is_kebab_words_example :
    is_kebab (codes "my-skill-2") ≡ all_words (split_on hyphen (codes "my-skill-2"))
is_kebab_words_example = is_kebab_words b'm' (codes "y-skill-2")

validate_skill_iff_example : (validate_skill (λ k. k == 0) safe_load (some skill) ≡ valid) ↔ (
    (text : Text) × (fm : Fields ℕ) × (frontmatter_of skill ≡ some text)
    × (safe_load text ≡ some (obj fm))
    × Accepted (λ k. k == 0) fm)
validate_skill_iff_example = validate_skill_iff (λ k. k == 0) safe_load skill
