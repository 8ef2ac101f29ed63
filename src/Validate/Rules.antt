-- ===== src/Validate/Rules.antt =====
-- `validate_skill` (quick_validate.py, lines 12 to 94). The argument of `validate_skill` is the text of
-- SKILL.md where that exists; `safe_load` is `yaml.safe_load`, `none` its `YAMLError`; `is_zero` says
-- which numbers are false. Keys are texts. A verdict stands for its message.
use my_besu_net.Base.{
  ℕ, Bool, true, false, not, ◌||◌, List, [], ◌∷◌, Option, none, some, ltb, ◌==◌, if◌then◌else◌,
  length, any, String,
}
use my_besu_net.Base.Text.{Text, codes, is, strip, starts_with, partition, drop_prefix}
use my_besu_net.Json.{
  Value, null, boolean, num, str, arr, obj, nil, cons, Fields, end, field, lookup_or,
}
use my_besu_net.Validate.Names.{is_kebab_char, misplaced_hyphen, every}

pub data Verdict : Type 0 where
  not_found no_frontmatter invalid_format not_a_dictionary invalid_yaml : Verdict
  unexpected_keys : List Text → Verdict
  missing_name missing_description : Verdict
  name_not_a_string name_not_kebab name_hyphens name_too_long : Verdict
  description_not_a_string angle_brackets description_too_long : Verdict
  compatibility_not_a_string compatibility_too_long : Verdict
  valid : Verdict

-- group 1 of `re.match(r'^---\n(.*?)\n---', content, re.DOTALL)`
unfoldable pub frontmatter_of : Text → Option Text
frontmatter_of content =
    if starts_with content (codes "---\n")
    then (elim (partition (codes "\n---") (drop_prefix (codes "---\n") content)) [
      | none ↦ none
      | some (inside, _) ↦ some inside
    ])
    else none

abbrev pub allowed_properties : List String
allowed_properties =
    "name" ∷ "description" ∷ "license" ∷ "allowed-tools" ∷ "metadata" ∷ "compatibility" ∷ []

unfoldable pub is_allowed : Text → Bool
is_allowed key = any (λ (p : String). is p key) allowed_properties

module _ {N : Type 0} where
  -- `set(frontmatter.keys()) - ALLOWED_PROPERTIES`
  unfoldable pub unexpected : Fields N → List Text
  unexpected end = []
  unexpected (field key v fs) =
      let rest = unexpected fs in if is_allowed key then rest else key ∷ rest

  -- `key in frontmatter`
  unfoldable pub has_key : String → Fields N → Bool
  has_key key end = false
  has_key key (field k v fs) = is key k || has_key key fs

-- the checks of a name, on the text stripped
unfoldable pub check_name : Text → Verdict
check_name [] = valid
check_name (c ∷ t) =
    if not (every is_kebab_char (c ∷ t))
    then name_not_kebab
    else if misplaced_hyphen (c ∷ t)
    then name_hyphens
    else if ltb 64 (length (c ∷ t))
    then name_too_long
    else valid

abbrev pub is_angle : ℕ → Bool
is_angle c = c == b'<' || c == b'>'

unfoldable pub check_description : Text → Verdict
check_description [] = valid
check_description (c ∷ t) =
    if any is_angle (c ∷ t)
    then angle_brackets
    else if ltb 1024 (length (c ∷ t))
    then description_too_long
    else valid

-- a check, and the checks behind it where it finds nothing
unfoldable pub also : Verdict → Verdict → Verdict
also valid later = later
also v later = v

module _ {N : Type 0} (is_zero : N → Bool) where
  -- `bool(v)`
  unfoldable pub truthy : Value N → Bool
  truthy null = false
  truthy (boolean b) = b
  truthy (num n) = not (is_zero n)
  truthy (str []) = false
  truthy (str (c ∷ t)) = true
  truthy (arr nil) = false
  truthy (arr (cons v xs)) = true
  truthy (obj end) = false
  truthy (obj (field k v fs)) = true

  unfoldable pub check_name_value : Value N → Verdict
  unfolding check_name
  check_name_value (str t) = check_name (strip t)
  check_name_value _ = name_not_a_string

  unfoldable pub check_description_value : Value N → Verdict
  unfolding check_description
  check_description_value (str t) = check_description (strip t)
  check_description_value _ = description_not_a_string

  unfoldable pub check_compatibility_text : Value N → Verdict
  check_compatibility_text (str t) = if ltb 500 (length t) then compatibility_too_long else valid
  check_compatibility_text _ = compatibility_not_a_string

  unfoldable pub check_compatibility : Value N → Verdict
  unfolding truthy check_compatibility_text
  check_compatibility v = if truthy v then check_compatibility_text v else valid

  -- `if unexpected_keys`
  unfoldable pub check_keys : List Text → Verdict
  check_keys [] = valid
  check_keys (k ∷ ks) = unexpected_keys (k ∷ ks)

  unfoldable pub check_fields : Fields N → Verdict
  unfolding also check_keys check_name_value check_description_value check_compatibility
  check_fields fm = also (check_keys (unexpected fm)) (
      if not (has_key "name" fm)
      then missing_name
      else if not (has_key "description" fm)
      then missing_description
      else also (check_name_value (lookup_or "name" fm (str []))) (
          also (check_description_value (lookup_or "description" fm (str [])))
            (check_compatibility (lookup_or "compatibility" fm (str [])))))

  -- what `yaml.safe_load` gave
  unfoldable pub check_loaded : Option (Value N) → Verdict
  unfolding check_fields
  check_loaded none = invalid_yaml
  check_loaded (some (obj fm)) = check_fields fm
  check_loaded (some _) = not_a_dictionary

  module _ (safe_load : Text → Option (Value N)) where
    unfoldable pub check_content : Text → Verdict
    unfolding check_loaded
    check_content content =
        if not (starts_with content (codes "---"))
        then no_frontmatter
        else (elim (frontmatter_of content) [
          | none ↦ invalid_format
          | some text ↦ check_loaded (safe_load text)
        ])

    unfoldable pub validate_skill : Option Text → Verdict
    unfolding check_content
    validate_skill none = not_found
    validate_skill (some content) = check_content content
