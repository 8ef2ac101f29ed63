-- ===== src/Resilient/Parse.antt =====
-- `TroubleshootingParser._parse` of resilient_diagram.py. `is_digit` and `is_word` are the classes `\d` and
-- `\w`, `int_of` is `int` on digits, `lower` is `str.lower`.
use my_besu_net.Base.{
  ℕ, suc, Bool, true, false, not, ◌&&◌, ◌||◌, List, [], ◌∷◌, ◌++◌, Option, none, some, ◌==◌,
  if◌then◌else◌, length, map, drop,
}
use my_besu_net.Base.Regex.{
  Regex, char, seq, alt, star, lazy, group, Match, lit, plus, lazy_plus, opt, any_char, not_newline,
  space, search_at, group_of, find_iter,
}
use my_besu_net.Base.Text.{Text, codes, is, strip, strip_char, starts_with, includes, split_on}
use my_besu_net.Resilient.Guide.{Entry}

abbrev pub heading : Text
heading = codes "### ❌ Error "

module _ (is_digit : ℕ → Bool) where
  -- `\d*:`, behind a digit
  unfoldable pub digits_colon : Text → Bool
  digits_colon [] = false
  digits_colon (c ∷ t) = c == b':' || is_digit c && digits_colon t

  -- `\d+:`
  abbrev pub number_colon : Text → Bool
  number_colon [] = false
  number_colon (c ∷ t) = is_digit c && digits_colon t

  -- the lookahead `### ❌ Error \d+:`
  unfoldable pub at_section : Text → Bool
  unfolding starts_with digits_colon
  at_section t = starts_with t heading && number_colon (drop (length heading) t)

  -- `re.split` at the lookahead: the first piece and the others
  unfoldable pub split_sections : Text → Text × List Text
  unfolding at_section
  split_sections [] = ([], [])
  split_sections (c ∷ t) =
      let (piece, pieces) = split_sections t in
      if at_section (c ∷ t) then ([], (c ∷ piece) ∷ pieces) else (c ∷ piece, pieces)

abbrev digit_class : (ℕ → Bool) → Regex
digit_class is_digit = char is_digit

-- `### ❌ Error (\d+): (.+)`
unfoldable pub header_pattern : (ℕ → Bool) → Regex
header_pattern is_digit =
    seq (lit "### ❌ Error ")
      (seq (group 1 (plus (char is_digit))) (seq (lit ": ") (group 2 (plus not_newline))))

-- `\*\*Severity:\*\* (🔴|🟠|🟡|🟢) (\w+)`
unfoldable pub severity_pattern : (ℕ → Bool) → Regex
severity_pattern is_word = seq (lit "**Severity:** ") (
    seq (group 1 (alt (lit "🔴") (alt (lit "🟠") (alt (lit "🟡") (lit "🟢")))))
      (seq (lit " ") (group 2 (plus (char is_word)))))

-- `\*\*Problem:\*\* (.+?)(?:\n\n|\*\*)`, with `re.DOTALL`
unfoldable pub problem_pattern : Regex
problem_pattern =
    seq (lit "**Problem:** ") (seq (group 1 (lazy_plus any_char)) (alt (lit "\n\n") (lit "**")))

-- `\*\*Diagram Types Affected:\*\* (.+)`
unfoldable pub types_pattern : Regex
types_pattern = seq (lit "**Diagram Types Affected:** ") (group 1 (plus not_newline))

-- CODE_BLOCK_PATTERN
unfoldable pub code_block_pattern : Regex
unfolding space
code_block_pattern = seq (lit "**") (
    seq (group 1 (alt (lit "Incorrect") (lit "Correct"))) (
      seq (opt (seq (plus space) (seq (lit "Solution") (opt (lit "s"))))) (
        seq (lit ":**") (
          seq (star space) (
            seq (lit "```mermaid")
              (seq (star space) (seq (lit "\n") (seq (group 2 (lazy any_char)) (lit "```")))))))))

-- `\*\*Error Message[s]?:\*\*\s*\n((?:- `.+`\n?)+)`
unfoldable pub messages_pattern : Regex
unfolding space
messages_pattern = seq (lit "**Error Message") (
    seq (opt (lit "s")) (
      seq (lit ":**") (
        seq (star space) (
          seq (lit "\n") (
            group 1 (
              plus (seq (lit "- `") (seq (plus not_newline) (seq (lit "`") (opt (lit "\n")))))))))))

-- `(.+)` in backticks
unfoldable pub quoted_pattern : Regex
quoted_pattern = seq (lit "`") (seq (group 1 (plus not_newline)) (lit "`"))

-- `\*\*Error Message:\*\*\s*`?(.+?)`?\n`
unfoldable pub inline_pattern : Regex
unfolding space
inline_pattern = seq (lit "**Error Message:**") (
    seq (star space) (
      seq (opt (lit "`")) (seq (group 1 (lazy_plus not_newline)) (seq (opt (lit "`")) (lit "\n")))))

-- a group of a match, or a default where there is none
abbrev group_or : ℕ → Option Match → Text → Text
group_or n none d = d
group_or n (some m) d = group_of n m

-- `incorrect` and `correct`, behind the matches so far
unfoldable pub examples : List Match → Text × Text → Text × Text
unfolding group_of is strip
examples [] found = found
examples (m ∷ ms) (incorrect, correct) = examples ms (
    if is "Incorrect" (group_of 1 m)
    then (strip (group_of 2 m), correct)
    else if is "Correct" (group_of 1 m)
    then (incorrect, strip (group_of 2 m))
    else (incorrect, correct))

-- the messages of the lines
unfoldable pub quoted_messages : List Text → List Text
unfolding search_at quoted_pattern group_of
quoted_messages [] = []
quoted_messages (line ∷ lines) =
    let rest = quoted_messages lines in
    elim (search_at quoted_pattern line) [ none ↦ rest | some m ↦ group_of 1 m ∷ rest ]

unfoldable pub listed_messages : Text → List Text
unfolding search_at messages_pattern group_of split_on quoted_messages
listed_messages section = elim (search_at messages_pattern section) [
  | none ↦ []
  | some m ↦ quoted_messages (split_on 10 (group_of 1 m))
]

-- an inline message, where there are none so far
unfoldable pub error_messages_of : Text → List Text
unfolding listed_messages search_at inline_pattern group_of strip_char
error_messages_of section = elim (listed_messages section) [
  | m ∷ ms ↦ m ∷ ms
  | [] ↦ elim (search_at inline_pattern section) [
    | none ↦ []
    | some m ↦ strip_char b'`' (group_of 1 m) ∷ []
  ]
]

module _ (is_digit is_word : ℕ → Bool) (int_of : Text → ℕ) (lower : Text → Text) where
  abbrev types_of : Option Match → List Text
  types_of none = []
  types_of (some m) = map (λ t. lower (strip t)) (split_on b',' (group_of 1 m))

  -- the entry of a section with its header
  unfoldable pub entry_of_section : Text → Match → Entry
  unfolding search_at severity_pattern problem_pattern types_pattern code_block_pattern find_iter
      examples error_messages_of group_of strip
  entry_of_section section header =
      let (incorrect, correct) =
        examples (find_iter (suc (length section)) code_block_pattern section) ([], []) in
      record {
        error_number = int_of (group_of 1 header);
        title = strip (group_of 2 header);
        severity = group_or 2 (search_at (severity_pattern is_word) section) (codes "Unknown");
        diagram_types = types_of (search_at types_pattern section);
        problem = strip (group_or 1 (search_at problem_pattern section) []);
        incorrect_example = incorrect;
        correct_example = correct;
        error_messages = error_messages_of section;
      }

  abbrev is_blank : Text → Bool
  is_blank [] = true
  is_blank (c ∷ t) = false

  -- the entries of a section: one or none
  unfoldable pub parse_section : Text → List Entry
  unfolding strip includes search_at header_pattern entry_of_section
  parse_section section =
      if is_blank (strip section) || not (includes (codes "### ❌ Error") section)
      then []
      else (elim (search_at (header_pattern is_digit) section) [
        | none ↦ []
        | some header ↦ entry_of_section section header ∷ []
      ])

  unfoldable pub parse_sections : List Text → List Entry
  unfolding parse_section
  parse_sections [] = []
  parse_sections (section ∷ sections) = parse_section section ++ parse_sections sections

  -- `self.entries` behind `_parse`
  unfoldable pub parse_guide : Text → List Entry
  unfolding split_sections parse_sections
  parse_guide content =
      let (piece, pieces) = split_sections is_digit content in parse_sections (piece ∷ pieces)

  -- `self.entries` behind `__init__`, from the text of the guide if the file exists
  abbrev pub load_guide : Option Text → List Entry
  load_guide none = []
  load_guide (some content) = parse_guide content
