-- ===== src/Tests/GuideTests.antt =====
-- A small guide, as resilient_diagram.py reads it.
use my_besu_net.Base.{ℕ, ◌-◌, Bool, true, List, [], ◌∷◌, ◌++◌, none, some, ◌≡◌, refl, leb, ◌&&◌}
use my_besu_net.Base.Regex.{search_at, space, matches, find_iter, group_of}
use my_besu_net.Base.Text.{
  Text, codes, is, equal, strip, strip_char, starts_with, includes, split_on, is_space,
}
use my_besu_net.Resilient.Guide.{Entry}
use my_besu_net.Base.Int.{pos}
use my_besu_net.Json.{ok}
use my_besu_net.Resilient.Generate.{exited, rendered, render_image, result_for, generate}
use my_besu_net.Resilient.Program.{
  Input, code, mmd_file, stdin, Ending, exits, crashes, Arguments, mermaid_code_of, ending_of,
  generate_for, run_code, main,
}
use my_besu_net.Resilient.Parse
use my_besu_net.Resilient.Parse.{at_section, parse_guide, load_guide}
use my_besu_net.Resilient.Sections.{parse_guide-append}

abbrev is_digit : ℕ → Bool
is_digit c = leb b'0' c && leb c b'9'

abbrev is_letter : ℕ → Bool
is_letter c = leb b'A' c && leb c b'z'

abbrev int_of : Text → ℕ
int_of [] = 0
int_of (c ∷ t) = c - b'0'

abbrev unchanged : Text → Text
unchanged t = t

abbrev section_one : Text
section_one =
    codes
      "### ❌ Error 1: Reserved Words\n\n**Severity:** 🔴 Critical - now\n\n**Problem:** No quotes.\n\n**Incorrect:**\n```mermaid\na-->end\n```\n\n**Correct Solutions:**\n\n```mermaid\na-->b\n```\n\n**Error Messages:**\n- `Parse error`\n- `got 'end'`\n\n**Diagram Types Affected:** all, flow\n"

abbrev section_two : Text
section_two = codes "### ❌ Error 2: Colon\n**Error Message:** `Expecting`\n"

abbrev entry_one : Entry
entry_one = record {
  error_number = 1;
  title = codes "Reserved Words";
  severity = codes "Critical";
  diagram_types = codes "all" ∷ codes "flow" ∷ [];
  problem = codes "No quotes.";
  incorrect_example = codes "a-->end";
  correct_example = codes "a-->b";
  error_messages = codes "Parse error" ∷ codes "got 'end'" ∷ [];
}

abbrev entry_two : Entry
entry_two = record {
  error_number = 2;
  title = codes "Colon";
  severity = codes "Unknown";
  diagram_types = [];
  problem = [];
  incorrect_example = [];
  correct_example = [];
  error_messages = codes "Expecting" ∷ [];
}

abbrev parsed : Text → List Entry
parsed = parse_guide is_digit is_letter int_of unchanged

two_read : parsed (codes "# Guide\n\n" ++ section_two) ≡ entry_two ∷ []
unfolding parse_guide Parse.split_sections Parse.parse_sections Parse.parse_section Parse.at_section
    Parse.digits_colon Parse.entry_of_section Parse.examples Parse.error_messages_of
    Parse.listed_messages Parse.quoted_messages Parse.header_pattern Parse.severity_pattern
    Parse.problem_pattern Parse.types_pattern Parse.code_block_pattern Parse.messages_pattern
    Parse.quoted_pattern Parse.inline_pattern search_at space matches find_iter group_of is equal
    strip strip_char starts_with includes split_on is_space
two_read = refl

one_read : parsed section_one ≡ entry_one ∷ []
unfolding parse_guide Parse.split_sections Parse.parse_sections Parse.parse_section Parse.at_section
    Parse.digits_colon Parse.entry_of_section Parse.examples Parse.error_messages_of
    Parse.listed_messages Parse.quoted_messages Parse.header_pattern Parse.severity_pattern
    Parse.problem_pattern Parse.types_pattern Parse.code_block_pattern Parse.messages_pattern
    Parse.quoted_pattern Parse.inline_pattern search_at space matches find_iter group_of is equal
    strip strip_char starts_with includes split_on is_space
one_read = refl

nothing_read : load_guide is_digit is_letter int_of unchanged none ≡ []
nothing_read = refl

two_begins : at_section is_digit section_two ≡ true
unfolding at_section Parse.digits_colon starts_with
two_begins = refl

-- The guide of both sections has the entries of the first and then those of the second.
parse_guide-append_example :
    parsed (section_one ++ section_two) ≡ parsed section_one ++ parsed section_two
parse_guide-append_example =
    parse_guide-append is_digit refl is_letter int_of unchanged section_one section_two two_begins

abbrev arguments : Input → Arguments
arguments input = record {
  input = input;
  markdown_file = codes "doc";
  diagram_num = pos 1;
  title = codes "t";
  image_format = codes "png";
  troubleshooting = none;
}

abbrev ending : Input → Ending
ending input =
    (main is_digit is_letter int_of unchanged none (ok tt) true (exited true [] [] (some 9))
      (arguments input)).0

empty_code : ending (code []) ≡ crashes
unfolding main mermaid_code_of
empty_code = refl

blank_code : ending (stdin (codes " \n")) ≡ exits 1
unfolding main mermaid_code_of run_code strip is_space
blank_code = refl

drawn_code : ending (mmd_file (some (codes "pie"))) ≡ exits 0
unfolding main mermaid_code_of run_code generate_for ending_of generate render_image rendered
    result_for strip is_space
drawn_code = refl
