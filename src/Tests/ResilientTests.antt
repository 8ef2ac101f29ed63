-- ===== src/Tests/ResilientTests.antt =====
-- resilient_diagram.py at concrete data.
use mathlib.Core.List.Perm
use my_besu_net.Base.{
  ℕ, Bool, true, false, ◌&&◌, ltb, leb, List, [], ◌∷◌, ◌++◌, none, some, ◌≡◌, refl, drop, keep,
}
use my_besu_net.Base.Int.{pos}
use my_besu_net.Base.Text.{Text, codes, strip, equal}
use my_besu_net.Json.{ok}
use my_besu_net.Resilient.Detect.{
  Pattern, flowchart, diagram_type_patterns, detect_by, detect_diagram_type,
}
use my_besu_net.Resilient.Exclusive.{detect_by-perm}
use my_besu_net.Resilient.Filename.{safe_title, generate_filename}
use my_besu_net.Resilient.Generate.{Mmdc, exited, Generated, generate}
use my_besu_net.Resilient.Guide.{Entry, score, search_guide}
use my_besu_net.Resilient.Outcome.{IsConsistent, drawn, generate-IsConsistent}
use my_besu_net.Resilient.Ranking.{IsTop, search_guide-IsTop}
use my_besu_net.Resilient.Safe.{IsTitle, safe_title-IsTitle}
use my_besu_net.Tests.Samples.{ascii_lower}

abbrev graph_pattern : Pattern
graph_pattern = record { diagram_type = flowchart; literal = codes "graph"; directed = true }

abbrev flowchart_pattern : Pattern
flowchart_pattern = record {
  diagram_type = flowchart;
  literal = codes "flowchart";
  directed = true;
}

-- the table with its first two patterns exchanged
abbrev exchanged : List Pattern
exchanged = graph_pattern ∷ flowchart_pattern ∷ drop 2 diagram_type_patterns

detect_by-perm_example :
    detect_by exchanged (codes "pie title Pets") ≡ detect_diagram_type (codes "pie title Pets")
detect_by-perm_example =
    detect_by-perm (Perm.swap flowchart_pattern graph_pattern (drop 2 diagram_type_patterns))
      (codes "pie title Pets")

safe_title-IsTitle_example :
    IsTitle (safe_title ascii_lower (codes "Login / Log-out (v2) overview"))
safe_title-IsTitle_example = safe_title-IsTitle ascii_lower (codes "Login / Log-out (v2) overview")

file_name :
    generate_filename ascii_lower (codes "Design Doc.md") (pos 3) flowchart (codes "The  Flow!")
    ≡ codes "design_doc_md_03_flowchart_the_flow"
unfolding generate_filename
file_name = refl

abbrev entry : ℕ → Text → Entry
entry n message = record {
  error_number = n;
  title = codes "Reserved words";
  severity = codes "High";
  diagram_types = codes "flowcharts" ∷ [];
  problem = codes "a reserved word";
  incorrect_example = [];
  correct_example = codes "A-->B";
  error_messages = message ∷ [];
}

abbrev guide : List Entry
guide = entry 1 (codes "Unknown arrow") ∷ entry 2 (codes "Parse error") ∷ []

search_guide-IsTop_example :
    IsTop
      (score ascii_lower (codes "Parse error on line 2") flowchart)
      5
      (keep (λ e. ltb 0 (score ascii_lower (codes "Parse error on line 2") flowchart e)) guide)
      (search_guide ascii_lower guide (codes "Parse error on line 2") flowchart)
search_guide-IsTop_example =
    search_guide-IsTop ascii_lower guide (codes "Parse error on line 2") flowchart

best_first :
    search_guide ascii_lower guide (codes "Parse error on line 2") flowchart
    ≡ entry 2 (codes "Parse error") ∷ entry 1 (codes "Unknown arrow") ∷ []
unfolding search_guide equal
best_first = refl

abbrev word_char : ℕ → Bool
word_char c = leb b'a' c && leb c b'z'

abbrev broken : Mmdc
broken = exited false [] (codes "Parse error on line 2\n") none

abbrev code : Text
code = codes "graph TD\nA-->"

generate-IsConsistent_example :
    (g : Generated) × (generate ascii_lower word_char
        (some guide)
        (ok tt)
        true
        broken
        code
        (codes "doc")
        (pos 1)
        (codes "t")
        (codes "png")
      ≡ ok g)
    × (let base =
          generate_filename ascii_lower
            (codes "doc")
            (pos 1)
            (detect_diagram_type code)
            (codes "t") in
        (g.result.success ≡ (true && drawn broken))
        × (g.saved ≡ (base ++ codes ".mmd", strip code ++ codes "\n"))
        × IsConsistent (base ++ (codes "." ++ codes "png")) g.result)
generate-IsConsistent_example =
    generate-IsConsistent ascii_lower word_char (some guide) true broken code (codes "doc") (pos 1)
      (codes "t") (codes "png")
