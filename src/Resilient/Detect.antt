-- ===== src/Resilient/Detect.antt =====
-- `detect_diagram_type` of resilient_diagram.py, with the table `DIAGRAM_TYPE_PATTERNS`.
use my_besu_net.Base.{
  ℕ, ◌+◌, Bool, true, false, not, ◌&&◌, ◌||◌, List, [], ◌∷◌, ◌≡◌, refl, leb, ◌==◌, if◌then◌else◌,
  any, map, String,
}
use my_besu_net.Base.Text.{
  Text, codes, strip, starts_with, drop_prefix, split_on, is_space, lstrip_by,
}

pub data DiagramType : Type 0 where
  flowchart sequence class state er gantt pie mindmap timeline quadrant requirement journey c4
        unknown :
      DiagramType

-- `diagram_type.value`
abbrev pub value : DiagramType → Text
value flowchart = codes "flowchart"
value sequence = codes "sequence"
value class = codes "class"
value state = codes "state"
value er = codes "er"
value gantt = codes "gantt"
value pie = codes "pie"
value mindmap = codes "mindmap"
value timeline = codes "timeline"
value quadrant = codes "quadrant"
value requirement = codes "requirement"
value journey = codes "journey"
value c4 = codes "c4"
value unknown = codes "unknown"

-- A pattern of the table: a literal in lower case, and whether `\s+(TB|TD|BT|RL|LR)` follows it.
pub record Pattern : Type 0 where
  pub diagram_type : DiagramType
  pub literal : Text
  pub directed : Bool

abbrev plain : DiagramType → String → Pattern
plain t s = record { diagram_type = t; literal = codes s; directed = false }

abbrev with_direction : DiagramType → String → Pattern
with_direction t s = record { diagram_type = t; literal = codes s; directed = true }

-- `^stateDiagram(-v2)?` matches what `^stateDiagram` matches.
abbrev pub diagram_type_patterns : List Pattern
diagram_type_patterns =
    with_direction flowchart "flowchart"
    ∷ with_direction flowchart "graph"
    ∷ plain sequence "sequencediagram"
    ∷ plain class "classdiagram"
    ∷ plain state "statediagram"
    ∷ plain er "erdiagram"
    ∷ plain gantt "gantt"
    ∷ plain pie "pie"
    ∷ plain mindmap "mindmap"
    ∷ plain timeline "timeline"
    ∷ plain quadrant "quadrantchart"
    ∷ plain requirement "requirementdiagram"
    ∷ plain journey "journey"
    ∷ plain c4 "c4context"
    ∷ plain c4 "c4container"
    ∷ plain c4 "c4component"
    ∷ plain c4 "c4deployment"
    ∷ []

-- `re.IGNORECASE`: the letter of a to z that a character matches; three letters beyond ASCII match i, s, k
unfoldable pub fold_case : ℕ → ℕ
fold_case c =
    if leb b'A' c && leb c b'Z'
    then c + 32
    else if c == 0x130 || c == 0x131
    then b'i'
    else if c == 0x17f
    then b's'
    else if c == 0x212a
    then b'k'
    else c

abbrev directions : List String
directions = "tb" ∷ "td" ∷ "bt" ∷ "rl" ∷ "lr" ∷ []

-- `\s+(TB|TD|BT|RL|LR)` at the head of a text in lower case
unfoldable pub has_direction : Text → Bool
unfolding is_space starts_with
has_direction [] = false
has_direction (c ∷ t) =
    is_space c && any (λ (d : String). starts_with (lstrip_by is_space t) (codes d)) directions

-- `re.match(pattern, line, re.IGNORECASE)`
unfoldable pub pattern_matches : Pattern → Text → Bool
unfolding fold_case has_direction starts_with
pattern_matches p line =
    let folded = map fold_case line in
    starts_with folded p.literal && (not p.directed || has_direction (drop_prefix p.literal folded))

-- the loop over the table
unfoldable pub first_match : List Pattern → Text → DiagramType
unfolding pattern_matches
first_match [] line = unknown
first_match (p ∷ ps) line =
    let rest = first_match ps line in if pattern_matches p line then p.diagram_type else rest

-- the first line, stripped, that is neither empty nor a comment
unfoldable pub first_content : List Text → Text
unfolding strip starts_with
first_content [] = []
first_content (line ∷ lines) =
    let rest = first_content lines in
    let stripped = strip line in
    elim stripped [ [] ↦ rest | c ∷ t ↦ if starts_with (c ∷ t) (codes "%%") then rest else c ∷ t ]

-- the detection with any table
unfoldable pub detect_by : List Pattern → Text → DiagramType
unfolding first_match first_content split_on strip
detect_by patterns mermaid_code =
    first_match patterns (first_content (split_on b'\n' (strip mermaid_code)))

unfoldable pub detect_diagram_type : Text → DiagramType
unfolding detect_by
detect_diagram_type = detect_by diagram_type_patterns

detect_graph : detect_diagram_type (codes "\n %% x\n\nGraph  tD;A-->B") ≡ flowchart
unfolding detect_diagram_type
detect_graph = refl
