-- ===== src/Resilient/Exclusive.antt =====
-- The patterns of resilient_diagram.py exclude one another, so that their order does not matter.
use mathlib.Core.List.{Perm}
use my_besu_net.Base.{
  ℕ, Bool, true, false, not, ◌&&◌, ◌||◌, List, [], ◌∷◌, ◌≡◌, refl, sym, ap, ◌∙◌, arith, ltb, ◌==◌,
  if◌then◌else◌, count_if, count_if-perm, map, Bool-cases, inl, inr,
}
use my_besu_net.Base.Text.{Text, starts_with, split_on, strip}
use my_besu_net.Resilient.Detect.{
  DiagramType, flowchart, sequence, class, state, er, gantt, pie, mindmap, timeline, quadrant,
  requirement, journey, c4, unknown, Pattern, diagram_type_patterns, fold_case, pattern_matches,
  first_match, first_content, detect_by, detect_diagram_type,
}

number : DiagramType → ℕ
number flowchart = 0
number sequence = 1
number class = 2
number state = 3
number er = 4
number gantt = 5
number pie = 6
number mindmap = 7
number timeline = 8
number quadrant = 9
number requirement = 10
number journey = 11
number c4 = 12
number unknown = 13

of_number : ℕ → DiagramType
of_number n =
    if n == 0
    then flowchart
    else if n == 1
    then sequence
    else if n == 2
    then class
    else if n == 3
    then state
    else if n == 4
    then er
    else if n == 5
    then gantt
    else if n == 6
    then pie
    else if n == 7
    then mindmap
    else if n == 8
    then timeline
    else if n == 9
    then quadrant
    else if n == 10
    then requirement
    else if n == 11
    then journey
    else if n == 12
    then c4
    else unknown

of_number-number : (t : DiagramType) → of_number (number t) ≡ t
unfolding of_number number
of_number-number flowchart = refl
of_number-number sequence = refl
of_number-number class = refl
of_number-number state = refl
of_number-number er = refl
of_number-number gantt = refl
of_number-number pie = refl
of_number-number mindmap = refl
of_number-number timeline = refl
of_number-number quadrant = refl
of_number-number requirement = refl
of_number-number journey = refl
of_number-number c4 = refl
of_number-number unknown = refl

-- One text begins with the other.
comparable : Text → Text → Bool
unfolding starts_with
comparable s t = starts_with s t || starts_with t s

starts_with-comparable :
    (s p q : Text) → starts_with s p ≡ true → starts_with s q ≡ true → comparable p q ≡ true
unfolding comparable starts_with
starts_with-comparable s [] [] h k = refl
starts_with-comparable s [] (_ ∷ _) h k = refl
starts_with-comparable s (_ ∷ _) [] h k = refl
starts_with-comparable [] (_ ∷ _) (_ ∷ _) h k = cc
starts_with-comparable (x ∷ s) (y ∷ p) (z ∷ q) h k = ground (arith, starts_with-comparable s p q)

-- The pattern has the type, or its literal excludes that of the pattern `p`.
apart : Pattern → Pattern → Bool
unfolding comparable number
apart p q = number q.diagram_type == number p.diagram_type || not (comparable p.literal q.literal)

all_apart : Pattern → List Pattern → Bool
unfolding apart
all_apart p [] = true
all_apart p (q ∷ qs) = apart p q && all_apart p qs

exclusive : List Pattern → Bool
unfolding all_apart
exclusive [] = true
exclusive (p ∷ ps) = all_apart p ps && exclusive ps

diagram_type_patterns-exclusive : exclusive diagram_type_patterns ≡ true
unfolding exclusive
diagram_type_patterns-exclusive = refl

-- The pattern matches, and is of another type.
strays : ℕ → Text → Pattern → Bool
strays n line p = pattern_matches p line && not (number p.diagram_type == n)

matches-comparable :
    (p q : Pattern) (line : Text)
    → pattern_matches p line ≡ true
    → pattern_matches q line ≡ true
    → comparable p.literal q.literal ≡ true
unfolding pattern_matches
matches-comparable p q line h k =
    starts_with-comparable (map fold_case line) p.literal q.literal (first _ _ h) (first _ _ k)
  where
    first : (a b : Bool) → a && b ≡ true → a ≡ true
    first true b e = refl
    first false b e = e

none-strays :
    (p : Pattern) (qs : List Pattern) (line : Text)
    → pattern_matches p line ≡ true
    → all_apart p qs ≡ true
    → count_if (strays (number p.diagram_type) line) qs ≡ 0
unfolding all_apart apart strays
none-strays p [] line h k = refl
none-strays p (q ∷ qs) line h k = ground (arith, none-strays p qs line, matches-comparable p q line)

strays_self : (p : Pattern) (line : Text) → strays (number p.diagram_type) line p ≡ false
unfolding strays
strays_self p line = ground arith

strays_missed :
    (n : ℕ) (p : Pattern) (line : Text) → pattern_matches p line ≡ false → strays n line p ≡ false
unfolding strays
strays_missed n p line h = rw h

first_match-hit :
    (p : Pattern) (ps : List Pattern) (line : Text)
    → pattern_matches p line ≡ true
    → first_match (p ∷ ps) line ≡ p.diagram_type
unfolding first_match
first_match-hit p ps line h = rw h

first_match-missed :
    (p : Pattern) (ps : List Pattern) (line : Text)
    → pattern_matches p line ≡ false
    → first_match (p ∷ ps) line ≡ first_match ps line
unfolding first_match
first_match-missed p ps line h = rw h

exclusive-strays :
    (ps : List Pattern) (line : Text)
    → exclusive ps ≡ true
    → count_if (strays (number (first_match ps line)) line) ps ≡ 0
unfolding exclusive
exclusive-strays [] line h = refl
exclusive-strays (p ∷ ps) line h = elim (Bool-cases (pattern_matches p line)) [
  | inl e ↦
      ap (λ t. count_if (strays (number t) line) (p ∷ ps)) (first_match-hit p ps line e)
      ∙ rw (strays_self p line) (ground (arith, none-strays p ps line e))
  | inr e ↦
      ap (λ t. count_if (strays (number t) line) (p ∷ ps)) (first_match-missed p ps line e)
      ∙ rw (strays_missed (number (first_match ps line)) p line e)
          (ground (arith, exclusive-strays ps line))
]

number-injective : (a b : DiagramType) → number a ≡ number b → a ≡ b
number-injective a b h = sym (of_number-number a) ∙ ap of_number h ∙ of_number-number b

first_match_nil : (line : Text) → first_match [] line ≡ unknown
unfolding first_match
first_match_nil line = refl

stray_type :
    (p : Pattern) (line : Text) (n : ℕ)
    → pattern_matches p line ≡ true
    → strays n line p ≡ false
    → number p.diagram_type ≡ n
unfolding strays
stray_type p line n h k = ground arith

first_match_of :
    (ps : List Pattern) (line : Text) (t : DiagramType)
    → count_if (strays (number t) line) ps ≡ 0
    → first_match ps line
      ≡ (if ltb 0 (count_if (λ p. pattern_matches p line) ps) then t else unknown)
first_match_of [] line t h = first_match_nil line
first_match_of (p ∷ ps) line t h = elim (Bool-cases (pattern_matches p line)) [
  | inl e ↦
      let same : number p.diagram_type ≡ number t =
        ground (arith, e, stray_type p line (number t)) in
      first_match-hit p ps line e ∙ number-injective p.diagram_type t same ∙ rw e (ground arith)
  | inr e ↦
      first_match-missed p ps line e
      ∙ first_match_of ps line t (omega (arith, h))
      ∙ rw e (ap (λ n. if ltb 0 n then t else unknown) (omega arith))
]

-- The order of the table of patterns does not matter: the detection gives the same type for every code.
pub detect_by-perm :
    {ps : List Pattern}
    → Perm ps diagram_type_patterns
    → (mermaid_code : Text) → detect_by ps mermaid_code ≡ detect_diagram_type mermaid_code
unfolding detect_by detect_diagram_type
detect_by-perm {ps} h mermaid_code = same (first_content (split_on b'\n' (strip mermaid_code)))
  where
    same : (line : Text) → first_match ps line ≡ first_match diagram_type_patterns line
    same line =
        let t = first_match diagram_type_patterns line in
        let none = exclusive-strays diagram_type_patterns line diagram_type_patterns-exclusive in
        first_match_of ps line t (count_if-perm (strays (number t) line) h ∙ none)
        ∙ rw (count_if-perm (λ p. pattern_matches p line) h)
            (sym (first_match_of diagram_type_patterns line t none))
