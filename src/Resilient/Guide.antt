-- ===== src/Resilient/Guide.antt =====
-- `TroubleshootingParser.search` of resilient_diagram.py, over the entries that its constructor has
-- read. `lower` is `str.lower`.
use my_besu_net.Base.{
  ℕ, ◌+◌, Bool, false, not, ◌&&◌, List, [], ◌∷◌, ltb, if◌then◌else◌, any, keep, take, String,
}
use my_besu_net.Base.Text.{Text, codes, is_space, includes, join}
use my_besu_net.Package.Exclude.{is_in}
use my_besu_net.Resilient.Detect.{DiagramType, value}

-- `TroubleshootingMatch`
pub record Entry : Type 0 where
  pub error_number : ℕ
  pub title : Text
  pub severity : Text
  pub diagram_types : List Text
  pub problem : Text
  pub incorrect_example : Text
  pub correct_example : Text
  pub error_messages : List Text

abbrev pub at_word : Text → Bool
at_word [] = false
at_word (c ∷ t) = not (is_space c)

abbrev pub cons_word : ℕ → List Text → List Text
cons_word c [] = (c ∷ []) ∷ []
cons_word c (w ∷ ws) = (c ∷ w) ∷ ws

-- `t.split()`
unfoldable pub words : Text → List Text
unfolding is_space
words [] = []
words (c ∷ t) =
    let rest = words t in
    if is_space c then rest else if at_word t then cons_word c rest else (c ∷ []) ∷ rest

-- `sum` over a loop that adds to the score
abbrev pub total {ℓ} : {A : Type ℓ} → (A → ℕ) → List A → ℕ
total f [] = 0
total f (x ∷ xs) = f x + total f xs

abbrev problem_keywords : List String
problem_keywords = "reserved" ∷ "missing" ∷ "invalid" ∷ "incorrect" ∷ "error" ∷ "syntax" ∷ []

module _ (lower : Text → Text) where
  unfoldable pub message_score : Text → Text → ℕ
  unfolding includes words
  message_score error_lower known =
      if includes (lower known) error_lower
      then 10
      else if any (λ w. includes w error_lower) (words (lower known))
      then 3
      else 0

  unfoldable pub type_score : Text → List Text → ℕ
  unfolding includes join
  type_score type_name types =
      if includes (codes "all") (lower (join (codes " ") types))
      then 2
      else if any (λ t. includes type_name t) types
      then 5
      else 0

  unfoldable pub problem_score : Text → Text → ℕ
  unfolding includes is_in words
  problem_score error_lower problem =
      total
        (λ (k : String).
          if includes (codes k) error_lower && is_in (codes k) (words (lower problem))
          then 2
          else 0)
        problem_keywords

  unfoldable pub title_score : Text → Text → ℕ
  unfolding includes words
  title_score error_lower title =
      total (λ w. if includes w error_lower then 2 else 0) (words (lower title))

  -- the score of an entry
  unfoldable pub score : Text → DiagramType → Entry → ℕ
  unfolding message_score type_score problem_score title_score
  score error_message diagram_type entry =
      total (message_score (lower error_message)) entry.error_messages
      + type_score (lower (value diagram_type)) entry.diagram_types
      + problem_score (lower error_message) entry.problem
      + title_score (lower error_message) entry.title

-- `list.sort(key=…, reverse=True)`, which is stable: an element goes in front of those that come after
-- it and have no larger key.
module _ {ℓ} {A : Type ℓ} (key : A → ℕ) where
  unfoldable pub insert_ranked : A → List A → List A
  insert_ranked x [] = x ∷ []
  insert_ranked x (y ∷ ys) =
      let rest = insert_ranked x ys in if ltb (key x) (key y) then y ∷ rest else x ∷ y ∷ ys

  unfoldable pub rank : List A → List A
  unfolding insert_ranked
  rank [] = []
  rank (x ∷ xs) = insert_ranked x (rank xs)

unfoldable pub search_guide : (Text → Text) → List Entry → Text → DiagramType → List Entry
unfolding rank score
search_guide lower entries error_message diagram_type =
    let scored = score lower error_message diagram_type in
    take 5 (rank scored (keep (λ e. ltb 0 (scored e)) entries))
