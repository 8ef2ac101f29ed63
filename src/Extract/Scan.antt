-- ===== src/Extract/Scan.antt =====
-- `MERMAID_PATTERN` of extract_mermaid.py: the blocks that `finditer` and `sub` find.
use my_besu_net.Base.{
  ℕ, zero, suc, List, [], ◌∷◌, ◌++◌, Option, none, some, if◌then◌else◌, ◌==◌, length,
}
use my_besu_net.Base.Text.{Text, codes, is_space, starts_with, partition, drop_prefix}

-- A character that belongs to no block, or a block: its group 1, and the whole of it.
pub data Piece : Type 0 where
  plain : ℕ → Piece
  block : Text → Text → Piece

abbrev pub opening : Text
opening = codes "```mermaid"

abbrev pub fence : Text
fence = codes "```"

-- `\s*\n`: up to the last newline of the white space, and what is behind it
unfoldable pub header : Text → Option (Text × Text)
header [] = none
header (c ∷ t) =
    let rest = header t in
    if is_space c
    then (elim rest [
      | none ↦ if c == b'\n' then some (c ∷ [], t) else none
      | some (h, r) ↦ some (c ∷ h, r)
    ])
    else none

-- a match at the head of the text: group 1, the match, and the text behind it
unfoldable pub match_here : Text → Option (Text × Text × Text)
unfolding header
match_here t =
    if starts_with t opening
    then (elim (header (drop_prefix opening t)) [
      | none ↦ none
      | some (h, r) ↦ elim (partition fence r) [
        | none ↦ none
        | some (inside, rest) ↦ some (inside, opening ++ (h ++ (inside ++ fence)), rest)
      ]
    ])
    else none

-- the matches from left to right, on fuel
unfoldable pub scan : ℕ → Text → List Piece
unfolding match_here
scan zero t = []
scan (suc fuel) [] = []
scan (suc fuel) (c ∷ t) = elim (match_here (c ∷ t)) [
  | none ↦ plain c ∷ scan fuel t
  | some (inside, whole, rest) ↦ block inside whole ∷ scan fuel rest
]

unfoldable pub pieces_of : Text → List Piece
unfolding scan
pieces_of t = scan (length t) t

abbrev pub text_of : Piece → Text
text_of (plain c) = c ∷ []
text_of (block inside whole) = whole

-- The text that the pieces are of.
abbrev pub glued : List Piece → Text
glued [] = []
glued (p ∷ ps) = text_of p ++ glued ps

abbrev pub count_blocks : List Piece → ℕ
count_blocks [] = 0
count_blocks (plain c ∷ ps) = count_blocks ps
count_blocks (block inside whole ∷ ps) = suc (count_blocks ps)
