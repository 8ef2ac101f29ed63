-- ===== src/Extract/Diagrams.antt =====
-- The diagrams of extract_mermaid.py: their numbers and lines, file names, validation and replacement.
use my_besu_net.Base.{
  ℕ, suc, ◌+◌, List, [], ◌∷◌, ◌++◌, Option, none, some, if◌then◌else◌, ◌==◌, ltb,
}
use my_besu_net.Base.Int.{digits}
use my_besu_net.Base.Text.{Text, codes, equal, strip}
use my_besu_net.Extract.Scan.{Piece, plain, block, pieces_of}

pub record Diagram : Type 0 where
  pub content : Text
  pub line_number : ℕ
  pub index : ℕ
  pub hash : Text

-- `s.count("\n")`
unfoldable pub count_lines : Text → ℕ
count_lines [] = 0
count_lines (c ∷ t) = (if c == b'\n' then 1 else 0) + count_lines t

-- `f"{n:03d}"`
unfoldable pub padded : ℕ → Text
unfolding digits
padded n =
    let shown = digits (suc n) n [] in
    if ltb n 10 then codes "00" ++ shown else if ltb n 100 then codes "0" ++ shown else shown

unfoldable pub get_filename : Text → Text → Diagram → Text
unfolding padded
get_filename prefix extension d =
    prefix ++ (codes "-" ++ (padded d.index ++ (codes "-" ++ (d.hash ++ (codes "." ++ extension)))))

-- the file names and the contents, in the order of the writing
unfoldable pub save_diagrams : Text → List Diagram → List (Text × Text)
unfolding get_filename
save_diagrams prefix [] = []
save_diagrams prefix (d ∷ ds) =
    (get_filename prefix (codes "mmd") d, d.content) ∷ save_diagrams prefix ds

-- the first diagram with a content
unfoldable pub find_diagram : Text → List Diagram → Option Diagram
find_diagram content [] = none
find_diagram content (d ∷ ds) = if equal d.content content then some d else find_diagram content ds

unfoldable pub image_of : Text → Text → Diagram → Text
unfolding digits get_filename
image_of image_format image_dir d =
    codes "![Diagram "
    ++ (digits (suc d.index) d.index []
        ++ (codes "]("
            ++ (image_dir
                ++ (codes "/" ++ (get_filename (codes "diagram") image_format d ++ codes ")")))))

-- `replace_block`, and the text between the blocks as it is
unfoldable pub replace_piece : (Diagram → Text) → List Diagram → Piece → Text
unfolding find_diagram
replace_piece image ds (plain c) = c ∷ []
replace_piece image ds (block inside whole) = elim (find_diagram (strip inside) ds) [
  | none ↦ whole
  | some d ↦ image d
]

unfoldable pub replace_all : (Diagram → Text) → List Diagram → List Piece → Text
unfolding replace_piece
replace_all image ds [] = []
replace_all image ds (p ∷ ps) = replace_piece image ds p ++ replace_all image ds ps

-- `digest` is the first eight digits of the MD5 of the encoded text.
module _ (digest : Text → Text) where
  -- `MermaidDiagram(content, line_number, index)`
  abbrev pub diagram : Text → ℕ → ℕ → Diagram
  diagram content line_number index = record {
    content = strip content;
    line_number = line_number;
    index = index;
    hash = digest content;
  }

  -- the matches numbered from `index`, with `lines` newlines in front of the first piece
  unfoldable pub number_blocks : ℕ → ℕ → List Piece → List Diagram
  unfolding count_lines
  number_blocks index lines [] = []
  number_blocks index lines (plain c ∷ ps) = number_blocks index (lines + count_lines (c ∷ [])) ps
  number_blocks index lines (block inside whole ∷ ps) =
      diagram inside (lines + 1) index ∷ number_blocks (index + 1) (lines + count_lines whole) ps

  unfoldable pub extract_diagrams : Text → List Diagram
  unfolding number_blocks pieces_of
  extract_diagrams content = number_blocks 1 0 (pieces_of content)

  unfoldable pub replace_with_images : Text → Text → Text → Text
  unfolding extract_diagrams image_of replace_all pieces_of
  replace_with_images image_format image_dir content =
      replace_all (image_of image_format image_dir) (extract_diagrams content) (pieces_of content)
