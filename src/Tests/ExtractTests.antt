-- ===== src/Tests/ExtractTests.antt =====
-- extract_mermaid.py at concrete data.
use my_besu_net.Base.{
  ℕ, Bool, true, false, none, some, ◌↔◌, ◌⊎◌, ◌+◌, List, [], ◌∷◌, ◌++◌, ◌≡◌, refl, length,
}
use my_besu_net.Base.Int.{digits}
use my_besu_net.Extract.Blocks.{extract_diagrams-block, replace_with_images-block}
use my_besu_net.Extract.Check.{Rendered, finished}
use my_besu_net.Extract.Program.{
  Options, Files, in_dir, markdown_file, put_diagrams, write_or_list, operate, handle, main,
  list_diagrams,
}
use my_besu_net.Extract.Status.{Succeeds, main-status_iff}
use my_besu_net.Json.{ok}
use my_besu_net.Base.Text.{Text, codes, strip, is_space, starts_with, partition, split_on}
use my_besu_net.Extract.Diagrams.{
  Diagram, diagram, count_lines, extract_diagrams, replace_with_images, replace_all, image_of,
  save_diagrams,
}
use my_besu_net.Extract.Scan.{Piece, plain, block, pieces_of, glued, count_blocks}

abbrev file : Text
file = codes "a\n```mermaid\nA-->B\n```\n"

abbrev whole_block : Text
whole_block = codes "```mermaid\nA-->B\n```"

abbrev in_front : List Piece
in_front = plain b'a' ∷ plain b'\n' ∷ []

abbrev after_it : List Piece
after_it = plain b'\n' ∷ []

pieces_of-file : pieces_of file ≡ in_front ++ block (codes "A-->B\n") whole_block ∷ after_it
unfolding pieces_of is_space starts_with partition
pieces_of-file = refl

extract_diagrams-block_example :
    (file ≡ glued (in_front ++ block (codes "A-->B\n") whole_block ∷ after_it))
    × ((first : List Diagram) × (rest : List Diagram) × (extract_diagrams (λ t. codes "0") file
          ≡ first
            ++ diagram
                (λ t. codes "0")
                (codes "A-->B\n")
                (count_lines (glued in_front) + 1)
                (1 + count_blocks in_front)
              ∷ rest)
        × (length first ≡ count_blocks in_front)
        × (length rest ≡ count_blocks after_it))
extract_diagrams-block_example =
    extract_diagrams-block (λ t. codes "0") file in_front (codes "A-->B\n") whole_block after_it
      pieces_of-file

replace_with_images-block_example :
    (d : Diagram) × (first : List Diagram) × (rest : List Diagram) × (extract_diagrams
        (λ t. codes "0")
        file
      ≡ first ++ d ∷ rest)
    × (d.content ≡ strip (codes "A-->B\n"))
    × (replace_with_images (λ t. codes "0") (codes "png") (codes "img") file
        ≡ replace_all
            (image_of (codes "png") (codes "img"))
            (extract_diagrams (λ t. codes "0") file)
            in_front
          ++ (image_of (codes "png") (codes "img") d
              ++ replace_all
                  (image_of (codes "png") (codes "img"))
                  (extract_diagrams (λ t. codes "0") file)
                  after_it))
replace_with_images-block_example =
    replace_with_images-block (λ t. codes "0") (codes "png") (codes "img") file in_front
      (codes "A-->B\n") whole_block after_it pieces_of-file

abbrev drawn : Diagram → Rendered
drawn d = finished true [] (some 9)

abbrev one : Text → ℕ
one t = 1

abbrev options : Bool → Options
options validate = record {
  output_dir = some (codes "out");
  prefix = codes "diagram";
  list_only = false;
  validate = validate;
  replace_images = false;
  image_format = codes "png";
  image_dir = codes "diagrams";
  output_markdown = none;
}

abbrev files : Bool → Files
files b = record { makes = λ dir. true; writes = λ f. b }

abbrev no_digest : Text → Text
no_digest t = codes "0"

main-status_iff_example :
    ((main one no_digest
        (ok true)
        drawn
        (files true)
        (options true)
        (codes "a.md")
        (markdown_file file)).status
      ≡ 0)
    ↔ ((content : Text) × (markdown_file file ≡ markdown_file content)
        × ((extract_diagrams no_digest content ≡ [])
            ⊎ Succeeds
                (ok true)
                drawn
                (files true)
                (options true)
                (extract_diagrams no_digest content)))
main-status_iff_example =
    main-status_iff one no_digest (ok true) drawn (files true) (options true) (codes "a.md")
      (markdown_file file)

main-saved :
    main one no_digest
      (ok true)
      drawn
      (files true)
      (options false)
      (codes "a.md")
      (markdown_file file)
    ≡ record {
      status = 0;
      shown = [];
      written = (in_dir (codes "out") (codes "diagram-001-0.mmd"), codes "A-->B") ∷ [];
    }
unfolding main handle operate write_or_list put_diagrams extract_diagrams save_diagrams pieces_of
    is_space starts_with partition strip digits
main-saved = refl

main-not_saved :
    main one no_digest
      (ok true)
      drawn
      (files false)
      (options false)
      (codes "a.md")
      (markdown_file file)
    ≡ record { status = 1; shown = []; written = [] }
unfolding main handle operate write_or_list put_diagrams extract_diagrams save_diagrams pieces_of
    is_space starts_with partition strip digits
main-not_saved = refl

list_diagrams-one :
    list_diagrams one (codes "a.md") (extract_diagrams (λ t. codes "0") file)
    ≡ codes
        "\nFound 1 Mermaid diagram(s) in a.md:\n\n  #1 (Line 2):\n    First line: A-->B\n    Hash: 0\n    Lines: 1\n\n"
unfolding list_diagrams extract_diagrams pieces_of is_space starts_with partition strip digits
    split_on
list_diagrams-one = refl
