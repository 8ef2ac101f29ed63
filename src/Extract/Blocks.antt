-- ===== src/Extract/Blocks.antt =====
-- What becomes of a block of a file in extract_mermaid.py: its diagram, and its replacement by an image.
use my_besu_net.Base.{
  ℕ, suc, ◌+◌, List, [], ◌∷◌, ◌++◌, none, some, ◌≡◌, refl, sym, ap, ap₂, ◌∙◌, arith, length,
  Bool-cases, inl, inr, append_assoc,
}
use my_besu_net.Base.Text.{Text, equal, equal_iff, strip}
use my_besu_net.Extract.Diagrams.{
  Diagram, count_lines, find_diagram, image_of, replace_piece, replace_all, diagram, number_blocks,
  extract_diagrams, replace_with_images,
}
use my_besu_net.Extract.Lossless.{pieces_of-glued}
use my_besu_net.Extract.Scan.{Piece, plain, block, pieces_of, glued, count_blocks}

module _ (digest : Text → Text) where
  abbrev pub made : Text → ℕ → ℕ → Diagram
  made = diagram digest

  abbrev pub numbered : ℕ → ℕ → List Piece → List Diagram
  numbered = number_blocks digest

  abbrev pub extracted : Text → List Diagram
  extracted = extract_diagrams digest

  abbrev pub replaced : Text → Text → Text → Text
  replaced = replace_with_images digest

  count_lines-append : (s t : Text) → count_lines (s ++ t) ≡ count_lines s + count_lines t
  unfolding count_lines
  count_lines-append [] t = omega arith
  count_lines-append (c ∷ s) t = omega (arith, count_lines-append s t)

  length-number_blocks :
      (index lines : ℕ) (ps : List Piece) → length (numbered index lines ps) ≡ count_blocks ps
  unfolding number_blocks
  length-number_blocks index lines [] = refl
  length-number_blocks index lines (plain c ∷ ps) =
      length-number_blocks index (lines + count_lines (c ∷ [])) ps
  length-number_blocks index lines (block inside whole ∷ ps) =
      ap suc (length-number_blocks (index + 1) (lines + count_lines whole) ps)

  -- the diagrams in front of and behind a block in the middle, and its own
  number_blocks-append :
      (index lines : ℕ) (before : List Piece) (inside whole : Text) (behind : List Piece)
      → numbered index lines (before ++ block inside whole ∷ behind)
        ≡ numbered index lines before
          ++ made inside (lines + count_lines (glued before) + 1) (index + count_blocks before)
            ∷ numbered
                (index + count_blocks before + 1)
                (lines + count_lines (glued before) + count_lines whole)
                behind
  unfolding number_blocks count_lines
  number_blocks-append index lines [] inside whole behind =
      ap₂ (λ n i. made inside (n + 1) i ∷ numbered (i + 1) (n + count_lines whole) behind)
        (omega arith) (omega arith)
  number_blocks-append index lines (plain c ∷ before) inside whole behind =
      number_blocks-append index (lines + count_lines (c ∷ [])) before inside whole behind
      ∙ ap
          (λ n.
            numbered index (lines + count_lines (c ∷ [])) before
            ++ made inside (n + 1) (index + count_blocks before)
              ∷ numbered (index + count_blocks before + 1) (n + count_lines whole) behind)
          (omega (arith, count_lines-append (c ∷ []) (glued before)))
  number_blocks-append index lines (block g w ∷ before) inside whole behind =
      ap (◌∷◌ (made g (lines + 1) index)) (
        number_blocks-append (index + 1) (lines + count_lines w) before inside whole behind
        ∙ ap₂
            (λ n i.
              numbered (index + 1) (lines + count_lines w) before
              ++ made inside (n + 1) i ∷ numbered (i + 1) (n + count_lines whole) behind)
            (omega (arith, count_lines-append w (glued before))) (omega arith))

  find_diagram-middle :
      (content : Text) (first : List Diagram) (d : Diagram) (rest : List Diagram)
      → d.content ≡ content
      → (e : Diagram) × (before : List Diagram) × (behind : List Diagram) × (find_diagram content
            (first ++ d ∷ rest)
          ≡ some e)
        × (first ++ d ∷ rest ≡ before ++ e ∷ behind)
        × (e.content ≡ content)
  unfolding find_diagram
  find_diagram-middle content [] d rest h =
      (d, [], rest, rw ((equal_iff d.content content).1 h) refl, refl, h)
  find_diagram-middle content (f ∷ first) d rest h = elim (Bool-cases (equal f.content content)) [
    | inl e ↦ (f, [], first ++ d ∷ rest, rw e refl, refl, (equal_iff f.content content).0 e)
    | inr e ↦
        let (g, before, behind, at, split, same) = find_diagram-middle content first d rest h in
        (g, f ∷ before, behind, rw e at, ap (◌∷◌ f) split, same)
  ]

  replace_all-append :
      (image : Diagram → Text) (ds : List Diagram) (before after : List Piece)
      → replace_all image ds (before ++ after)
        ≡ replace_all image ds before ++ replace_all image ds after
  unfolding replace_all
  replace_all-append image ds [] after = refl
  replace_all-append image ds (p ∷ before) after =
      ap (λ t. replace_piece image ds p ++ t) (replace_all-append image ds before after)
      ∙ sym (
          append_assoc (replace_piece image ds p) (replace_all image ds before)
            (replace_all image ds after))

  -- A block of a file stands where its pieces say, and gives one diagram, whose number counts the blocks
  -- in front of it from 1 and whose line is the one the block begins on: as many diagrams stand in front
  -- of it and behind it as there are blocks.
  pub extract_diagrams-block :
      (content : Text) (before : List Piece) (inside whole : Text) (behind : List Piece)
      → pieces_of content ≡ before ++ block inside whole ∷ behind
      → (content ≡ glued (before ++ block inside whole ∷ behind))
        × ((first : List Diagram) × (rest : List Diagram) × (extracted content
              ≡ first
                ++ made inside (count_lines (glued before) + 1) (1 + count_blocks before) ∷ rest)
            × (length first ≡ count_blocks before)
            × (length rest ≡ count_blocks behind))
  unfolding extract_diagrams
  extract_diagrams-block content before inside whole behind h =
      let line = 0 + count_lines (glued before) in
      let index = 1 + count_blocks before in
      let first = numbered 1 0 before in
      let rest = numbered (index + 1) (line + count_lines whole) behind in
      (
        sym (pieces_of-glued content) ∙ ap glued h,
        (
          first,
          rest,
          ap (numbered 1 0) h
              ∙ number_blocks-append 1 0 before inside whole behind
              ∙ ap (λ n. first ++ made inside n index ∷ rest) (omega arith),
          length-number_blocks 1 0 before,
          length-number_blocks (index + 1) (line + count_lines whole) behind,
        ),
      )

  -- Every block is replaced, by the image of a diagram of the file that has the block's stripped text;
  -- no block is left as it is.
  pub replace_with_images-block :
      (image_format image_dir content : Text) (before : List Piece) (inside whole : Text)
      (behind : List Piece)
      → pieces_of content ≡ before ++ block inside whole ∷ behind
      → (d : Diagram) × (first : List Diagram) × (rest : List Diagram) × (extracted content
          ≡ first ++ d ∷ rest)
        × (d.content ≡ strip inside)
        × (replaced image_format image_dir content
            ≡ replace_all (image_of image_format image_dir) (extracted content) before
              ++ (image_of image_format image_dir d
                  ++ replace_all (image_of image_format image_dir) (extracted content) behind))
  unfolding replace_with_images replace_all replace_piece
  replace_with_images-block image_format image_dir content before inside whole behind h =
      let (_, (fs, rs, at, _, _)) = extract_diagrams-block content before inside whole behind h in
      let (d, first, rest, found, split, same) =
        find_diagram-middle (strip inside) fs
          (made inside (count_lines (glued before) + 1) (1 + count_blocks before)) rs refl in
      let ds = extracted content in
      let image = image_of image_format image_dir in
      let here : find_diagram (strip inside) ds ≡ some d =
        ap (find_diagram (strip inside)) at ∙ found in
      (
        d,
        first,
        rest,
        at ∙ split,
        same,
        ap (replace_all image ds) h
            ∙ replace_all-append image ds before (block inside whole ∷ behind)
            ∙ ap
                (λ o.
                  replace_all image ds before
                  ++ ((elim o [ none ↦ whole | some e ↦ image e ]) ++ replace_all image ds behind))
                here,
      )
