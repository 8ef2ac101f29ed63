-- ===== src/Frontmatter/CommandFile.antt =====
-- The command file of `run_single_query` (run_eval.py, lines 59 to 67) read back by `parse_skill_md`.
use my_besu_net.Base.{
  ℕ, false, List, [], ◌∷◌, ◌++◌, none, some, ◌≡◌, refl, subst, ap, ◌∙◌, arith, ◌==◌, Bool-cases,
  inl, inr, append_assoc, append-nil, map, All,
}
use my_besu_net.Base.Text.{Text, codes, strip, starts_with, split_on, split_on_first, join}
use my_besu_net.Frontmatter.Parse.{
  is_fence, until_fence, continues, front_line, front_lines, parse_lines, parse_skill_md,
}
use my_besu_net.Json.{ok}

-- `"\n  ".join(skill_description.split("\n"))`
unfoldable pub indented : Text → Text
unfolding split_on join
indented description = join (codes "\n  ") (split_on b'\n' description)

unfoldable pub command_content : Text → Text → Text
unfolding indented
command_content skill_name description =
    codes "---\ndescription: |\n  "
    ++ (indented description
        ++ (codes "\n---\n\n# "
            ++ (skill_name ++ (codes "\n\nThis skill handles: " ++ (description ++ codes "\n")))))

abbrev pub line_end : ℕ
line_end = b'\n'

abbrev NewlineFree : Text → Type 0
NewlineFree [] = Unit
NewlineFree (c ∷ t) = ((c == line_end) ≡ false) × NewlineFree t

split_on-line :
    (line rest : Text)
    → NewlineFree line
    → split_on line_end (line ++ line_end ∷ rest) ≡ line ∷ split_on line_end rest
unfolding split_on
split_on-line [] rest h = refl
split_on-line (c ∷ line) rest h = rw (h.0, split_on-line line rest h.1)

split_on-NewlineFree : (t : Text) → All NewlineFree (split_on line_end t)
unfolding split_on
split_on-NewlineFree [] = (tt, tt)
split_on-NewlineFree (c ∷ t) =
    let (w, ws, e) = split_on_first line_end t in
    let h : All NewlineFree (w ∷ ws) = subst (All NewlineFree) e (split_on-NewlineFree t) in
    elim (Bool-cases (c == line_end)) [
      | inl k ↦ rw k (tt, split_on-NewlineFree t)
      | inr k ↦ rw (k, e) ((k, h.0), h.1)
    ]

indent : Text → Text
indent line = codes "  " ++ line

-- Indented and joined lines split into the indented lines.
split_on-join :
    (w : Text) (ws : List Text) (rest : Text)
    → All NewlineFree (w ∷ ws)
    → split_on line_end (codes "  " ++ (join (codes "\n  ") (w ∷ ws) ++ line_end ∷ rest))
      ≡ map indent (w ∷ ws) ++ split_on line_end rest
unfolding indent join
split_on-join w [] rest h = split_on-line (codes "  " ++ w) rest (refl, (refl, h.0))
split_on-join w (v ∷ ws) rest h =
    rw (append_assoc w (codes "\n  " ++ join (codes "\n  ") (v ∷ ws)) (line_end ∷ rest)) (
      split_on-line (codes "  " ++ w)
        (codes "  " ++ (join (codes "\n  ") (v ∷ ws) ++ line_end ∷ rest)) (refl, (refl, h.0))
      ∙ ap (◌∷◌ (codes "  " ++ w)) (split_on-join v ws rest h.1))

strip-indent : (w : Text) → strip (indent w) ≡ strip w
unfolding strip indent
strip-indent w = refl

-- no line of the description is a fence when it is stripped
abbrev pub NoFence : Text → Type 0
NoFence w = is_fence w ≡ false

until_fence-indent :
    (ws tail : List Text)
    → All NoFence ws
    → until_fence (map indent ws ++ codes "---" ∷ tail) ≡ some (map indent ws)
unfolding until_fence is_fence strip
until_fence-indent [] tail h = refl
until_fence-indent (w ∷ ws) tail h = rw (strip-indent w) (rw (h.0, until_fence-indent ws tail h.1))

front_line-indent :
    (w : Text) (acc : List Text) (name description : Text)
    → front_line (indent w) (record { name = name; description = description; block = some acc })
      ≡ record { name = name; description = description; block = some (acc ++ strip w ∷ []) }
unfolding front_line continues indent strip starts_with
front_line-indent w acc name description = refl

front_lines-indent :
    (ws acc : List Text) (name description : Text)
    → front_lines
        (map indent ws)
        (record { name = name; description = description; block = some acc })
      ≡ record { name = name; description = join (codes " ") (acc ++ map strip ws); block = none }
unfolding front_lines
front_lines-indent [] acc name description = rw append-nil
front_lines-indent (w ∷ ws) acc name description =
    ap (front_lines (map indent ws)) (front_line-indent w acc name description)
    ∙ front_lines-indent ws (acc ++ strip w ∷ []) name description
    ∙ rw (append_assoc acc (strip w ∷ []) (map strip ws))

-- The lines of the command file.
command_lines :
    (skill_name description : Text)
    → (tail : List Text) × (split_on line_end (command_content skill_name description)
        ≡ codes "---"
          ∷ codes "description: |"
          ∷ (map indent (split_on line_end description) ++ codes "---" ∷ tail))
unfolding command_content
command_lines skill_name description =
    let (w, ws, e) = split_on_first line_end description in
    let h : All NewlineFree (w ∷ ws) =
      subst (All NewlineFree) e (split_on-NewlineFree description) in
    let after =
      line_end ∷ codes "# "
      ++ (skill_name ++ (codes "\n\nThis skill handles: " ++ (description ++ codes "\n"))) in
    let body = join (codes "\n  ") (w ∷ ws) in
    (
      split_on line_end after,
      rw e (
          split_on-line (codes "---")
            (codes "description: |"
              ++ line_end ∷ (codes "  " ++ (body ++ line_end ∷ (codes "---" ++ line_end ∷ after))))
            three_hyphens
          ∙ ap (◌∷◌ (codes "---")) (
              split_on-line (codes "description: |")
                (codes "  " ++ (body ++ line_end ∷ (codes "---" ++ line_end ∷ after))) block_header
              ∙ ap (◌∷◌ (codes "description: |")) (
                  split_on-join w ws (codes "---" ++ line_end ∷ after) h
                  ∙ ap (λ ls. map indent (w ∷ ws) ++ ls)
                      (split_on-line (codes "---") after three_hyphens)))),
    )
  where
    three_hyphens : NewlineFree (codes "---")
    three_hyphens = (refl, (refl, (refl, tt)))

    block_header : NewlineFree (codes "description: |")
    block_header = ground arith

-- A description none of whose lines is a fence comes back from the command file, its lines stripped
-- and joined by spaces; the file states no name.
pub parse_skill_md-command_content :
    (skill_name description : Text)
    → All NoFence (split_on line_end description)
    → parse_skill_md (command_content skill_name description)
      ≡ ok (record {
        name = [];
        description = join (codes " ") (map strip (split_on line_end description));
        content = command_content skill_name description;
      })
unfolding parse_skill_md is_fence strip
parse_skill_md-command_content skill_name description h =
    let (tail, lines) = command_lines skill_name description in
    rw (lines, parse_lines)
      (rw (until_fence-indent (split_on line_end description) tail h)
        (rw (front_lines-indent (split_on line_end description) [] [] [])))
