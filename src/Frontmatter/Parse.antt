-- ===== src/Frontmatter/Parse.antt =====
-- `parse_skill_md` (utils.py, lines 7 to 47). The inner loop over the continuation lines of a block is
-- a state of the one loop over the lines.
use my_besu_net.Base.{Bool, ◌||◌, List, [], ◌∷◌, ◌++◌, Option, none, some, if◌then◌else◌}
use my_besu_net.Base.Text.{
  Text, codes, is, strip, strip_char, starts_with, drop_prefix, split_on, join,
}
use my_besu_net.Json.{Result, ok, raise, value_error}

pub record Skill : Type 0 where
  pub name : Text
  pub description : Text
  pub content : Text

-- `name`, `description`, and the `continuation_lines` while they are being read
pub record Front : Type 0 where
  pub name : Text
  pub description : Text
  pub block : Option (List Text)

unfoldable pub is_fence : Text → Bool
unfolding is
is_fence line = is "---" (strip line)

-- the lines in front of the closing fence
unfoldable pub until_fence : List Text → Option (List Text)
until_fence [] = none
until_fence (line ∷ lines) =
    let rest = until_fence lines in
    if is_fence line then some [] else elim rest [ none ↦ none | some ls ↦ some (line ∷ ls) ]

-- `value in (">", "|", ">-", "|-")`
unfoldable pub is_block : Text → Bool
unfolding is
is_block value = is ">" value || is "|" value || is ">-" value || is "|-" value

-- `frontmatter_lines[i].startswith("  ") or frontmatter_lines[i].startswith("\t")`
unfoldable pub continues : Text → Bool
unfolding starts_with
continues line = starts_with line (codes "  ") || starts_with line (codes "\t")

abbrev pub unquote : Text → Text
unquote t = strip_char b'\'' (strip_char b'"' t)

-- `description = " ".join(continuation_lines)`
abbrev pub close_block : List Text → Front → Front
close_block lines f = record f { description = join (codes " ") lines; block = none }

-- a line outside a block
unfoldable pub field_line : Text → Front → Front
unfolding starts_with is_block strip_char
field_line line f =
    if starts_with line (codes "name:")
    then record f { name = unquote (strip (drop_prefix (codes "name:") line)) }
    else if starts_with line (codes "description:")
    then (let value = strip (drop_prefix (codes "description:") line) in
        if is_block value
        then record f { block = some [] }
        else record f { description = unquote value })
    else f

unfoldable pub front_line : Text → Front → Front
unfolding continues field_line
front_line line f = elim (f.block) [
  | none ↦ field_line line f
  | some lines ↦
      if continues line
      then record f { block = some (lines ++ strip line ∷ []) }
      else field_line line (close_block lines f)
]

unfoldable pub end_of_front : Front → Front
end_of_front f = elim (f.block) [ none ↦ f | some lines ↦ close_block lines f ]

unfoldable pub front_lines : List Text → Front → Front
unfolding front_line end_of_front
front_lines [] f = end_of_front f
front_lines (line ∷ lines) f = front_lines lines (front_line line f)

-- the lines of a file: the first must be a fence, and another must follow
unfoldable pub parse_lines : Text → List Text → Result Skill
unfolding is_fence until_fence front_lines
parse_lines content [] = raise value_error
parse_lines content (first ∷ lines) =
    if is_fence first
    then (elim (until_fence lines) [
      | none ↦ raise value_error
      | some front ↦
          let f = front_lines front (record { name = []; description = []; block = none }) in
          ok (record { name = f.name; description = f.description; content = content })
    ])
    else raise value_error

unfoldable pub parse_skill_md : Text → Result Skill
unfolding parse_lines split_on
parse_skill_md content = parse_lines content (split_on b'\n' content)
