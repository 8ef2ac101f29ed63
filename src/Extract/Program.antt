-- ===== src/Extract/Program.antt =====
-- The listing and `main` of extract_mermaid.py: what it ends with, shows and writes. An exception that
-- is not caught ends the program with status 1. The lines on its progress are not modelled, nor is
-- printing that raises.
use my_besu_net.Base.{
  ℕ, suc, Bool, List, [], ◌∷◌, ◌++◌, Option, none, some, ltb, if◌then◌else◌, length, take, map,
}
use my_besu_net.Base.Int.{digits}
use my_besu_net.Base.Text.{Text, codes, strip, split_on}
use my_besu_net.Extract.Check.{Rendered, validate_diagrams, exit_status}
use my_besu_net.Json.{Result}
use my_besu_net.Extract.Diagrams.{Diagram, extract_diagrams, replace_with_images, save_diagrams}

-- the parsed arguments
pub record Options : Type 0 where
  pub output_dir : Option Text
  pub prefix : Text
  pub list_only : Bool
  pub validate : Bool
  pub replace_images : Bool
  pub image_format : Text
  pub image_dir : Text
  pub output_markdown : Option Text

-- the input: a path of nothing, of what is no file, of a file whose reading as UTF-8 raises, or of a
-- file with its text
pub data Source : Type 0 where
  missing : Source
  no_file : Source
  unreadable : Source
  markdown_file : Text → Source

-- a file that is written: in a directory, or at a path of its own
pub data Target : Type 0 where
  in_dir : Text → Text → Target
  at_path : Text → Target

-- Whether a directory can be made and a file be written; what cannot raises.
pub record Files : Type 0 where
  pub makes : Text → Bool
  pub writes : Target → Bool

-- `written` are the files that are written to their end
pub record Outcome : Type 0 where
  pub status : ℕ
  pub shown : Text
  pub written : List (Target × Text)

abbrev pub number : ℕ → Text
number n = digits (suc n) n []

abbrev first_of : List Text → Text
first_of [] = []
first_of (line ∷ lines) = line

-- `get_first_line`
unfoldable pub get_first_line : ℕ → Diagram → Text
unfolding split_on strip
get_first_line max_length d =
    let first_line = strip (first_of (split_on 10 d.content)) in
    if ltb max_length (length first_line)
    then take max_length first_line ++ codes "..."
    else first_line

abbrev done : Text → Outcome
done t = record { status = 0; shown = t; written = [] }

abbrev ended : ℕ → Outcome
ended n = record { status = n; shown = []; written = [] }

-- the Markdown, to a file or shown
unfoldable pub put_markdown : Files → Option Text → Text → Outcome
put_markdown files none modified = done (codes "\nModified Markdown:\n\n" ++ modified ++ codes "\n")
put_markdown files (some path) modified =
    if files.writes (at_path path)
    then record { status = 0; shown = []; written = (at_path path, modified) ∷ [] }
    else ended 1

-- the files one after the other, up to the first that cannot be written
unfoldable pub write_files : Files → List (Target × Text) → Outcome
write_files files [] = done []
write_files files (f ∷ fs) =
    let rest = write_files files fs in
    if files.writes f.0 then record rest { written = f ∷ rest.written } else ended 1

abbrev pub diagram_file : Text → Text × Text → Target × Text
diagram_file output_dir f = (in_dir output_dir f.0, f.1)

-- the diagrams as files
unfoldable pub put_diagrams : Files → Text → Text → List Diagram → Outcome
unfolding save_diagrams write_files
put_diagrams files output_dir prefix ds =
    if files.makes output_dir
    then write_files files (map (diagram_file output_dir) (save_diagrams prefix ds))
    else ended 1

-- `line_count` is `len(content.splitlines())`.
module _ (line_count : Text → ℕ) where
  unfoldable pub list_entry : Diagram → Text
  unfolding get_first_line digits
  list_entry d =
      codes "  #"
      ++ number d.index
      ++ codes " (Line "
      ++ number d.line_number
      ++ codes "):\n"
      ++ codes "    First line: "
      ++ get_first_line 50 d
      ++ codes "\n"
      ++ codes "    Hash: "
      ++ d.hash
      ++ codes "\n"
      ++ codes "    Lines: "
      ++ number (line_count d.content)
      ++ codes "\n\n"

  unfoldable pub list_entries : List Diagram → Text
  unfolding list_entry
  list_entries [] = []
  list_entries (d ∷ ds) = list_entry d ++ list_entries ds

  unfoldable pub list_diagrams : Text → List Diagram → Text
  unfolding list_entries digits
  list_diagrams name [] = codes "No Mermaid diagrams found.\n"
  list_diagrams name (d ∷ ds) =
      codes "\nFound "
      ++ number (length (d ∷ ds))
      ++ codes " Mermaid diagram(s) in "
      ++ name
      ++ codes ":\n\n"
      ++ list_entries (d ∷ ds)

  abbrev pub default_list : Text → List Diagram → Outcome
  default_list name ds = done (
      list_diagrams name ds
      ++ codes "\nUse --output-dir to extract diagrams or --help for more options.\n")

  -- the operations that are neither the list nor the validation
  unfoldable pub write_or_list :
      (Text → Text) → Files → Options → Text → Text → List Diagram → Outcome
  unfolding list_diagrams replace_with_images put_markdown put_diagrams
  write_or_list digest files options name content ds =
      if options.replace_images
      then put_markdown files options.output_markdown
          (replace_with_images digest options.image_format options.image_dir content)
      else (elim options.output_dir [
        | some output_dir ↦ put_diagrams files output_dir options.prefix ds
        | none ↦ default_list name ds
      ])

  -- what becomes of diagrams, of which there is one or more
  unfoldable pub operate :
      (Text → Text)
      → Result Bool
      → (Diagram → Rendered)
      → Files
      → Options
      → Text
      → Text
      → List Diagram
      → Outcome
  unfolding list_diagrams exit_status validate_diagrams write_or_list
  operate digest installed render files options name content ds =
      if options.list_only
      then done (list_diagrams name ds)
      else if options.validate
      then ended (exit_status (validate_diagrams installed render ds))
      else write_or_list digest files options name content ds

  -- what becomes of the diagrams of the file
  unfoldable pub handle :
      (Text → Text)
      → Result Bool
      → (Diagram → Rendered)
      → Files
      → Options
      → Text
      → Text
      → List Diagram
      → Outcome
  unfolding operate
  handle digest installed render files options name content [] =
      done (codes "No Mermaid diagrams found.\n")
  handle digest installed render files options name content (d ∷ ds) =
      operate digest installed render files options name content (d ∷ ds)

  -- `main`
  unfoldable pub main :
      (Text → Text) → Result Bool → (Diagram → Rendered) → Files → Options → Text → Source → Outcome
  unfolding extract_diagrams handle
  main digest installed render files options name missing = ended 1
  main digest installed render files options name no_file = ended 1
  main digest installed render files options name unreadable = ended 1
  main digest installed render files options name (markdown_file content) =
      handle digest installed render files options name content (extract_diagrams digest content)
