-- ===== src/Render/Batch.antt =====
-- `batch_render` and the exit status of `main` (mermaid_to_image.py). A path is the list of its parts;
-- `makes` says whether a directory is there or can be made, else `mkdir` raises. Printing is not modelled.
use my_besu_net.Base.{ℕ, ◌+◌, Bool, true, false, List, [], ◌∷◌, ◌++◌, ◌==◌, if◌then◌else◌, length}
use my_besu_net.Base.Paths.{with_suffix}
use my_besu_net.Base.Text.{Text, codes, join}
use my_besu_net.Json.{Result, ok, raise, ◌>>=◌, os_error}
use my_besu_net.Render.Renderer.{Renderer, Call, render, render_from_string}

-- `str(path)`
abbrev pub path_text : List Text → Text
path_text parts = join (codes "/") parts

-- `relative_path.with_suffix(…)`; without `recursive` the path has one part
unfoldable pub output_parts : Text → List Text → List Text
unfolding with_suffix
output_parts output_format [] = []
output_parts output_format (name ∷ []) = with_suffix name output_format ∷ []
output_parts output_format (part ∷ next ∷ parts) = part ∷ output_parts output_format (next ∷ parts)

-- the rendering of one file
unfoldable pub render_file :
    Renderer → (List Text → Call) → List Text → List Text → Text → List Text → Bool
unfolding render output_parts join
render_file r run input_dir output_dir output_format file =
    render r run (path_text (input_dir ++ file))
      (path_text (output_dir ++ output_parts output_format file))

-- `path.parent`
unfoldable pub parent_of : List Text → List Text
parent_of [] = []
parent_of (part ∷ []) = []
parent_of (part ∷ next ∷ parts) = part ∷ parent_of (next ∷ parts)

-- the directory of an output file
unfoldable pub output_parent : List Text → Text → List Text → List Text
unfolding output_parts parent_of
output_parent output_dir output_format file =
    parent_of (output_dir ++ output_parts output_format file)

-- the loop; the files are the paths below the directory that the pattern finds
unfoldable pub count_rendered :
    Renderer
    → (List Text → Call)
    → (List Text → Bool)
    → List Text
    → List Text
    → Text
    → List (List Text)
    → ℕ
    → Result ℕ
unfolding render_file output_parent
count_rendered r run makes input_dir output_dir output_format [] success_count = ok success_count
count_rendered r run makes input_dir output_dir output_format (file ∷ files) success_count =
    let rest = count_rendered r run makes input_dir output_dir output_format files (
      if render_file r run input_dir output_dir output_format file
      then success_count + 1
      else success_count) in
    if makes (output_parent output_dir output_format file) then rest else raise os_error

-- the pair of the successes and of all
unfoldable pub batch_render :
    Renderer
    → (List Text → Call)
    → (List Text → Bool)
    → List Text
    → List Text
    → Text
    → List (List Text)
    → Result (ℕ × ℕ)
unfolding count_rendered
batch_render r run makes input_dir output_dir output_format [] =
    if makes output_dir then ok (0, 0) else raise os_error
batch_render r run makes input_dir output_dir output_format (file ∷ files) =
    if makes output_dir
    then (do
      success_count ← count_rendered r run makes input_dir output_dir output_format (file ∷ files) 0
      ok (success_count, length (file ∷ files)))
    else raise os_error

-- what the argument `input` stands for: the code on stdin, in a file of its own; a terminal; the files
-- of a directory; a file; nothing
pub data Input : Type 0 where
  stdin : Result Text → Input
  terminal : Input
  directory : List Text → List (List Text) → Input
  file : List Text → Input
  missing : Input

abbrev status : Bool → ℕ
status true = 0
status false = 1

-- the exit status of a batch
unfoldable pub batch_status : Result (ℕ × ℕ) → ℕ
batch_status (raise e) = 1
batch_status (ok counts) = if counts.0 == counts.1 then 0 else 1

-- the exit status of `main`, behind the constructor; an exception ends the program with 1
unfoldable pub exit_status :
    Renderer → (List Text → Call) → Bool → (List Text → Bool) → List Text → Text → Input → ℕ
unfolding render_from_string batch_render batch_status render join parent_of
exit_status r run unlinks makes output output_format (stdin (ok temp)) =
    elim (render_from_string r run (ok temp) unlinks (path_text output)).0 [
      | raise e ↦ 1
      | ok success ↦ status success
    ]
exit_status r run unlinks makes output output_format (stdin (raise e)) = 1
exit_status r run unlinks makes output output_format terminal = 1
exit_status r run unlinks makes output output_format (directory input_dir files) =
    batch_status (batch_render r run makes input_dir output output_format files)
exit_status r run unlinks makes output output_format (file path) =
    if makes (parent_of output)
    then status (render r run (path_text path) (path_text output))
    else 1
exit_status r run unlinks makes output output_format missing = 1
