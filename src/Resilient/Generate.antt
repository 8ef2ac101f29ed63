-- ===== src/Resilient/Generate.antt =====
-- The workflow of resilient_diagram.py: `save_mmd_file`, `render_image`, `get_search_recommendation`,
-- `generate`. Paths are relative to the output directory. `lower` is `str.lower`, and `is_word` says
-- which characters are `\w`.
use my_besu_net.Base.{
  ℕ, zero, suc, Bool, true, false, not, ◌||◌, List, [], ◌∷◌, ◌++◌, Option, none, some, ◌==◌,
  if◌then◌else◌, keep, take, map,
}
use my_besu_net.Base.Paths.{with_suffix}
use my_besu_net.Base.Int.{ℤ}
use my_besu_net.Base.Text.{Text, codes, strip, is_space}
use my_besu_net.Extract.Check.{or_text}
use my_besu_net.Json.{Result, ok, ◌>>=◌}
use my_besu_net.Resilient.Detect.{DiagramType, value, detect_diagram_type}
use my_besu_net.Resilient.Filename.{generate_filename}
use my_besu_net.Resilient.Guide.{Entry, search_guide}

-- A call of `mmdc`: whether its return code is 0, its stdout and stderr, and the size of the image
-- file where there is one; or the call times out, or raises another exception.
pub data Mmdc : Type 0 where
  exited : Bool → Text → Text → Option ℕ → Mmdc
  timed_out : Mmdc
  failed : Text → Mmdc

-- what `render_image` returns: `(True, path, None)` or `(False, None, message)`
pub data Rendering : Type 0 where
  image : Text → Rendering
  failure : Text → Rendering

-- `TroubleshootingMatch.to_dict`
pub record Match : Type 0 where
  pub error_number : ℕ
  pub title : Text
  pub severity : Text
  pub diagram_types : List Text
  pub problem : Text
  pub correct_example : Text

pub record DiagramResult : Type 0 where
  pub success : Bool
  pub mmd_path : Text
  pub image_path : Option Text
  pub diagram_type : Text
  pub error_message : Option Text
  pub troubleshooting_matches : List Match
  pub suggested_fix : Option Text
  pub search_recommendation : Option Text

-- the result of `generate`, and the file that it has written
pub record Generated : Type 0 where
  pub result : DiagramResult
  pub saved : Text × Text

-- the name and the content of the .mmd file
unfoldable pub save_mmd_file : Text → Text → Text × Text
unfolding strip
save_mmd_file mermaid_code base_filename =
    (base_filename ++ codes ".mmd", strip mermaid_code ++ codes "\n")

-- the outcome of the call, for an image path
unfoldable pub rendered : Text → Mmdc → Rendering
unfolding or_text strip
rendered image_path (exited false stdout stderr size) =
    failure (or_text (strip stderr) (or_text (strip stdout) (codes "Unknown rendering error")))
rendered image_path (exited true stdout stderr none) =
    failure (codes "Output file not created: " ++ image_path)
rendered image_path (exited true stdout stderr (some zero)) =
    failure (codes "Output file is empty: " ++ image_path)
rendered image_path (exited true stdout stderr (some (suc size))) = image image_path
rendered image_path timed_out = failure (codes "Rendering timed out after 60 seconds")
rendered image_path (failed message) = failure message

unfoldable pub render_image : Text → Text → Bool → Mmdc → Rendering
unfolding rendered with_suffix
render_image mmd_path image_format installed mmdc =
    if not installed
    then failure (codes "mmdc not found. Install with: npm install -g @mermaid-js/mermaid-cli")
    else rendered (with_suffix mmd_path image_format) mmdc

abbrev begins_space : Text → Bool
begins_space [] = false
begins_space (c ∷ t) = is_space c

-- `re.sub(r'\s+', ' ', t)`
unfoldable pub single_spaces : Text → Text
unfolding is_space
single_spaces [] = []
single_spaces (c ∷ t) =
    let rest = single_spaces t in
    if is_space c then (if begins_space t then rest else b' ' ∷ rest) else c ∷ rest

unfoldable pub get_search_recommendation : (ℕ → Bool) → Text → DiagramType → Text
unfolding single_spaces strip is_space
get_search_recommendation is_word error_message diagram_type =
    let clean_error = strip (single_spaces (take 150 error_message)) in
    let kept =
      keep (λ c. is_word c || is_space c || c == b':' || c == b'.' || c == b'-') clean_error in
    codes "mermaid " ++ (value diagram_type ++ (codes " diagram syntax error: " ++ kept))

abbrev pub to_dict : Entry → Match
to_dict e = record {
  error_number = e.error_number;
  title = e.title;
  severity = e.severity;
  diagram_types = e.diagram_types;
  problem = e.problem;
  correct_example = e.correct_example;
}

-- `found_matches`; no search is made without a guide or for an empty message
unfoldable pub find_matches : (Text → Text) → Option (List Entry) → Text → DiagramType → List Entry
unfolding search_guide
find_matches lower none error_message diagram_type = []
find_matches lower (some entries) [] diagram_type = []
find_matches lower (some entries) (c ∷ t) diagram_type =
    search_guide lower entries (c ∷ t) diagram_type

-- the correct example of the best match, where there is one
unfoldable pub suggest : List Entry → Option Text
suggest [] = none
suggest (e ∷ es) = elim (e.correct_example) [ [] ↦ none | c ∷ t ↦ some (c ∷ t) ]

-- `search_rec`
unfoldable pub recommend : (ℕ → Bool) → Text → DiagramType → List Match → Option Text
unfolding get_search_recommendation
recommend is_word error_message diagram_type [] =
    some (get_search_recommendation is_word error_message diagram_type)
recommend is_word error_message diagram_type (m ∷ ms) =
    if m.error_number == 0
    then some (get_search_recommendation is_word error_message diagram_type)
    else none

-- the result for a rendering
unfoldable pub result_for :
    (Text → Text)
    → (ℕ → Bool)
    → Option (List Entry)
    → Text
    → DiagramType
    → Rendering
    → DiagramResult
unfolding find_matches suggest recommend
result_for lower is_word guide mmd_path diagram_type (image path) = record {
  success = true;
  mmd_path = mmd_path;
  image_path = some path;
  diagram_type = value diagram_type;
  error_message = none;
  troubleshooting_matches = [];
  suggested_fix = none;
  search_recommendation = none;
}
result_for lower is_word guide mmd_path diagram_type (failure message) =
    let found_matches = find_matches lower guide message diagram_type in
    let matches = map to_dict found_matches in
    record {
      success = false;
      mmd_path = mmd_path;
      image_path = none;
      diagram_type = value diagram_type;
      error_message = some message;
      troubleshooting_matches = matches;
      suggested_fix = suggest found_matches;
      search_recommendation = recommend is_word message diagram_type matches;
    }

-- `writes` is what becomes of making the directory and writing the .mmd file.
unfoldable pub generate :
    (Text → Text)
    → (ℕ → Bool)
    → Option (List Entry)
    → Result (Unit {0})
    → Bool
    → Mmdc
    → Text
    → Text
    → ℤ
    → Text
    → Text
    → Result Generated
unfolding save_mmd_file
generate lower is_word guide writes installed mmdc mermaid_code markdown_file diagram_num title
      image_format =
    do
      let diagram_type = detect_diagram_type mermaid_code
      let base_filename = generate_filename lower markdown_file diagram_num diagram_type title
      let saved = save_mmd_file mermaid_code base_filename
      written ← writes
      let rendering = render_image saved.0 image_format installed mmdc
      ok (record {
        result = result_for lower is_word guide saved.0 diagram_type rendering;
        saved = saved;
      })
