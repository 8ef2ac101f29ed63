-- ===== src/Viewer/Embed.antt =====
-- `embed_file` of generate_review.py, and the files of `outputs` that a run embeds.
use my_besu_net.Base.{Bool, List, [], ◌∷◌, ◌++◌, Option, none, some, if◌then◌else◌, any, String}
use my_besu_net.Base.Paths.{last_dot}
use my_besu_net.Base.Text.{Text, codes, is}
use my_besu_net.Viewer.Tree.{Nodes, file, dir, nil, cons}

-- What is called of Python's libraries: `str.lower`, `mimetypes.guess_type(str(path))[0]` by the name, and
-- the base64 text of the bytes of a file.
pub record Library : Type 0 where
  pub lower : Text → Text
  pub guess_type : Text → Option Text
  pub b64encode : Text → Text

-- the dict of an embedded file: its `type` with the other entries
pub data Embedded : Type 0 where
  text : Text → Text → Embedded
  image : Text → Text → Text → Embedded
  pdf : Text → Text → Embedded
  xlsx : Text → Text → Embedded
  binary : Text → Text → Text → Embedded
  error : Text → Embedded

abbrev pub metadata_files : List String
metadata_files = "transcript.md" ∷ "user_notes.md" ∷ "metrics.json" ∷ []

abbrev pub text_extensions : List String
text_extensions =
    ".txt" ∷ ".md" ∷ ".json" ∷ ".csv" ∷ ".py" ∷ ".js" ∷ ".ts" ∷ ".tsx" ∷ ".jsx" ∷ ".yaml" ∷ ".yml"
    ∷ ".xml" ∷ ".html" ∷ ".css" ∷ ".sh" ∷ ".rb" ∷ ".go" ∷ ".rs" ∷ ".java" ∷ ".c" ∷ ".cpp" ∷ ".h"
    ∷ ".hpp" ∷ ".sql" ∷ ".r" ∷ ".toml" ∷ []

abbrev pub image_extensions : List String
image_extensions = ".png" ∷ ".jpg" ∷ ".jpeg" ∷ ".gif" ∷ ".svg" ∷ ".webp" ∷ []

-- `path.suffix`
unfoldable pub suffix : Text → Text
unfolding last_dot
suffix name = elim (last_dot name) [
  | none ↦ []
  | some (before, after) ↦ elim before [
    | [] ↦ []
    | c ∷ b ↦ elim after [ [] ↦ [] | d ∷ a ↦ b'.' ∷ d ∷ a ]
  ]
]

abbrev among : Text → List String → Bool
among t names = any (λ (n : String). is n t) names

unfoldable pub mime_override : Text → Option Text
unfolding is
mime_override ext =
    if is ".svg" ext
    then some (codes "image/svg+xml")
    else if is ".xlsx" ext
    then some (codes "application/vnd.openxmlformats-officedocument.spreadsheetml.sheet")
    else if is ".docx" ext
    then some (codes "application/vnd.openxmlformats-officedocument.wordprocessingml.document")
    else if is ".pptx" ext
    then some (codes "application/vnd.openxmlformats-officedocument.presentationml.presentation")
    else none

abbrev or_octets : Option Text → Text
or_octets none = codes "application/octet-stream"
or_octets (some []) = codes "application/octet-stream"
or_octets (some (c ∷ t)) = c ∷ t

unfoldable pub get_mime_type : Library → Text → Text
unfolding suffix mime_override
get_mime_type library name = elim (mime_override (library.lower (suffix name))) [
  | some mime ↦ mime
  | none ↦ or_octets (library.guess_type name)
]

-- `f"data:{mime};base64,{b64}"`
abbrev data_uri : Text → Text → Text
data_uri mime encoded = codes "data:" ++ mime ++ codes ";base64," ++ encoded

-- a file by its name, with what reading it gives
unfoldable pub embed_file : Library → Text → Option Text → Embedded
unfolding suffix get_mime_type is
embed_file library name none =
    if among (library.lower (suffix name)) text_extensions
    then text name (codes "(Error reading file)")
    else error name
embed_file library name (some content) =
    let ext = library.lower (suffix name) in
    let mime = get_mime_type library name in
    let encoded = library.b64encode content in
    if among ext text_extensions
    then text name content
    else if among ext image_extensions
    then image name mime (data_uri mime encoded)
    else if is ".pdf" ext
    then pdf name (data_uri mime encoded)
    else if is ".xlsx" ext
    then xlsx name encoded
    else binary name mime (data_uri mime encoded)

-- the files of `outputs`
unfoldable pub embed_all : Library → Nodes → List Embedded
unfolding embed_file is
embed_all library nil = []
embed_all library (cons (dir n kids) nodes) = embed_all library nodes
embed_all library (cons (file n content) nodes) =
    let rest = embed_all library nodes in
    if among n metadata_files then rest else embed_file library n content ∷ rest
