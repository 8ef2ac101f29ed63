-- ===== src/Render/Renderer.antt =====
-- `MermaidRenderer` of mermaid_to_image.py: its options, the command line, `render` and
-- `render_from_string`. What a call of `mmdc` does is a parameter.
use my_besu_net.Base.{
  ℕ, zero, suc, Bool, true, false, not, List, [], ◌∷◌, ◌++◌, Option, none, some, leb, ◌==◌,
  if◌then◌else◌,
}
use my_besu_net.Base.Int.{ℤ, pos, negsuc, shown}
use my_besu_net.Base.Text.{Text, codes}
use my_besu_net.Json.{Result, ok, raise}
use my_besu_net.Package.Exclude.{is_in}

abbrev pub valid_themes : List Text
valid_themes = codes "default" ∷ codes "forest" ∷ codes "dark" ∷ codes "neutral" ∷ codes "base" ∷ []

-- the attributes of a renderer; the configuration file comes with whether it exists
pub record Renderer : Type 0 where
  pub theme : Text
  pub background : Text
  pub width : Option ℤ
  pub height : Option ℤ
  pub scale : ℕ
  pub config_file : Option (Text × Bool)

-- `max(1, min(3, scale))`
unfoldable pub clamp_scale : ℤ → ℕ
clamp_scale (negsuc n) = 1
clamp_scale (pos n) = if leb n 1 then 1 else if leb 3 n then 3 else n

-- the constructor; `none` where it ends the program because `mmdc` is missing
unfoldable pub new_renderer :
    Bool → Text → Text → Option ℤ → Option ℤ → ℤ → Option (Text × Bool) → Option Renderer
unfolding clamp_scale
new_renderer installed theme background width height scale config_file =
    if not installed
    then none
    else some (record {
      theme = (if is_in theme valid_themes then theme else codes "default");
      background = background;
      width = width;
      height = height;
      scale = clamp_scale scale;
      config_file = config_file;
    })

-- `if n: cmd.extend([flag, str(n)])`
unfoldable pub size_option : Text → Option ℤ → List Text
unfolding shown
size_option flag none = []
size_option flag (some (pos zero)) = []
size_option flag (some (pos (suc n))) = flag ∷ shown (pos (suc n)) ∷ []
size_option flag (some (negsuc n)) = flag ∷ shown (negsuc n) ∷ []

unfoldable pub config_option : Option (Text × Bool) → List Text
config_option none = []
config_option (some (path, exists)) = if exists then codes "-c" ∷ path ∷ [] else []

-- the command line of `render`
unfoldable pub command : Renderer → Text → Text → List Text
unfolding size_option config_option shown
command r input_path output_path =
    codes "mmdc"
    ∷ codes "-i"
    ∷ input_path
    ∷ codes "-o"
    ∷ output_path
    ∷ codes "-t"
    ∷ r.theme
    ∷ codes "-b"
    ∷ r.background
    ∷ (size_option (codes "-w") r.width
        ++ (size_option (codes "-H") r.height
            ++ ((if r.scale == 1 then [] else codes "-s" ∷ shown (pos r.scale) ∷ [])
                ++ config_option r.config_file)))

-- A call of `mmdc`: whether its return code is 0, and the size of the output file where there is one;
-- or the call times out, or raises another exception.
pub data Call : Type 0 where
  finished : Bool → Option ℕ → Call
  timed_out : Call
  failed : Call

-- whether the call has made an image
unfoldable pub succeeded : Call → Bool
succeeded (finished false size) = false
succeeded (finished true none) = false
succeeded (finished true (some zero)) = false
succeeded (finished true (some (suc size))) = true
succeeded timed_out = false
succeeded failed = false

unfoldable pub render : Renderer → (List Text → Call) → Text → Text → Bool
unfolding succeeded
render r run input_path output_path = succeeded (run (command r input_path output_path))

-- `render_from_string`: the result, and whether the temporary file is left; `unlinks` says whether it
-- can be removed
unfoldable pub render_from_string :
    Renderer → (List Text → Call) → Result Text → Bool → Text → Result Bool × Bool
unfolding render
render_from_string r run (raise e) unlinks output_path = (raise e, true)
render_from_string r run (ok temp_input) unlinks output_path =
    (ok (render r run temp_input output_path), not unlinks)
