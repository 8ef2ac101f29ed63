-- ===== src/Tests/RenderTests.antt =====
-- mermaid_to_image.py at concrete data.
use my_besu_net.Base.{Bool, true, List, [], ◌∷◌, none, some, ◌≡◌, ◌↔◌, refl, All}
use my_besu_net.Base.Int.{pos}
use my_besu_net.Base.Text.{Text, codes, equal}
use my_besu_net.Package.Exclude.{is_in}
use my_besu_net.Render.Batch.{directory, exit_status}
use my_besu_net.Render.Exits.{HasImage, exit_status-batch_iff, output_parts-injective}
use my_besu_net.Render.Renderer.{Renderer, Call, finished, new_renderer, command}

abbrev renderer : Renderer
renderer = record {
  theme = codes "default";
  background = codes "white";
  width = some (pos 800);
  height = none;
  scale = 3;
  config_file = none;
}

made :
    new_renderer true (codes "solarized") (codes "white") (some (pos 800)) none (pos 7) none
    ≡ some renderer
unfolding new_renderer is_in equal
made = refl

command_line :
    command renderer (codes "a.mmd") (codes "a.png")
    ≡ codes "mmdc"
      ∷ codes "-i"
      ∷ codes "a.mmd"
      ∷ codes "-o"
      ∷ codes "a.png"
      ∷ codes "-t"
      ∷ codes "default"
      ∷ codes "-b"
      ∷ codes "white"
      ∷ codes "-w"
      ∷ codes "800"
      ∷ codes "-s"
      ∷ codes "3"
      ∷ []
unfolding command
command_line = refl

abbrev one_call : List Text → Call
one_call line = finished true (some 12)

abbrev files : List (List Text)
files = (codes "a.mmd" ∷ []) ∷ (codes "sub" ∷ codes "b.mmd" ∷ []) ∷ []

abbrev made_dir : List Text → Bool
made_dir dir = true

exit_status-batch_iff_example :
    (exit_status renderer one_call true made_dir
        (codes "out" ∷ [])
        (codes "png")
        (directory (codes "in" ∷ []) files)
      ≡ 0)
    ↔ ((made_dir (codes "out" ∷ []) ≡ true)
        × All
            (HasImage renderer one_call made_dir (codes "in" ∷ []) (codes "out" ∷ []) (codes "png"))
            files)
exit_status-batch_iff_example =
    exit_status-batch_iff renderer one_call made_dir (codes "in" ∷ []) (codes "out" ∷ [])
      (codes "png") true files

output_parts-injective_example :
    ◌≡◌ {A = List Text} (codes "sub" ∷ codes "b.mmd" ∷ []) (codes "sub" ∷ codes "b.mmd" ∷ [])
output_parts-injective_example =
    output_parts-injective (codes "png") (codes "sub" ∷ codes "b.mmd" ∷ [])
      (codes "sub" ∷ codes "b.mmd" ∷ []) (b'b', [], refl) (b'b', [], refl) refl
