-- ===== src/Resilient/Program.antt =====
-- `main` of resilient_diagram.py: how it ends, and what `generate` returns. The guide is read where the
-- generator is made; what is printed and reads that raise are not
-- modelled.
use my_besu_net.Base.{ℕ, Bool, ◌&&◌, List, [], ◌∷◌, Option, none, some, if◌then◌else◌, ◌≡◌, ap, ◌∙◌}
use my_besu_net.Base.Int.{ℤ}
use my_besu_net.Base.Text.{Text, strip}
use my_besu_net.Json.{Result, ok, raise}
use my_besu_net.Resilient.Generate.{Mmdc, Generated, generate}
use my_besu_net.Resilient.Guide.{Entry}
use my_besu_net.Resilient.Outcome.{drawn, generate-IsConsistent}
use my_besu_net.Resilient.Parse.{load_guide}

-- The input: the argument of `--code`, the text of the file of `--mmd-file` if it exists, or stdin.
pub data Input : Type 0 where
  code : Text → Input
  mmd_file : Option Text → Input
  stdin : Text → Input

-- How the program ends: with a status, or by an exception.
pub data Ending : Type 0 where
  exits : ℕ → Ending
  crashes : Ending

pub record Arguments : Type 0 where
  pub input : Input
  pub markdown_file : Text
  pub diagram_num : ℤ
  pub title : Text
  pub image_format : Text
  -- the text of the file of `--troubleshooting`, if that is given and if the file exists
  pub troubleshooting : Option (Option Text)

-- `mermaid_code`, or how the program ends: nothing is assigned to it for an empty `--code`
unfoldable pub mermaid_code_of : Input → Ending × Option Text
mermaid_code_of (code []) = (crashes, none)
mermaid_code_of (code (c ∷ t)) = (exits 0, some (c ∷ t))
mermaid_code_of (mmd_file none) = (exits 1, none)
mermaid_code_of (mmd_file (some t)) = (exits 0, some t)
mermaid_code_of (stdin t) = (exits 0, some t)

-- the status for a result
unfoldable pub ending_of : Result Generated → Ending × Option Generated
ending_of (raise e) = (crashes, none)
ending_of (ok g) = (exits (if g.result.success then 0 else 1), some g)

module _ (is_digit is_word : ℕ → Bool) (int_of : Text → ℕ) (lower : Text → Text) where
  -- the guide of the generator, with the text of the default guide if that exists
  abbrev pub guide_of : Option (Option Text) → Option Text → Option (List Entry)
  guide_of (some content) default = some (load_guide is_digit is_word int_of lower content)
  guide_of none none = none
  guide_of none (some content) = some (load_guide is_digit is_word int_of lower (some content))

  module _ (default_guide : Option Text) (writes : Result (Unit {0})) (installed : Bool)
      (mmdc : Mmdc) where
    unfoldable pub generate_for : Arguments → Text → Result Generated
    unfolding generate
    generate_for a mermaid_code =
        generate lower is_word (guide_of a.troubleshooting default_guide) writes installed mmdc
          mermaid_code a.markdown_file a.diagram_num a.title a.image_format

    -- behind the reading of the input
    unfoldable pub run_code : Arguments → Text → Ending × Option Generated
    unfolding generate_for ending_of strip
    run_code a mermaid_code = elim (strip mermaid_code) [
      | [] ↦ (exits 1, none)
      | c ∷ t ↦ ending_of (generate_for a mermaid_code)
    ]

    unfoldable pub main : Arguments → Ending × Option Generated
    unfolding mermaid_code_of run_code
    main a = elim ((mermaid_code_of a.input).1) [
      | none ↦ ((mermaid_code_of a.input).0, none)
      | some mermaid_code ↦ run_code a mermaid_code
    ]

  -- Where the .mmd file can be written, code that is not blank ends the program with status 0 if `mmdc` is
  -- installed, ends with return code 0 and writes an image that is not empty, and with 1 if not.
  run_code-status :
      (default_guide : Option Text) (installed : Bool) (mmdc : Mmdc) (a : Arguments)
      (mermaid_code : Text) {c : ℕ} {t : Text}
      → strip mermaid_code ≡ c ∷ t
      → (run_code default_guide (ok tt) installed mmdc a mermaid_code).0
        ≡ exits (if installed && drawn mmdc then 0 else 1)
  unfolding generate_for ending_of run_code
  run_code-status default_guide installed mmdc a mermaid_code h =
      let (g, made, (success, saved, consistent)) =
        generate-IsConsistent lower is_word (guide_of a.troubleshooting default_guide) installed
          mmdc mermaid_code a.markdown_file a.diagram_num a.title a.image_format in
      rw (run_code, h)
        (ap (λ r. (ending_of r).0) made ∙ ap (λ b. exits (if b then 0 else 1)) success)
