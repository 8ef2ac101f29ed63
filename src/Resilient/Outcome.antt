-- ===== src/Resilient/Outcome.antt =====
-- What `generate` of resilient_diagram.py reports.
use my_besu_net.Base.{
  ℕ, zero, suc, Bool, true, false, ◌&&◌, List, [], ◌∷◌, ◌++◌, Option, none, some, ◌≡◌, ◌≢◌, ◌⊎◌,
  inl, inr, refl, ap, ◌∙◌, map,
}
use my_besu_net.Base.Paths.{stem, last_dot, stem-append, with_suffix}
use my_besu_net.Base.Int.{ℤ}
use my_besu_net.Base.Text.{Text, codes, strip}
use my_besu_net.Json.{ok}
use my_besu_net.Resilient.Detect.{DiagramType, value, detect_diagram_type}
use my_besu_net.Resilient.Filename.{generate_filename, safe_md, safe_title, two_digits}
use my_besu_net.Resilient.Guide.{Entry}
use my_besu_net.Resilient.Generate.{
  Mmdc, exited, timed_out, failed, Rendering, image, failure, Match, to_dict, find_matches,
  DiagramResult, Generated, rendered, render_image, recommend, result_for, generate,
}

-- The call ended with return code 0 and wrote an image that is not empty.
abbrev pub drawn : Mmdc → Bool
drawn (exited true stdout stderr (some (suc size))) = true
drawn _ = false

-- A result that says what to do next: matches from the guide or a query for a search.
abbrev pub Advises : DiagramResult → Type 0
Advises r =
    (r.troubleshooting_matches ≢ []) ⊎ ((query : Text) × (r.search_recommendation ≡ some query))

-- A result of a success has the image's path and nothing else; a result of a failure has no image but
-- an error, and advises.
pub record IsConsistent (path : Text) (r : DiagramResult) : Type 0 where
  pub outcome :
      ((r.success ≡ true)
        × (r.image_path ≡ some path)
        × (r.error_message ≡ none)
        × (r.troubleshooting_matches ≡ [])
        × (r.suggested_fix ≡ none)
        × (r.search_recommendation ≡ none))
      ⊎ ((r.success ≡ false)
          × (r.image_path ≡ none)
          × ((message : Text) × (r.error_message ≡ some message))
          × Advises r)

rendered-drawn : (path : Text) (m : Mmdc) → drawn m ≡ true → rendered path m ≡ image path
unfolding rendered
rendered-drawn path (exited true stdout stderr (some (suc size))) h = refl
rendered-drawn path (exited true stdout stderr (some zero)) h = cc
rendered-drawn path (exited true stdout stderr none) h = cc
rendered-drawn path (exited false stdout stderr size) h = cc
rendered-drawn path timed_out h = cc
rendered-drawn path (failed message) h = cc

rendered-failed :
    (path : Text) (m : Mmdc)
    → drawn m ≡ false
    → (message : Text) × (rendered path m ≡ failure message)
unfolding rendered
rendered-failed path (exited true stdout stderr (some (suc size))) h = cc
rendered-failed path (exited true stdout stderr (some zero)) h = (_, refl)
rendered-failed path (exited true stdout stderr none) h = (_, refl)
rendered-failed path (exited false stdout stderr size) h = (_, refl)
rendered-failed path timed_out h = (_, refl)
rendered-failed path (failed message) h = (_, refl)

render_image-failed :
    (mmd image_format : Text) (installed : Bool) (m : Mmdc)
    → installed && drawn m ≡ false
    → (message : Text) × (render_image mmd image_format installed m ≡ failure message)
unfolding render_image
render_image-failed mmd image_format false m h = (_, refl)
render_image-failed mmd image_format true m h = rendered-failed (with_suffix mmd image_format) m h

render_image-drawn :
    (mmd image_format : Text) (installed : Bool) (m : Mmdc)
    → installed && drawn m ≡ true
    → render_image mmd image_format installed m ≡ image (stem mmd ++ (codes "." ++ image_format))
unfolding render_image with_suffix
render_image-drawn mmd image_format false m h = cc
render_image-drawn mmd image_format true m h = rendered-drawn (with_suffix mmd image_format) m h

-- The .mmd file's suffix is the one that is replaced.
stem-filename : (s t : Text) → stem ((s ++ b'_' ∷ t) ++ codes ".mmd") ≡ s ++ b'_' ∷ t
stem-filename [] t = stem-append b'_' t b'm' (codes "md") (unfold last_dot in refl)
stem-filename (c ∷ s) t = stem-append c (s ++ b'_' ∷ t) b'm' (codes "md") (unfold last_dot in refl)

advised :
    (is_word : ℕ → Bool) (message : Text) (t : DiagramType) (ms : List Match)
    → (ms ≢ []) ⊎ ((query : Text) × (recommend is_word message t ms ≡ some query))
unfolding recommend
advised is_word message t [] = inr (_, refl)
advised is_word message t (m ∷ ms) = inl (λ e. cc)

base_stem :
    (lower : Text → Text) (markdown_file : Text) (diagram_num : ℤ) (t : DiagramType) (title : Text)
    → stem (generate_filename lower markdown_file diagram_num t title ++ codes ".mmd")
      ≡ generate_filename lower markdown_file diagram_num t title
unfolding generate_filename
base_stem lower markdown_file diagram_num t title =
    stem-filename (safe_md lower markdown_file)
      (two_digits diagram_num ++ (codes "_" ++ (value t ++ (codes "_" ++ safe_title lower title))))

-- the result for a rendering, of either kind
result_for-IsConsistent :
    (lower : Text → Text) (is_word : ℕ → Bool) (guide : Option (List Entry)) (mmd path : Text)
    (t : DiagramType) (b : Bool) (r : Rendering)
    → (b ≡ true → r ≡ image path)
    → (b ≡ false → (message : Text) × (r ≡ failure message))
    → ((result_for lower is_word guide mmd t r).success ≡ b)
      × IsConsistent path (result_for lower is_word guide mmd t r)
unfolding result_for
result_for-IsConsistent lower is_word guide mmd path t true r h k =
    rw (h refl) (refl, record { outcome = inl (refl, refl, refl, refl, refl, refl) })
result_for-IsConsistent lower is_word guide mmd path t false r h k =
    let (message, e) = k refl in
    rw e (
      refl,
      record {
        outcome = inr (
          refl,
          refl,
          (message, refl),
          advised is_word message t (map to_dict (find_matches lower guide message t)),
        );
      },
    )

-- Where the .mmd file can be written, a diagram is generated exactly when `mmdc` is installed, ends with
-- return code 0 and writes an image that is not empty. The .mmd file then has the stripped code. The
-- result of a success has the path of the image, which is that of the .mmd file with the format in place
-- of `mmd`, and the result of a failure has an error and matches from the guide or a query for a search.
pub generate-IsConsistent :
    (lower : Text → Text) (is_word : ℕ → Bool) (guide : Option (List Entry)) (installed : Bool)
    (mmdc : Mmdc) (mermaid_code markdown_file : Text) (diagram_num : ℤ) (title image_format : Text)
    → (g : Generated) × (generate lower is_word guide
          (ok tt)
          installed
          mmdc
          mermaid_code
          markdown_file
          diagram_num
          title
          image_format
        ≡ ok g)
      × (let base =
            generate_filename lower markdown_file diagram_num
              (detect_diagram_type mermaid_code)
              title in
          (g.result.success ≡ (installed && drawn mmdc))
          × (g.saved ≡ (base ++ codes ".mmd", strip mermaid_code ++ codes "\n"))
          × IsConsistent (base ++ (codes "." ++ image_format)) g.result)
unfolding generate
generate-IsConsistent lower is_word guide installed mmdc mermaid_code markdown_file diagram_num
      title image_format =
    let t = detect_diagram_type mermaid_code in
    let base = generate_filename lower markdown_file diagram_num t title in
    let mmd = base ++ codes ".mmd" in
    let (success, consistent) =
      result_for-IsConsistent lower is_word guide mmd (base ++ (codes "." ++ image_format)) t
        (installed && drawn mmdc) (render_image mmd image_format installed mmdc)
        (λ h.
          render_image-drawn mmd image_format installed mmdc h
          ∙ ap (λ s. image (s ++ (codes "." ++ image_format)))
              (base_stem lower markdown_file diagram_num t title))
        (render_image-failed mmd image_format installed mmdc) in
    (_, refl, (success, refl, consistent))
