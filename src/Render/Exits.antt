-- ===== src/Render/Exits.antt =====
-- When mermaid_to_image.py exits with status 0, and that no image overwrites another.
use mathlib.Core.List.{append_cancel_right}
use my_besu_net.Base.{
  ℕ, ◌+◌, ◌≤◌, Bool, true, false, List, [], ◌∷◌, ◌++◌, Option, some, ◌≡◌, ◌↔◌, ◌⊎◌, refl, sym, ap,
  ◌∙◌, arith, length, All, Bool-cases, inl, inr,
}
use my_besu_net.Base.Int.{ℤ, pos, negsuc}
use my_besu_net.Base.Paths.{stem, last_dot, with_suffix, stem-append}
use my_besu_net.Base.Text.{Text, codes, equal}
use my_besu_net.Json.{Result, ok, raise, ◌>>=◌}
use my_besu_net.Package.Exclude.{is_in}
use my_besu_net.Render.Batch.{
  output_parts, output_parent, render_file, count_rendered, batch_render, batch_status, directory,
  exit_status,
}
use my_besu_net.Render.Renderer.{Renderer, Call, valid_themes, clamp_scale, new_renderer}

-- A name with something in front of `.mmd`.
abbrev pub IsMmd : Text → Type 0
IsMmd name = (c : ℕ) × (t : Text) × (name ≡ (c ∷ t) ++ codes ".mmd")

-- The last part of the path is such a name.
abbrev pub EndsInMmd : List Text → Type 0
EndsInMmd [] = ⊥
EndsInMmd (name ∷ []) = IsMmd name
EndsInMmd (part ∷ next ∷ parts) = EndsInMmd (next ∷ parts)

module _ (r : Renderer) (run : List Text → Call) (makes : List Text → Bool)
    (input_dir output_dir : List Text) (output_format : Text) where
  -- The directory of its image can be made, and the file is rendered.
  abbrev pub HasImage : List Text → Type 0
  HasImage file =
      (makes (output_parent output_dir output_format file) ≡ true)
      × (render_file r run input_dir output_dir output_format file ≡ true)

  abbrev count : List (List Text) → ℕ → Result ℕ
  count = count_rendered r run makes input_dir output_dir output_format

  count_rendered-le :
      (files : List (List Text)) (n m : ℕ) → count files n ≡ ok m → m ≤ n + length files
  unfolding count_rendered
  count_rendered-le [] n m h = ground arith
  count_rendered-le (file ∷ files) n m h =
      elim (Bool-cases (makes (output_parent output_dir output_format file))) [
        | inl made ↦ elim (Bool-cases (render_file r run input_dir output_dir output_format file)) [
          | inl e ↦ omega (arith, count_rendered-le files (n + 1) m (rw (made, e) at h))
          | inr e ↦ omega (arith, count_rendered-le files n m (rw (made, e) at h))
        ]
        | inr unmade ↦ cc (rw unmade at h)
      ]

  count_rendered-All :
      (files : List (List Text)) (n : ℕ)
      → (count files n ≡ ok (n + length files)) ↔ All HasImage files
  unfolding count_rendered
  count_rendered-All [] n = (λ h. tt, λ h. ap ok (omega arith))
  count_rendered-All (file ∷ files) n =
      elim (Bool-cases (makes (output_parent output_dir output_format file))) [
        | inl made ↦ elim (Bool-cases (render_file r run input_dir output_dir output_format file)) [
          | inl e ↦
              let more = count_rendered-All files (n + 1) in
              (
                λ h. ((made, e), more.0 (rw (made, e) at h ∙ ap ok (omega arith))),
                λ h. rw (made, e) (more.1 h.1 ∙ ap ok (omega arith)),
              )
          | inr e ↦ (
            λ h. absurd (omega (arith, count_rendered-le files n _ (rw (made, e) at h))),
            λ h. cc (h.0.1),
          )
        ]
        | inr unmade ↦ (λ h. cc (rw unmade at h), λ h. cc (h.0.0))
      ]

  batch_status_iff :
      (total : ℕ) (counted : Result ℕ)
      → (batch_status (counted >>= λ n. ok (n, total)) ≡ 0) ↔ (counted ≡ ok total)
  unfolding batch_status
  batch_status_iff total (raise e) = (λ h. ground arith, λ h. cc)
  batch_status_iff total (ok n) =
      (λ h. ap ok (ground arith), λ h. let same : n ≡ total = cc in ground arith)

  -- Where the renderer could be constructed and no printing raises, a batch exits with status 0 exactly
  -- when the output directory can be made and, for every file of it, the directory of its image can be
  -- made and the file is rendered.
  pub exit_status-batch_iff :
      (unlinks : Bool) (files : List (List Text))
      → (exit_status r run unlinks makes output_dir output_format (directory input_dir files) ≡ 0)
        ↔ ((makes output_dir ≡ true) × All HasImage files)
  unfolding exit_status batch_render batch_status
  exit_status-batch_iff unlinks files = elim (Bool-cases (makes output_dir)) [
    | inl made ↦ with_directory files made
    | inr unmade ↦ without files unmade
  ]
    where
      with_directory :
          (fs : List (List Text))
          → makes output_dir ≡ true
          → (batch_status (batch_render r run makes input_dir output_dir output_format fs) ≡ 0)
            ↔ ((makes output_dir ≡ true) × All HasImage fs)
      with_directory [] made = (λ h. (made, tt), λ h. rw made refl)
      with_directory (file ∷ fs) made =
          let same = batch_status_iff (length (file ∷ fs)) (count (file ∷ fs) 0) in
          let all = count_rendered-All (file ∷ fs) 0 in
          let zeroed : ok (0 + length (file ∷ fs)) ≡ ok (length (file ∷ fs)) =
            ap ok (omega arith) in
          (
            λ h. (made, all.0 (same.0 (rw made at h) ∙ sym zeroed)),
            λ h. rw made (same.1 (all.1 h.1 ∙ zeroed)),
          )

      without :
          (fs : List (List Text))
          → makes output_dir ≡ false
          → (batch_status (batch_render r run makes input_dir output_dir output_format fs) ≡ 0)
            ↔ ((makes output_dir ≡ true) × All HasImage fs)
      without [] unmade = (λ h. ground (arith, rw unmade at h), λ h. cc (h.0))
      without (file ∷ fs) unmade = (λ h. ground (arith, rw unmade at h), λ h. cc (h.0))

stem-IsMmd : (name : Text) → IsMmd name → name ≡ stem name ++ codes ".mmd"
stem-IsMmd name (c, t, e) =
    e
    ∙ ap (λ s. s ++ codes ".mmd")
        (sym (stem-append c t b'm' (codes "md") (unfold last_dot in refl)) ∙ ap stem (sym e))

with_suffix-injective :
    (a b output_format : Text)
    → IsMmd a
    → IsMmd b
    → with_suffix a output_format ≡ with_suffix b output_format
    → a ≡ b
unfolding with_suffix
with_suffix-injective a b output_format h k e =
    stem-IsMmd a h
    ∙ ap (λ s. s ++ codes ".mmd")
        (append_cancel_right (stem a) (stem b) (codes "." ++ output_format) e)
    ∙ sym (stem-IsMmd b k)

output_parts-cons :
    (output_format part next : Text) (parts : List Text)
    → (p : Text) × (ps : List Text) × (output_parts output_format (next ∷ parts) ≡ p ∷ ps)
unfolding output_parts
output_parts-cons output_format part next [] = (_, _, refl)
output_parts-cons output_format part next (q ∷ parts) = (_, _, refl)

-- In a batch two files have one image only if they are one file: no image overwrites another, if
-- each file has a name in front of `.mmd`.
pub output_parts-injective :
    (output_format : Text) (a b : List Text)
    → EndsInMmd a
    → EndsInMmd b
    → output_parts output_format a ≡ output_parts output_format b
    → a ≡ b
unfolding output_parts
output_parts-injective f [] b h k e = absurd h
output_parts-injective f (x ∷ a) [] h k e = absurd k
output_parts-injective f (x ∷ []) (y ∷ []) h k e =
    ap (λ n. n ∷ []) (with_suffix-injective x y f h k (cc))
output_parts-injective f (x ∷ []) (y ∷ z ∷ b) h k e =
    let (p, ps, q) = output_parts-cons f y z b in cc
output_parts-injective f (x ∷ w ∷ a) (y ∷ []) h k e =
    let (p, ps, q) = output_parts-cons f x w a in cc
output_parts-injective f (x ∷ w ∷ a) (y ∷ z ∷ b) h k e =
    let rest = output_parts-injective f (w ∷ a) (z ∷ b) h k (cc) in cc

clamp_scale_bounds : (n : ℤ) → (1 ≤ clamp_scale n) × (clamp_scale n ≤ 3)
unfolding clamp_scale
clamp_scale_bounds (negsuc n) = omega arith
clamp_scale_bounds (pos n) = ground arith

default_valid : is_in (codes "default") valid_themes ≡ true
unfolding is_in equal
default_valid = refl

-- The scale of a renderer is 1, 2 or 3, its theme is one of the five, and is the argument unless that
-- is none of them.
pub new_renderer_bounds :
    (theme background : Text) (width height : Option ℤ) (scale : ℤ)
    (config_file : Option (Text × Bool)) {r : Renderer}
    → new_renderer true theme background width height scale config_file ≡ some r
    → (1 ≤ r.scale)
      × (r.scale ≤ 3)
      × (is_in r.theme valid_themes ≡ true)
      × ((r.theme ≡ theme) ⊎ (is_in theme valid_themes ≡ false))
unfolding new_renderer
new_renderer_bounds theme background width height scale config_file {r} h =
    elim (Bool-cases (is_in theme valid_themes)) [
      | inl e ↦ shaped theme (rw e at h) e (inl refl)
      | inr e ↦ shaped (codes "default") (rw e at h) default_valid (inr e)
    ]
  where
    shaped :
        (t : Text)
        → some (record {
          theme = t;
          background = background;
          width = width;
          height = height;
          scale = clamp_scale scale;
          config_file = config_file;
        })
          ≡ some r
        → is_in t valid_themes ≡ true
        → (t ≡ theme) ⊎ (is_in theme valid_themes ≡ false)
        → (1 ≤ r.scale)
          × (r.scale ≤ 3)
          × (is_in r.theme valid_themes ≡ true)
          × ((r.theme ≡ theme) ⊎ (is_in theme valid_themes ≡ false))
    shaped t e v o =
        let made : record {
          theme = t;
          background = background;
          width = width;
          height = height;
          scale = clamp_scale scale;
          config_file = config_file;
        }
            ≡ r =
          cc in
        let (low, high) = clamp_scale_bounds scale in rw (← made) (low, high, v, o)
