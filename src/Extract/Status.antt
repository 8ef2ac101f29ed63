-- ===== src/Extract/Status.antt =====
-- The exit status of `main` of extract_mermaid.py.
use my_besu_net.Base.{
  Bool, true, false, List, [], ◌∷◌, Option, none, some, ◌≡◌, ◌↔◌, ◌⊎◌, inl, inr, refl, sym, subst,
  ◌∙◌, arith, map, All, Bool-cases, ℕ,
}
use my_besu_net.Base.Text.{Text, codes}
use my_besu_net.Extract.Check.{Rendered, Renders, validate_diagrams, exit_status, exit_status_iff}
use my_besu_net.Extract.Diagrams.{
  Diagram, extract_diagrams, replace_with_images, save_diagrams, get_filename,
}
use my_besu_net.Extract.Program.{
  Options, Outcome, Source, missing, no_file, unreadable, markdown_file, Files, in_dir, at_path,
  put_markdown, write_files, diagram_file, put_diagrams, default_list, write_or_list, operate,
  handle, main,
}
use my_besu_net.Json.{Result, ok}

-- The diagrams are validated: it is asked for, and the list is not.
abbrev pub IsChecked : Options → Type 0
IsChecked options = (options.list_only ≡ false) × (options.validate ≡ true)

-- The Markdown with images is made; or none of this is asked for, and diagrams are saved where there is
-- an output directory.
abbrev pub IsReplacing : Options → Type 0
IsReplacing options =
    (options.list_only ≡ false) × (options.validate ≡ false) × (options.replace_images ≡ true)

abbrev pub IsSaving : Options → Type 0
IsSaving options =
    (options.list_only ≡ false) × (options.validate ≡ false) × (options.replace_images ≡ false)

-- `mmdc` is installed and renders each diagram.
abbrev pub IsDrawn : Result Bool → (Diagram → Rendered) → List Diagram → Type 0
IsDrawn installed render ds = (installed ≡ ok true) × All (λ d. Renders (render d)) ds

-- The Markdown is shown, or can be written.
abbrev pub CanPut : Files → Option Text → Type 0
CanPut files none = Unit
CanPut files (some path) = files.writes (at_path path) ≡ true

abbrev pub CanSave : Files → Text → Text → Diagram → Type 0
CanSave files dir prefix d = files.writes (in_dir dir (get_filename prefix (codes "mmd") d)) ≡ true

-- There is no directory for the diagrams, or it can be made and each of them be written there.
abbrev pub CanSaveAll : Files → Text → List Diagram → Option Text → Type 0
CanSaveAll files prefix ds none = Unit
CanSaveAll files prefix ds (some dir) = (files.makes dir ≡ true) × All (CanSave files dir prefix) ds

-- What is asked for succeeds.
abbrev pub Succeeds : Result Bool → (Diagram → Rendered) → Files → Options → List Diagram → Type 0
Succeeds installed render files options ds =
    (IsChecked options → IsDrawn installed render ds)
    × (IsReplacing options → CanPut files options.output_markdown)
    × (IsSaving options → CanSaveAll files options.prefix ds options.output_dir)

put_markdown-status_iff :
    (files : Files) (o : Option Text) (t : Text)
    → ((put_markdown files o t).status ≡ 0) ↔ CanPut files o
unfolding put_markdown
put_markdown-status_iff files none t = (λ h. tt, λ h. refl)
put_markdown-status_iff files (some path) t = elim (Bool-cases (files.writes (at_path path))) [
  | inl e ↦ (λ h. e, λ h. rw e refl)
  | inr e ↦ (λ h. ground (arith, rw e at h), λ h. cc)
]

write_files-status_iff :
    (files : Files) (dir prefix : Text) (ds : List Diagram)
    → ((write_files files (map (diagram_file dir) (save_diagrams prefix ds))).status ≡ 0)
      ↔ All (CanSave files dir prefix) ds
unfolding write_files save_diagrams
write_files-status_iff files dir prefix [] = (λ h. tt, λ h. refl)
write_files-status_iff files dir prefix (d ∷ ds) =
    let more = write_files-status_iff files dir prefix ds in
    elim (Bool-cases (files.writes (in_dir dir (get_filename prefix (codes "mmd") d)))) [
      | inl e ↦ (λ h. (e, more.0 (rw e at h)), λ h. rw e (more.1 h.1))
      | inr e ↦ (λ h. ground (arith, rw e at h), λ h. cc (h.0))
    ]

put_diagrams-status_iff :
    (files : Files) (dir prefix : Text) (ds : List Diagram)
    → ((put_diagrams files dir prefix ds).status ≡ 0)
      ↔ ((files.makes dir ≡ true) × All (CanSave files dir prefix) ds)
unfolding put_diagrams
put_diagrams-status_iff files dir prefix ds =
    let more = write_files-status_iff files dir prefix ds in
    elim (Bool-cases (files.makes dir)) [
      | inl e ↦ (λ h. (e, more.0 (rw e at h)), λ h. rw e (more.1 h.1))
      | inr e ↦ (λ h. ground (arith, rw e at h), λ h. cc (h.0))
    ]

module _ (line_count : Text → ℕ) where
  module _ (digest : Text → Text) (installed : Result Bool) (render : Diagram → Rendered)
      (files : Files) (options : Options) (name content : Text) where
    abbrev outcome_of : List Diagram → ℕ
    outcome_of ds =
        (operate line_count digest installed render files options name content ds).status

    abbrev Done : List Diagram → Type 0
    Done ds = Succeeds installed render files options ds

    operate-checked :
        (ds : List Diagram)
        → IsChecked options
        → outcome_of ds ≡ exit_status (validate_diagrams installed render ds)
    unfolding operate exit_status
    operate-checked ds h = rw (h.0, h.1) refl

    operate-replacing :
        (ds : List Diagram)
        → IsReplacing options
        → outcome_of ds
          ≡ (put_markdown files options.output_markdown
              (replace_with_images digest options.image_format options.image_dir content)).status
    unfolding operate write_or_list
    operate-replacing ds (l, v, r) = rw (l, v, r) refl

    operate-saving :
        (ds : List Diagram)
        → IsSaving options
        → (outcome_of ds ≡ 0) ↔ CanSaveAll files options.prefix ds options.output_dir
    unfolding operate write_or_list
    operate-saving ds (l, v, r) = rw (l, v, r) (at_end options.output_dir)
      where
        at_end :
            (o : Option Text)
            → ((elim o as (λ x. Outcome) [
              | some output_dir ↦ put_diagrams files output_dir options.prefix ds
              | none ↦ default_list line_count name ds
            ]).status
                ≡ 0)
              ↔ CanSaveAll files options.prefix ds o
        at_end none = (λ h. tt, λ h. refl)
        at_end (some output_dir) = put_diagrams-status_iff files output_dir options.prefix ds

    operate-status_iff : (ds : List Diagram) → (outcome_of ds ≡ 0) ↔ Done ds
    unfolding operate
    operate-status_iff ds = elim (Bool-cases (options.list_only)) [
      | inl l ↦ (λ h. (λ k. cc (k.0), λ k. cc (k.0), λ k. cc (k.0)), λ h. rw l refl)
      | inr l ↦ elim (Bool-cases (options.validate)) [
        | inl v ↦
            let same = operate-checked ds (l, v) in
            let valid = exit_status_iff installed render ds in
            (
              λ h. (λ k. valid.0 (sym same ∙ h), λ k. cc (k.1), λ k. cc (k.1)),
              λ h. same ∙ valid.1 (h.0 (l, v)),
            )
        | inr v ↦ elim (Bool-cases (options.replace_images)) [
          | inl r ↦
              let same = operate-replacing ds (l, v, r) in
              let put =
                put_markdown-status_iff files options.output_markdown
                  (replace_with_images digest options.image_format options.image_dir content) in
              (
                λ h. (λ k. cc (k.1), λ k. put.0 (sym same ∙ h), λ k. cc (k.2)),
                λ h. same ∙ put.1 (h.1 (l, v, r)),
              )
          | inr r ↦
              let saved = operate-saving ds (l, v, r) in
              (λ h. (λ k. cc (k.1), λ k. cc (k.2), λ k. saved.0 h), λ h. saved.1 (h.2 (l, v, r)))
        ]
      ]
    ]

    handle-status_iff :
        (ds : List Diagram)
        → ((handle line_count digest installed render files options name content ds).status ≡ 0)
          ↔ ((ds ≡ []) ⊎ Done ds)
    unfolding handle
    handle-status_iff [] = (λ h. inl refl, λ h. refl)
    handle-status_iff (d ∷ ds) =
        let same = operate-status_iff (d ∷ ds) in
        (λ h. inr (same.0 h), λ h. elim h [ inl e ↦ cc | inr s ↦ same.1 s ])

  -- Where no printing raises, the program ends with status 0 exactly when the input is a file that can
  -- be read, and it has no diagram or what is asked for succeeds. If the diagrams are validated, `mmdc`
  -- is installed and renders each: it ends with return code 0 and writes output, or the call raises an
  -- exception whose text is empty. If they are replaced, the Markdown is shown or can be written. If
  -- none of this nor the list is asked for, there is no output directory, or it can be made and each
  -- diagram be written there.
  pub main-status_iff :
      (digest : Text → Text) (installed : Result Bool) (render : Diagram → Rendered) (files : Files)
      (options : Options) (name : Text) (source : Source)
      → ((main line_count digest installed render files options name source).status ≡ 0) ↔ (
          (content : Text) × (source ≡ markdown_file content)
          × ((extract_diagrams digest content ≡ [])
              ⊎ Succeeds installed render files options (extract_diagrams digest content)))
  unfolding main
  main-status_iff digest installed render files options name missing = (λ h. cc, λ h. cc)
  main-status_iff digest installed render files options name no_file = (λ h. cc, λ h. cc)
  main-status_iff digest installed render files options name unreadable = (λ h. cc, λ h. cc)
  main-status_iff digest installed render files options name (markdown_file content) =
      let same =
        handle-status_iff digest installed render files options name content
          (extract_diagrams digest content) in
      (
        λ h. (content, refl, same.0 h),
        λ (c, e, h).
            let is_c : c ≡ content = cc in
            same.1 (
              subst
                (λ x.
                  (extract_diagrams digest x ≡ [])
                  ⊎ Succeeds installed render files options (extract_diagrams digest x))
                is_c h),
      )
