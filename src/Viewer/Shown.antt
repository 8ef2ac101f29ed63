-- ===== src/Viewer/Shown.antt =====
-- What the page of generate_review.py shows of the earlier iteration.
use my_besu_net.Base.{
  Bool, List, [], ◌∷◌, ◌++◌, Option, none, some, ◌≡◌, refl, ap, subst, ◌∙◌, length,
}
use my_besu_net.Base.Text.{Text, partition}
use my_besu_net.Json.{Value, str, ok}
use my_besu_net.Viewer.Build.{Run}
use my_besu_net.Viewer.Embed.{Library, Embedded}
use my_besu_net.Viewer.Find.{Order, find_runs}
use my_besu_net.Viewer.Keys.{IsKeyTest}
use my_besu_net.Viewer.Merged.{last_run, merged, load_previous_iteration-value_at}
use my_besu_net.Viewer.Page.{
  EmbeddedData, nonempty, marker, previous_feedback, previous_outputs, embedded, script,
  generate_html, benchmark_of, page_of,
}
use my_besu_net.Viewer.Previous.{
  Previous, Feedback, or_blank, value_at, put_runs, without_run, put_others, feedback_map,
  feedback_file, load_previous_iteration,
}
use my_besu_net.Viewer.Tree.{Node, Nodes}
use my_besu_net.Viewer.Unique.{
  UniqueTexts, shown_at, replace_once, put_runs-UniqueTexts, put_others-UniqueTexts,
  value_at-shown_of,
}

module _ {N : Type 0} (same : Value N → Value N → Bool) (test : IsKeyTest same) where
  -- what the page shows of a feedback
  abbrev pub shown_text : Option Text → Option Text
  shown_text none = none
  shown_text (some t) = nonempty t

  -- and of the outputs of a run
  abbrev pub shown_outputs : Option (Run N) → Option (List Embedded)
  shown_outputs none = none
  shown_outputs (some r) = nonempty r.outputs

  -- what stands alone is shown as it is
  or_nothing {ℓ} :
      {A : Type ℓ} (xs : List A)
      → (elim (nonempty xs) as (λ x. Option (List A)) [ none ↦ none | some x ↦ some x ])
        ≡ nonempty xs
  or_nothing [] = refl
  or_nothing (x ∷ xs) = refl

  merged-outputs :
      (m : Feedback same) (runs : List (Run N)) (t : Text)
      → shown_at same test (λ p. nonempty p.outputs) (merged same test m runs t) none
        ≡ shown_outputs (last_run same test t runs)
  merged-outputs m runs t = go (last_run same test t runs) (value_at same (str t) m)
    where
      go :
          (r : Option (Run N)) (f : Option Text)
          → shown_at same test
              (λ p. nonempty p.outputs)
              (elim r as (λ x. Option Previous) [
                | some r ↦ some (record { feedback = or_blank f; outputs = r.outputs })
                | none ↦ elim f as (λ x. Option Previous) [
                  | none ↦ none
                  | some f ↦ some (without_run f)
                ]
              ])
              none
            ≡ shown_outputs r
      go none none = refl
      go none (some f) = refl
      go (some r) f = or_nothing r.outputs

  merged-shown :
      (m : Feedback same) (runs : List (Run N)) (t : Text)
      → shown_at same test (λ p. nonempty p.feedback) (merged same test m runs t) none
        ≡ shown_text (value_at same (str t) m)
  merged-shown m runs t = go (last_run same test t runs) (value_at same (str t) m)
    where
      go :
          (r : Option (Run N)) (f : Option Text)
          → shown_at same test
              (λ p. nonempty p.feedback)
              (elim r as (λ x. Option Previous) [
                | some r ↦ some (record { feedback = or_blank f; outputs = r.outputs })
                | none ↦ elim f as (λ x. Option Previous) [
                  | none ↦ none
                  | some f ↦ some (without_run f)
                ]
              ])
              none
            ≡ shown_text f
      go none none = refl
      go none (some f) = or_nothing f
      go (some r) none = refl
      go (some r) (some f) = or_nothing f

  module _ (is_zero : N → Bool) (loads : Text → Option (Value N)) (library : Library)
      (o : Order N) where
    load_previous_iteration-UniqueTexts :
        (parent : Nodes) (workspace : Node) {m : Feedback same} {runs : List (Run N)}
        {previous : List (Value N × Previous)}
        → feedback_map same loads (feedback_file same workspace) ≡ ok m
        → find_runs is_zero loads library o parent workspace ≡ ok runs
        → load_previous_iteration same is_zero loads library o parent workspace ≡ ok previous
        → UniqueTexts same test previous
    unfolding load_previous_iteration
    load_previous_iteration-UniqueTexts parent workspace {m} {runs} {previous} read found loaded =
        let made : load_previous_iteration same is_zero loads library o parent workspace
            ≡ ok (put_others same m (put_runs same m runs [])) =
          rw (read, found) refl in
        let is_previous : put_others same m (put_runs same m runs []) ≡ previous = cc in
        subst (UniqueTexts same test) is_previous (
          put_others-UniqueTexts same test m (put_runs same m runs [])
            (put_runs-UniqueTexts same test m runs [] tt))

    -- What the page has of the earlier iteration for an id.
    previous_feedback-shown :
        (parent : Nodes) (workspace : Node) {m : Feedback same} {runs : List (Run N)}
        → feedback_map same loads (feedback_file same workspace) ≡ ok m
        → find_runs is_zero loads library o parent workspace ≡ ok runs
        → (previous : List (Value N × Previous)) × (load_previous_iteration same is_zero loads
              library o parent workspace
            ≡ ok previous)
          × ((t : Text)
              → (value_at same (str t) (previous_feedback same previous)
                  ≡ shown_text (value_at same (str t) m))
                × (value_at same (str t) (previous_outputs same previous)
                    ≡ shown_outputs (last_run same test t runs)))
    unfolding value_at
    previous_feedback-shown parent workspace {m} {runs} read found =
        let (previous, loaded, entry) =
          load_previous_iteration-value_at same test is_zero loads library o parent workspace read
            found in
        let unique = load_previous_iteration-UniqueTexts parent workspace read found loaded in
        let feedback = λ (p : Previous). nonempty p.feedback in
        let outputs = λ (p : Previous). nonempty p.outputs in
        (
          previous,
          loaded,
          λ t. (
            value_at-shown_of same test feedback t previous [] unique
                ∙ ap (λ e. shown_at same test feedback e none) (entry t)
                ∙ merged-shown m runs t,
            value_at-shown_of same test outputs t previous [] unique
                ∙ ap (λ e. shown_at same test outputs e none) (entry t)
                ∙ merged-outputs m runs t,
          ),
        )

    module _ (dumps : EmbeddedData N → Text) where
      -- If the earlier iteration can be read and the runs are found, the page is the template with the
      -- data in place of its marker, if it has the marker once, whatever the data have; the data have the
      -- runs, and for every id the feedback given in the earlier iteration, if there is any, and the outputs
      -- of its last run of that id, if it has any.
      pub page_of-shown :
          (earlier : Nodes) (previous_workspace : Node) (parent : Nodes) (workspace : Node)
          (template skill_name : Text) (benchmark : Option (Option Text)) {m : Feedback same}
          {previous_runs runs : List (Run N)} {before after : Text}
          → feedback_map same loads (feedback_file same previous_workspace) ≡ ok m
          → find_runs is_zero loads library o earlier previous_workspace ≡ ok previous_runs
          → find_runs is_zero loads library o parent workspace ≡ ok runs
          → partition marker template ≡ some (before, after)
          → partition marker after ≡ none
          → (previous : List (Value N × Previous)) × (d : EmbeddedData N) × (load_previous_iteration
                same is_zero loads library o earlier previous_workspace
              ≡ ok previous)
            × (page_of same is_zero loads dumps library o template skill_name previous benchmark
                  parent workspace
                ≡ ok (before ++ (script same is_zero loads dumps d ++ after)))
            × (d.runs ≡ runs)
            × ((t : Text)
                → (value_at same (str t) d.previous_feedback ≡ shown_text (value_at same (str t) m))
                  × (value_at same (str t) d.previous_outputs
                      ≡ shown_outputs (last_run same test t previous_runs)))
      unfolding page_of generate_html embedded
      page_of-shown earlier previous_workspace parent workspace template skill_name benchmark
            {runs = runs} read found_before found at once =
          let (previous, loaded, shown) =
            previous_feedback-shown earlier previous_workspace read found_before in
          let d =
            embedded same is_zero loads dumps runs skill_name previous
              (benchmark_of same is_zero loads dumps benchmark) in
          (
            previous,
            d,
            loaded,
            rw found (
                ap (λ s. ok s)
                  (replace_once (length template) marker (script same is_zero loads dumps d)
                    template at once)),
            refl,
            shown,
          )
