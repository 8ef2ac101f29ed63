-- ===== src/Viewer/Page.antt =====
-- `generate_html` of generate_review.py, and the page that `do_GET` makes of the workspace. viewer.html is
-- the parameter `template`, `dumps` is `json.dumps`.
use my_besu_net.Base.{
  ℕ, zero, suc, Bool, List, [], ◌∷◌, ◌++◌, Option, none, some, if◌then◌else◌, length,
}
use my_besu_net.Base.Text.{Text, codes, partition}
use my_besu_net.Json.{Value, Result, ok, ◌>>=◌}
use my_besu_net.Validate.Rules.{truthy}
use my_besu_net.Viewer.Build.{Run}
use my_besu_net.Viewer.Embed.{Library, Embedded}
use my_besu_net.Viewer.Find.{Order, find_runs}
use my_besu_net.Viewer.Previous.{Previous, set_value}
use my_besu_net.Viewer.Tree.{Node, Nodes}

-- `embedded`; `benchmark` is left out where it is falsy
pub record EmbeddedData (N : Type 0) : Type 0 where
  pub skill_name : Text
  pub runs : List (Run N)
  pub previous_feedback : List (Value N × Text)
  pub previous_outputs : List (Value N × List Embedded)
  pub benchmark : Option (Value N)

-- `s.replace(old, new)`. Each round takes `old` off the text: its length is enough fuel.
unfoldable pub replace : ℕ → Text → Text → Text → Text
unfolding partition
replace zero old new s = s
replace (suc fuel) old new s = elim (partition old s) [
  | none ↦ s
  | some (before, after) ↦ before ++ (new ++ replace fuel old new after)
]

-- a list that is not empty: the feedback and the outputs of an entry that are shown
abbrev pub nonempty {ℓ} : {A : Type ℓ} → List A → Option (List A)
nonempty [] = none
nonempty (x ∷ xs) = some (x ∷ xs)

abbrev pub marker : Text
marker = codes "/*__EMBEDDED_DATA__*/"

module _ {N : Type 0} (same : Value N → Value N → Bool) where
  -- the loop over `previous`, for one of the two maps
  unfoldable pub shown_of {ℓ} :
      {X : Type ℓ}
      → (Previous → Option X)
      → List (Value N × Previous)
      → List (Value N × X)
      → List (Value N × X)
  unfolding set_value
  shown_of pick [] m = m
  shown_of pick ((run_id, entry) ∷ d) m =
      shown_of pick d (elim (pick entry) [ none ↦ m | some x ↦ set_value same run_id x m ])

  abbrev pub previous_feedback : List (Value N × Previous) → List (Value N × Text)
  previous_feedback previous = shown_of (λ p. nonempty p.feedback) previous []

  abbrev pub previous_outputs : List (Value N × Previous) → List (Value N × List Embedded)
  previous_outputs previous = shown_of (λ p. nonempty p.outputs) previous []

  module _ (is_zero : N → Bool) (loads : Text → Option (Value N))
      (dumps : EmbeddedData N → Text) where
    -- what `if benchmark` lets through
    abbrev pub shown_benchmark : Option (Value N) → Option (Value N)
    shown_benchmark none = none
    shown_benchmark (some v) = if truthy is_zero v then some v else none

    unfoldable pub embedded :
        List (Run N) → Text → List (Value N × Previous) → Option (Value N) → EmbeddedData N
    unfolding shown_of truthy
    embedded runs skill_name previous benchmark = record {
      skill_name = skill_name;
      runs = runs;
      previous_feedback = previous_feedback previous;
      previous_outputs = previous_outputs previous;
      benchmark = shown_benchmark benchmark;
    }

    abbrev pub script : EmbeddedData N → Text
    script d = codes "const EMBEDDED_DATA = " ++ dumps d ++ codes ";"

    unfoldable pub generate_html :
        Text → List (Run N) → Text → List (Value N × Previous) → Option (Value N) → Text
    unfolding embedded replace
    generate_html template runs skill_name previous benchmark =
        replace (suc (length template)) marker
          (script (embedded runs skill_name previous benchmark)) template

    -- the file of the benchmark: none where there is none, and `none` inside where it cannot be read
    abbrev pub benchmark_of : Option (Option Text) → Option (Value N)
    benchmark_of none = none
    benchmark_of (some none) = none
    benchmark_of (some (some content)) = loads content

    -- the page of `do_GET`
    unfoldable pub page_of :
        Library
        → Order N
        → Text
        → Text
        → List (Value N × Previous)
        → Option (Option Text)
        → Nodes
        → Node
        → Result Text
    unfolding find_runs generate_html
    page_of library o template skill_name previous benchmark parent workspace = do
      runs ← find_runs is_zero loads library o parent workspace
      ok (generate_html template runs skill_name previous (benchmark_of benchmark))
