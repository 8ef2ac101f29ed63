-- ===== src/Viewer/Previous.antt =====
-- `load_previous_iteration` of generate_review.py. A key of a dict is a JSON value; `same` says whether a
-- dict takes two keys for one.
use my_besu_net.Base.{Bool, true, false, List, [], ◌∷◌, Option, none, some, String, if◌then◌else◌}
use my_besu_net.Base.Text.{Text, is, strip}
use my_besu_net.Json.{
  Value, str, arr, obj, Items, Fields, Result, ok, raise, ◌>>=◌, key_error, type_error,
  attribute_error, get, iterate,
}
use my_besu_net.Viewer.Build.{Run}
use my_besu_net.Viewer.Embed.{Library, Embedded}
use my_besu_net.Viewer.Find.{Order, find_runs}
use my_besu_net.Viewer.Tree.{Node, Nodes, file, dir, file_text}

-- an entry of the returned dict
pub record Previous : Type 0 where
  pub feedback : Text
  pub outputs : List Embedded

-- what the comprehension makes of an exception that is caught: the map stays empty
abbrev caught {ℓ} : {A : Type ℓ} → A → Result A → Result A
caught default (ok x) = ok x
caught default (raise key_error) = ok default
caught default (raise e) = raise e

abbrev pub or_blank : Option Text → Text
or_blank none = []
or_blank (some t) = t

abbrev pub without_run : Text → Previous
without_run t = record { feedback = t; outputs = [] }

module _ {N : Type 0} where
  -- `r[k]`
  unfoldable pub item : Value N → String → Result (Value N)
  unfolding is
  item (obj Fields.end) k = raise key_error
  item (obj (Fields.field j v fs)) k = let rest = item (obj fs) k in if is k j then ok v else rest
  item _ k = raise type_error

  -- an element of the comprehension, where its feedback is not blank
  unfoldable pub review_of : Value N → Result (Option (Value N × Text))
  unfolding get strip item
  review_of r = do
    feedback ← get r "feedback" (str [])
    elim feedback [
      | str t ↦ elim (strip t) [
        | [] ↦ ok none
        | c ∷ s ↦ (do run_id ← item r "run_id"; ok (some (run_id, t)))
      ]
      | _ ↦ raise attribute_error
    ]

  -- a list and a dict cannot be a key
  unfoldable pub is_hashable : Value N → Bool
  is_hashable (arr xs) = false
  is_hashable (obj fs) = false
  is_hashable _ = true

module _ {N : Type 0} (same : Value N → Value N → Bool) where
  -- `d.get(k)`
  unfoldable pub value_at {ℓ} : {X : Type ℓ} → Value N → List (Value N × X) → Option X
  value_at k [] = none
  value_at k ((j, x) ∷ d) = if same j k then some x else value_at k d

  -- `d[k] = x`
  unfoldable pub set_value {ℓ} :
      {X : Type ℓ} → Value N → X → List (Value N × X) → List (Value N × X)
  set_value k x [] = (k, x) ∷ []
  set_value k x ((j, y) ∷ d) = if same j k then (j, x) ∷ d else (j, y) ∷ set_value k x d

  abbrev pub Feedback : Type 0
  Feedback = List (Value N × Text)

  unfoldable pub add_review : Option (Value N × Text) → Feedback → Result Feedback
  unfolding is_hashable set_value
  add_review none m = ok m
  add_review (some (run_id, t)) m =
      if is_hashable run_id then ok (set_value run_id t m) else raise type_error

  -- the comprehension
  unfoldable pub feedback_of_reviews : Items N → Feedback → Result Feedback
  unfolding review_of add_review
  feedback_of_reviews Items.nil m = ok m
  feedback_of_reviews (Items.cons r rs) m = do
    review ← review_of r
    m' ← add_review review m
    feedback_of_reviews rs m'

  -- `feedback_map`, for what `feedback.json` is
  unfoldable pub feedback_map : (Text → Option (Value N)) → Option (Option Text) → Result Feedback
  unfolding get iterate feedback_of_reviews
  feedback_map loads none = ok []
  feedback_map loads (some none) = ok []
  feedback_map loads (some (some content)) = elim (loads content) [
    | none ↦ ok []
    | some data_read ↦ caught [] (do
      reviews ← get data_read "reviews" (arr Items.nil)
      rs ← iterate reviews
      feedback_of_reviews rs [])
  ]

  -- the entry of a run
  abbrev pub of_run : Feedback → Run N → Previous
  of_run m run = record { feedback = or_blank (value_at (str run.id) m); outputs = run.outputs }

  -- the loop over `prev_runs`
  unfoldable pub put_runs :
      Feedback → List (Run N) → List (Value N × Previous) → List (Value N × Previous)
  unfolding value_at set_value
  put_runs m [] result = result
  put_runs m (run ∷ runs) result = put_runs m runs (set_value (str run.id) (of_run m run) result)

  -- the loop over `feedback_map`
  unfoldable pub put_others : Feedback → List (Value N × Previous) → List (Value N × Previous)
  unfolding value_at set_value
  put_others [] result = result
  put_others ((run_id, t) ∷ m) result = put_others m (elim (value_at run_id result) [
    | some p ↦ result
    | none ↦ set_value run_id (without_run t) result
  ])

  abbrev pub feedback_file : Node → Option (Option Text)
  feedback_file (file n content) = none
  feedback_file (dir n kids) = file_text "feedback.json" kids

  unfoldable pub load_previous_iteration :
      (N → Bool)
      → (Text → Option (Value N))
      → Library
      → Order N
      → Nodes
      → Node
      → Result (List (Value N × Previous))
  unfolding feedback_map find_runs put_runs put_others
  load_previous_iteration is_zero loads library o parent workspace = do
    m ← feedback_map loads (feedback_file workspace)
    prev_runs ← find_runs is_zero loads library o parent workspace
    ok (put_others m (put_runs m prev_runs []))
