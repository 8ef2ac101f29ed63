-- ===== src/Tests/ViewerTests.antt =====
-- The search for runs of generate_review.py at concrete data.
use my_besu_net.Base.{
  ℕ, Bool, true, false, List, [], ◌∷◌, ◌++◌, Option, none, some, ◌≡◌, ◌⊎◌, inr, refl, ap, ltb, ◌==◌,
  if◌then◌else◌, String, All,
}
use my_besu_net.Base.Text.{
  Text, codes, equal_refl, equal_iff, strip, strip_char, is, equal, join, partition, starts_with,
}
use my_besu_net.Base.Paths.{last_dot}
use my_besu_net.Json.{
  Value, null, num, str, obj, arr, Fields, Items, Result, ok, raise, ◌>>=◌, iterate, type_error,
  get, lookup_or,
}
use my_besu_net.Validate.Rules.{truthy}
use my_besu_net.Viewer.Tree
use my_besu_net.Viewer.Build
use my_besu_net.Viewer.Embed
use my_besu_net.Viewer.Find
use my_besu_net.Viewer.Tree.{Node, Nodes, file, dir}
use my_besu_net.Viewer.Build.{Run, build_run}
use my_besu_net.Viewer.Embed.{Library, Embedded}
use my_besu_net.Viewer.Find.{Order, IsPython, visit, find_runs}
use my_besu_net.Viewer.Discover.{
  Child, RunAt, IsRunAt, IsListed, find_runs-IsRunAt, find_runs-IsListed,
}
use my_besu_net.Viewer.Keys.{IsKeyTest, text_of}
use my_besu_net.Viewer.Previous
use my_besu_net.Viewer.Previous.{Previous, Feedback, feedback_map, load_previous_iteration}
use my_besu_net.Viewer.Merged.{last_run}
use my_besu_net.Viewer.Page.{EmbeddedData, script, page_of}
use my_besu_net.Viewer.Shown.{shown_text, shown_outputs, page_of-shown}
use my_besu_net.Viewer.Sorted.{IsNull, IsNum, find_runs-uniform}

-- numbers in their order, and no order between a number and null
abbrev same_value : Value ℕ → Value ℕ → Bool
same_value null null = true
same_value (num m) (num n) = m == n
same_value _ _ = false

abbrev less_value : Value ℕ → Value ℕ → Result Bool
less_value (num m) (num n) = ok (ltb m n)
less_value _ _ = raise type_error

abbrev order : Order ℕ
order = record { same = same_value; less = less_value }

order-IsPython : IsPython order
order-IsPython = record {
  null_null = refl;
  null_num = λ n. (refl, refl);
  num_null = λ n. (refl, refl);
}

abbrev library : Library
library = record { lower = λ t. t; guess_type = λ t. none; b64encode = λ t. t }

-- a reader of the numbers 1 and 2 as eval ids
abbrev with_id : ℕ → Value ℕ
with_id n = obj (Fields.field (codes "eval_id") (num n) Fields.end)

abbrev read_id : Text → Option (Value ℕ)
read_id t = if is "1" t then some (with_id 1) else if is "2" t then some (with_id 2) else none

abbrev is_zero : ℕ → Bool
is_zero n = n == 0

abbrev nodes : List Node → Nodes
nodes [] = Nodes.nil
nodes (n ∷ ns) = Nodes.cons n (nodes ns)

abbrev run_dir : String → String → Node
run_dir name id = dir (codes name) (
    nodes (
      file (codes "eval_metadata.json") (some (codes id))
      ∷ dir (codes "outputs") (nodes (file (codes "a.png") (some (codes "P")) ∷ []))
      ∷ []))

abbrev workspace : Node
workspace = dir (codes "w") (nodes (run_dir "a" "2" ∷ run_dir "b" "1" ∷ run_dir "inputs" "1" ∷ []))

abbrev run_of : String → ℕ → Run ℕ
run_of name n = record {
  id = codes name;
  prompt = str (codes "(No prompt found)");
  eval_id = num n;
  outputs =
      Embedded.image (codes "a.png") (codes "application/octet-stream")
        (codes "data:application/octet-stream;base64,P")
      ∷ [];
  grading = null;
}

visited :
    visit is_zero read_id library [] Nodes.nil workspace ≡ ok (run_of "a" 2 ∷ run_of "b" 1 ∷ [])
unfolding visit Find.run_or_below Find.enters build_run Tree.outputs_dir Tree.file_text
    Build.read_both Build.read_metadata Build.fall_back Build.grading_of Embed.embed_all
    Build.run_id Embed.embed_file Embed.suffix Embed.get_mime_type Embed.mime_override
    Build.read_transcript Build.read_grading truthy get lookup_or last_dot is equal join
visited = refl

found :
    find_runs is_zero read_id library order Nodes.nil workspace
    ≡ ok (run_of "b" 1 ∷ run_of "a" 2 ∷ [])
unfolding find_runs Find.sort_runs Find.insert_run Find.run_less
found = ap (λ r. r >>= Find.sort_runs order) visited

find_runs-uniform_example :
    All IsNull (run_of "b" 1 ∷ run_of "a" 2 ∷ []) ⊎ All IsNum (run_of "b" 1 ∷ run_of "a" 2 ∷ [])
find_runs-uniform_example =
    find_runs-uniform order order-IsPython is_zero read_id library Nodes.nil workspace visited
      (inr (2, refl), (inr (1, refl), tt)) found

abbrev entries : Nodes
entries = nodes (run_dir "a" "2" ∷ run_dir "b" "1" ∷ run_dir "inputs" "1" ∷ [])

find_runs-IsRunAt_example :
    All (IsRunAt is_zero read_id library [] Nodes.nil entries) (run_of "b" 1 ∷ run_of "a" 2 ∷ [])
find_runs-IsRunAt_example =
    find_runs-IsRunAt is_zero read_id library order Nodes.nil entries (codes "w") found

abbrev outs : Nodes
outs = nodes (file (codes "a.png") (some (codes "P")) ∷ [])

abbrev inside_b : Nodes
inside_b =
    nodes (file (codes "eval_metadata.json") (some (codes "1")) ∷ dir (codes "outputs") outs ∷ [])

run_at_b : RunAt [] Nodes.nil entries (codes "b" ∷ []) entries inside_b outs
unfolding Tree.outputs_dir Find.enters is equal
run_at_b = RunAt.below refl (Child.later (run_dir "a" "2") Child.first) refl (RunAt.here refl)

find_runs-IsListed_example :
    IsListed is_zero read_id library
      (codes "b" ∷ [])
      entries
      inside_b
      outs
      (run_of "b" 1 ∷ run_of "a" 2 ∷ [])
find_runs-IsListed_example =
    find_runs-IsListed is_zero read_id library order Nodes.nil entries (codes "w") run_at_b found

abbrev review : String → String → Value ℕ
review run_id text = obj (
    Fields.field (codes "run_id") (str (codes run_id))
      (Fields.field (codes "feedback") (str (codes text)) Fields.end))

abbrev given : Value ℕ
given = obj (
    Fields.field (codes "reviews")
      (arr (
        Items.cons (review "a" "good")
          (Items.cons (review "z" "gone") (Items.cons (review "q" " ") Items.nil))))
      Fields.end)

abbrev read_any : Text → Option (Value ℕ)
read_any t = if is "F" t then some given else read_id t

abbrev earlier : Node
earlier =
    dir (codes "w") (nodes (run_dir "a" "2" ∷ file (codes "feedback.json") (some (codes "F")) ∷ []))

abbrev same_texts : Option Text → Option Text → Bool → Bool
same_texts (some s) (some t) b = equal s t
same_texts none none b = b
same_texts (some s) none b = false
same_texts none (some t) b = false

abbrev same_key : Value ℕ → Value ℕ → Bool
same_key j k = same_texts (text_of j) (text_of k) (same_value j k)

same_texts_equal : (x y : Option Text) (b : Bool) → same_texts x y b ≡ true → x ≡ y
same_texts_equal (some s) (some t) b e = let h = (equal_iff s t).0 e in ap some h
same_texts_equal none none b e = refl
same_texts_equal (some s) none b e = cc
same_texts_equal none (some t) b e = cc

same_key-IsKeyTest : IsKeyTest same_key
same_key-IsKeyTest = record {
  same_text = equal_refl;
  text_same = λ j k. same_texts_equal (text_of j) (text_of k) (same_value j k);
}

abbrev opinions : Feedback same_key
opinions = (str (codes "a"), codes "good") ∷ (str (codes "z"), codes "gone") ∷ []

opinions_read :
    feedback_map same_key read_any (Previous.feedback_file same_key earlier) ≡ ok opinions
unfolding feedback_map Previous.feedback_of_reviews Previous.review_of Previous.add_review
    Previous.item Previous.is_hashable Previous.set_value Tree.file_text get lookup_or iterate strip
    strip_char is equal
opinions_read = refl

earlier_found : find_runs is_zero read_any library order Nodes.nil earlier ≡ ok (run_of "a" 2 ∷ [])
unfolding find_runs Find.sort_runs Find.insert_run Find.run_less visit Find.run_or_below Find.enters
    build_run Tree.outputs_dir Tree.file_text Build.read_both Build.read_metadata Build.fall_back
    Build.grading_of Embed.embed_all Build.run_id Embed.embed_file Embed.suffix Embed.get_mime_type
    Embed.mime_override Build.read_transcript Build.read_grading truthy get lookup_or last_dot is
    equal join
earlier_found = refl

abbrev data_name : EmbeddedData ℕ → Text
data_name d = d.skill_name

abbrev template : Text
template = codes "<script>/*__EMBEDDED_DATA__*/</script>"

page_of-shown_example :
    (previous : List (Value ℕ × Previous)) × (d : EmbeddedData ℕ) × (load_previous_iteration
        same_key is_zero read_any library order Nodes.nil earlier
      ≡ ok previous)
    × (page_of same_key is_zero read_any data_name library order template
          (codes "pdf")
          previous
          none
          Nodes.nil
          earlier
        ≡ ok (
            codes "<script>"
            ++ (script same_key is_zero read_any data_name d ++ codes "</script>")))
    × (d.runs ≡ run_of "a" 2 ∷ [])
    × ((t : Text)
        → (Previous.value_at same_key (str t) d.previous_feedback
            ≡ shown_text same_key same_key-IsKeyTest (Previous.value_at same_key (str t) opinions))
          × (Previous.value_at same_key (str t) d.previous_outputs
              ≡ shown_outputs same_key same_key-IsKeyTest
                  (last_run same_key same_key-IsKeyTest t (run_of "a" 2 ∷ []))))
unfolding partition starts_with
page_of-shown_example =
    page_of-shown same_key same_key-IsKeyTest is_zero read_any library order data_name Nodes.nil
      earlier Nodes.nil earlier template (codes "pdf") none opinions_read earlier_found
      earlier_found refl refl
