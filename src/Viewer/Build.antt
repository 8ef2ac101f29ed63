-- ===== src/Viewer/Build.antt =====
-- `build_run` of generate_review.py. `loads` is `json.loads`, `none` a
-- `JSONDecodeError`.
use my_besu_net.Base.{Bool, ◌||◌, List, [], ◌∷◌, Option, none, some, ◌==◌, if◌then◌else◌, map}
use my_besu_net.Base.Text.{Text, codes, join, partition, strip}
use my_besu_net.Json.{Value, null, str, Result, ok, ◌>>=◌, get}
use my_besu_net.Validate.Rules.{truthy}
use my_besu_net.Viewer.Tree.{Nodes, file_text}
use my_besu_net.Viewer.Embed.{Library, Embedded, embed_all}

pub record Run (N : Type 0) : Type 0 where
  pub id : Text
  pub prompt : Value N
  pub eval_id : Value N
  pub outputs : List Embedded
  pub grading : Value N

-- `str(run_dir.relative_to(root)).replace("/", "-").replace("\\", "-")`
unfoldable pub run_id : List Text → Text
unfolding join
run_id [] = codes "."
run_id (part ∷ parts) =
    map (λ c. if c == b'/' || c == b'\\' then b'-' else c) (join (codes "/") (part ∷ parts))

-- group 1 of the search for `## Eval Prompt`, stripped
unfoldable pub transcript_prompt : Text → Option Text
unfolding partition strip
transcript_prompt content = elim (partition (codes "## Eval Prompt\n\n") content) [
  | none ↦ none
  | some (_, rest) ↦ elim (partition (codes "\n##") rest) [
    | none ↦ some (strip rest)
    | some (inside, _) ↦ some (strip inside)
  ]
]

module _ {N : Type 0} (is_zero : N → Bool) (loads : Text → Option (Value N)) where
  -- one candidate for `eval_metadata.json`, with the prompt and the id so far
  unfoldable pub read_metadata :
      Option (Option Text) → Value N × Value N → Result (Value N × Value N)
  unfolding get
  read_metadata none found = ok found
  read_metadata (some none) found = ok found
  read_metadata (some (some content)) found = elim (loads content) [
    | none ↦ ok found
    | some metadata ↦ (do
      prompt ← get metadata "prompt" (str [])
      eval_id ← get metadata "eval_id" null
      ok (prompt, eval_id))
  ]

  -- both candidates: the second is not read behind a prompt
  unfoldable pub read_both : Nodes → Nodes → Result (Value N × Value N)
  unfolding read_metadata file_text truthy
  read_both kids parent = do
    first ← read_metadata (file_text "eval_metadata.json" kids) (str [], null)
    if truthy is_zero first.0
        then ok first
        else read_metadata (file_text "eval_metadata.json" parent) first

  -- one candidate for `transcript.md`, where there is no prompt so far
  unfoldable pub read_transcript : Option (Option Text) → Text → Text
  unfolding transcript_prompt
  read_transcript none prompt = prompt
  read_transcript (some none) prompt = prompt
  read_transcript (some (some content)) prompt = elim (transcript_prompt content) [
    | none ↦ prompt
    | some found ↦ found
  ]

  abbrev or_none_found : Text → Text
  or_none_found [] = codes "(No prompt found)"
  or_none_found (c ∷ t) = c ∷ t

  -- the prompt behind the metadata
  unfoldable pub fall_back : Nodes → Nodes → Value N → Value N
  unfolding truthy file_text read_transcript
  fall_back kids outs prompt =
      if truthy is_zero prompt
      then prompt
      else (let first = read_transcript (file_text "transcript.md" kids) [] in
          str (
            or_none_found (elim first [
              | [] ↦ read_transcript (file_text "transcript.md" outs) []
              | c ∷ t ↦ c ∷ t
            ])))

  -- one candidate for `grading.json`
  unfoldable pub read_grading : Option (Option Text) → Value N → Value N
  read_grading none grading = grading
  read_grading (some none) grading = grading
  read_grading (some (some content)) grading = elim (loads content) [ none ↦ grading | some v ↦ v ]

  unfoldable pub grading_of : Nodes → Nodes → Value N
  unfolding truthy file_text read_grading
  grading_of kids parent =
      let first = read_grading (file_text "grading.json" kids) null in
      if truthy is_zero first then first else read_grading (file_text "grading.json" parent) first

  -- the path below the root, the entries of the parent, of the run and of its `outputs`
  unfoldable pub build_run : Library → List Text → Nodes → Nodes → Nodes → Result (Run N)
  unfolding read_both fall_back grading_of embed_all run_id
  build_run library path parent kids outs = do
    metadata ← read_both kids parent
    ok (record {
      id = run_id path;
      prompt = fall_back kids outs metadata.0;
      eval_id = metadata.1;
      outputs = embed_all library outs;
      grading = grading_of kids parent;
    })
