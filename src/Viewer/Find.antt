-- ===== src/Viewer/Find.antt =====
-- `find_runs` of generate_review.py. `Order` is Python's comparison of JSON values, where `less` raises
-- `TypeError` for values that have no order.
use my_besu_net.Base.{
  Bool, true, false, not, ◌&&◌, ◌||◌, List, [], ◌∷◌, ◌++◌, Option, none, some, ltb, ◌==◌,
  if◌then◌else◌, any, String, ◌≡◌,
}
use my_besu_net.Base.Text.{Text, is}
use my_besu_net.Json.{Value, null, num, Result, ok, raise, ◌>>=◌, type_error}
use my_besu_net.Viewer.Build.{Run, build_run}
use my_besu_net.Viewer.Embed.{Library}
use my_besu_net.Viewer.Tree.{Node, Nodes, file, dir, nil, cons, outputs_dir}

abbrev pub skip : List String
skip = "node_modules" ∷ ".git" ∷ "__pycache__" ∷ "skill" ∷ "inputs" ∷ []

pub record Order (N : Type 0) : Type 0 where
  pub same : Value N → Value N → Bool
  pub less : Value N → Value N → Result Bool

-- What Python says of `None` and numbers.
pub record IsPython {N : Type 0} (o : Order N) : Type 0 where
  pub null_null : o.same null null ≡ true
  pub null_num : (n : N) → (o.same null (num n) ≡ false) × (o.less null (num n) ≡ raise type_error)
  pub num_null : (n : N) → (o.same (num n) null ≡ false) × (o.less (num n) null ≡ raise type_error)

-- `s < t`
unfoldable pub text_less : Text → Text → Bool
text_less s [] = false
text_less [] (y ∷ t) = true
text_less (x ∷ s) (y ∷ t) = ltb x y || x == y && text_less s t

module _ {N : Type 0} (o : Order N) where
  -- the comparison of the keys `(r.get("eval_id", …), r["id"])`; the key `eval_id` is always there
  unfoldable pub run_less : Run N → Run N → Result Bool
  unfolding text_less
  run_less a b =
      if o.same a.eval_id b.eval_id then ok (text_less a.id b.id) else o.less a.eval_id b.eval_id

  -- `list.sort`, which is stable, as an insertion sort
  unfoldable pub insert_run : Run N → List (Run N) → Result (List (Run N))
  unfolding run_less
  insert_run r [] = ok (r ∷ [])
  insert_run r (s ∷ runs) = do
    before ← run_less s r
    let rest = insert_run r runs
    if before then (do more ← rest; ok (s ∷ more)) else ok (r ∷ s ∷ runs)

  unfoldable pub sort_runs : List (Run N) → Result (List (Run N))
  unfolding insert_run
  sort_runs [] = ok []
  sort_runs (r ∷ runs) = do sorted ← sort_runs runs; insert_run r sorted

-- `child.name not in skip`
unfoldable pub enters : Text → Bool
unfolding is
enters name = not (any (λ (s : String). is s name) skip)

module _ {N : Type 0} (is_zero : N → Bool) (loads : Text → Option (Value N))
    (library : Library) where
  -- what a directory gives: its run, where it has `outputs`, or what there is below it
  unfoldable pub run_or_below :
      List Text → Nodes → Nodes → Option Nodes → Result (List (Run N)) → Result (List (Run N))
  unfolding build_run
  run_or_below path parent kids none below = below
  run_or_below path parent kids (some outs) below = do
    r ← build_run is_zero loads library path parent kids outs
    ok (r ∷ [])

  unfoldable mutual
    unfolding outputs_dir run_or_below enters

    -- a directory at a path, with the entries of its parent
    pub visit : List Text → Nodes → Node → Result (List (Run N))
    visit path parent (file n content) = ok []
    visit path parent (dir n kids) =
        run_or_below path parent kids (outputs_dir kids) (visit_all path kids kids)

    pub visit_all : List Text → Nodes → Nodes → Result (List (Run N))
    visit_all path siblings nil = ok []
    visit_all path siblings (cons (file n content) nodes) = visit_all path siblings nodes
    visit_all path siblings (cons (dir n kids) nodes) =
        let here = visit (path ++ n ∷ []) siblings (dir n kids) in
        let rest = visit_all path siblings nodes in
        if enters n then (do a ← here; b ← rest; ok (a ++ b)) else rest

  unfoldable pub find_runs : Order N → Nodes → Node → Result (List (Run N))
  unfolding visit sort_runs
  find_runs o parent workspace = do runs ← visit [] parent workspace; sort_runs o runs
