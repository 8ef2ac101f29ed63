-- ===== src/Viewer/Discover.antt =====
-- Which directories `find_runs` of generate_review.py takes for runs.
use my_besu_net.Base.{
  IsIn, IsIn-append, Bool, true, List, [], ◌∷◌, ◌++◌, Option, none, some, ◌≡◌, inl, inr, refl,
  subst, All, All-append, Bool-cases,
}
use my_besu_net.Base.Text.{Text}
use my_besu_net.Json.{Value, ok, ◌>>=◌, >>=-ok}
use my_besu_net.Viewer.Build.{Run, build_run}
use my_besu_net.Viewer.Embed.{Library}
use my_besu_net.Viewer.Find.{Order, sort_runs, enters, run_or_below, visit, visit_all, find_runs}
use my_besu_net.Viewer.Kept.{sort_runs-All, sort_runs-IsIn}
use my_besu_net.Viewer.Tree.{Node, Nodes, file, dir, nil, cons, outputs_dir}

-- A directory among the entries.
pub data Child : Nodes → Text → Nodes → Type 0 where
  first : {n : Text} {kids nodes : Nodes} → Child (cons (dir n kids) nodes) n kids
  later :
      {n : Text} {kids nodes : Nodes} (node : Node)
      → Child nodes n kids
      → Child (cons node nodes) n kids

-- Below a directory with its path, the entries of its parent and its own, there is a run: the directory
-- itself where it has `outputs`, and where it has not, one below a child that is not skipped.
pub data RunAt : List Text → Nodes → Nodes → List Text → Nodes → Nodes → Nodes → Type 0 where
  here :
      {path : List Text} {parent kids outs : Nodes}
      → outputs_dir kids ≡ some outs
      → RunAt path parent kids path parent kids outs
  below :
      {path p : List Text} {n : Text} {parent kids sub q k outs : Nodes}
      → outputs_dir kids ≡ none
      → Child kids n sub
      → enters n ≡ true
      → RunAt (path ++ n ∷ []) kids sub p q k outs
      → RunAt path parent kids p q k outs

module _ {N : Type 0} (is_zero : N → Bool) (loads : Text → Option (Value N))
    (library : Library) where
  -- The run of a directory at which there is one.
  abbrev pub IsRunAt : List Text → Nodes → Nodes → Run N → Type 0
  IsRunAt path parent kids r =
      (p : List Text) × (q : Nodes) × (k : Nodes) × (outs : Nodes) × RunAt path parent kids p q k
        outs
      × (build_run is_zero loads library p q k outs ≡ ok r)

  abbrev BelowChild : List Text → Nodes → Nodes → Run N → Type 0
  BelowChild path siblings nodes r =
      (n : Text) × (sub : Nodes) × Child nodes n sub
      × (enters n ≡ true)
      × IsRunAt (path ++ n ∷ []) siblings sub r

  All-later :
      (path : List Text) (siblings nodes : Nodes) (node : Node) (runs : List (Run N))
      → All (BelowChild path siblings nodes) runs
      → All (BelowChild path siblings (cons node nodes)) runs
  All-later path siblings nodes node [] h = tt
  All-later path siblings nodes node (r ∷ runs) ((n, sub, child, e, at), h) =
      ((n, sub, later node child, e, at), All-later path siblings nodes node runs h)

  All-first :
      (path : List Text) (siblings nodes sub : Nodes) (n : Text) (runs : List (Run N))
      → enters n ≡ true
      → All (IsRunAt (path ++ n ∷ []) siblings sub) runs
      → All (BelowChild path siblings (cons (dir n sub) nodes)) runs
  All-first path siblings nodes sub n [] e h = tt
  All-first path siblings nodes sub n (r ∷ runs) e (at, h) =
      ((n, sub, first, e, at), All-first path siblings nodes sub n runs e h)

  All-below :
      (path : List Text) (parent kids : Nodes) (runs : List (Run N))
      → outputs_dir kids ≡ none
      → All (BelowChild path kids kids) runs
      → All (IsRunAt path parent kids) runs
  All-below path parent kids [] e h = tt
  All-below path parent kids (r ∷ runs) e ((n, sub, child, enter, (p, q, k, outs, at, built)), h) =
      ((p, q, k, outs, below e child enter at, built), All-below path parent kids runs e h)

  -- What the visit of a directory gives, from what the visit of its children gives.
  visit-IsRunAt :
      (path : List Text) (parent kids : Nodes) (name : Text) {runs : List (Run N)}
      → ((more : List (Run N))
          → visit_all is_zero loads library path kids kids ≡ ok more
          → All (BelowChild path kids kids) more)
      → visit is_zero loads library path parent (dir name kids) ≡ ok runs
      → All (IsRunAt path parent kids) runs
  unfolding visit run_or_below
  visit-IsRunAt path parent kids name {runs} children e = go (outputs_dir kids) refl
    where
      go : (o : Option Nodes) → outputs_dir kids ≡ o → All (IsRunAt path parent kids) runs
      go none eq = All-below path parent kids runs eq (children runs (rw eq at e))
      go (some outs) eq =
          let (r, built, last) =
            >>=-ok (build_run is_zero loads library path parent kids outs) (λ r. ok (r ∷ []))
              (rw eq at e) in
          let same : r ∷ [] ≡ runs = cc in
          subst (All (IsRunAt path parent kids)) same
            ((path, parent, kids, outs, here eq, built), tt)

  visit_all-BelowChild :
      (path : List Text) (siblings nodes : Nodes) {runs : List (Run N)}
      → visit_all is_zero loads library path siblings nodes ≡ ok runs
      → All (BelowChild path siblings nodes) runs
  unfolding visit_all
  visit_all-BelowChild path siblings nil {runs} e =
      let same : [] ≡ runs = cc in subst (All (BelowChild path siblings nil)) same tt
  visit_all-BelowChild path siblings (cons (file n content) nodes) {runs} e =
      All-later path siblings nodes (file n content) runs
        (visit_all-BelowChild path siblings nodes e)
  visit_all-BelowChild path siblings (cons (dir n kids) nodes) {runs} e =
      elim (Bool-cases (enters n)) [
        | inr left ↦
            All-later path siblings nodes (dir n kids) runs
              (visit_all-BelowChild path siblings nodes (rw left at e))
        | inl entered ↦
            let (a, at, behind) =
              >>=-ok (visit is_zero loads library (path ++ n ∷ []) siblings (dir n kids))
                (λ a. visit_all is_zero loads library path siblings nodes >>= λ b. ok (a ++ b))
                (rw entered at e) in
            let (b, others, last) =
              >>=-ok (visit_all is_zero loads library path siblings nodes) (λ b. ok (a ++ b))
                behind in
            let same : a ++ b ≡ runs = cc in
            subst (All (BelowChild path siblings (cons (dir n kids) nodes))) same (
              All-append (BelowChild path siblings (cons (dir n kids) nodes)) a b
                (All-first path siblings nodes kids n a entered (
                  visit-IsRunAt (path ++ n ∷ []) siblings kids n
                    (λ more. visit_all-BelowChild (path ++ n ∷ []) kids kids {runs = more}) at))
                (All-later path siblings nodes (dir n kids) b
                  (visit_all-BelowChild path siblings nodes others)))
      ]

  -- A run that is there was read and is in the list.
  abbrev pub IsListed : List Text → Nodes → Nodes → Nodes → List (Run N) → Type 0
  IsListed p q k outs runs =
      (r : Run N) × (build_run is_zero loads library p q k outs ≡ ok r) × IsIn r runs

  visit_all-Child :
      (path : List Text) (siblings : Nodes) {nodes : Nodes} {n : Text} {sub : Nodes}
      {runs : List (Run N)}
      → Child nodes n sub
      → enters n ≡ true
      → visit_all is_zero loads library path siblings nodes ≡ ok runs
      → (a : List (Run N)) × (visit is_zero loads library (path ++ n ∷ []) siblings (dir n sub)
          ≡ ok a)
        × ((r : Run N) → IsIn r a → IsIn r runs)
  unfolding visit_all
  visit_all-Child path siblings {runs = runs} (first {n} {kids} {nodes}) h e =
      let (a, at, behind) =
        >>=-ok (visit is_zero loads library (path ++ n ∷ []) siblings (dir n kids))
          (λ a. visit_all is_zero loads library path siblings nodes >>= λ b. ok (a ++ b))
          (rw h at e) in
      let (b, others, last) =
        >>=-ok (visit_all is_zero loads library path siblings nodes) (λ b. ok (a ++ b)) behind in
      let same : a ++ b ≡ runs = cc in
      (a, at, λ r m. subst (IsIn r) same (IsIn-append r a b (inl m)))
  visit_all-Child path siblings (later (file n content) child) h e =
      visit_all-Child path siblings child h e
  visit_all-Child path siblings {runs = runs} (later {nodes = nodes} (dir n kids) child) h e =
      elim (Bool-cases (enters n)) [
        | inr left ↦ visit_all-Child path siblings child h (rw left at e)
        | inl entered ↦
            let (a, at, behind) =
              >>=-ok (visit is_zero loads library (path ++ n ∷ []) siblings (dir n kids))
                (λ a. visit_all is_zero loads library path siblings nodes >>= λ b. ok (a ++ b))
                (rw entered at e) in
            let (b, others, last) =
              >>=-ok (visit_all is_zero loads library path siblings nodes) (λ b. ok (a ++ b))
                behind in
            let same : a ++ b ≡ runs = cc in
            let (c, found, inside) = visit_all-Child path siblings child h others in
            (c, found, λ r m. subst (IsIn r) same (IsIn-append r a b (inr (inside r m))))
      ]

  visit-IsListed :
      {path p : List Text} {parent kids q k outs : Nodes} (name : Text) {runs : List (Run N)}
      → RunAt path parent kids p q k outs
      → visit is_zero loads library path parent (dir name kids) ≡ ok runs
      → IsListed p q k outs runs
  unfolding visit run_or_below
  visit-IsListed {path} {p} {parent} {kids} {outs = outs} name {runs} (here eq) e =
      let (r, built, last) =
        >>=-ok (build_run is_zero loads library path parent kids outs) (λ r. ok (r ∷ []))
          (rw eq at e) in
      let same : r ∷ [] ≡ runs = cc in (r, built, subst (IsIn r) same (inl refl))
  visit-IsListed {path} {kids = kids} name (below {n = n} eq child h at) e =
      let (a, found, inside) = visit_all-Child path kids child h (rw eq at e) in
      let (r, built, m) = visit-IsListed n at found in (r, built, inside r m)

  module _ (o : Order N) (parent kids : Nodes) (name : Text) {runs : List (Run N)} where
    -- If find_runs returns, each run that it returns is that of a directory with `outputs` that is
    -- reached from the workspace through directories without `outputs` and with names that are not
    -- skipped.
    pub find_runs-IsRunAt :
        find_runs is_zero loads library o parent (dir name kids) ≡ ok runs
        → All (IsRunAt [] parent kids) runs
    unfolding find_runs
    find_runs-IsRunAt e =
        let (found, visited, last) =
          >>=-ok (visit is_zero loads library [] parent (dir name kids)) (sort_runs o) e in
        sort_runs-All o (IsRunAt [] parent kids) found
          (visit-IsRunAt [] parent kids name
            (λ more. visit_all-BelowChild [] kids kids {runs = more}) visited)
          last

    -- If find_runs returns, the run of each directory with `outputs` that is reached from the workspace
    -- through directories without `outputs` and with names that are not skipped is among those returned.
    pub find_runs-IsListed :
        {p : List Text} {q k outs : Nodes}
        → RunAt [] parent kids p q k outs
        → find_runs is_zero loads library o parent (dir name kids) ≡ ok runs
        → IsListed p q k outs runs
    unfolding find_runs
    find_runs-IsListed at e =
        let (found, visited, last) =
          >>=-ok (visit is_zero loads library [] parent (dir name kids)) (sort_runs o) e in
        let (r, built, m) = visit-IsListed name at visited in
        (r, built, sort_runs-IsIn o r found m last)
