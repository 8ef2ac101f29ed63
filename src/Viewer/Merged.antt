-- ===== src/Viewer/Merged.antt =====
-- What `load_previous_iteration` of generate_review.py says of a run's id.
use my_besu_net.Base.{
  Bool, List, [], ◌∷◌, Option, none, some, if◌then◌else◌, ◌≡◌, refl, sym, ap, subst, ◌∙◌, inl, inr,
  Bool-cases,
}
use my_besu_net.Base.Text.{Text, equal, equal_iff}
use my_besu_net.Json.{Value, str, ok}
use my_besu_net.Viewer.Build.{Run}
use my_besu_net.Viewer.Embed.{Library}
use my_besu_net.Viewer.Find.{Order, find_runs}
use my_besu_net.Viewer.Keys.{IsKeyTest, is_text-str, same-is_text, value_at-set_value}
use my_besu_net.Viewer.Previous.{
  Previous, Feedback, or_blank, value_at, set_value, of_run, put_runs, without_run, put_others,
  feedback_map, feedback_file, load_previous_iteration,
}
use my_besu_net.Viewer.Tree.{Node, Nodes}

module _ {N : Type 0} (same : Value N → Value N → Bool) (test : IsKeyTest same) where
  abbrev or_else : Option Previous → Option Previous → Option Previous
  or_else none q = q
  or_else (some p) q = some p

  abbrev alone : Option Text → Option Previous
  alone none = none
  alone (some f) = some (without_run f)

  or_else-none : (q : Option Previous) → or_else q none ≡ q
  or_else-none none = refl
  or_else-none (some p) = refl

  -- The last run with an id.
  abbrev pub last_run : Text → List (Run N) → Option (Run N)
  last_run t [] = none
  last_run t (r ∷ rs) = elim (last_run t rs) [
    | some x ↦ some x
    | none ↦ if equal r.id t then some r else none
  ]

  -- The feedback given for an id, with the outputs of the last run of that id, or with none where there
  -- is feedback and no run.
  abbrev pub merged : Feedback same → List (Run N) → Text → Option Previous
  merged m runs t = elim (last_run t runs) [
    | some r ↦ some (record { feedback = or_blank (value_at same (str t) m); outputs = r.outputs })
    | none ↦ alone (value_at same (str t) m)
  ]

  value_at-put_runs :
      (t : Text) (m : Feedback same) (runs : List (Run N)) (d : List (Value N × Previous))
      → value_at same (str t) (put_runs same m runs d) ≡ (elim (last_run t runs) [
        | some r ↦
            some (record { feedback = or_blank (value_at same (str t) m); outputs = r.outputs })
        | none ↦ value_at same (str t) d
      ])
  unfolding put_runs
  value_at-put_runs t m [] d = refl
  value_at-put_runs t m (run ∷ runs) d =
      value_at-put_runs t m runs (set_value same (str run.id) (of_run same m run) d)
      ∙ go (last_run t runs)
    where
      go :
          (o : Option (Run N))
          → (elim o as (λ x. Option Previous) [
            | some r ↦
                some (record { feedback = or_blank (value_at same (str t) m); outputs = r.outputs })
            | none ↦ value_at same (str t) (set_value same (str run.id) (of_run same m run) d)
          ])
            ≡ (elim (elim o as (λ x. Option (Run N)) [
              | some x ↦ some x
              | none ↦ if equal run.id t then some run else none
            ])
                as (λ x. Option Previous) [
                  | some r ↦ some (record {
                    feedback = or_blank (value_at same (str t) m);
                    outputs = r.outputs;
                  })
                  | none ↦ value_at same (str t) d
                ])
      go (some r) = refl
      go none = elim (Bool-cases (equal run.id t)) [
        | inl e ↦
            let h = (equal_iff run.id t).0 e in
            value_at-set_value same test t (str run.id) (of_run same m run) d
            ∙ rw e (
                ap
                  (λ u. some (record {
                    feedback = or_blank (value_at same (str u) m);
                    outputs = run.outputs;
                  }))
                  h)
        | inr f ↦ value_at-set_value same test t (str run.id) (of_run same m run) d ∙ rw f refl
      ]

  value_at-put_others :
      (t : Text) (m : Feedback same) (d : List (Value N × Previous))
      → value_at same (str t) (put_others same m d)
        ≡ or_else (value_at same (str t) d) (alone (value_at same (str t) m))
  unfolding put_others value_at
  value_at-put_others t [] d = sym (or_else-none (value_at same (str t) d))
  value_at-put_others t ((k, f) ∷ m) d =
      go (value_at same k d) refl (λ d. value_at-put_others t m d)
    where
      go :
          (o : Option Previous)
          → value_at same k d ≡ o
          → ((d : List (Value N × Previous))
              → value_at same (str t) (put_others same m d)
                ≡ or_else (value_at same (str t) d) (alone (value_at same (str t) m)))
          → value_at same (str t) (
              put_others same m (elim o as (λ x. List (Value N × Previous)) [
                | some p ↦ d
                | none ↦ set_value same k (without_run f) d
              ]))
            ≡ or_else
                (value_at same (str t) d)
                (alone (if same k (str t) then some f else value_at same (str t) m))
      go (some p) e behind = elim (Bool-cases (same k (str t))) [
        | inl at ↦
            let h = is_text-str t k (sym (same-is_text same test k t) ∙ at) in
            let there : value_at same (str t) d ≡ some p =
              subst (λ v. value_at same v d ≡ some p) h e in
            behind d ∙ rw there refl
        | inr off ↦ behind d ∙ rw off refl
      ]
      go none e behind =
          behind (set_value same k (without_run f) d)
          ∙ ap (λ q. or_else q (alone (value_at same (str t) m)))
              (value_at-set_value same test t k (without_run f) d)
          ∙ elim (Bool-cases (same k (str t))) [
            | inl at ↦
                let is = sym (same-is_text same test k t) ∙ at in
                let there : value_at same (str t) d ≡ none =
                  subst (λ v. value_at same v d ≡ none) (is_text-str t k is) e in
                rw (is, there, at) refl
            | inr off ↦ let is = sym (same-is_text same test k t) ∙ off in rw (is, off) refl
          ]

  module _ (is_zero : N → Bool) (loads : Text → Option (Value N)) (library : Library)
      (o : Order N) where
    -- If the feedback of the earlier iteration is read and its runs are found, load_previous_iteration
    -- returns, for every id, the feedback given for it, with the outputs of the last run of that id;
    -- an id with feedback and no run has no outputs, and one with neither has no entry.
    pub load_previous_iteration-value_at :
        (parent : Nodes) (workspace : Node) {m : Feedback same} {runs : List (Run N)}
        → feedback_map same loads (feedback_file same workspace) ≡ ok m
        → find_runs is_zero loads library o parent workspace ≡ ok runs
        → (result : List (Value N × Previous)) × (load_previous_iteration same is_zero loads library
              o parent workspace
            ≡ ok result)
          × ((t : Text) → value_at same (str t) result ≡ merged m runs t)
    unfolding load_previous_iteration value_at
    load_previous_iteration-value_at parent workspace {m} {runs} read found = (
      put_others same m (put_runs same m runs []),
      rw (read, found) refl,
      λ t.
          value_at-put_others t m (put_runs same m runs [])
          ∙ ap (λ q. or_else q (alone (value_at same (str t) m))) (value_at-put_runs t m runs [])
          ∙ go t (last_run t runs),
    )
      where
        go :
            (t : Text) (r : Option (Run N))
            → or_else
                (elim r as (λ x. Option Previous) [
                  | some r ↦ some (record {
                    feedback = or_blank (value_at same (str t) m);
                    outputs = r.outputs;
                  })
                  | none ↦ none
                ])
                (alone (value_at same (str t) m))
              ≡ (elim r as (λ x. Option Previous) [
                | some r ↦
                    some (record {
                      feedback = or_blank (value_at same (str t) m);
                      outputs = r.outputs;
                    })
                | none ↦ alone (value_at same (str t) m)
              ])
        go t none = refl
        go t (some r) = refl
