-- ===== src/Benchmark/Table.antt =====
-- The table of benchmark.md (aggregate_benchmark.py), for the summaries of `aggregate_results`.
use my_besu_net.Base.{
  false, List, [], ◌∷◌, ◌++◌, Option, some, ◌≡◌, refl, sym, ap, ◌∙◌, arith, Bool-cases, inl, inr,
}
use my_besu_net.Base.Dict.{Dict, lookup, insert, lookup-insert}
use my_besu_net.Base.Text.{Text, codes, equal, equal_iff, equal_refl, join}
use my_besu_net.Benchmark.Aggregate.{
  ConfigStats, Delta, Summary, stats, delta, sub_stats, entries, summarize, aggregate_results,
  aggregate_results-two,
}
use my_besu_net.Benchmark.Load.{RunResult, Results}
use my_besu_net.Benchmark.Markdown.{
  Cells, Formats, Metadata, configs_of, summary_at, formatted, delta_at, head_lines, table_rows,
  note_lines, generate_markdown,
}
use my_besu_net.Benchmark.Numbers.{Numbers}
use my_besu_net.Json.{Value, ok}

-- The entry `delta` is no configuration.
configs_of-insert {ℓ} :
    {A : Type ℓ} (v : A) (d : Dict A) → configs_of (insert (codes "delta") v d) ≡ configs_of d
unfolding configs_of insert equal
configs_of-insert v [] = refl
configs_of-insert v ((k, w) ∷ d) = elim (Bool-cases (equal k (codes "delta"))) [
  | inl e ↦ rw (e, e) refl
  | inr e ↦ rw e (rw e (ap (λ ks. k ∷ ks) (configs_of-insert v d)))
]

equal_comm : (s t : Text) → equal s t ≡ false → equal t s ≡ false
equal_comm s t h = ground (arith, equal_iff s t, equal_iff t s)

module _ (n : Numbers) (int_of : Text → Option n.N) where
  -- The summary of two configurations, neither of them called delta, as the table finds it.
  module _ (c j : Text) (p b : ConfigStats n.N) (last : List (Text × ConfigStats n.N))
      (v : Summary n.N) (c_other : equal c (codes "delta") ≡ false)
      (j_other : equal j (codes "delta") ≡ false) where
    abbrev summed : Dict (Summary n.N)
    summed = insert (codes "delta") v (entries n int_of ((c, p) ∷ (j, b) ∷ last))

    two_configs : (rest : List Text) × (configs_of summed ≡ c ∷ j ∷ rest)
    unfolding entries configs_of
    two_configs = (
      configs_of (entries n int_of last),
      configs_of-insert v (entries n int_of ((c, p) ∷ (j, b) ∷ last)) ∙ rw (c_other, j_other) refl,
    )

    lookup-first : lookup c summed ≡ some (stats p)
    unfolding entries lookup
    lookup-first =
        lookup-insert c (codes "delta") v (entries n int_of ((c, p) ∷ (j, b) ∷ last))
        ∙ rw (equal_comm c (codes "delta") c_other, equal_refl c) refl

    lookup-second : equal c j ≡ false → lookup j summed ≡ some (stats b)
    unfolding entries lookup
    lookup-second h =
        lookup-insert j (codes "delta") v (entries n int_of ((c, p) ∷ (j, b) ∷ last))
        ∙ rw (equal_comm j (codes "delta") j_other, h, equal_refl j) refl

    lookup-delta : lookup (codes "delta") summed ≡ some v
    lookup-delta =
        lookup-insert (codes "delta") (codes "delta") v (entries n int_of ((c, p) ∷ (j, b) ∷ last))
        ∙ rw (equal_refl (codes "delta")) refl

  summary_at-found :
      (config : Text) (d : Dict (Summary n.N)) (s : ConfigStats n.N)
      → lookup config d ≡ some (stats s)
      → summary_at n int_of config d ≡ ok s
  unfolding summary_at
  summary_at-found config d s h = rw (summary_at, h) refl

  delta_at-found :
      (f : Formats n) (d : Dict (Summary n.N)) (x : Delta n.N)
      → lookup (codes "delta") d ≡ some (delta x)
      → delta_at n int_of f d ≡ formatted n int_of f x
  unfolding delta_at
  delta_at-found f d x h = rw (delta_at, h) refl

  module _ (f : Formats n) where
    -- the text of a benchmark whose two configurations and whose differences are known
    abbrev page :
        Metadata
        → List (Value n.N)
        → List Text
        → Text
        → Text
        → ConfigStats n.N
        → ConfigStats n.N
        → Cells
        → Text
    page m evals_run notes c j a b cells = join (codes "\n") (
        head_lines n int_of f m evals_run c j
        ++ table_rows n int_of f a b cells
        ++ note_lines n int_of f notes)

    generate_markdown-page :
        (m : Metadata) (evals_run : List (Value n.N)) (notes : List Text) (s : Dict (Summary n.N))
        {c j : Text} {rest : List Text} {a b : ConfigStats n.N}
        → configs_of s ≡ c ∷ j ∷ rest
        → summary_at n int_of c s ≡ ok a
        → summary_at n int_of j s ≡ ok b
        → generate_markdown n int_of f m evals_run s notes
          ≡ ok (page m evals_run notes c j a b (delta_at n int_of f s))
    unfolding generate_markdown
    generate_markdown-page m evals_run notes s names first second =
        rw (names, first) (rw second refl)

    -- The table shows the first two configurations, each with the means and deviations of its own runs,
    -- and the differences of these means, if the two have different names, neither of them delta.
    pub generate_markdown-aggregate_results :
        (m : Metadata) (evals_run : List (Value n.N)) (notes : List Text) (c j : Text)
        (rs bs : List (RunResult n.N)) (d : Results n int_of) {s : Dict (Summary n.N)}
        → equal c (codes "delta") ≡ false
        → equal j (codes "delta") ≡ false
        → equal c j ≡ false
        → aggregate_results n int_of ((c, rs) ∷ (j, bs) ∷ d) ≡ ok s
        → (p : ConfigStats n.N) × (b : ConfigStats n.N) × (summarize n int_of rs ≡ ok p)
          × (summarize n int_of bs ≡ ok b)
          × (generate_markdown n int_of f m evals_run s notes
              ≡ ok (
                  join (codes "\n") (
                    head_lines n int_of f m evals_run c j
                    ++ table_rows n int_of f p b (formatted n int_of f (sub_stats n int_of p b))
                    ++ note_lines n int_of f notes)))
    generate_markdown-aggregate_results m evals_run notes c j rs bs d {s} c_other j_other apart h =
        let (p, b, last, first, second, all, is_s) = aggregate_results-two n int_of c j rs bs d h in
        let x = sub_stats n int_of p b in
        let (rest, names) = two_configs c j p b last (delta x) c_other j_other in
        let at_c = lookup-first c j p b last (delta x) c_other j_other in
        let at_j = lookup-second c j p b last (delta x) c_other j_other apart in
        let at_delta = lookup-delta c j p b last (delta x) c_other j_other in
        (
          p,
          b,
          first,
          second,
          generate_markdown-page m evals_run notes s (ap configs_of (sym is_s) ∙ names)
                (summary_at-found c s p (ap (lookup c) (sym is_s) ∙ at_c))
                (summary_at-found j s b (ap (lookup j) (sym is_s) ∙ at_j))
              ∙ ap (λ cells. ok (page m evals_run notes c j p b cells))
                  (delta_at-found f s x (ap (lookup (codes "delta")) (sym is_s) ∙ at_delta)),
        )
