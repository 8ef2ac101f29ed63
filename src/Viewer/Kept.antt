-- ===== src/Viewer/Kept.antt =====
-- What the sorting of the runs keeps.
use my_besu_net.Base.{
  IsIn, Bool, List, [], ◌∷◌, ◌≡◌, inl, inr, subst, if◌then◌else◌, All, Bool-cases,
}
use my_besu_net.Json.{ok, ◌>>=◌, >>=-ok}
use my_besu_net.Viewer.Build.{Run}
use my_besu_net.Viewer.Find.{Order, run_less, insert_run, sort_runs}

module _ {N : Type 0} (o : Order N) where
  pub insert_run-All :
      (P : Run N → Type 0) (r : Run N) (runs : List (Run N)) {sorted : List (Run N)}
      → P r
      → All P runs
      → insert_run o r runs ≡ ok sorted
      → All P sorted
  unfolding insert_run
  insert_run-All P r [] {sorted} p h e =
      let same : r ∷ [] ≡ sorted = cc in subst (All P) same (p, tt)
  insert_run-All P r (s ∷ runs) {sorted} p h e =
      let (b, less, rest) =
        >>=-ok (run_less o s r)
          (λ (b : Bool).
            if b then (insert_run o r runs >>= λ more. ok (s ∷ more)) else ok (r ∷ s ∷ runs))
          e in
      elim (Bool-cases b) [
        | inl t ↦
            let (more, below, last) =
              >>=-ok (insert_run o r runs) (λ more. ok (s ∷ more)) (rw t at rest) in
            let same : s ∷ more ≡ sorted = cc in
            subst (All P) same (h.0, insert_run-All P r runs p h.1 below)
        | inr f ↦
            let kept : ok (r ∷ s ∷ runs) ≡ ok sorted = rw f at rest in
            let same : r ∷ s ∷ runs ≡ sorted = cc in subst (All P) same (p, h)
      ]

  pub sort_runs-All :
      (P : Run N → Type 0) (runs : List (Run N)) {sorted : List (Run N)}
      → All P runs
      → sort_runs o runs ≡ ok sorted
      → All P sorted
  unfolding sort_runs
  sort_runs-All P [] {sorted} h e = let same : [] ≡ sorted = cc in subst (All P) same tt
  sort_runs-All P (r ∷ runs) {sorted} h e =
      let (below, first, last) = >>=-ok (sort_runs o runs) (insert_run o r) e in
      insert_run-All P r below h.0 (sort_runs-All P runs h.1 first) last

  insert_run-IsIn :
      (x r : Run N) (runs : List (Run N)) {sorted : List (Run N)}
      → IsIn x (r ∷ runs)
      → insert_run o r runs ≡ ok sorted
      → IsIn x sorted
  unfolding insert_run
  insert_run-IsIn x r [] {sorted} m e = let same : r ∷ [] ≡ sorted = cc in subst (IsIn x) same m
  insert_run-IsIn x r (s ∷ runs) {sorted} m e =
      let (b, less, rest) =
        >>=-ok (run_less o s r)
          (λ (b : Bool).
            if b then (insert_run o r runs >>= λ more. ok (s ∷ more)) else ok (r ∷ s ∷ runs))
          e in
      elim (Bool-cases b) [
        | inl t ↦
            let (more, below, last) =
              >>=-ok (insert_run o r runs) (λ more. ok (s ∷ more)) (rw t at rest) in
            let same : s ∷ more ≡ sorted = cc in
            subst (IsIn x) same (elim m [
              | inl e ↦ inr (insert_run-IsIn x r runs (inl e) below)
              | inr (inl e) ↦ inl e
              | inr (inr m) ↦ inr (insert_run-IsIn x r runs (inr m) below)
            ])
        | inr f ↦
            let kept : ok (r ∷ s ∷ runs) ≡ ok sorted = rw f at rest in
            let same : r ∷ s ∷ runs ≡ sorted = cc in subst (IsIn x) same m
      ]

  pub sort_runs-IsIn :
      (x : Run N) (runs : List (Run N)) {sorted : List (Run N)}
      → IsIn x runs
      → sort_runs o runs ≡ ok sorted
      → IsIn x sorted
  unfolding sort_runs
  sort_runs-IsIn x [] m e = absurd m
  sort_runs-IsIn x (r ∷ runs) m e =
      let (below, first, last) = >>=-ok (sort_runs o runs) (insert_run o r) e in
      insert_run-IsIn x r below
        (elim m [ inl e ↦ inl e | inr m ↦ inr (sort_runs-IsIn x runs m first) ]) last
