-- ===== src/Resilient/Ranking.antt =====
-- What the search in the troubleshooting guide returns (resilient_diagram.py).
use mathlib.Core.List.{Perm}
use mathlib.Core.List.Perm
use my_besu_net.Base.{
  ℕ, ◌≤◌, min, List, [], ◌∷◌, ◌++◌, ◌≡◌, refl, sym, ap, subst, ◌∙◌, arith, ltb, ◌==◌, if◌then◌else◌,
  keep, take, drop, take-append-drop, length-take, length-perm, length, Bool-cases, inl, inr, All,
}
use my_besu_net.Base.Text.{Text}
use my_besu_net.Resilient.Detect.{DiagramType}
use my_besu_net.Resilient.Guide.{Entry, score, insert_ranked, rank, search_guide}

module _ {ℓ} {A : Type ℓ} (key : A → ℕ) where
  -- No key is smaller than a later one.
  abbrev pub IsRanked : List A → Type 0
  IsRanked [] = Unit
  IsRanked (x ∷ xs) = All (λ y. key y ≤ key x) xs × IsRanked xs

  -- The first `n` of a list of candidates by their keys: with the `others`, which come behind, they are
  -- the candidates in the order of the keys, and candidates with one key stay in their order.
  pub record IsTop (n : ℕ) (candidates chosen : List A) : Type ℓ where
    pub others : List A
    pub ranked : IsRanked (chosen ++ others)
    pub same : Perm (chosen ++ others) candidates
    pub stable :
        (k : ℕ) → keep (λ x. key x == k) (chosen ++ others) ≡ keep (λ x. key x == k) candidates
    pub enough : length chosen ≡ min n (length candidates)

  All-weaken : (m n : ℕ) (xs : List A) → m ≤ n → All (λ y. key y ≤ m) xs → All (λ y. key y ≤ n) xs
  All-weaken m n [] h k = tt
  All-weaken m n (x ∷ xs) h k = (omega arith, All-weaken m n xs h k.1)

  All-insert_ranked :
      (n : ℕ) (x : A) (xs : List A)
      → key x ≤ n
      → All (λ y. key y ≤ n) xs
      → All (λ y. key y ≤ n) (insert_ranked key x xs)
  unfolding insert_ranked
  All-insert_ranked n x [] h k = (h, tt)
  All-insert_ranked n x (y ∷ ys) h k = elim (Bool-cases (ltb (key x) (key y))) [
    | inl e ↦ rw e (k.0, All-insert_ranked n x ys h k.1)
    | inr e ↦ rw e (h, k)
  ]

  insert_ranked-IsRanked : (x : A) (xs : List A) → IsRanked xs → IsRanked (insert_ranked key x xs)
  unfolding insert_ranked
  insert_ranked-IsRanked x [] r = (tt, tt)
  insert_ranked-IsRanked x (y ∷ ys) r = elim (Bool-cases (ltb (key x) (key y))) [
    | inl e ↦
        rw e (All-insert_ranked (key y) x ys (ground arith) r.0, insert_ranked-IsRanked x ys r.1)
    | inr e ↦ rw e ((ground arith, All-weaken (key y) (key x) ys (ground arith) r.0), r)
  ]

  rank-IsRanked : (xs : List A) → IsRanked (rank key xs)
  unfolding rank
  rank-IsRanked [] = tt
  rank-IsRanked (x ∷ xs) = insert_ranked-IsRanked x (rank key xs) (rank-IsRanked xs)

  insert_ranked-perm : (x : A) (xs : List A) → Perm (insert_ranked key x xs) (x ∷ xs)
  unfolding insert_ranked
  insert_ranked-perm x [] = Perm.refl (x ∷ [])
  insert_ranked-perm x (y ∷ ys) = elim (Bool-cases (ltb (key x) (key y))) [
    | inl e ↦ rw e (Perm.trans (Perm.cons y (insert_ranked-perm x ys)) (Perm.swap x y ys))
    | inr e ↦ rw e (Perm.refl (x ∷ y ∷ ys))
  ]

  rank-perm : (xs : List A) → Perm (rank key xs) xs
  unfolding rank
  rank-perm [] = Perm.refl []
  rank-perm (x ∷ xs) = Perm.trans (insert_ranked-perm x (rank key xs)) (Perm.cons x (rank-perm xs))

  keep-insert_ranked :
      (k : ℕ) (x : A) (xs : List A)
      → keep (λ y. key y == k) (insert_ranked key x xs) ≡ keep (λ y. key y == k) (x ∷ xs)
  unfolding insert_ranked
  keep-insert_ranked k x [] = refl
  keep-insert_ranked k x (y ∷ ys) = ground (arith, keep-insert_ranked k x ys)

  keep-rank :
      (k : ℕ) (xs : List A) → keep (λ y. key y == k) (rank key xs) ≡ keep (λ y. key y == k) xs
  unfolding rank
  keep-rank k [] = refl
  keep-rank k (x ∷ xs) =
      keep-insert_ranked k x (rank key xs)
      ∙ ap (λ ys. if key x == k then x ∷ ys else ys) (keep-rank k xs)

  rank-IsTop : (n : ℕ) (xs : List A) → IsTop n xs (take n (rank key xs))
  rank-IsTop n xs =
      let whole = take-append-drop n (rank key xs) in
      record {
        others = drop n (rank key xs);
        ranked = subst IsRanked (sym whole) (rank-IsRanked xs);
        same = subst (λ ys. Perm ys xs) (sym whole) (rank-perm xs);
        stable = λ k. ap (keep (λ y. key y == k)) whole ∙ keep-rank k xs;
        enough = length-take n (rank key xs) ∙ ap (min n) (length-perm (rank-perm xs));
      }

-- The search returns the first five, by their scores, of the entries whose score is positive; entries
-- with one score stay in the order of the guide.
pub search_guide-IsTop :
    (lower : Text → Text) (entries : List Entry) (error_message : Text) (diagram_type : DiagramType)
    → IsTop
        (score lower error_message diagram_type)
        5
        (keep (λ e. ltb 0 (score lower error_message diagram_type e)) entries)
        (search_guide lower entries error_message diagram_type)
unfolding search_guide
search_guide-IsTop lower entries error_message diagram_type =
    rank-IsTop (score lower error_message diagram_type) 5
      (keep (λ e. ltb 0 (score lower error_message diagram_type e)) entries)
