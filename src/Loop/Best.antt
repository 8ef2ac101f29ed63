-- ===== src/Loop/Best.antt =====
-- `max(history, key=…)` (run_loop.py, lines 217 to 222): the first entry with the largest key.
use my_besu_net.Base.{
  ℕ, ◌≤◌, ◌<◌, List, [], ◌∷◌, ◌++◌, ◌≡◌, subst, arith, if◌then◌else◌, ltb, Bool-cases, inl, inr,
  All, All-append, ltb→lt, append_assoc, append-nil,
}

module _ {ℓ} {A : Type ℓ} (key : A → ℕ) where
  unfoldable pub first_max : A → List A → A
  first_max best [] = best
  first_max best (x ∷ xs) = first_max (if ltb (key best) (key x) then x else best) xs

  -- The first of the elements with the largest key.
  pub record IsFirstMax (best : A) (xs : List A) : Type ℓ where
    pub before : List A
    pub behind : List A
    pub splits : xs ≡ before ++ best ∷ behind
    pub lower : All (λ x. key x < key best) before
    pub not_higher : All (λ x. key x ≤ key best) behind

  All-lower : (m n : ℕ) (xs : List A) → m < n → All (λ x. key x ≤ m) xs → All (λ x. key x < n) xs
  All-lower m n [] h k = tt
  All-lower m n (x ∷ xs) h k = (omega arith, All-lower m n xs h k.1)

  All-lt_le : (m n : ℕ) (xs : List A) → m ≤ n → All (λ x. key x < m) xs → All (λ x. key x < n) xs
  All-lt_le m n [] h k = tt
  All-lt_le m n (x ∷ xs) h k = (omega arith, All-lt_le m n xs h k.1)

  -- over the elements seen (`before`, `best`, `behind`) and those to come
  first_max-onto :
      (before behind : List A) (best : A) (xs : List A)
      → All (λ x. key x < key best) before
      → All (λ x. key x ≤ key best) behind
      → IsFirstMax (first_max best xs) (before ++ best ∷ (behind ++ xs))
  unfolding first_max
  first_max-onto before behind best [] h k = record {
    before = before;
    behind = behind;
    splits = rw (append-nil behind);
    lower = h;
    not_higher = k;
  }
  first_max-onto before behind best (x ∷ xs) h k = elim (Bool-cases (ltb (key best) (key x))) [
    | inl e ↦
        let lt = ltb→lt (key best) (key x) e in
        rw e (
          subst (IsFirstMax (first_max x xs)) (append_assoc before (best ∷ behind) (x ∷ xs)) (
            first_max-onto (before ++ best ∷ behind) [] x xs
              (All-append (λ y. key y < key x) before (best ∷ behind)
                (All-lt_le (key best) (key x) before (omega arith) h)
                (lt, All-lower (key best) (key x) behind lt k))
              tt))
    | inr e ↦ rw e (
        subst (λ ys. IsFirstMax (first_max best xs) (before ++ best ∷ ys))
          (append_assoc behind (x ∷ []) xs)
          (first_max-onto before (behind ++ x ∷ []) best xs h
            (All-append (λ y. key y ≤ key best) behind (x ∷ []) k (ground arith, tt))))
  ]

  pub first_max-IsFirstMax : (x : A) (xs : List A) → IsFirstMax (first_max x xs) (x ∷ xs)
  first_max-IsFirstMax x xs = first_max-onto [] [] x xs tt tt
