-- ===== src/Benchmark/Stats.antt =====
-- `calculate_stats` (aggregate_benchmark.py, lines 45 to 64).
use my_besu_net.Base.{
  ◌-◌, false, List, [], ◌∷◌, ◌≡◌, ◌⊎◌, refl, sym, ap, subst, ltb, if◌then◌else◌, length, map, All,
  Bool-cases, inl, inr,
}
use my_besu_net.Benchmark.Numbers.{Numbers, IsOrder}

pub record Stats (N : Type 0) : Type 0 where
  pub mean : N
  pub stddev : N
  pub minimum : N
  pub maximum : N

module _ (num : Numbers) where
  -- `sum`, from 0
  unfoldable pub sum_onto : num.N → List num.N → num.N
  sum_onto acc [] = acc
  sum_onto acc (x ∷ xs) = sum_onto (num.add acc x) xs

  -- `min` and `max`: the first of the least, and of the largest
  unfoldable pub min_of : num.N → List num.N → num.N
  min_of m [] = m
  min_of m (x ∷ xs) = min_of (if num.less x m then x else m) xs

  unfoldable pub max_of : num.N → List num.N → num.N
  max_of m [] = m
  max_of m (x ∷ xs) = max_of (if num.less m x then x else m) xs

  abbrev pub zeros : Stats num.N
  zeros = record { mean = num.zero; stddev = num.zero; minimum = num.zero; maximum = num.zero }

  unfoldable pub deviation : num.N → List num.N → num.N
  unfolding sum_onto
  deviation mean values =
      let variance =
        num.over (sum_onto num.zero (map (λ x. num.square (num.sub x mean)) values))
          (length values - 1) in
      if ltb 1 (length values) then num.root variance else num.zero

  unfoldable pub calculate_stats : List num.N → Stats num.N
  unfolding sum_onto min_of max_of deviation
  calculate_stats [] = zeros
  calculate_stats (x ∷ xs) =
      let mean = num.over (sum_onto num.zero (x ∷ xs)) (length (x ∷ xs)) in
      record {
        mean = num.round mean;
        stddev = num.round (deviation mean (x ∷ xs));
        minimum = num.round (min_of x xs);
        maximum = num.round (max_of x xs);
      }

  -- a value of the list
  abbrev pub Occurs : num.N → List num.N → Type 0
  Occurs m [] = ⊥
  Occurs m (x ∷ xs) = (m ≡ x) ⊎ Occurs m xs

  past : (r m x : num.N) (xs : List num.N) → Occurs r (m ∷ xs) → Occurs r (m ∷ x ∷ xs)
  past r m x xs (inl e) = inl e
  past r m x xs (inr o) = inr (inr o)

  -- a value of the list that none is less than, and one that is less than none
  abbrev pub Least : List num.N → num.N → Type 0
  Least xs r = All (λ x. num.less x r ≡ false) xs × Occurs r xs

  abbrev pub Largest : List num.N → num.N → Type 0
  Largest xs r = All (λ x. num.less r x ≡ false) xs × Occurs r xs

  module _ (order : IsOrder num) where
    min_of-Least : (m : num.N) (xs : List num.N) → Least (m ∷ xs) (min_of m xs)
    unfolding min_of
    min_of-Least m [] = ((order.irreflexive m, tt), inl refl)
    min_of-Least m (x ∷ xs) = elim (Bool-cases (num.less x m)) [
      | inl e ↦
          let ((low, rest), found) = min_of-Least x xs in
          subst (Least (m ∷ x ∷ xs)) (ap (λ b. min_of (if b then x else m) xs) (sym e)) (
            (order.transitive_not (min_of x xs) x m low (order.asymmetric x m e), (low, rest)),
            inr found,
          )
      | inr e ↦
          let ((low, rest), found) = min_of-Least m xs in
          subst (Least (m ∷ x ∷ xs)) (ap (λ b. min_of (if b then x else m) xs) (sym e)) (
            (low, (order.transitive_not (min_of m xs) m x low e, rest)),
            past (min_of m xs) m x xs found,
          )
    ]

    max_of-Largest : (m : num.N) (xs : List num.N) → Largest (m ∷ xs) (max_of m xs)
    unfolding max_of
    max_of-Largest m [] = ((order.irreflexive m, tt), inl refl)
    max_of-Largest m (x ∷ xs) = elim (Bool-cases (num.less m x)) [
      | inl e ↦
          let ((high, rest), found) = max_of-Largest x xs in
          subst (Largest (m ∷ x ∷ xs)) (ap (λ b. max_of (if b then x else m) xs) (sym e)) (
            (order.transitive_not m x (max_of x xs) (order.asymmetric m x e) high, (high, rest)),
            inr found,
          )
      | inr e ↦
          let ((high, rest), found) = max_of-Largest m xs in
          subst (Largest (m ∷ x ∷ xs)) (ap (λ b. max_of (if b then x else m) xs) (sym e)) (
            (high, (order.transitive_not x m (max_of m xs) e high, rest)),
            past (max_of m xs) m x xs found,
          )
    ]

    -- The minimum and the maximum that are reported for values that are not empty are the rounded
    -- least and the rounded largest of the values, and a single value has the deviation 0, rounded.
    pub calculate_stats_bounds :
        (x : num.N) (xs : List num.N)
        → let stats = calculate_stats (x ∷ xs) in
          ((m : num.N) × (stats.minimum ≡ num.round m) × Least (x ∷ xs) m)
          × ((m : num.N) × (stats.maximum ≡ num.round m) × Largest (x ∷ xs) m)
          × (xs ≡ [] → stats.stddev ≡ num.round num.zero)
    unfolding calculate_stats
    calculate_stats_bounds x xs = (
      (min_of x xs, refl, min_of-Least x xs),
      (max_of x xs, refl, max_of-Largest x xs),
      λ e. rw e refl,
    )
