-- ===== src/Base/Lists.antt =====
-- Lists over the native numbers: lengths, slices, sums and filters by a Boolean test.
use Prim.Native.Nat.{ℕ, zero, suc, ◌+◌, ◌≤◌, min}
use mathlib.Core.Bool.{Bool, true, false, not, ◌||◌}
use mathlib.Core.Logic.{◌⊎◌, inl, inr, inl, inr, ∥∥₁_elim}
use mathlib.Core.List.{
  List, [], ◌∷◌, ◌++◌, Perm, Permᴰ, perm_middle, perm_append_comm, append_assoc,
}
use mathlib.Core.List.Perm
use mathlib.Core.Path.{◌≡◌, refl, ap, ◌∙◌}
use native.Mathlib.Nat.{ℕ_set}
use native.Mathlib.Omega.{arith}
use my_besu_net.Base.Logic.{if◌then◌else◌, Bool-cases}

module _ {ℓ} {A : Type ℓ} where
  abbrev pub length : List A → ℕ
  length [] = 0
  length (x ∷ xs) = suc (length xs)

  -- `xs[:n]`
  abbrev pub take : ℕ → List A → List A
  take zero xs = []
  take (suc n) [] = []
  take (suc n) (x ∷ xs) = x ∷ take n xs

  -- `xs[n:]`
  abbrev pub drop : ℕ → List A → List A
  drop zero xs = xs
  drop (suc n) [] = []
  drop (suc n) (x ∷ xs) = drop n xs

  -- `[x for x in xs if p(x)]`
  abbrev pub keep : (A → Bool) → List A → List A
  keep p [] = []
  keep p (x ∷ xs) = let rest = keep p xs in if p x then x ∷ rest else rest

  -- `sum(1 for x in xs if p(x))`
  abbrev pub count_if : (A → Bool) → List A → ℕ
  count_if p [] = 0
  count_if p (x ∷ xs) = (if p x then 1 else 0) + count_if p xs

  -- `any(p(x) for x in xs)`
  abbrev pub any : (A → Bool) → List A → Bool
  any p [] = false
  any p (x ∷ xs) = p x || any p xs

  abbrev pub All {κ} : (A → Type κ) → List A → Type κ
  All P [] = Unit
  All P (x ∷ xs) = P x × All P xs

  pub All-append {κ} : (P : A → Type κ) (xs ys : List A) → All P xs → All P ys → All P (xs ++ ys)
  All-append P [] ys h k = k
  All-append P (x ∷ xs) ys h k = (h.0, All-append P xs ys h.1 k)

  pub length-append : (xs ys : List A) → length (xs ++ ys) ≡ length xs + length ys
  length-append [] ys = omega arith
  length-append (x ∷ xs) ys = omega (arith, length-append xs ys)

  pub take-append-drop : (n : ℕ) (xs : List A) → take n xs ++ drop n xs ≡ xs
  take-append-drop zero xs = refl
  take-append-drop (suc n) [] = refl
  take-append-drop (suc n) (x ∷ xs) = ap (◌∷◌ x) (take-append-drop n xs)

  pub length-take-le : (n : ℕ) (xs : List A) → length (take n xs) ≤ n
  length-take-le zero xs = omega arith
  length-take-le (suc n) [] = omega arith
  length-take-le (suc n) (x ∷ xs) = omega (arith, length-take-le n xs)

  pub count_if-le-length : (p : A → Bool) (xs : List A) → count_if p xs ≤ length xs
  count_if-le-length p [] = omega arith
  count_if-le-length p (x ∷ xs) = ground (arith, count_if-le-length p xs)

  pub count_if-append :
      (p : A → Bool) (xs ys : List A) → count_if p (xs ++ ys) ≡ count_if p xs + count_if p ys
  count_if-append p [] ys = omega arith
  count_if-append p (x ∷ xs) ys = omega (arith, count_if-append p xs ys)

  pub keep-append : (p : A → Bool) (xs ys : List A) → keep p (xs ++ ys) ≡ keep p xs ++ keep p ys
  keep-append p [] ys = refl
  keep-append p (x ∷ xs) ys = ground (arith, keep-append p xs ys)

  -- A filter and its complement share the list out.
  pub keep-perm : (p : A → Bool) (xs : List A) → Perm (keep p xs ++ keep (λ x. not (p x)) xs) xs
  keep-perm p [] = Perm.refl []
  keep-perm p (x ∷ xs) = elim (Bool-cases (p x)) [
    | inl e ↦ rw e (Perm.cons x (keep-perm p xs))
    | inr e ↦ rw e (
        Perm.trans (perm_middle (keep p xs) (keep (λ y. not (p y)) xs))
          (Perm.cons x (keep-perm p xs)))
  ]

  count_if-Permᴰ : (p : A → Bool) {xs ys : List A} → Permᴰ xs ys → count_if p xs ≡ count_if p ys
  count_if-Permᴰ p Permᴰ.nil = refl
  count_if-Permᴰ p (Permᴰ.cons {a} {b} e h) = rw e (omega (arith, count_if-Permᴰ p h))
  count_if-Permᴰ p (Permᴰ.swap e f) = rw (e, f) (omega arith)
  count_if-Permᴰ p (Permᴰ.trans h k) = count_if-Permᴰ p h ∙ count_if-Permᴰ p k

  -- Reordering a list does not change how many of its elements pass a test.
  pub count_if-perm : (p : A → Bool) {xs ys : List A} → Perm xs ys → count_if p xs ≡ count_if p ys
  count_if-perm p h = ∥∥₁_elim h (ℕ_set _ _) (count_if-Permᴰ p)

  pub length-take : (n : ℕ) (xs : List A) → length (take n xs) ≡ min n (length xs)
  length-take zero xs = omega arith
  length-take (suc n) [] = omega arith
  length-take (suc n) (x ∷ xs) = omega (arith, length-take n xs)

  pub count_if-keep : (p : A → Bool) (xs : List A) → count_if p (keep p xs) ≡ length (keep p xs)
  count_if-keep p [] = refl
  count_if-keep p (x ∷ xs) = ground (arith, count_if-keep p xs)

  pub count_if-keep-not : (p : A → Bool) (xs : List A) → count_if p (keep (λ x. not (p x)) xs) ≡ 0
  count_if-keep-not p [] = refl
  count_if-keep-not p (x ∷ xs) = ground (arith, count_if-keep-not p xs)

  pub length-keep : (p : A → Bool) (xs : List A) → length (keep p xs) ≡ count_if p xs
  length-keep p [] = refl
  length-keep p (x ∷ xs) = ground (arith, length-keep p xs)

  pub count_if-take-add-drop :
      (p : A → Bool) (n : ℕ) (xs : List A)
      → count_if p (take n xs) + count_if p (drop n xs) ≡ count_if p xs
  count_if-take-add-drop p zero xs = omega arith
  count_if-take-add-drop p (suc n) [] = omega arith
  count_if-take-add-drop p (suc n) (x ∷ xs) = omega (arith, count_if-take-add-drop p n xs)

  pub length-take-add-drop :
      (n : ℕ) (xs : List A) → length (take n xs) + length (drop n xs) ≡ length xs
  length-take-add-drop zero xs = omega arith
  length-take-add-drop (suc n) [] = omega arith
  length-take-add-drop (suc n) (x ∷ xs) = omega (arith, length-take-add-drop n xs)

  -- Reordering a list keeps its length.
  pub length-perm : {xs ys : List A} → Perm xs ys → length xs ≡ length ys
  length-perm {xs} {ys} h = omega (arith, length-all xs, length-all ys, count_if-perm (λ _. true) h)
    where
      length-all : (zs : List A) → count_if (λ _. true) zs ≡ length zs
      length-all [] = refl
      length-all (z ∷ zs) = omega (arith, length-all zs)

  -- Two blocks of lists, exchanged pairwise.
  pub blocks-perm : (a b c d : List A) → Perm ((a ++ b) ++ (c ++ d)) ((c ++ a) ++ (d ++ b))
  blocks-perm a b c d = Perm.trans (perm_append_comm (a ++ b) (c ++ d)) (
      rw (append_assoc c d (a ++ b), append_assoc c a (d ++ b))
        (Perm.append_left c (
          rw (← append_assoc d a b, ← append_assoc a d b)
            (Perm.append_right b (perm_append_comm d a)))))

  pub drop_all : (n : ℕ) (xs : List A) → length xs ≤ n → drop n xs ≡ []
  drop_all zero [] h = refl
  drop_all zero (x ∷ xs) h = absurd (omega arith)
  drop_all (suc n) [] h = refl
  drop_all (suc n) (x ∷ xs) h = drop_all n xs (omega arith)

-- An element of a list.
abbrev pub IsIn : {A : Type 0} → A → List A → Type 0
IsIn x [] = ⊥
IsIn x (y ∷ ys) = (y ≡ x) ⊎ IsIn x ys

pub IsIn-append : {A : Type 0} (x : A) (xs ys : List A) → IsIn x xs ⊎ IsIn x ys → IsIn x (xs ++ ys)
IsIn-append x [] ys (inl h) = absurd h
IsIn-append x [] ys (inr h) = h
IsIn-append x (y ∷ xs) ys (inl (inl e)) = inl e
IsIn-append x (y ∷ xs) ys (inl (inr h)) = inr (IsIn-append x xs ys (inl h))
IsIn-append x (y ∷ xs) ys (inr h) = inr (IsIn-append x xs ys (inr h))
