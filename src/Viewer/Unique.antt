-- ===== src/Viewer/Unique.antt =====
-- The maps of the page of generate_review.py, whose keys are those of a dict, each once.
use my_besu_net.Base.{
  ℕ, zero, suc, Bool, true, false, List, [], ◌∷◌, ◌++◌, Option, none, some, if◌then◌else◌, ◌≡◌,
  refl, ap, ◌∙◌, inl, inr, Bool-cases,
}
use my_besu_net.Base.Text.{Text, partition}
use my_besu_net.Json.{Value, str}
use my_besu_net.Viewer.Build.{Run}
use my_besu_net.Viewer.Keys.{IsKeyTest, is_text, is_text-str, same-is_text, value_at-set_value}
use my_besu_net.Viewer.Page.{replace, shown_of}
use my_besu_net.Viewer.Previous.{
  Previous, Feedback, value_at, set_value, of_run, put_runs, without_run, put_others,
}

-- A marker that stands once is replaced once, whatever the new text has.
pub replace_once :
    (fuel : ℕ) (old new s : Text) {before after : Text}
    → partition old s ≡ some (before, after)
    → partition old after ≡ none
    → replace (suc fuel) old new s ≡ before ++ (new ++ after)
unfolding replace
replace_once fuel old new s {before} {after} h k =
    rw (replace, h) (ap (λ t. before ++ (new ++ t)) (rest fuel))
  where
    rest : (fuel : ℕ) → replace fuel old new after ≡ after
    rest zero = refl
    rest (suc fuel) = rw (replace, k) refl

module _ {N : Type 0} (same : Value N → Value N → Bool) (test : IsKeyTest same) where
  -- A text that is a key stands once in the dict.
  abbrev pub UniqueTexts {ℓ} : {X : Type ℓ} → List (Value N × X) → Type ℓ
  UniqueTexts [] = Unit
  UniqueTexts ((k, x) ∷ d) =
      ((t : Text) → is_text t k ≡ true → value_at same (str t) d ≡ none) × UniqueTexts d

  apart {ℓ} :
      {X : Type ℓ} (t : Text) {j : Value N} (k : Value N) (x : X) (d : List (Value N × X))
      → same j k ≡ false
      → value_at same (str t) d ≡ none
      → is_text t j ≡ true
      → (if is_text t k then some x else value_at same (str t) d) ≡ none
  apart t {j} k x d e absent h = elim (Bool-cases (is_text t k)) [
    | inl at ↦
        let yes : same j k ≡ true =
          ap (λ w. same w k) (is_text-str t j h)
          ∙ ap (same (str t)) (is_text-str t k at)
          ∙ test.same_text t in
        cc
    | inr off ↦ rw off absent
  ]

  set_value-UniqueTexts {ℓ} :
      {X : Type ℓ} (k : Value N) (x : X) (d : List (Value N × X))
      → UniqueTexts d
      → UniqueTexts (set_value same k x d)
  unfolding set_value value_at
  set_value-UniqueTexts k x [] u = (λ t h. refl, tt)
  set_value-UniqueTexts k x ((j, y) ∷ d) u = elim (Bool-cases (same j k)) [
    | inl e ↦ rw e u
    | inr e ↦ rw e (
      λ t h. value_at-set_value same test t k x d ∙ apart t k x d e (u.0 t h) h,
      set_value-UniqueTexts k x d u.1,
    )
  ]

  pub put_runs-UniqueTexts :
      (m : Feedback same) (runs : List (Run N)) (d : List (Value N × Previous))
      → UniqueTexts d
      → UniqueTexts (put_runs same m runs d)
  unfolding put_runs
  put_runs-UniqueTexts m [] d u = u
  put_runs-UniqueTexts m (run ∷ runs) d u =
      put_runs-UniqueTexts m runs (set_value same (str run.id) (of_run same m run) d)
        (set_value-UniqueTexts (str run.id) (of_run same m run) d u)

  pub put_others-UniqueTexts :
      (m : Feedback same) (d : List (Value N × Previous))
      → UniqueTexts d
      → UniqueTexts (put_others same m d)
  unfolding put_others
  put_others-UniqueTexts [] d u = u
  put_others-UniqueTexts ((k, t) ∷ m) d u =
      put_others-UniqueTexts m (added (value_at same k d)) (added-UniqueTexts (value_at same k d))
    where
      added : Option Previous → List (Value N × Previous)
      added (some p) = d
      added none = set_value same k (without_run t) d

      added-UniqueTexts : (o : Option Previous) → UniqueTexts (added o)
      added-UniqueTexts (some p) = u
      added-UniqueTexts none = set_value-UniqueTexts k (without_run t) d u

  -- what an entry shows, or what the map had
  abbrev pub shown_at {ℓ} :
      {X : Type ℓ} → (Previous → Option X) → Option Previous → Option X → Option X
  shown_at pick none before = before
  shown_at pick (some p) before = elim (pick p) [ none ↦ before | some x ↦ some x ]

  pub value_at-shown_of {ℓ} :
      {X : Type ℓ} (pick : Previous → Option X) (t : Text) (d : List (Value N × Previous))
      (m : List (Value N × X))
      → UniqueTexts d
      → value_at same (str t) (shown_of same pick d m)
        ≡ shown_at pick (value_at same (str t) d) (value_at same (str t) m)
  unfolding shown_of value_at
  value_at-shown_of pick t [] m u = refl
  value_at-shown_of {X = X} pick t ((k, p) ∷ d) m u =
      value_at-shown_of pick t d (noted (pick p)) u.1 ∙ elim (Bool-cases (is_text t k)) [
        | inl at ↦
            ap (λ o. shown_at pick o (value_at same (str t) (noted (pick p)))) (u.0 t at)
            ∙ value_at-noted (pick p)
            ∙ rw (at, same-is_text same test k t ∙ at) refl
        | inr off ↦
            let before : value_at same (str t) (noted (pick p)) ≡ value_at same (str t) m =
              value_at-noted (pick p) ∙ rw off refl in
            ap (shown_at pick (value_at same (str t) d)) before
            ∙ rw (same-is_text same test k t ∙ off) refl
      ]
    where
      noted : Option X → List (Value N × X)
      noted none = m
      noted (some x) = set_value same k x m

      value_at-noted :
          (o : Option X)
          → value_at same (str t) (noted o) ≡ (
              if is_text t k
              then elim o as (λ x. Option X) [ none ↦ value_at same (str t) m | some x ↦ some x ]
              else value_at same (str t) m)
      value_at-noted none = elim (Bool-cases (is_text t k)) [
        | inl e ↦ rw e refl
        | inr e ↦ rw e refl
      ]
      value_at-noted (some x) = value_at-set_value same test t k x m
