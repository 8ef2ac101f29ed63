-- ===== src/Viewer/Keys.antt =====
-- Dicts of generate_review.py whose keys are JSON values: what a text as a key finds.
use my_besu_net.Base.{
  Bool, true, false, List, [], ◌∷◌, Option, none, some, if◌then◌else◌, ◌≡◌, refl, sym, ap, ◌∙◌, inl,
  inr, Bool-cases,
}
use my_besu_net.Base.Text.{Text, equal, equal_iff, equal_refl}
use my_besu_net.Json.{Value, null, boolean, num, str, arr, obj}
use my_besu_net.Viewer.Previous.{value_at, set_value}

module _ {N : Type 0} where
  abbrev pub text_of : Value N → Option Text
  text_of (str t) = some t
  text_of _ = none

  text_of-str : (v : Value N) {t : Text} → text_of v ≡ some t → v ≡ str t
  text_of-str (str t) e = cc
  text_of-str null e = cc
  text_of-str (boolean b) e = cc
  text_of-str (num n) e = cc
  text_of-str (arr xs) e = cc
  text_of-str (obj fs) e = cc

  abbrev pub is_text : Text → Value N → Bool
  is_text t v = elim (text_of v) [ none ↦ false | some s ↦ equal s t ]

  pub is_text-str : (t : Text) (v : Value N) → is_text t v ≡ true → v ≡ str t
  is_text-str t (str s) e = let h = (equal_iff s t).0 e in ap str h
  is_text-str t null e = cc
  is_text-str t (boolean b) e = cc
  is_text-str t (num n) e = cc
  is_text-str t (arr xs) e = cc
  is_text-str t (obj fs) e = cc

  -- A dict takes a text for itself, and takes two keys for one only if both are one text or neither is
  -- a text.
  pub record IsKeyTest (same : Value N → Value N → Bool) : Type 0 where
    pub same_text : (t : Text) → same (str t) (str t) ≡ true
    pub text_same : (j k : Value N) → same j k ≡ true → text_of j ≡ text_of k

  module _ (same : Value N → Value N → Bool) (test : IsKeyTest same) where
    pub same-is_text : (v : Value N) (t : Text) → same v (str t) ≡ is_text t v
    same-is_text v t = elim (Bool-cases (same v (str t))) [
      | inl e ↦
          e
          ∙ sym (
              ap (λ o. elim o [ none ↦ false | some s ↦ equal s t ]) (test.text_same v (str t) e)
              ∙ equal_refl t)
      | inr e ↦ elim (Bool-cases (is_text t v)) [
        | inr f ↦ e ∙ sym f
        | inl f ↦
            let h = is_text-str t v f in
            let yes = ap (λ w. same w (str t)) h ∙ test.same_text t in cc
      ]
    ]

    pub value_at-set_value {ℓ} :
        {X : Type ℓ} (t : Text) (k : Value N) (x : X) (d : List (Value N × X))
        → value_at same (str t) (set_value same k x d)
          ≡ (if is_text t k then some x else value_at same (str t) d)
    unfolding value_at set_value
    value_at-set_value t k x [] = rw (same-is_text k t) refl
    value_at-set_value t k x ((j, y) ∷ d) = elim (Bool-cases (same j k)) [
      | inl e ↦
          let h =
            ap (λ o. elim o as (λ x. Bool) [ none ↦ false | some s ↦ equal s t ])
              (test.text_same j k e) in
          elim (Bool-cases (is_text t k)) [
            | inl at ↦ let js = same-is_text j t ∙ h ∙ at in rw (e, at, js) refl
            | inr off ↦ let js = same-is_text j t ∙ h ∙ off in rw (e, off, js) refl
          ]
      | inr f ↦ elim (Bool-cases (is_text t k)) [
        | inl at ↦ elim (Bool-cases (is_text t j)) [
          | inl both ↦
              let h = is_text-str t k at in
              let j_is = is_text-str t j both in
              let yes : same j k ≡ true =
                ap (λ w. same w k) j_is ∙ ap (same (str t)) h ∙ test.same_text t in
              cc
          | inr other ↦
              let js = same-is_text j t ∙ other in
              rw (f, at, js) (value_at-set_value t k x d ∙ rw at refl)
        ]
        | inr off ↦
            rw (f, off)
              (ap (λ o. if same j (str t) then some y else o)
                (value_at-set_value t k x d ∙ rw off refl))
      ]
    ]
