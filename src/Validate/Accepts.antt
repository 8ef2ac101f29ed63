-- ===== src/Validate/Accepts.antt =====
-- Which skills `validate_skill` accepts (quick_validate.py).
use my_besu_net.Base.{
  ◌≤◌, Bool, true, false, not, List, [], ◌∷◌, Option, none, some, ◌≡◌, ◌↔◌, ◌⊎◌, inl, inr, refl,
  sym, subst, ap, ◌∙◌, arith, if◌then◌else◌, length, any, Bool-cases,
}
use my_besu_net.Base.Text.{Text, codes, strip, starts_with, starts_with-prefix, split_on}
use my_besu_net.Json.{Value, str, obj, Fields, lookup_or}
use my_besu_net.Validate.Names.{hyphen, is_kebab, is_kebab_words, all_words}
use my_besu_net.Validate.Rules.{
  Verdict, valid, invalid_format, missing_name, missing_description, frontmatter_of, unexpected,
  has_key, check_name, is_angle, check_description, also, truthy, check_name_value,
  check_description_value, check_compatibility_text, check_compatibility, check_keys, check_fields,
  check_loaded, validate_skill,
}

-- Empty, or words of lower-case letters and digits joined by hyphens, and 64 characters at most.
abbrev pub IsName : Text → Type 0
IsName s = (s ≡ []) ⊎ ((all_words (split_on hyphen s) ≡ true) × (length s ≤ 64))

abbrev pub IsDescription : Text → Type 0
IsDescription s = (any is_angle s ≡ false) × (length s ≤ 1024)

check_name_iff : (s : Text) → (check_name s ≡ valid) ↔ IsName s
unfolding check_name is_kebab
check_name_iff [] = (λ h. inl refl, λ h. refl)
check_name_iff (c ∷ t) =
    (λ h. inr (ground (arith, is_kebab_words c t)), λ h. ground (arith, is_kebab_words c t, h))

check_description_iff : (s : Text) → (check_description s ≡ valid) ↔ IsDescription s
unfolding check_description
check_description_iff [] = (λ h. (refl, omega arith), λ h. refl)
check_description_iff (c ∷ t) = (λ h. ground arith, λ h. ground arith)

also_iff : (v w : Verdict) → (also v w ≡ valid) ↔ ((v ≡ valid) × (w ≡ valid))
unfolding also
also_iff v w = (λ h. ground arith, λ h. ground arith)

module _ {N : Type 0} (is_zero : N → Bool) where
  abbrev pub StringWith : (Text → Type 0) → Value N → Type 0
  StringWith P v = (t : Text) × (v ≡ str t) × P t

  -- A front matter with both fields and no others but the allowed ones, a name and a description
  -- that are strings of the right form, and a compatibility that is false or a short string.
  pub record Accepted (fm : Fields N) : Type 0 where
    pub allowed : unexpected fm ≡ []
    pub named : has_key "name" fm ≡ true
    pub described : has_key "description" fm ≡ true
    pub name : StringWith (λ t. IsName (strip t)) (lookup_or "name" fm (str []))
    pub description :
        StringWith (λ t. IsDescription (strip t)) (lookup_or "description" fm (str []))
    pub compatibility :
        (truthy is_zero (lookup_or "compatibility" fm (str [])) ≡ false)
        ⊎ StringWith (λ t. length t ≤ 500) (lookup_or "compatibility" fm (str []))

  check_keys_iff : (ks : List Text) → (check_keys is_zero ks ≡ valid) ↔ (ks ≡ [])
  unfolding check_keys
  check_keys_iff [] = (λ h. refl, λ h. refl)
  check_keys_iff (k ∷ ks) = (λ h. cc, λ h. cc)

  check_name_value_iff :
      (v : Value N) → (check_name_value is_zero v ≡ valid) ↔ StringWith (λ t. IsName (strip t)) v
  unfolding check_name_value
  check_name_value_iff (str t) = (
    λ h. (t, refl, (check_name_iff (strip t)).0 h),
    λ h.
        let (u, e, g) = h in
        let same : u ≡ t = cc in
        (check_name_iff (strip t)).1 (subst (λ x. IsName (strip x)) same g),
  )
  check_name_value_iff _ = (λ h. cc, λ h. let (u, e, g) = h in cc)

  check_description_value_iff :
      (v : Value N)
      → (check_description_value is_zero v ≡ valid) ↔ StringWith (λ t. IsDescription (strip t)) v
  unfolding check_description_value
  check_description_value_iff (str t) = (
    λ h. (t, refl, (check_description_iff (strip t)).0 h),
    λ h.
        let (u, e, g) = h in
        let same : u ≡ t = cc in
        (check_description_iff (strip t)).1 (subst (λ x. IsDescription (strip x)) same g),
  )
  check_description_value_iff _ = (λ h. cc, λ h. let (u, e, g) = h in cc)

  check_compatibility_text_iff :
      (v : Value N)
      → (check_compatibility_text is_zero v ≡ valid) ↔ StringWith (λ t. length t ≤ 500) v
  unfolding check_compatibility_text
  check_compatibility_text_iff (str t) = (
    λ h. (t, refl, ground arith),
    λ h.
        let (u, e, g) = h in
        let same : u ≡ t = cc in
        let le : length t ≤ 500 = subst (λ x. length x ≤ 500) same g in ground arith,
  )
  check_compatibility_text_iff _ = (λ h. cc, λ h. let (u, e, g) = h in cc)

  check_compatibility_iff :
      (v : Value N)
      → (check_compatibility is_zero v ≡ valid)
        ↔ ((truthy is_zero v ≡ false) ⊎ StringWith (λ t. length t ≤ 500) v)
  unfolding check_compatibility
  check_compatibility_iff v = elim (Bool-cases (truthy is_zero v)) [
    | inl e ↦ (
      λ h. inr ((check_compatibility_text_iff v).0 (rw (e, check_compatibility) at h)),
      λ h. elim h [
        | inl f ↦ cc
        | inr good ↦ rw (e, check_compatibility) ((check_compatibility_text_iff v).1 good)
      ],
    )
    | inr e ↦ (λ h. inl e, λ h. rw (e, check_compatibility) refl)
  ]

  -- the checks behind that of the keys
  check_rest_iff :
      (fm : Fields N) (v : Verdict)
      → ((if not (has_key "name" fm)
            then missing_name
            else if not (has_key "description" fm)
            then missing_description
            else v)
          ≡ valid)
        ↔ ((has_key "name" fm ≡ true) × (has_key "description" fm ≡ true) × (v ≡ valid))
  check_rest_iff fm v = (λ h. ground arith, λ h. ground arith)

  check_fields_iff : (fm : Fields N) → (check_fields is_zero fm ≡ valid) ↔ Accepted fm
  unfolding check_fields
  check_fields_iff fm = (
    λ h.
        let (keys, rest) = (also_iff _ _).0 h in
        let (n, d, values) = (check_rest_iff fm _).0 rest in
        let (name, more) = (also_iff _ _).0 values in
        let (description, compatibility) = (also_iff _ _).0 more in
        record {
          allowed = (check_keys_iff (unexpected fm)).0 keys;
          named = n;
          described = d;
          name = (check_name_value_iff _).0 name;
          description = (check_description_value_iff _).0 description;
          compatibility = (check_compatibility_iff _).0 compatibility;
        },
    λ a. (also_iff _ _).1 (
      (check_keys_iff (unexpected fm)).1 a.allowed,
      (check_rest_iff fm _).1 (
        a.named,
        a.described,
        (also_iff _ _).1 (
          (check_name_value_iff _).1 a.name,
          (also_iff _ _).1 (
            (check_description_value_iff _).1 a.description,
            (check_compatibility_iff _).1 a.compatibility,
          ),
        ),
      ),
    ),
  )

  check_loaded_iff :
      (o : Option (Value N))
      → (check_loaded is_zero o ≡ valid) ↔ ((fm : Fields N) × (o ≡ some (obj fm)) × Accepted fm)
  unfolding check_loaded
  check_loaded_iff none = (λ h. cc, λ h. let (fm, e, a) = h in cc)
  check_loaded_iff (some (obj fm)) = (
    λ h. (fm, refl, (check_fields_iff fm).0 h),
    λ h.
        let (fm', e, a) = h in
        let same : fm' ≡ fm = cc in (check_fields_iff fm).1 (subst Accepted same a),
  )
  check_loaded_iff (some _) = (λ h. cc, λ h. let (fm, e, a) = h in cc)

  fenced :
      (content : Text) → starts_with content (codes "---") ≡ false → frontmatter_of content ≡ none
  unfolding frontmatter_of
  fenced content h = elim (Bool-cases (starts_with content (codes "---\n"))) [
    | inl long ↦ cc (starts_with-prefix content (codes "---") (codes "\n") long)
    | inr short ↦ rw short
  ]

  module _ (safe_load : Text → Option (Value N)) where
    -- A skill is valid exactly when its SKILL.md begins with a fenced front matter that loads as a
    -- dictionary which is accepted: only allowed keys, name and description present and strings,
    -- the stripped name empty or at most 64 characters of words of lower-case letters and digits
    -- joined by single hyphens, the stripped description without angle brackets and at most 1024
    -- characters, and the compatibility a false value or a string of at most 500 characters.
    pub validate_skill_iff :
        (content : Text)
        → (validate_skill is_zero safe_load (some content) ≡ valid) ↔ (
            (text : Text) × (fm : Fields N) × (frontmatter_of content ≡ some text)
            × (safe_load text ≡ some (obj fm))
            × Accepted fm)
    unfolding validate_skill
    validate_skill_iff content = elim (Bool-cases (starts_with content (codes "---"))) [
      | inr open_less ↦ (
        λ h. cc (rw open_less at h),
        λ h. let (text, fm, e, l, a) = h in cc (fenced content open_less),
      )
      | inl opened ↦ rw opened (inside (frontmatter_of content))
    ]
      where
        inside :
            (o : Option Text)
            → ((elim o [
              | none ↦ invalid_format
              | some text ↦ check_loaded is_zero (safe_load text)
            ])
                ≡ valid)
              ↔ ((text : Text) × (fm : Fields N) × (o ≡ some text)
                  × (safe_load text ≡ some (obj fm))
                  × Accepted fm)
        inside none = (λ h. cc, λ h. let (text, fm, e, l, a) = h in cc)
        inside (some t) = (
          λ h. let (fm, l, a) = (check_loaded_iff (safe_load t)).0 h in (t, fm, refl, l, a),
          λ h.
              let (text, fm, e, l, a) = h in
              let same : text ≡ t = cc in
              (check_loaded_iff (safe_load t)).1 (fm, ap safe_load (sym same) ∙ l, a),
        )
