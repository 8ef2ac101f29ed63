-- ===== src/Resilient/Sections.antt =====
-- The sections of a guide that resilient_diagram.py reads.
use my_besu_net.Base.{
  ℕ, Bool, true, false, ◌&&◌, ◌||◌, List, [], ◌∷◌, ◌++◌, ◌≡◌, refl, sym, ap, subst, ◌∙◌, arith,
  ◌==◌, length, drop, Bool-cases, inl, inr, append_assoc,
}
use my_besu_net.Base.Text.{Text, starts_with, strip}
use my_besu_net.Resilient.Parse.{
  heading, digits_colon, number_colon, at_section, split_sections, parse_section, parse_sections,
  parse_guide,
}

-- No end of `k` that is not empty stands at the front of the text.
abbrev NoOverlap : Text → Text → Type 0
NoOverlap s [] = Unit
NoOverlap s (y ∷ k) = (starts_with s (y ∷ k) ≡ false) × NoOverlap s k

starts_with-append : (p s k : Text) → NoOverlap s k → starts_with (p ++ s) k ≡ starts_with p k
unfolding starts_with
starts_with-append p s [] h = refl
starts_with-append [] s (y ∷ k) h = h.0
starts_with-append (x ∷ p) s (y ∷ k) h = ap (λ b. x == y && b) (starts_with-append p s k h.1)

drop-append :
    (p s k : Text) → starts_with p k ≡ true → drop (length k) (p ++ s) ≡ drop (length k) p ++ s
unfolding starts_with
drop-append p s [] h = refl
drop-append [] s (y ∷ k) h = cc
drop-append (x ∷ p) s (y ∷ k) h = drop-append p s k (ground arith)

-- A text that begins with another is that text and what stands behind it.
split_front : (s k : Text) → starts_with s k ≡ true → s ≡ k ++ drop (length k) s
unfolding starts_with
split_front s [] h = refl
split_front [] (y ∷ k) h = cc
split_front (x ∷ s) (y ∷ k) h =
    let same : x ≡ y = ground arith in let rest = split_front s k (ground arith) in cc

heading-NoOverlap : (w : Text) → NoOverlap (heading ++ w) (drop 1 heading)
unfolding starts_with
heading-NoOverlap w =
    (refl, (refl, (refl, (refl, (refl, (refl, (refl, (refl, (refl, (refl, (refl, tt)))))))))))

module _ (is_digit : ℕ → Bool) (hash : is_digit b'#' ≡ false) where
  digits_colon-append :
      (p w : Text) → digits_colon is_digit (p ++ (heading ++ w)) ≡ digits_colon is_digit p
  unfolding digits_colon
  digits_colon-append [] w = rw hash refl
  digits_colon-append (c ∷ p) w = ap (λ b. c == b':' || is_digit c && b) (digits_colon-append p w)

  number_colon-append :
      (p w : Text) → number_colon is_digit (p ++ (heading ++ w)) ≡ number_colon is_digit p
  number_colon-append [] w = rw hash refl
  number_colon-append (c ∷ p) w = ap (λ b. is_digit c && b) (digits_colon-append p w)

  -- Whether a section begins does not depend on a section that begins further on.
  at_section-append :
      (x : ℕ) (p w : Text)
      → at_section is_digit (x ∷ p ++ (heading ++ w)) ≡ at_section is_digit (x ∷ p)
  unfolding at_section starts_with
  at_section-append x p w =
      let front = starts_with-append p (heading ++ w) (drop 1 heading) (heading-NoOverlap w) in
      let same : starts_with (x ∷ p ++ (heading ++ w)) heading ≡ starts_with (x ∷ p) heading =
        ap (λ b. x == b'#' && b) front in
      elim (Bool-cases (starts_with (x ∷ p) heading)) [
        | inr e ↦
            ap (λ b. b && number_colon is_digit (drop (length heading) (x ∷ p ++ (heading ++ w))))
              (same ∙ e)
            ∙ sym (ap (λ b. b && number_colon is_digit (drop (length heading) (x ∷ p))) e)
        | inl e ↦
            ap (λ b. b && number_colon is_digit (drop (length heading) (x ∷ p ++ (heading ++ w))))
              (same ∙ e)
            ∙ ap (number_colon is_digit) (drop-append (x ∷ p) (heading ++ w) heading e)
            ∙ number_colon-append (drop (length heading) (x ∷ p)) w
            ∙ sym (ap (λ b. b && number_colon is_digit (drop (length heading) (x ∷ p))) e)
      ]

  at_section-heading :
      (section : Text) → at_section is_digit section ≡ true → starts_with section heading ≡ true
  unfolding at_section
  at_section-heading section h = ground arith

  -- A section begins with an empty piece.
  split_sections-section :
      (section : Text)
      → at_section is_digit section ≡ true
      → (split_sections is_digit section).0 ≡ []
  unfolding split_sections
  split_sections-section [] h = refl
  split_sections-section (c ∷ t) h = rw h refl

  split_sections-append :
      (before w : Text)
      → at_section is_digit (heading ++ w) ≡ true
      → split_sections is_digit (before ++ (heading ++ w)) ≡ (
        (split_sections is_digit before).0,
        (split_sections is_digit before).1 ++ (split_sections is_digit (heading ++ w)).1,
      )
  unfolding split_sections
  split_sections-append [] w h =
      ap (λ p. (p, (split_sections is_digit (heading ++ w)).1))
        (split_sections-section (heading ++ w) h)
  split_sections-append (x ∷ before) w h =
      rw (at_section-append x before w, split_sections-append before w h)
        (elim (Bool-cases (at_section is_digit (x ∷ before))) [
          | inl e ↦ rw e refl
          | inr e ↦ rw e refl
        ])

  module _ (is_word : ℕ → Bool) (int_of : Text → ℕ) (lower : Text → Text) where
    parse_sections-append :
        (xs ys : List Text)
        → parse_sections is_digit is_word int_of lower (xs ++ ys)
          ≡ parse_sections is_digit is_word int_of lower xs
            ++ parse_sections is_digit is_word int_of lower ys
    unfolding parse_sections
    parse_sections-append [] ys = refl
    parse_sections-append (x ∷ xs) ys =
        ap (λ es. parse_section is_digit is_word int_of lower x ++ es) (parse_sections-append xs ys)
        ∙ sym (
            append_assoc (parse_section is_digit is_word int_of lower x)
              (parse_sections is_digit is_word int_of lower xs)
              (parse_sections is_digit is_word int_of lower ys))

    parse_section-nil : parse_section is_digit is_word int_of lower [] ≡ []
    unfolding parse_section strip
    parse_section-nil = refl

    parse_guide-section :
        (section : Text)
        → at_section is_digit section ≡ true
        → parse_guide is_digit is_word int_of lower section
          ≡ parse_sections is_digit is_word int_of lower (split_sections is_digit section).1
    unfolding parse_guide parse_sections
    parse_guide-section section h =
        ap
          (λ p.
            parse_section is_digit is_word int_of lower p
            ++ parse_sections is_digit is_word int_of lower (split_sections is_digit section).1)
          (split_sections-section section h)
        ∙ ap
            (λ es.
              es
              ++ parse_sections is_digit is_word int_of lower (split_sections is_digit section).1)
            parse_section-nil

    parse_guide-heading :
        (before w : Text)
        → at_section is_digit (heading ++ w) ≡ true
        → parse_guide is_digit is_word int_of lower (before ++ (heading ++ w))
          ≡ parse_guide is_digit is_word int_of lower before
            ++ parse_guide is_digit is_word int_of lower (heading ++ w)
    unfolding parse_guide
    parse_guide-heading before w h =
        ap (λ p. parse_sections is_digit is_word int_of lower (p.0 ∷ p.1))
          (split_sections-append before w h)
        ∙ parse_sections-append
            ((split_sections is_digit before).0 ∷ (split_sections is_digit before).1)
            (split_sections is_digit (heading ++ w)).1
        ∙ ap (λ es. parse_guide is_digit is_word int_of lower before ++ es)
            (sym (parse_guide-section (heading ++ w) h))

    -- Where a section begins in a guide, the entries are those of what stands before it and then those of
    -- what begins there, each read alone, if # is no digit.
    pub parse_guide-append :
        (before section : Text)
        → at_section is_digit section ≡ true
        → parse_guide is_digit is_word int_of lower (before ++ section)
          ≡ parse_guide is_digit is_word int_of lower before
            ++ parse_guide is_digit is_word int_of lower section
    parse_guide-append before section h =
        let split = split_front section heading (at_section-heading section h) in
        let w = drop (length heading) section in
        subst
          (λ s.
            parse_guide is_digit is_word int_of lower (before ++ s)
            ≡ parse_guide is_digit is_word int_of lower before
              ++ parse_guide is_digit is_word int_of lower s)
          (sym split)
          (parse_guide-heading before w (subst (λ s. at_section is_digit s ≡ true) split h))
