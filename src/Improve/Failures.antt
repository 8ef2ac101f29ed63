-- ===== src/Improve/Failures.antt =====
-- Where a result that failed stands in the prompt of improve_description.py.
use my_besu_net.Base.{
  ℕ, Bool, true, false, List, [], ◌∷◌, ◌++◌, Option, ◌≡◌, refl, sym, ap, subst, ◌∙◌, arith, inl,
  inr, All, IsIn, append_assoc, Bool-cases,
}
use my_besu_net.Base.Dict.{Dict}
use my_besu_net.Base.Text.{Text, codes}
use my_besu_net.Eval.Report.{Report}
use my_besu_net.Improve.Prompt.{
  scores_summary, prompt_head, prompt_tail, failed_as, failures, result_line, result_lines, title,
  section, prompt_of,
}
use my_besu_net.Improve.Attempts.{previous_attempts}
use my_besu_net.Json.{ok, >>=-ok}
use my_besu_net.Loop.History.{Cell}

module _ {F : Type 0} where
  -- A failure of one label.
  abbrev pub IsFailure : Bool → Report F → Type 0
  IsFailure should_trigger r = (r.should_trigger ≡ should_trigger) × (r.pass ≡ false)

  -- The line of the result stands in the text, and between the title of its label and that line there
  -- are only lines of failures of that label.
  abbrev pub StandsIn : Report F → Text → Type 0
  StandsIn r prompt =
      (before : Text) × (rs : List (Report F)) × (after : Text) × All (IsFailure r.should_trigger)
        rs
      × (prompt
          ≡ before ++ (title r.should_trigger ++ (result_lines rs ++ (result_line r ++ after))))

  result_lines-append :
      (rs : List (Report F)) (r : Report F) (ss : List (Report F)) (rest : Text)
      → result_lines (rs ++ r ∷ ss) ++ rest
        ≡ result_lines rs ++ (result_line r ++ (result_lines ss ++ rest))
  unfolding result_lines
  result_lines-append [] r ss rest = append_assoc (result_line r) (result_lines ss) rest
  result_lines-append (q ∷ rs) r ss rest =
      append_assoc (result_line q) (result_lines (rs ++ r ∷ ss)) rest
      ∙ ap (λ t. result_line q ++ t) (result_lines-append rs r ss rest)
      ∙ sym (
          append_assoc (result_line q) (result_lines rs)
            (result_line r ++ (result_lines ss ++ rest)))

  failed_as-IsFailure : (b : Bool) (r : Report F) → failed_as b r ≡ true → IsFailure b r
  failed_as-IsFailure true r h = ground arith
  failed_as-IsFailure false r h = ground arith

  IsFailure-failed_as : (b : Bool) (r : Report F) → IsFailure b r → failed_as b r ≡ true
  IsFailure-failed_as true r (s, p) = rw (s, p) refl
  IsFailure-failed_as false r (s, p) = rw (s, p) refl

  -- The failures of a label in front of one of them, and those behind.
  failures-split :
      (b : Bool) (r : Report F) (results : List (Report F))
      → IsIn r results
      → IsFailure b r
      → (rs : List (Report F)) × (ss : List (Report F)) × All (IsFailure b) rs
        × (failures b results ≡ rs ++ r ∷ ss)
  failures-split b r [] m h = absurd m
  failures-split b r (q ∷ results) (inl e) h =
      let kept = ap (failed_as b) e ∙ IsFailure-failed_as b r h in
      ([], failures b results, tt, rw kept (ap (λ x. x ∷ failures b results) e))
  failures-split b r (q ∷ results) (inr m) h =
      let (rs, ss, fails, eq) = failures-split b r results m h in
      elim (Bool-cases (failed_as b q)) [
        | inl t ↦ (q ∷ rs, ss, (failed_as-IsFailure b q t, fails), rw t (ap (λ xs. q ∷ xs) eq))
        | inr f ↦ (rs, ss, fails, rw f eq)
      ]

  section-append :
      (heading : Text) (rs : List (Report F)) (r : Report F) (ss : List (Report F)) (rest : Text)
      → section heading (rs ++ r ∷ ss) ++ rest
        ≡ heading
          ++ (result_lines rs ++ (result_line r ++ (result_lines ss ++ (codes "\n" ++ rest))))
  unfolding section
  section-append heading rs r ss rest =
      section_of rs
      ∙ ap (λ t. heading ++ t)
          (append_assoc (result_lines (rs ++ r ∷ ss)) (codes "\n") rest
            ∙ result_lines-append rs r ss (codes "\n" ++ rest))
    where
      section_of :
          (rs : List (Report F))
          → section heading (rs ++ r ∷ ss) ++ rest
            ≡ heading ++ ((result_lines (rs ++ r ∷ ss) ++ codes "\n") ++ rest)
      section_of [] = append_assoc heading (result_lines (r ∷ ss) ++ codes "\n") rest
      section_of (q ∷ qs) =
          append_assoc heading (result_lines (q ∷ qs ++ r ∷ ss) ++ codes "\n") rest

  -- Where the two sections stand in a text, a failure stands there.
  sections-StandsIn :
      (head rest : Text) (results : List (Report F)) (r : Report F) (b : Bool)
      → IsIn r results
      → IsFailure b r
      → StandsIn r (
          head
          ++ (section (title true) (failures true results)
              ++ (section (title false) (failures false results) ++ rest)))
  sections-StandsIn head rest results r true m h =
      let (rs, ss, fails, eq) = failures-split true r results m h in
      let behind = section (title false) (failures false results) ++ rest in
      (
        head,
        rs,
        result_lines ss ++ (codes "\n" ++ behind),
        subst (λ b. All (IsFailure b) rs) (sym h.0) fails,
        ap (λ fs. head ++ (section (title true) fs ++ behind)) eq
            ∙ ap (λ t. head ++ t) (section-append (title true) rs r ss behind)
            ∙ ap
                (λ b.
                  head
                  ++ (title b
                      ++ (result_lines rs
                          ++ (result_line r ++ (result_lines ss ++ (codes "\n" ++ behind))))))
                (sym h.0),
      )
  sections-StandsIn head rest results r false m h =
      let (rs, ss, fails, eq) = failures-split false r results m h in
      let front = section (title true) (failures true results) in
      (
        head ++ front,
        rs,
        result_lines ss ++ (codes "\n" ++ rest),
        subst (λ b. All (IsFailure b) rs) (sym h.0) fails,
        sym (append_assoc head front (section (title false) (failures false results) ++ rest))
            ∙ ap (λ fs. (head ++ front) ++ (section (title false) fs ++ rest)) eq
            ∙ ap (λ t. (head ++ front) ++ t) (section-append (title false) rs r ss rest)
            ∙ ap
                (λ b.
                  (head ++ front)
                  ++ (title b
                      ++ (result_lines rs
                          ++ (result_line r ++ (result_lines ss ++ (codes "\n" ++ rest))))))
                (sym h.0),
      )

  module _ (repr : List (Report F) → Text)
      (skill_name skill_content current_description : Text) where
    -- If there is a prompt, each result that failed has its line in it, under the title of its label,
    -- with only lines of failures of that label between the title and that line.
    pub prompt_of-StandsIn :
        (results : List (Report F)) (counts : ℕ × ℕ) (test_counts : Option (ℕ × ℕ))
        (history : List (Dict (Cell F))) (r : Report F) {prompt : Text}
        → prompt_of repr skill_name skill_content current_description results counts test_counts
            history
          ≡ ok prompt
        → IsIn r results
        → r.pass ≡ false
        → StandsIn r prompt
    unfolding prompt_of
    prompt_of-StandsIn results counts test_counts history r {prompt} e m failed =
        let head = prompt_head skill_name current_description (scores_summary counts test_counts) in
        let all = λ (tried : Text).
          head
          ++ (section (title true) (failures true results)
              ++ (section (title false) (failures false results)
                  ++ (tried ++ prompt_tail skill_content))) in
        let (tried, made, last) =
          >>=-ok (previous_attempts repr history) (λ tried. ok (all tried)) e in
        let same : all tried ≡ prompt = cc in
        subst (StandsIn r) same (
          sections-StandsIn head (tried ++ prompt_tail skill_content) results r r.should_trigger m
            (refl, failed))
