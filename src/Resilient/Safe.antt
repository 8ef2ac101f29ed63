-- ===== src/Resilient/Safe.antt =====
-- The file names of resilient_diagram.py hold no character that a path treats in a special way.
use my_besu_net.Base.{
  ℕ, zero, suc, ◌≤◌, Bool, true, false, not, ◌&&◌, ◌||◌, [], ◌∷◌, ◌++◌, ◌≡◌, refl, arith, ◌==◌,
  take, length, length-take-le,
}
use my_besu_net.Base.Text.{
  Text, codes, strip_char, rstrip_by, lstrip_by, starts_with, ends_in, includes,
}
use my_besu_net.Base.Int.{ℤ}
use my_besu_net.Resilient.Detect.{DiagramType, value}
use my_besu_net.Resilient.Filename.{
  underscore, is_alnum, is_file_char, replace_others, begins_with, collapse, safe_md, safe_title,
  two_digits, generate_filename,
}
use my_besu_net.Validate.Names.{every}
use my_besu_net.Resilient.Characters.{
  every-append, every-replace_others, every-collapse, every-lstrip_by, rstrip_by-take, every-take,
  every-rstrip_by, every-safe_md, every-two_digits, every-value,
}

-- The title of a file name is at most 20 characters, letters, digits and underscores, with no
-- underscore at its ends and no two side by side.
pub record IsTitle (t : Text) : Type 0 where
  pub characters : every (λ c. is_alnum c || c == underscore) t ≡ true
  pub short : length t ≤ 20
  pub begins : begins_with underscore t ≡ false
  pub ends : ends_in underscore t ≡ false
  pub single : includes (codes "__") t ≡ false

-- no two underscores side by side
tidy : Text → Bool
tidy [] = true
tidy (c ∷ t) = not (c == underscore && begins_with underscore t) && tidy t

begins_with-collapse : (t : Text) → begins_with underscore (collapse t) ≡ begins_with underscore t
unfolding collapse
begins_with-collapse [] = refl
begins_with-collapse (c ∷ t) = ground (arith, begins_with-collapse t)

tidy-collapse : (t : Text) → tidy (collapse t) ≡ true
unfolding tidy collapse
tidy-collapse [] = refl
tidy-collapse (c ∷ t) = ground (arith, begins_with-collapse t, tidy-collapse t)

tidy-lstrip_by : (q : ℕ → Bool) (t : Text) → tidy t ≡ true → tidy (lstrip_by q t) ≡ true
unfolding tidy
tidy-lstrip_by q [] h = refl
tidy-lstrip_by q (c ∷ t) h = ground (arith, tidy-lstrip_by q t)

begins_with-take :
    (n : ℕ) (t : Text)
    → begins_with underscore t ≡ false
    → begins_with underscore (take n t) ≡ false
begins_with-take zero t h = refl
begins_with-take (suc n) [] h = refl
begins_with-take (suc n) (c ∷ t) h = h

tidy-take : (n : ℕ) (t : Text) → tidy t ≡ true → tidy (take n t) ≡ true
unfolding tidy
tidy-take zero t h = refl
tidy-take (suc n) [] h = refl
tidy-take (suc n) (c ∷ t) h = ground (arith, begins_with-take n t, tidy-take n t)

begins_with-lstrip_by :
    (t : Text) → begins_with underscore (lstrip_by (λ c. c == underscore) t) ≡ false
begins_with-lstrip_by [] = refl
begins_with-lstrip_by (c ∷ t) = ground (arith, begins_with-lstrip_by t)

ends_in-rstrip_by : (t : Text) → ends_in underscore (rstrip_by (λ c. c == underscore) t) ≡ false
unfolding ends_in
ends_in-rstrip_by [] = refl
ends_in-rstrip_by (c ∷ t) = ground (arith, ends_in-rstrip_by t)

includes-tidy : (t : Text) → tidy t ≡ true → includes (codes "__") t ≡ false
unfolding tidy includes starts_with
includes-tidy [] h = refl
includes-tidy (c ∷ []) h = ground arith
includes-tidy (c ∷ d ∷ t) h = ground (arith, includes-tidy (d ∷ t))

length-take-shorter : (m : ℕ) (t : Text) → length (take m t) ≤ length t
length-take-shorter zero t = omega arith
length-take-shorter (suc m) [] = omega arith
length-take-shorter (suc m) (c ∷ t) = omega (arith, length-take-shorter m t)

length-take-take : (m n : ℕ) (t : Text) → length (take m (take n t)) ≤ n
length-take-take m n t = omega (arith, length-take-shorter m (take n t), length-take-le n t)

-- The title that a file name ends with is of that form, for every title.
pub safe_title-IsTitle : (lower : Text → Text) (title : Text) → IsTitle (safe_title lower title)
unfolding safe_title strip_char
safe_title-IsTitle lower title =
    let only = λ (c : ℕ). is_alnum c || c == underscore in
    let replaced = replace_others is_alnum (lower title) in
    let left = lstrip_by (λ c. c == underscore) (collapse replaced) in
    let ends = λ (c : ℕ). c == underscore in
    let (n, e) = rstrip_by-take ends left in
    let stripped = take n left in
    let cut = take 20 stripped in
    let (m, f) = rstrip_by-take ends cut in
    let cut_begins =
      begins_with-take 20 stripped
        (begins_with-take n left (begins_with-lstrip_by (collapse replaced))) in
    let cut_tidy =
      tidy-take 20 stripped
        (tidy-take n left (tidy-lstrip_by ends (collapse replaced) (tidy-collapse replaced))) in
    let left_only = every-lstrip_by only ends (collapse replaced) (
      every-collapse only replaced
        (every-replace_others is_alnum only (lower title) (ground arith) (λ c h. rw h))) in
    rw e (record {
      characters =
          every-rstrip_by only ends cut
            (every-take only 20 stripped (every-take only n left left_only));
      short = rw f (length-take-take m 20 stripped);
      begins = rw f (begins_with-take m cut cut_begins);
      ends = ends_in-rstrip_by cut;
      single = rw f (includes-tidy (take m cut) (tidy-take m cut cut_tidy));
    })

underscore-is_file_char : is_file_char underscore ≡ true
unfolding is_file_char is_alnum
underscore-is_file_char = refl

every_weaken :
    (t : Text) → every (λ c. is_alnum c || c == underscore) t ≡ true → every is_file_char t ≡ true
unfolding is_file_char
every_weaken [] h = refl
every_weaken (c ∷ t) h = ground (arith, every_weaken t)

-- A file name has letters, digits, underscores and hyphens alone, for every source file, number, type
-- and title: no dot and no slash.
generate_filename_safe :
    (lower : Text → Text) (markdown_file : Text) (diagram_num : ℤ) (t : DiagramType) (title : Text)
    → every is_file_char (generate_filename lower markdown_file diagram_num t title) ≡ true
unfolding generate_filename
generate_filename_safe lower markdown_file diagram_num t title =
    let title_ok =
      every_weaken (safe_title lower title) (safe_title-IsTitle lower title).characters in
    let last = underscore ∷ safe_title lower title in
    let middle = underscore ∷ value t ++ last in
    every-append is_file_char (safe_md lower markdown_file)
      (underscore ∷ two_digits diagram_num ++ middle) (every-safe_md lower markdown_file)
      (separated (two_digits diagram_num ++ middle) (
        every-append is_file_char (two_digits diagram_num) middle (every-two_digits diagram_num) (
          separated (value t ++ last) (
            every-append is_file_char (value t) last (every-value t)
              (separated (safe_title lower title) title_ok)))))
  where
    separated :
        (s : Text) → every is_file_char s ≡ true → every is_file_char (underscore ∷ s) ≡ true
    separated s h = rw underscore-is_file_char h
