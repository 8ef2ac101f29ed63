-- ===== src/Resilient/Characters.antt =====
-- The characters that the steps of `generate_filename` of resilient_diagram.py leave.
use my_besu_net.Base.{
  ℕ, zero, suc, ◌+◌, ◌/◌, ◌%◌, ◌≤◌, Bool, true, false, [], ◌∷◌, ◌++◌, ◌≡◌, refl, sym, ap, ◌∙◌,
  arith, ltb, if◌then◌else◌, take, Bool-cases, inl, inr,
}
use my_besu_net.Base.Text.{Text, codes, strip_char, rstrip_by, lstrip_by}
use my_besu_net.Base.Int.{ℤ, pos, negsuc, digits}
use my_besu_net.Resilient.Detect.{
  DiagramType, value, flowchart, sequence, class, state, er, gantt, pie, mindmap, timeline,
  quadrant, requirement, journey, c4, unknown,
}
use my_besu_net.Resilient.Filename.{
  underscore, is_alnum, is_file_char, replace_others, collapse, safe_md, two_digits,
}
use my_besu_net.Validate.Names.{every}

pub every-append :
    (p : ℕ → Bool) (s t : Text) → every p s ≡ true → every p t ≡ true → every p (s ++ t) ≡ true
every-append p [] t h k = k
every-append p (c ∷ s) t h k = ground (arith, every-append p s t)

pub every-replace_others :
    (p q : ℕ → Bool) (t : Text)
    → q underscore ≡ true
    → ((c : ℕ) → p c ≡ true → q c ≡ true)
    → every q (replace_others p t) ≡ true
unfolding replace_others
every-replace_others p q [] u h = refl
every-replace_others p q (c ∷ t) u h = ground (arith, every-replace_others p q t u h, h c)

pub every-collapse : (p : ℕ → Bool) (t : Text) → every p t ≡ true → every p (collapse t) ≡ true
unfolding collapse
every-collapse p [] h = refl
every-collapse p (c ∷ t) h = ground (arith, every-collapse p t)

pub every-lstrip_by :
    (p q : ℕ → Bool) (t : Text) → every p t ≡ true → every p (lstrip_by q t) ≡ true
every-lstrip_by p q [] h = refl
every-lstrip_by p q (c ∷ t) h = ground (arith, every-lstrip_by p q t)

-- A text without its trailing characters begins what it was.
pub rstrip_by-take : (q : ℕ → Bool) (t : Text) → (n : ℕ) × (rstrip_by q t ≡ take n t)
rstrip_by-take q [] = (0, refl)
rstrip_by-take q (c ∷ t) = let (n, e) = rstrip_by-take q t in go (rstrip_by q t) n refl e
  where
    go :
        (r : Text) (n : ℕ)
        → rstrip_by q t ≡ r
        → rstrip_by q t ≡ take n t
        → (m : ℕ) × (rstrip_by q (c ∷ t) ≡ take m (c ∷ t))
    go [] n a e = elim (Bool-cases (q c)) [ inl b ↦ (0, rw (a, b)) | inr b ↦ (1, rw (a, b)) ]
    go (x ∷ r) n a e = (suc n, rw a (ap (◌∷◌ c) (sym a ∙ e)))

pub every-take : (p : ℕ → Bool) (n : ℕ) (t : Text) → every p t ≡ true → every p (take n t) ≡ true
every-take p zero t h = refl
every-take p (suc n) [] h = refl
every-take p (suc n) (c ∷ t) h = ground (arith, every-take p n t)

pub every-rstrip_by :
    (p q : ℕ → Bool) (t : Text) → every p t ≡ true → every p (rstrip_by q t) ≡ true
every-rstrip_by p q t h = let (n, e) = rstrip_by-take q t in rw e (every-take p n t h)

every-strip_char :
    (p : ℕ → Bool) (c : ℕ) (t : Text) → every p t ≡ true → every p (strip_char c t) ≡ true
unfolding strip_char
every-strip_char p c t h = every-rstrip_by p _ _ (every-lstrip_by p _ t h)

digit : (n : ℕ) → n ≤ 9 → is_file_char (b'0' + n) ≡ true
unfolding is_file_char is_alnum
digit n h = ground arith

every-digits :
    (fuel n : ℕ) (t : Text)
    → every is_file_char t ≡ true
    → every is_file_char (digits fuel n t) ≡ true
unfolding digits
every-digits zero n t h = h
every-digits (suc fuel) n t h = elim (Bool-cases (ltb n 10)) [
  | inl e ↦ rw e (rw (digit n (ground arith)) h)
  | inr e ↦ rw e (every-digits fuel (n / 10) _ (rw (digit (n % 10) (omega arith)) h))
]

is_alnum-is_file_char : (c : ℕ) → is_alnum c ≡ true → is_file_char c ≡ true
unfolding is_file_char
is_alnum-is_file_char c h = rw h

pub every-safe_md : (lower : Text → Text) (t : Text) → every is_file_char (safe_md lower t) ≡ true
unfolding safe_md is_file_char
every-safe_md lower t =
    let replaced = replace_others is_file_char (lower t) in
    every-strip_char is_file_char underscore (collapse replaced) (
      every-collapse is_file_char replaced
        (every-replace_others is_file_char is_file_char (lower t) refl (λ c h. h)))

every-padded :
    (b : Bool) (t : Text)
    → every is_file_char t ≡ true
    → every is_file_char (if b then codes "0" ++ t else t) ≡ true
every-padded true t h = rw (digit 0 (omega arith)) h
every-padded false t h = h

hyphen-is_file_char : is_file_char b'-' ≡ true
unfolding is_file_char is_alnum
hyphen-is_file_char = refl

pub every-two_digits : (n : ℤ) → every is_file_char (two_digits n) ≡ true
unfolding two_digits digits
every-two_digits (pos n) =
    every-padded (ltb n 10) (digits (suc n) n []) (every-digits (suc n) n [] refl)
every-two_digits (negsuc n) =
    every-append is_file_char (codes "-") (digits (suc (suc n)) (suc n) [])
      (rw hyphen-is_file_char refl) (every-digits (suc (suc n)) (suc n) [] refl)

pub every-value : (t : DiagramType) → every is_file_char (value t) ≡ true
unfolding is_file_char is_alnum
every-value flowchart = refl
every-value sequence = refl
every-value class = refl
every-value state = refl
every-value er = refl
every-value gantt = refl
every-value pie = refl
every-value mindmap = refl
every-value timeline = refl
every-value quadrant = refl
every-value requirement = refl
every-value journey = refl
every-value c4 = refl
every-value unknown = refl
