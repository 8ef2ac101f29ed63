-- ===== src/Base/RegexFuel.antt =====
-- The fuel of the matcher of regular expressions.
use Prim.Native.Nat.{ℕ, zero, suc, ◌≤◌}
use mathlib.Core.Bool.{false}
use mathlib.Core.List.{List, [], ◌∷◌, ◌++◌}
use mathlib.Core.Logic.{inl, inr}
use mathlib.Core.Path.{◌≡◌, refl, sym, ap, ap₂, ◌∙◌}
use native.Mathlib.Omega.{arith}
use my_besu_net.Base.Lists.{length, All, All-append}
use my_besu_net.Base.Logic.{ltb, ltb→lt, Bool-cases}
use my_besu_net.Base.Regex.{
  Regex, empty, char, seq, alt, star, lazy, group, Match, flat_map, note_group, shorter, matches,
}
use my_besu_net.Base.Text.{Text}

-- What a match leaves is at most `n` characters.
abbrev Leaves : ℕ → Match → Type 0
Leaves n m = length m.0 ≤ n

flat_map-All :
    (n k : ℕ) (f : Match → List Match) (ms : List Match)
    → All (Leaves n) ms
    → ((m : Match) → Leaves n m → All (Leaves k) (f m))
    → All (Leaves k) (flat_map f ms)
flat_map-All n k f [] h each = tt
flat_map-All n k f (m ∷ ms) h each =
    All-append (Leaves k) (f m) (flat_map f ms) (each m h.0) (flat_map-All n k f ms h.1 each)

flat_map_ext :
    (n : ℕ) (f g : Match → List Match) (ms : List Match)
    → All (Leaves n) ms
    → ((m : Match) → Leaves n m → f m ≡ g m)
    → flat_map f ms ≡ flat_map g ms
flat_map_ext n f g [] h each = refl
flat_map_ext n f g (m ∷ ms) h each = ap₂ (◌++◌) (each m h.0) (flat_map_ext n f g ms h.1 each)

note_group-All :
    (k n : ℕ) (s : Text) (ms : List Match) → All (Leaves k) ms → All (Leaves k) (note_group n s ms)
note_group-All k n s [] h = tt
note_group-All k n s (m ∷ ms) h = (h.0, note_group-All k n s ms h.1)

shorter-All :
    (n : ℕ) (s : Text) (ms : List Match) → length s ≤ suc n → All (Leaves n) (shorter s ms)
shorter-All n s [] h = tt
shorter-All n s ((rest, groups) ∷ ms) h = elim (Bool-cases (ltb (length rest) (length s))) [
  | inl e ↦ rw e ((omega (arith, ltb→lt (length rest) (length s) e)), shorter-All n s ms h)
  | inr e ↦ rw e (shorter-All n s ms h)
]

ltb-zero : (n : ℕ) → ltb n 0 ≡ false
ltb-zero n = ground arith

shorter-nil : (ms : List Match) → shorter [] ms ≡ []
shorter-nil [] = refl
shorter-nil ((rest, groups) ∷ ms) = rw (ltb-zero (length rest)) (shorter-nil ms)

matches-All : (n fuel : ℕ) (r : Regex) (m : Match) → Leaves n m → All (Leaves n) (matches fuel r m)
unfolding matches
matches-All n fuel empty m h = (h, tt)
matches-All n fuel (char p) ([], groups) h = tt
matches-All n fuel (char p) (c ∷ s, groups) h = elim (Bool-cases (p c)) [
  | inl e ↦ rw e ((omega arith), tt)
  | inr e ↦ rw e tt
]
matches-All n fuel (seq r q) m h =
    flat_map-All n n (matches fuel q) (matches fuel r m) (matches-All n fuel r m h)
      (matches-All n fuel q)
matches-All n fuel (alt r q) m h =
    All-append (Leaves n) (matches fuel r m) (matches fuel q m) (matches-All n fuel r m h)
      (matches-All n fuel q m h)
matches-All n zero (star r) m h = (h, tt)
matches-All n (suc fuel) (star r) m h =
    All-append (Leaves n) (flat_map (matches fuel (star r)) (shorter m.0 (matches (suc fuel) r m)))
      (m ∷ [])
      (flat_map-All n n (matches fuel (star r)) (shorter m.0 (matches (suc fuel) r m))
        (shorter-All n m.0 (matches (suc fuel) r m) (omega (arith, h)))
        (matches-All n fuel (star r)))
      (h, tt)
matches-All n zero (lazy r) m h = (h, tt)
matches-All n (suc fuel) (lazy r) m h = (
  h,
  flat_map-All n n (matches fuel (lazy r)) (shorter m.0 (matches (suc fuel) r m))
      (shorter-All n m.0 (matches (suc fuel) r m) (omega (arith, h))) (matches-All n fuel (lazy r)),
)
matches-All n fuel (group k r) m h =
    note_group-All n k m.0 (matches fuel r m) (matches-All n fuel r m h)

-- As much fuel as the text has characters is enough.
matches-enough :
    (fuel : ℕ) (r : Regex) (m : Match) → Leaves fuel m → matches fuel r m ≡ matches (suc fuel) r m
unfolding matches
matches-enough fuel empty m h = refl
matches-enough fuel (char p) ([], groups) h = refl
matches-enough fuel (char p) (c ∷ s, groups) h = refl
matches-enough fuel (seq r q) m h =
    flat_map_ext fuel (matches fuel q) (matches (suc fuel) q) (matches fuel r m)
      (matches-All fuel fuel r m h) (matches-enough fuel q)
    ∙ ap (flat_map (matches (suc fuel) q)) (matches-enough fuel r m h)
matches-enough fuel (alt r q) m h =
    ap₂ (◌++◌) (matches-enough fuel r m h) (matches-enough fuel q m h)
matches-enough zero (star r) ([], groups) h = sym (
    ap (λ ms. flat_map (matches 0 (star r)) ms ++ ([], groups) ∷ [])
      (shorter-nil (matches 1 r ([], groups))))
matches-enough zero (star r) (c ∷ s, groups) h = ground (arith, h)
matches-enough (suc fuel) (star r) m h =
    ap (λ ms. ms ++ m ∷ [])
      (flat_map_ext fuel (matches fuel (star r)) (matches (suc fuel) (star r))
          (shorter m.0 (matches (suc fuel) r m)) (shorter-All fuel m.0 (matches (suc fuel) r m) h)
          (matches-enough fuel (star r))
        ∙ ap (λ ms. flat_map (matches (suc fuel) (star r)) (shorter m.0 ms))
            (matches-enough (suc fuel) r m h))
matches-enough zero (lazy r) ([], groups) h = sym (
    ap (λ ms. ([], groups) ∷ flat_map (matches 0 (lazy r)) ms)
      (shorter-nil (matches 1 r ([], groups))))
matches-enough zero (lazy r) (c ∷ s, groups) h = ground (arith, h)
matches-enough (suc fuel) (lazy r) m h =
    ap (λ ms. m ∷ ms)
      (flat_map_ext fuel (matches fuel (lazy r)) (matches (suc fuel) (lazy r))
          (shorter m.0 (matches (suc fuel) r m)) (shorter-All fuel m.0 (matches (suc fuel) r m) h)
          (matches-enough fuel (lazy r))
        ∙ ap (λ ms. flat_map (matches (suc fuel) (lazy r)) (shorter m.0 ms))
            (matches-enough (suc fuel) r m h))
matches-enough fuel (group n r) m h = ap (note_group n m.0) (matches-enough fuel r m h)
