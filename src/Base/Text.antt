-- ===== src/Base/Text.antt =====
-- Python's `str` as the list of its code points, and the methods of `str` that the scripts call.
use Prim.Native.Char.{code}
use Prim.Native.Nat.{ℕ}
use Prim.Native.String.{String}
use mathlib.Core.Bool.{Bool, true, false, ◌&&◌, ◌||◌}
use mathlib.Core.Logic.{◌↔◌}
use mathlib.Core.List.{List, [], ◌∷◌, ◌++◌}
use mathlib.Core.Path.{◌≡◌, refl}
use native.Mathlib.Omega.{arith}
use mathlib.Core.Option.{Option, none, some}
use my_besu_net.Base.Lists.{length, drop}
use my_besu_net.Base.Logic.{◌==◌, leb, if◌then◌else◌}

abbrev pub Text : Type 0
Text = List ℕ

-- The code points of a literal.
abbrev pub codes : String → Text
codes String.[] = []
codes (String.◌∷◌ c s) = code c ∷ codes s

-- `s == t`
unfoldable pub equal : Text → Text → Bool
equal [] [] = true
equal (x ∷ s) (y ∷ t) = x == y && equal s t
equal _ _ = false

-- `t == "lit"`, with the literal kept whole.
unfoldable pub is : String → Text → Bool
unfolding equal
is lit t = equal t (codes lit)

-- `s.startswith(p)`
unfoldable pub starts_with : Text → Text → Bool
starts_with s [] = true
starts_with (x ∷ s) (y ∷ p) = x == y && starts_with s p
starts_with _ _ = false

-- `p in s`
unfoldable pub includes : Text → Text → Bool
unfolding starts_with
includes p [] = starts_with [] p
includes p (x ∷ s) = starts_with (x ∷ s) p || includes p s

-- What stands before and after the first `p` in `s`.
unfoldable pub partition : Text → Text → Option (Text × Text)
unfolding starts_with
partition p [] = if starts_with [] p then some ([], drop (length p) []) else none
partition p (x ∷ s) =
    let later = partition p s in
    if starts_with (x ∷ s) p
    then some ([], drop (length p) (x ∷ s))
    else elim later [ none ↦ none | some (before, after) ↦ some (x ∷ before, after) ]

-- `str.isspace`, for one character
unfoldable pub is_space : ℕ → Bool
is_space c =
    leb 9 c && leb c 13
    || leb 28 c && leb c 32
    || c == 0x85
    || c == 0xa0
    || c == 0x1680
    || leb 0x2000 c && leb c 0x200a
    || leb 0x2028 c && leb c 0x2029
    || c == 0x202f
    || c == 0x205f
    || c == 0x3000

-- `s.lstrip(…)`, for the characters that pass a test
abbrev pub lstrip_by : (ℕ → Bool) → Text → Text
lstrip_by p [] = []
lstrip_by p (x ∷ s) = let rest = lstrip_by p s in if p x then rest else x ∷ s

-- `s.rstrip(…)`
abbrev pub rstrip_by : (ℕ → Bool) → Text → Text
rstrip_by p [] = []
rstrip_by p (x ∷ s) = keep_end (rstrip_by p s)
  where
    keep_end : Text → Text
    keep_end [] = if p x then [] else x ∷ []
    keep_end (y ∷ r) = x ∷ y ∷ r

-- `s.strip()`
unfoldable pub strip : Text → Text
unfolding is_space
strip s = rstrip_by is_space (lstrip_by is_space s)

-- `s.strip(c)`
unfoldable pub strip_char : ℕ → Text → Text
strip_char c s = rstrip_by (λ x. x == c) (lstrip_by (λ x. x == c) s)

pub equal_iff : (s t : Text) → (equal s t ≡ true) ↔ (s ≡ t)
unfolding equal
equal_iff (x ∷ s) (y ∷ t) = ground (arith, equal_iff s t)
equal_iff _ _ = ground arith

pub equal_refl : (s : Text) → equal s s ≡ true
equal_refl s = (equal_iff s s).1 refl

-- a character in front of a text that is split; the flag says that it is the separator
unfoldable pub cons_first : Bool → ℕ → List Text → List Text
cons_first true x words = [] ∷ words
cons_first false x [] = (x ∷ []) ∷ []
cons_first false x (w ∷ words) = (x ∷ w) ∷ words

-- `s.split(c)`
unfoldable pub split_on : ℕ → Text → List Text
unfolding cons_first
split_on c [] = [] ∷ []
split_on c (x ∷ s) = cons_first (x == c) x (split_on c s)

-- A split has a first part.
pub split_on_first : (c : ℕ) (s : Text) → (w : Text) × (ws : List Text) × (split_on c s ≡ w ∷ ws)
unfolding split_on
split_on_first c [] = ([], [], refl)
split_on_first c (x ∷ s) =
    elim (x == c)
      as (λ b. (w : Text) × (ws : List Text) × (cons_first b x (split_on c s) ≡ w ∷ ws)) [
        | true ↦ ([], split_on c s, refl)
        | false ↦ let (w, ws, e) = split_on_first c s in (x ∷ w, ws, rw e)
      ]

-- `sep.join(words)`
unfoldable pub join : Text → List Text → Text
join sep [] = []
join sep (w ∷ []) = w
join sep (w ∷ v ∷ words) = w ++ (sep ++ join sep (v ∷ words))

-- `s.endswith(c)`, for one character
unfoldable pub ends_in : ℕ → Text → Bool
ends_in c [] = false
ends_in c (x ∷ []) = x == c
ends_in c (x ∷ y ∷ s) = ends_in c (y ∷ s)

-- `s[len(p):]`
abbrev pub drop_prefix : Text → Text → Text
drop_prefix p s = drop (length p) s

-- What begins with a text begins with the text's own beginning.
pub starts_with-prefix : (s p q : Text) → starts_with s (p ++ q) ≡ true → starts_with s p ≡ true
unfolding starts_with
starts_with-prefix [] [] q h = refl
starts_with-prefix (x ∷ s) [] q h = refl
starts_with-prefix [] (y ∷ p) q h = cc
starts_with-prefix (x ∷ s) (y ∷ p) q h = ground (arith, starts_with-prefix s p q)
