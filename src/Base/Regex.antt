-- ===== src/Base/Regex.antt =====
-- Python's regular expressions as far as the scripts use them. A match is tried in the order of a
-- backtracking matcher: the first of the listed matches is the one that `re` reports.
use Prim.Native.Nat.{ℕ, zero, suc, ◌-◌}
use Prim.Native.String.{String}
use mathlib.Core.Bool.{Bool, true, not}
use mathlib.Core.List.{List, [], ◌∷◌, ◌++◌}
use mathlib.Core.Option.{Option, none, some}
use my_besu_net.Base.Lists.{length, take}
use my_besu_net.Base.Logic.{◌==◌, ltb, if◌then◌else◌}
use my_besu_net.Base.Text.{Text, codes, is_space}

pub data Regex : Type 0 where
  empty : Regex
  -- one character that passes a test
  char : (ℕ → Bool) → Regex
  seq : Regex → Regex → Regex
  alt : Regex → Regex → Regex
  -- `r*` and `r*?`
  star : Regex → Regex
  lazy : Regex → Regex
  -- a numbered group
  group : ℕ → Regex → Regex

-- the rest of the text, and the groups so far, the last one first
abbrev pub Match : Type 0
Match = Text × List (ℕ × Text)

abbrev pub flat_map {ℓ} : {A : Type ℓ} → (A → List A) → List A → List A
flat_map f [] = []
flat_map f (x ∷ xs) = f x ++ flat_map f xs

-- what stands in front of the rest
abbrev pub front : Text → Text → Text
front s rest = take (length s - length rest) s

abbrev pub note_group : ℕ → Text → List Match → List Match
note_group n s [] = []
note_group n s ((rest, groups) ∷ ms) = (rest, (n, front s rest) ∷ groups) ∷ note_group n s ms

-- the matches that have taken a character
abbrev pub shorter : Text → List Match → List Match
shorter s [] = []
shorter s ((rest, groups) ∷ ms) =
    let others = shorter s ms in
    if ltb (length rest) (length s) then (rest, groups) ∷ others else others

-- The matches at the front of a text. The fuel bounds the rounds of a repetition, each of which takes a
-- character: the length of the text is enough.
unfoldable pub matches : ℕ → Regex → Match → List Match
matches fuel empty m = m ∷ []
matches fuel (char p) ([], groups) = []
matches fuel (char p) (c ∷ s, groups) = if p c then (s, groups) ∷ [] else []
matches fuel (seq r q) m = flat_map (matches fuel q) (matches fuel r m)
matches fuel (alt r q) m = matches fuel r m ++ matches fuel q m
matches zero (star r) m = m ∷ []
matches (suc fuel) (star r) m =
    flat_map (matches fuel (star r)) (shorter m.0 (matches (suc fuel) r m)) ++ m ∷ []
matches zero (lazy r) m = m ∷ []
matches (suc fuel) (lazy r) m =
    m ∷ flat_map (matches fuel (lazy r)) (shorter m.0 (matches (suc fuel) r m))
matches fuel (group n r) m = note_group n m.0 (matches fuel r m)

-- a text as it stands
abbrev pub exact : Text → Regex
exact [] = empty
exact (c ∷ t) = seq (char (λ x. x == c)) (exact t)

abbrev pub lit : String → Regex
lit s = exact (codes s)

-- `r+`, `r+?`, `r?`
abbrev pub plus : Regex → Regex
plus r = seq r (star r)

abbrev pub lazy_plus : Regex → Regex
lazy_plus r = seq r (lazy r)

abbrev pub opt : Regex → Regex
opt r = alt r empty

-- `.` with and without `re.DOTALL`, `\s`
abbrev pub any_char : Regex
any_char = char (λ c. true)

abbrev pub not_newline : Regex
not_newline = char (λ c. not (c == 10))

unfoldable pub space : Regex
space = char is_space

abbrev first_match : List Match → Option Match
first_match [] = none
first_match (m ∷ ms) = some m

-- `re.search`: the rest behind the first match, and its groups
unfoldable pub search_at : Regex → Text → Option Match
unfolding matches
search_at r [] = first_match (matches 1 r ([], []))
search_at r (c ∷ t) =
    let later = search_at r t in
    elim (first_match (matches (suc (length (c ∷ t))) r (c ∷ t, []))) [
      | some m ↦ some m
      | none ↦ later
    ]

-- `m.group(n)`
unfoldable pub group_of : ℕ → Match → Text
group_of n (rest, []) = []
group_of n (rest, (k, t) ∷ groups) = if k == n then t else group_of n (rest, groups)

-- `re.finditer`, for an expression that takes a character: on fuel, the length of the text
unfoldable pub find_iter : ℕ → Regex → Text → List Match
unfolding search_at
find_iter zero r t = []
find_iter (suc fuel) r t = elim (search_at r t) [
  | none ↦ []
  | some (rest, groups) ↦ (rest, groups) ∷ find_iter fuel r rest
]
