-- ===== src/Validate/Names.antt =====
-- The naming convention of skills (quick_validate.py, lines 63 to 68), and what the names are that
-- meet it.
use my_besu_net.Base.{
  ℕ, Bool, true, false, not, ◌&&◌, ◌||◌, List, [], ◌∷◌, ◌≡◌, refl, ◌∙◌, arith, leb, ◌==◌,
  if◌then◌else◌,
}
use my_besu_net.Base.Text.{Text, starts_with, includes, ends_in, split_on, split_on_first}

abbrev pub hyphen : ℕ
hyphen = b'-'

-- `[a-z0-9]`
unfoldable pub is_word_char : ℕ → Bool
is_word_char c = leb b'a' c && leb c b'z' || leb b'0' c && leb c b'9'

-- `[a-z0-9-]`
unfoldable pub is_kebab_char : ℕ → Bool
unfolding is_word_char
is_kebab_char c = is_word_char c || c == hyphen

abbrev pub every : (ℕ → Bool) → Text → Bool
every p [] = true
every p (c ∷ t) = p c && every p t

-- `name.startswith('-') or name.endswith('-') or '--' in name`
unfoldable pub misplaced_hyphen : Text → Bool
unfolding starts_with ends_in includes
misplaced_hyphen name =
    starts_with name (hyphen ∷ []) || ends_in hyphen name || includes (hyphen ∷ hyphen ∷ []) name

-- both tests, for a name that is not empty
unfoldable pub is_kebab : Text → Bool
unfolding is_kebab_char misplaced_hyphen
is_kebab name = every is_kebab_char name && not (misplaced_hyphen name)

abbrev non_empty : Text → Bool
non_empty [] = false
non_empty (c ∷ t) = true

-- The words between the hyphens: none empty, and of lower-case letters and digits alone.
abbrev pub all_words : List Text → Bool
all_words [] = true
all_words (w ∷ ws) = non_empty w && every is_word_char w && all_words ws

-- reads a name; the flag is set where a word must begin
reads : Bool → Text → Bool
reads begins [] = not begins
reads begins (c ∷ t) =
    if c == hyphen then not begins && reads true t else is_word_char c && reads false t

abbrev head_words : List Text → Bool → Bool
head_words [] begins = true
head_words (w ∷ ws) true = all_words (w ∷ ws)
head_words (w ∷ ws) false = every is_word_char w && all_words ws

reads-split_on : (t : Text) (begins : Bool) → reads begins t ≡ head_words (split_on hyphen t) begins
unfolding reads split_on
reads-split_on [] true = refl
reads-split_on [] false = refl
reads-split_on (c ∷ t) true =
    let (w, ws, e) = split_on_first hyphen t in
    rw e (ground (arith, e, reads-split_on t true, reads-split_on t false))
reads-split_on (c ∷ t) false =
    let (w, ws, e) = split_on_first hyphen t in
    rw e (ground (arith, e, reads-split_on t true, reads-split_on t false))

-- the tests of the source, from inside a name
rest_ok : Bool → Text → Bool
rest_ok begins name =
    every is_kebab_char name
    && not (
        (begins && starts_with name (hyphen ∷ []))
        || ends_in hyphen name
        || includes (hyphen ∷ hyphen ∷ []) name)

reads-rest_ok : (c : ℕ) (t : Text) (begins : Bool) → rest_ok begins (c ∷ t) ≡ reads begins (c ∷ t)
unfolding reads rest_ok starts_with ends_in includes is_kebab_char
reads-rest_ok c [] begins = ground arith
reads-rest_ok c (d ∷ t) begins = ground (arith, reads-rest_ok d t true, reads-rest_ok d t false)

-- A name that is not empty passes the tests of the source exactly when it is words of lower-case
-- letters and digits, none empty, joined by single hyphens.
pub is_kebab_words : (c : ℕ) (t : Text) → is_kebab (c ∷ t) ≡ all_words (split_on hyphen (c ∷ t))
unfolding is_kebab rest_ok
is_kebab_words c t =
    let (w, ws, e) = split_on_first hyphen (c ∷ t) in
    reads-rest_ok c t true ∙ reads-split_on (c ∷ t) true ∙ rw e
