-- ===== src/Json.antt =====
-- The values that `json.loads` returns, over an unknown type of numbers, and Python's operations on
-- them that the scripts under .agents/skills/skill-creator/scripts call: `.get`, `in`, iteration,
-- comparison with a literal. An operation that a value's type does not have raises.
use my_besu_net.Base.{◌≡◌, refl}
use my_besu_net.Base.{Bool, false, ◌||◌, [], ◌∷◌, ◌++◌, String, if◌then◌else◌}
use my_besu_net.Base.Text.{Text, is, equal, includes}

mutual
  pub data Value (N : Type 0) : Type 0 where
    null : Value N
    boolean : Bool → Value N
    num : N → Value N
    str : Text → Value N
    arr : Items N → Value N
    obj : Fields N → Value N

  pub data Items (N : Type 0) : Type 0 where
    nil : Items N
    cons : Value N → Items N → Items N

  pub data Fields (N : Type 0) : Type 0 where
    end : Fields N
    field : Text → Value N → Fields N → Fields N

-- The exceptions of the modelled code.
pub data Exc : Type 0 where
  attribute_error type_error key_error index_error value_error os_error runtime_error : Exc
  zero_division_error timeout_expired : Exc

-- A value, or an exception on its way up.
pub data Result {ℓ} (A : Type ℓ) : Type ℓ where
  ok : A → Result A
  raise : Exc → Result A

infixl 5 ◌>>=◌
abbrev pub ◌>>=◌ {ℓ κ} : {X : Type ℓ} {Y : Type κ} → Result X → (X → Result Y) → Result Y
raise e >>= k = raise e
ok x >>= k = k x

module _ {ℓ κ} {X : Type ℓ} {Y : Type κ} where
  -- What a bind with a value at its end went through.
  pub >>=-ok :
      (first : Result X) (k : X → Result Y) {y : Y}
      → first >>= k ≡ ok y
      → (x : X) × (first ≡ ok x) × (k x ≡ ok y)
  >>=-ok (raise e) k eq = cc
  >>=-ok (ok x) k eq = (x, refl, eq)

module _ {N : Type 0} where
  -- `d[k]` of a dict that holds `k`, and the default where it does not
  unfoldable pub lookup_or : String → Fields N → Value N → Value N
  lookup_or k end d = d
  lookup_or k (field j v fs) d = if is k j then v else lookup_or k fs d

  -- `v.get(k, d)`
  unfoldable pub get : Value N → String → Value N → Result (Value N)
  unfolding lookup_or
  get (obj fs) k d = ok (lookup_or k fs d)
  get _ k d = raise attribute_error

  -- `v == "lit"`
  unfoldable pub is_str : String → Value N → Bool
  is_str lit (str t) = is lit t
  is_str lit _ = false

  -- one character of a text, as the text that an iteration yields
  unfoldable pub characters : Text → Items N
  characters [] = nil
  characters (c ∷ t) = cons (str (c ∷ [])) (characters t)

  unfoldable pub keys : Fields N → Items N
  keys end = nil
  keys (field k v fs) = cons (str k) (keys fs)

  -- `for x in v`
  unfoldable pub iterate : Value N → Result (Items N)
  unfolding characters keys
  iterate (arr xs) = ok xs
  iterate (str t) = ok (characters t)
  iterate (obj fs) = ok (keys fs)
  iterate _ = raise type_error

  unfoldable pub has_item : Text → Items N → Bool
  has_item t nil = false
  has_item t (cons (str s) xs) = equal t s || has_item t xs
  has_item t (cons _ xs) = has_item t xs

  -- `t in v`, for a text `t`
  unfoldable pub contains : Text → Value N → Result Bool
  unfolding has_item keys
  contains t (str s) = ok (includes t s)
  contains t (arr xs) = ok (has_item t xs)
  contains t (obj fs) = ok (has_item t (keys fs))
  contains t _ = raise type_error

  -- `s + v`, for a text `s`
  unfoldable pub add_text : Text → Value N → Result Text
  add_text s (str t) = ok (s ++ t)
  add_text s _ = raise type_error
