-- ===== src/Floats.antt =====
-- Python's floats as the scripts use them: an unknown type with the operations that are called.
-- A theorem that relies on how they behave names the law that it relies on.
use my_besu_net.Base.{ℕ, ◌≤◌, Bool, true, not, ◌≡◌}

pub record Floats : Type 1 where
  pub F : Type 0
  -- `a / b`, for ints and a positive `b`
  pub ratio : ℕ → ℕ → F
  -- `x >= y`
  pub geb : F → F → Bool
  -- `x < y`
  pub ltb : F → F → Bool

-- `x < y` is the negation of `x >= y`, which holds of all floats but NaN.
abbrev pub IsOrdered : Floats → Type 0
IsOrdered fl = (x y : fl.F) → fl.ltb x y ≡ not (fl.geb x y)

-- A larger numerator does not bring a rounded quotient below a bound.
abbrev pub IsMonotone : Floats → Type 0
IsMonotone fl =
    (a b n : ℕ) (y : fl.F) → a ≤ b → fl.geb (fl.ratio a n) y ≡ true → fl.geb (fl.ratio b n) y ≡ true
