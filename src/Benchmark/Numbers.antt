-- ===== src/Benchmark/Numbers.antt =====
-- The numbers of aggregate_benchmark.py, ints and floats, as an unknown type with the operations that
-- the script calls.
use my_besu_net.Base.{ℕ, Bool, true, false, ◌≡◌}

pub record Numbers : Type 1 where
  pub N : Type 0
  pub zero : N
  pub add : N → N → N
  pub sub : N → N → N
  -- `x ** 2`
  pub square : N → N
  -- `x / n`, for a positive int
  pub over : N → ℕ → N
  -- `math.sqrt`
  pub root : N → N
  -- `round(x, 4)`
  pub round : N → N
  -- `x < y`
  pub less : N → N → Bool
  -- a bool and an int as numbers
  pub of_bool : Bool → N
  pub of_int : ℕ → N
  -- `x == 0.0`
  pub is_zero : N → Bool

-- `<` is a strict order whose incomparable values cannot be told apart by it, as for floats but NaN.
pub record IsOrder (num : Numbers) : Type 0 where
  pub irreflexive : (x : num.N) → num.less x x ≡ false
  pub transitive_not :
      (x y z : num.N) → num.less y x ≡ false → num.less z y ≡ false → num.less z x ≡ false
  pub asymmetric : (x y : num.N) → num.less x y ≡ true → num.less y x ≡ false
