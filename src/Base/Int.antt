-- ===== src/Base/Int.antt =====
-- Ints, and numbers as Python prints them.
use Prim.Native.Nat.{ℕ, zero, suc, ◌+◌, ◌-◌, ◌/◌, ◌%◌}
use mathlib.Core.List.{[], ◌∷◌, ◌++◌}
use my_besu_net.Base.Logic.{ltb, leb, if◌then◌else◌}
use my_besu_net.Base.Text.{Text, codes}

-- an int: `negsuc n` is -(n + 1)
pub data ℤ : Type 0 where
  pos : ℕ → ℤ
  negsuc : ℕ → ℤ

-- the digits of a number in front of a text, on fuel; a number has fewer digits than its value and one
unfoldable pub digits : ℕ → ℕ → Text → Text
digits zero n t = t
digits (suc fuel) n t =
    let more = digits fuel (n / 10) ((b'0' + n % 10) ∷ t) in
    if ltb n 10 then (b'0' + n) ∷ t else more

-- `str(n)`
unfoldable pub shown : ℤ → Text
unfolding digits
shown (pos n) = digits (suc n) n []
shown (negsuc n) = codes "-" ++ digits (suc (suc n)) (suc n) []

abbrev pub pos_part : ℤ → ℕ
pos_part (pos n) = n
pos_part (negsuc n) = 0

abbrev pub neg_part : ℤ → ℕ
neg_part (pos n) = 0
neg_part (negsuc n) = suc n

-- a - b, as an int
abbrev pub sub_ℕ : ℕ → ℕ → ℤ
sub_ℕ a b = if leb b a then pos (a - b) else negsuc (b - a - 1)

infixl 65 ◌+ℤ◌
unfoldable pub ◌+ℤ◌ : ℤ → ℤ → ℤ
a +ℤ b = sub_ℕ (pos_part a + pos_part b) (neg_part a + neg_part b)
