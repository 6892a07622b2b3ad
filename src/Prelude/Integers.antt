-- ===== src/Prelude/Integers.antt =====
-- Whole numbers over the native ℕ, with the sum and the text of a template literal.
use Prim.Native.Nat.{ℕ, zero, suc, ◌+◌, ◌-◌}
use Prim.Native.String.{String}
use davy_jones.Prelude.Tests.{leb, if◌then◌else◌}
use davy_jones.Prelude.Text.{concat}
use davy_jones.Prelude.Decimal.{decimal}

-- `negsuc n` is -(n + 1).
pub data ℤ : Type 0 where
  pos : ℕ → ℤ
  negsuc : ℕ → ℤ

-- `m - n`
unfoldable pub difference : ℕ → ℕ → ℤ
difference m n = if leb n m then pos (m - n) else negsuc (n - m - 1)

infixl 6 ◌+ℤ◌
unfoldable pub ◌+ℤ◌ : ℤ → ℤ → ℤ
unfolding difference
pos m +ℤ pos n = pos (m + n)
pos m +ℤ negsuc n = difference m (suc n)
negsuc m +ℤ pos n = difference n (suc m)
negsuc m +ℤ negsuc n = negsuc (suc (m + n))

-- `-z`
unfoldable pub negate : ℤ → ℤ
negate (pos zero) = pos zero
negate (pos (suc n)) = negsuc n
negate (negsuc n) = pos (suc n)

-- `${z}`
unfoldable pub show_integer : ℤ → String
unfolding decimal concat
show_integer (pos n) = decimal n
show_integer (negsuc n) = concat "-" (decimal (suc n))
