-- ===== src/Accounts/Lengths.antt =====
-- The length of a text as JavaScript counts it, in UTF-16 units, and as Go does, in bytes of UTF-8.
use Prim.Native.Nat.{ℕ, ◌+◌, ◌≤◌}
use Prim.Native.Char.{code}
use Prim.Native.String.{String, [], ◌∷◌}
use native.Mathlib.Omega.{arith}
use davy_jones.Prelude.{ltb, if◌then◌else◌}

-- `s.length`
unfoldable pub utf16_length : String → ℕ
utf16_length [] = 0
utf16_length (c ∷ s) = (if ltb (code c) 65536 then 1 else 2) + utf16_length s

-- `len(s)`
unfoldable pub utf8_length : String → ℕ
utf8_length [] = 0
utf8_length (c ∷ s) =
    (if ltb (code c) 128
      then 1
      else if ltb (code c) 2048
      then 2
      else if ltb (code c) 65536
      then 3
      else 4)
    + utf8_length s

pub utf16_length-le-utf8_length : (s : String) → utf16_length s ≤ utf8_length s
unfolding utf16_length utf8_length
utf16_length-le-utf8_length [] = omega arith
utf16_length-le-utf8_length (c ∷ s) = ground (arith, utf16_length-le-utf8_length s)
