-- ===== src/Prelude/Decimal.antt =====
-- A whole number in a template literal: its decimal digits.
use Prim.Native.Nat.{ℕ, zero, suc, ◌+◌, ◌-◌, ◌*◌, ◌/◌, ◌%◌, ◌≤◌}
use Prim.Native.Char.{code}
use Prim.Native.String.{String, [], ◌∷◌}
use mathlib.Core.Path.{◌≡◌, refl, ap, ◌∙◌}
use mathlib.Core.Logic.{inl, inr}
use native.Mathlib.Omega.{arith}
use davy_jones.Prelude.Tests.{ltb, if◌then◌else◌, Bool-cases}
use davy_jones.Prelude.Text.{concat, of_char}

abbrev nth : String → ℕ → String
nth [] n = ""
nth (c ∷ s) zero = of_char c
nth (c ∷ s) (suc n) = nth s n

abbrev digit : ℕ → String
digit n = nth "0123456789" n

unfoldable pub decimal_on : ℕ → ℕ → String
unfolding concat
decimal_on zero n = digit n
decimal_on (suc fuel) n =
    let front = decimal_on fuel (n / 10) in
    if ltb n 10 then digit n else concat front (digit (n % 10))

-- `${n}`
unfoldable pub decimal : ℕ → String
unfolding decimal_on
decimal n = decimal_on n n

-- the number that digits stand for, behind what was read before
unfoldable pub read : String → ℕ → ℕ
read [] n = n
read (c ∷ s) n = read s (n * 10 + (code c - 48))

read-concat : (s t : String) (n : ℕ) → read (concat s t) n ≡ read t (read s n)
unfolding read concat
read-concat [] t n = refl
read-concat (c ∷ s) t n = read-concat s t (n * 10 + (code c - 48))

read-digit : (d n : ℕ) → d ≤ 9 → read (digit d) n ≡ n * 10 + d
unfolding read
read-digit zero n h = omega arith
read-digit (suc zero) n h = omega arith
read-digit (suc (suc zero)) n h = omega arith
read-digit (suc (suc (suc zero))) n h = omega arith
read-digit (suc (suc (suc (suc zero)))) n h = omega arith
read-digit (suc (suc (suc (suc (suc zero))))) n h = omega arith
read-digit (suc (suc (suc (suc (suc (suc zero)))))) n h = omega arith
read-digit (suc (suc (suc (suc (suc (suc (suc zero))))))) n h = omega arith
read-digit (suc (suc (suc (suc (suc (suc (suc (suc zero)))))))) n h = omega arith
read-digit (suc (suc (suc (suc (suc (suc (suc (suc (suc zero))))))))) n h = omega arith
read-digit (suc (suc (suc (suc (suc (suc (suc (suc (suc (suc d)))))))))) n h =
    absurd (omega (arith, h))

read-decimal_on : (fuel n : ℕ) → n ≤ fuel → read (decimal_on fuel n) 0 ≡ n
unfolding decimal_on
read-decimal_on zero n h = read-digit n 0 (omega arith) ∙ omega arith
read-decimal_on (suc fuel) n h = elim (Bool-cases (ltb n 10)) [
  | inl e ↦ rw e (read-digit n 0 (ground arith) ∙ omega arith)
  | inr e ↦
      let again : read (decimal_on fuel (n / 10)) 0 ≡ n / 10 =
        read-decimal_on fuel (n / 10) (ground arith) in
      rw (e, read-concat, again, read-digit (n % 10) (n / 10) (omega arith)) (omega arith)
]

-- The digits of a number are read back, with text behind them.
pub read-decimal : (n : ℕ) (t : String) → read (concat (decimal n) t) 0 ≡ read t n
unfolding decimal
read-decimal n t =
    read-concat (decimal_on n n) t 0 ∙ ap (read t) (read-decimal_on n n (omega arith))
