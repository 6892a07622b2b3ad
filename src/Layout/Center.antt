-- ===== src/Layout/Center.antt =====
-- src/components/Graph/layout.ts: where a VPN stands above its hosts. The division of `centerX` leaves
-- no remainder, so it is the same in the program's floating-point numbers.
use mathlib.Core.List.{foldl}
use davy_jones.Prelude.{ℕ, suc, ◌+◌, ◌*◌, ◌/◌, ◌≡◌, refl, ap, ◌∙◌, List, [], ◌∷◌, length, arith}
use native.Mathlib.Nat.{div-eq_of_eq-mul_right, mul_comm}
use davy_jones.Types.{Host}
use davy_jones.Layout.Model.{Scene, Canvas, col_width}
use davy_jones.Layout.Build.{sum, place_hosts}
use davy_jones.Layout.Blocks.{columns, columns-place_hosts}

foldl_add : (a : ℕ) (xs : List ℕ) → foldl (λ b c. b + c) a xs ≡ a + sum xs
unfolding sum
foldl_add a [] = omega arith
foldl_add a (x ∷ xs) = omega (arith, foldl_add (a + x) xs, foldl_add (0 + x) xs)

sum-nil : sum [] ≡ 0
unfolding sum
sum-nil = refl

sum-cons : (x : ℕ) (xs : List ℕ) → sum (x ∷ xs) ≡ x + sum xs
unfolding sum
sum-cons x xs = omega (arith, foldl_add (0 + x) xs)

module _ {M : Type 0} (scene : Scene M) where
  length-columns : (k : ℕ) (hs : List Host) → length (columns scene k hs) ≡ length hs
  length-columns k [] = refl
  length-columns k (h ∷ hs) = ap suc (length-columns (k + 1) hs)

  -- The sum of the columns of `m + 1` hosts from column `k` on.
  pub sum-columns :
      (k : ℕ) (h : Host) (hs : List Host)
      → sum (columns scene k (h ∷ hs)) ≡ suc (length hs) * (130 * (2 * k + length hs))
  sum-columns k h [] = omega (arith, sum-cons (k * col_width) [], sum-nil)
  sum-columns k h (g ∷ hs) =
      omega
        (arith, sum-cons (k * col_width) (columns scene (k + 1) (g ∷ hs)), sum-columns (k + 1) g hs)

  -- `centerX` for the hosts of one VPN
  pub center-columns :
      (k : ℕ) (h : Host) (hs : List Host)
      → sum (columns scene k (h ∷ hs)) / length (columns scene k (h ∷ hs))
        ≡ 130 * (2 * k + length hs)
  center-columns k h hs =
      rw (length-columns k (h ∷ hs)) (div-eq_of_eq-mul_right (omega arith) (sum-columns k h hs))

  -- The x of a VPN with hosts is the mean of their columns without any rounding, and lies in the
  -- middle between the first of them and the last.
  pub center_exact :
      (c : Canvas M) (h : Host) (hs : List Host)
      → (sum (place_hosts scene (h ∷ hs) c).1
          ≡ sum (place_hosts scene (h ∷ hs) c).1
            / length (place_hosts scene (h ∷ hs) c).1
            * length (place_hosts scene (h ∷ hs) c).1)
        × (2 * (sum (place_hosts scene (h ∷ hs) c).1 / length (place_hosts scene (h ∷ hs) c).1)
            ≡ c.col * col_width + (c.col + length hs) * col_width)
  center_exact c h hs =
      rw (columns-place_hosts scene (h ∷ hs) c, center-columns c.col h hs)
        (
          rw (length-columns c.col (h ∷ hs))
              (sum-columns c.col h hs ∙ mul_comm (suc (length hs)) (130 * (2 * c.col + length hs))),
          omega arith,
        )
