-- ===== src/Base/Bits/Step.antt =====
-- The lowest digit of `&`, `|` and `^`. The library defines them by `digits`, which has fuel; any fuel
-- that reaches the first word is enough.
use Prim.Native.Nat.{ℕ, zero, suc, ◌+◌, ◌*◌, ◌/◌, ◌%◌, ◌≤◌, min, max, differ, digits, bitwise}
use Prim.Native.Nat.{bit_and, bit_or, bit_xor, bit_and-bitwise, bit_or-bitwise, bit_xor-bitwise}
use mathlib.Core.Path.{◌≡◌, refl, sym, ◌∙◌}
use native.Mathlib.Omega.{arith}

module _ (empty : ℕ → ℕ) (join : ℕ → ℕ → ℕ) where
  no_digits : (fuel y : ℕ) → digits empty join fuel 0 y ≡ empty y
  no_digits zero y = refl
  no_digits (suc fuel) y = refl

  any_fuel :
      (x y fuel other : ℕ)
      → x ≤ fuel
      → x ≤ other
      → digits empty join fuel x y ≡ digits empty join other x y
  any_fuel zero y fuel other reaches reaches' = no_digits fuel y ∙ sym (no_digits other y)
  any_fuel (suc x) y zero other reaches reaches' = absurd (omega arith)
  any_fuel (suc x) y (suc fuel) zero reaches reaches' = absurd (omega arith)
  any_fuel (suc x) y (suc fuel) (suc other) reaches reaches' =
      let inner = any_fuel (suc x / 2) (y / 2) fuel other (omega arith) (omega arith) in
      rw inner refl

  lowest_digit :
      (x y : ℕ)
      → empty y ≡ empty (y / 2) * 2 + join 0 (y % 2)
      → bitwise empty join x y ≡ bitwise empty join (x / 2) (y / 2) * 2 + join (x % 2) (y % 2)
  lowest_digit zero y at_end = at_end
  lowest_digit (suc x) y at_end =
      let inner = any_fuel (suc x / 2) (y / 2) x (suc x / 2) (omega arith) (omega arith) in
      omega (arith, inner)

pub bit_or_step : (a b : ℕ) → bit_or a b ≡ bit_or (a / 2) (b / 2) * 2 + max (a % 2) (b % 2)
bit_or_step a b = simp bit_or-bitwise (lowest_digit (λ y. y) max a b (omega arith))

pub bit_and_step : (x y : ℕ) → bit_and x y ≡ bit_and (x / 2) (y / 2) * 2 + min (x % 2) (y % 2)
bit_and_step a b = simp bit_and-bitwise (lowest_digit (λ y. 0) min a b (omega arith))

from_zero : (y : ℕ) → differ zero y ≡ y
from_zero y = refl

pub bit_xor_step : (a b : ℕ) → bit_xor a b ≡ bit_xor (a / 2) (b / 2) * 2 + differ (a % 2) (b % 2)
bit_xor_step a b =
    simp bit_xor-bitwise (lowest_digit (λ y. y) differ a b (omega (arith, from_zero (b % 2))))
