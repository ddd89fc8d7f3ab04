-- ===== src/Base/Bits/Digit.antt =====
-- Words as sequences of binary digits: what each operation does to a digit, and the laws that
-- follow digit by digit.
use Prim.Native.Nat.{ℕ, zero, suc, ◌+◌, ◌*◌, ◌/◌, ◌%◌, ◌≤◌, ◌<◌, min, max, differ}
use Prim.Native.Nat.{bit_and, bit_or, bit_xor}
use mathlib.Core.Path.{◌≡◌, refl, ◌∙◌}
use native.Mathlib.Omega.{arith}
use an_os_in_rust.Base.Bits.Step.{bit_and_step, bit_or_step, bit_xor_step}

-- Digit `i` of `a`, lowest first.
unfoldable pub digit : ℕ → ℕ → ℕ
digit zero a = a % 2
digit (suc i) a = digit i (a / 2)

pub digit-lt : (i a : ℕ) → digit i a < 2
unfolding digit
digit-lt zero a = omega arith
digit-lt (suc i) a = digit-lt i (a / 2)

differ-lt : (x y : ℕ) → x < 2 → y < 2 → differ x y ≡ (x + y) % 2
differ-lt zero y p q = omega arith
differ-lt (suc zero) zero p q = omega arith
differ-lt (suc zero) (suc zero) p q = omega arith
differ-lt (suc zero) (suc (suc y)) p q = absurd (omega arith)
differ-lt (suc (suc x)) y p q = absurd (omega arith)

pub bit_xor_sum : (a b : ℕ) → bit_xor a b ≡ bit_xor (a / 2) (b / 2) * 2 + (a % 2 + b % 2) % 2
bit_xor_sum a b =
    omega (arith, bit_xor_step a b, differ-lt (a % 2) (b % 2) (omega arith) (omega arith))

and-div : (a b : ℕ) → bit_and a b / 2 ≡ bit_and (a / 2) (b / 2)
and-div a b = omega (arith, bit_and_step a b)

or-div : (a b : ℕ) → bit_or a b / 2 ≡ bit_or (a / 2) (b / 2)
or-div a b = omega (arith, bit_or_step a b)

pub digit-and : (i a b : ℕ) → digit i (bit_and a b) ≡ min (digit i a) (digit i b)
unfolding digit
digit-and zero a b = omega (arith, bit_and_step a b)
digit-and (suc i) a b = rw (and-div a b) (digit-and i (a / 2) (b / 2))

pub digit-or : (i a b : ℕ) → digit i (bit_or a b) ≡ max (digit i a) (digit i b)
unfolding digit
digit-or zero a b = omega (arith, bit_or_step a b)
digit-or (suc i) a b = rw (or-div a b) (digit-or i (a / 2) (b / 2))

digits_ext_below : (n a b : ℕ) → a ≤ n → b ≤ n → ((i : ℕ) → digit i a ≡ digit i b) → a ≡ b
unfolding digit
digits_ext_below zero a b p q h = omega arith
digits_ext_below (suc n) a b p q h =
    omega
      (arith, h 0, digits_ext_below n (a / 2) (b / 2) (omega arith) (omega arith) (λ i. h (suc i)))

-- Two words with the same digits are equal.
pub digits_ext : (a b : ℕ) → ((i : ℕ) → digit i a ≡ digit i b) → a ≡ b
digits_ext a b h = digits_ext_below (a + b) a b (omega arith) (omega arith) h

ruleset digitwise = (arith, digit-and, digit-or, digit-lt)

pub and_comm : (a b : ℕ) → bit_and a b ≡ bit_and b a
and_comm a b = digits_ext _ _ λ i. omega (arith, digit-and i a b, digit-and i b a)

pub and_self : (a : ℕ) → bit_and a a ≡ a
and_self a = digits_ext _ _ λ i. omega (arith, digit-and i a a)

pub or_comm : (a b : ℕ) → bit_or a b ≡ bit_or b a
or_comm a b = digits_ext _ _ λ i. omega (arith, digit-or i a b, digit-or i b a)

pub and_assoc : (a b c : ℕ) → bit_and (bit_and a b) c ≡ bit_and a (bit_and b c)
and_assoc a b c = digits_ext _ _ λ i.
    rw (digit-and i (bit_and a b) c, digit-and i a b, digit-and i a (bit_and b c), digit-and i b c)
      (omega arith)

pub or-and : (a b c : ℕ) → bit_and (bit_or a b) c ≡ bit_or (bit_and a c) (bit_and b c)
or-and a b c = digits_ext _ _ λ i.
    rw
      (
        digit-and i (bit_or a b) c,
        digit-or i a b,
        digit-or i (bit_and a c) (bit_and b c),
        digit-and i a c,
        digit-and i b c,
      )
      (omega arith)

digit-zero : (i : ℕ) → digit i 0 ≡ 0
unfolding digit
digit-zero zero = refl
digit-zero (suc i) = digit-zero i

pub and-zero : (a : ℕ) → bit_and a 0 ≡ 0
and-zero a = digits_ext _ _ λ i. omega (arith, digit-and i a 0, digit-zero i)

pub zero-and : (a : ℕ) → bit_and 0 a ≡ 0
zero-and a = and_comm 0 a ∙ and-zero a

pub or-zero : (a : ℕ) → bit_or a 0 ≡ a
or-zero a = digits_ext _ _ λ i. omega (arith, digit-or i a 0, digit-zero i)

pub zero-or : (a : ℕ) → bit_or 0 a ≡ a
zero-or a = or_comm 0 a ∙ or-zero a

pub or_self : (a : ℕ) → bit_or a a ≡ a
or_self a = digits_ext _ _ λ i. omega (arith, digit-or i a a)
