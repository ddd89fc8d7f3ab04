-- ===== src/Base/Bits/Mask.antt =====
-- Masks of low bits, shifted masks, and one bit of an aligned word, as arithmetic.
use Prim.Native.Nat.{
  ℕ, zero, suc, ◌+◌, ◌-◌, ◌*◌, ◌/◌, ◌%◌, ◌^◌, ◌≤◌, ◌<◌, max, bit_and, bit_or, bit_xor,
}
use mathlib.Core.Path.{◌≡◌, refl, sym, ap, ◌∙◌}
use native.Mathlib.Nat.{pow-suc, one-le-pow, mod-eq_of_lt}
use native.Mathlib.Numerals.{add-one}
use native.Mathlib.Omega.{arith}
use an_os_in_rust.Base.Bits.Step.{bit_and_step, bit_or_step}
use an_os_in_rust.Base.Bits.Digit.{bit_xor_sum, and-zero, or-zero, and_comm}

pub twice_block : (width times : ℕ) → times * 2 ^ suc width ≡ 2 * (times * 2 ^ width)
twice_block width times =
    let one_more : 2 ^ suc width ≡ 2 ^ width * 2 = pow-suc 2 width in rw one_more (omega arith)

and_fields : (k q r : ℕ) → r < 2 ^ k → bit_and (q * 2 ^ k + r) (2 ^ k - 1) ≡ r
and_fields zero q r fits = rw and-zero (omega arith)
and_fields (suc k) q r fits = ground (
  arith,
  bit_and_step (q * 2 ^ suc k + r) (2 ^ suc k - 1),
  twice_block k q,
  pow-suc 2 k,
  and_fields k q (r / 2) (omega arith),
)

-- `a & (2^k - 1)` is the remainder.
pub and_mask : (k a : ℕ) → bit_and a (2 ^ k - 1) ≡ a % 2 ^ k
and_mask k a = ground (arith, one-le-pow k 2, and_fields k (a / 2 ^ k) (a % 2 ^ k))

and_field_above :
    (k q r m : ℕ) → r < 2 ^ k → bit_and (q * 2 ^ k + r) (m * 2 ^ k) ≡ bit_and q m * 2 ^ k
and_field_above zero q r m fits = ground arith
and_field_above (suc k) q r m fits = ground (
  arith,
  bit_and_step (q * 2 ^ suc k + r) (m * 2 ^ suc k),
  twice_block k q,
  twice_block k m,
  twice_block k (bit_and q m),
  pow-suc 2 k,
  and_field_above k q (r / 2) m (omega arith),
)

-- A mask that starts at bit `k`.
pub and_mask_above : (k a m : ℕ) → bit_and a (m * 2 ^ k) ≡ bit_and (a / 2 ^ k) m * 2 ^ k
and_mask_above k a m = ground (arith, one-le-pow k 2, and_field_above k (a / 2 ^ k) (a % 2 ^ k) m)

pub xor_aligned : (k m n : ℕ) → bit_xor (m * 2 ^ k) (n * 2 ^ k) ≡ bit_xor m n * 2 ^ k
xor_aligned zero m n = ground arith
xor_aligned (suc k) m n = ground (
  arith,
  bit_xor_sum (m * 2 ^ suc k) (n * 2 ^ suc k),
  twice_block k m,
  twice_block k n,
  twice_block k (bit_xor m n),
  xor_aligned k m n,
)

xor-zero : (n m : ℕ) → m ≤ n → bit_xor m 0 ≡ m
xor-zero n zero h = refl
xor-zero zero (suc m) h = absurd (omega arith)
xor-zero (suc n) (suc m) h =
    omega (arith, bit_xor_sum (suc m) 0, xor-zero n (suc m / 2) (omega arith))

pub xor-one : (m : ℕ) → bit_xor m 1 ≡ m / 2 * 2 + (m % 2 + 1) % 2
xor-one m = omega (arith, bit_xor_sum m 1, xor-zero (m / 2) (m / 2) (omega arith))

-- Flipping bit `k` of a multiple of `2 ^ k` goes to the other half of the enclosing `2 ^ (k + 1)`.
pub xor_block : (k m : ℕ) → bit_xor (m * 2 ^ k) (2 ^ k) ≡ (m / 2 * 2 + (m % 2 + 1) % 2) * 2 ^ k
xor_block k m =
    ap (bit_xor (m * 2 ^ k)) (one_mul (2 ^ k))
    ∙ xor_aligned k m 1
    ∙ ap (λ (t : ℕ). t * 2 ^ k) (xor-one m)
  where
    one_mul : (x : ℕ) → x ≡ 1 * x
    one_mul x = omega arith

low_digit_cleared : (w m : ℕ) → m < 2 ^ suc w → bit_and (2 ^ suc w - 2) m ≡ m / 2 * 2
low_digit_cleared w m fits = ground (
  arith,
  bit_and_step (2 ^ suc w - 2) m,
  pow-suc 2 w,
  one-le-pow w 2,
  and_comm (2 ^ w - 1) (m / 2),
  and_mask w (m / 2),
  mod-eq_of_lt {n = m / 2} {m = 2 ^ w},
)

inverted_lem : (s t x : ℕ) → s ≡ 2 * t + 2 → 1 ≤ x → (s - 2) * x + (x - 1) ≡ s * x - 1 - x
inverted_lem s t x e h =
    let low : s - 2 ≡ 2 * t = omega arith in
    let all : s * x ≡ 2 * (t * x) + 2 * x = ap (λ (y : ℕ). y * x) e ∙ omega arith in
    rw low (omega arith)

inverted : (k w : ℕ) → (2 ^ suc w - 2) * 2 ^ k + (2 ^ k - 1) ≡ 2 ^ suc w * 2 ^ k - 1 - 2 ^ k
inverted k w =
    inverted_lem (2 ^ suc w) (2 ^ w - 1) (2 ^ k)
      (omega (arith, pow-suc 2 w, one-le-pow w 2 (omega arith))) (one-le-pow k 2 (omega arith))

-- Clearing bit `k` of a multiple of `2 ^ k` that fits a word of `k + w + 1` bits.
pub and_not_block :
    (k w m : ℕ)
    → m < 2 ^ suc w
    → bit_and (m * 2 ^ k) (2 ^ suc w * 2 ^ k - 1 - 2 ^ k) ≡ m / 2 * 2 * 2 ^ k
and_not_block k w m fits =
    and_comm (m * 2 ^ k) (2 ^ suc w * 2 ^ k - 1 - 2 ^ k)
    ∙ ap (λ (t : ℕ). bit_and t (m * 2 ^ k)) (sym (inverted k w))
    ∙ and_field_above k (2 ^ suc w - 2) (2 ^ k - 1) m (omega (arith, one-le-pow k 2 (omega arith)))
    ∙ ap (λ (t : ℕ). t * 2 ^ k) (low_digit_cleared w m fits)

pub two-pow-add_one : (k : ℕ) → 2 ^ (k + 1) ≡ 2 ^ k * 2
two-pow-add_one k = rw add-one (pow-suc 2 k)

pub two-pow-pos : (k : ℕ) → 1 ≤ 2 ^ k
two-pow-pos k = one-le-pow k 2 (omega arith)

pub two-pow-add : (j k n : ℕ) → n ≡ j + k → 2 ^ j * 2 ^ k ≡ 2 ^ n
two-pow-add zero k n e = ground arith
two-pow-add (suc j) k zero e = absurd (omega arith)
two-pow-add (suc j) k (suc n) e =
    omega
      (arith, ap (λ (t : ℕ). t * 2 ^ k) (pow-suc 2 j), pow-suc 2 n, two-pow-add j k n (omega arith))

pub lt_of_mul_lt : (a b k : ℕ) → a * k < b * k → a < b
lt_of_mul_lt a b k h = grind arith

pub mul_le_mul : (a b k : ℕ) → a ≤ b → a * k ≤ b * k
mul_le_mul a b k h = grind arith

or_aligned : (k m n : ℕ) → bit_or (m * 2 ^ k) (n * 2 ^ k) ≡ bit_or m n * 2 ^ k
or_aligned zero m n = ground arith
or_aligned (suc k) m n = ground (
  arith,
  bit_or_step (m * 2 ^ suc k) (n * 2 ^ suc k),
  twice_block k m,
  twice_block k n,
  twice_block k (bit_or m n),
  or_aligned k m n,
)

or_digit : (m r : ℕ) → r < 2 → bit_or m r ≡ m / 2 * 2 + max (m % 2) r
or_digit m zero h = or-zero m ∙ omega arith
or_digit m (suc zero) h = bit_or_step m 1 ∙ omega (arith, or-zero (m / 2))
or_digit m (suc (suc r)) h = absurd (omega arith)

-- Setting bit `k` of a multiple of `2 ^ k` to at least `r`.
pub or_block :
    (k m r : ℕ) → r < 2 → bit_or (m * 2 ^ k) (r * 2 ^ k) ≡ (m / 2 * 2 + max (m % 2) r) * 2 ^ k
or_block k m r h = or_aligned k m r ∙ ap (λ (t : ℕ). t * 2 ^ k) (or_digit m r h)

-- One bit in place.
pub and_bit : (k a : ℕ) → bit_and a (2 ^ k) ≡ a / 2 ^ k % 2 * 2 ^ k
and_bit k a =
    ap (bit_and a) (one_mul (2 ^ k))
    ∙ and_mask_above k a 1
    ∙ ap (λ (t : ℕ). t * 2 ^ k) (and_mask 1 (a / 2 ^ k))
  where
    one_mul : (x : ℕ) → x ≡ 1 * x
    one_mul x = omega arith
