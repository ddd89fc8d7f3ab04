-- ===== src/Base/Bits/Fields.antt =====
-- Words that are put together from fields.
use Prim.Native.Nat.{ℕ, zero, suc, ◌+◌, ◌-◌, ◌*◌, ◌/◌, ◌^◌, ◌<◌, bit_and, bit_or}
use mathlib.Core.Path.{◌≡◌, ap, ◌∙◌}
use native.Mathlib.Omega.{arith}
use native.Mathlib.Nat.{pow-suc}
use an_os_in_rust.Base.Bits.Step.{bit_or_step}
use an_os_in_rust.Base.Bits.Digit.{or-zero}
use an_os_in_rust.Base.Bits.Mask.{twice_block, and_mask, and_mask_above}

-- A field above, and one below that fits under it.
pub or_field : (k m r : ℕ) → r < 2 ^ k → bit_or (m * 2 ^ k) r ≡ m * 2 ^ k + r
or_field zero m r fits = ground (arith, or-zero (m * 1))
or_field (suc k) m r fits =
    let half : r / 2 < 2 ^ k = omega (arith, pow-suc 2 k) in
    ground (arith, bit_or_step (m * 2 ^ suc k) r, twice_block k m, or_field k m (r / 2) half)

-- `(a + 3) & !3` and its like on 64-bit numbers.
pub and_align : (a : ℕ) → a < 2 ^ 64 → bit_and a (2 ^ 64 - 4) ≡ a / 4 * 4
and_align a fits =
    and_mask_above 2 a (2 ^ 62 - 1)
    ∙ ap (λ (t : ℕ). t * 2 ^ 2) (and_mask 62 (a / 2 ^ 2))
    ∙ omega arith
