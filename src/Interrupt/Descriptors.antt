-- ===== src/Interrupt/Descriptors.antt =====
-- The fields of the descriptors of src/arch/x86_64/interrupt.rs.
use an_os_in_rust.Base.{ℕ, ◌+◌, ◌-◌, ◌*◌, ◌/◌, ◌%◌, ◌^◌, ◌<◌, ◌≡◌, ap, ◌∙◌, arith, bit_and, bit_or}
use an_os_in_rust.Base.Bits.{or_field, zero-or, digit-or, digits_ext, and_mask, and_mask_above}
use an_os_in_rust.Interrupt.{descriptor}

or_reorder :
    (l h a b c : ℕ)
    → bit_or (bit_or (bit_or (bit_or l h) a) b) c ≡ bit_or h (bit_or c (bit_or b (bit_or a l)))
or_reorder l h a b c = digits_ext _ _ λ i. omega (
  arith,
  digit-or i (bit_or (bit_or (bit_or l h) a) b) c,
  digit-or i (bit_or (bit_or l h) a) b,
  digit-or i (bit_or l h) a,
  digit-or i l h,
  digit-or i h (bit_or c (bit_or b (bit_or a l))),
  digit-or i c (bit_or b (bit_or a l)),
  digit-or i b (bit_or a l),
  digit-or i a l,
)

or_fields :
    (l h : ℕ)
    → l < 2 ^ 16
    → bit_or (h * 2 ^ 48) (bit_or (8 * 2 ^ 44) (bit_or (0xe * 2 ^ 40) (bit_or (8 * 2 ^ 16) l)))
      ≡ h * 2 ^ 48 + (8 * 2 ^ 44 + (0xe * 2 ^ 40 + (8 * 2 ^ 16 + l)))
or_fields l h small =
    rw
      (
        or_field 16 8 l small,
        or_field 40 0xe (8 * 2 ^ 16 + l) (omega arith),
        or_field 44 8 (0xe * 2 ^ 40 + (8 * 2 ^ 16 + l)) (omega arith),
      )
      (or_field 48 h (8 * 2 ^ 44 + (0xe * 2 ^ 40 + (8 * 2 ^ 16 + l))) (omega arith))

-- The descriptor of a 64-bit address as a number.
descriptor-sum :
    (handler : ℕ)
    → handler < 2 ^ 64
    → descriptor handler
      ≡ handler % 2 ^ 16 + 0x8 * 2 ^ 16 + 0x8e * 2 ^ 40 + handler / 2 ^ 16 * 2 ^ 48
unfolding descriptor
descriptor-sum handler fits =
    let low : bit_and handler 0xffff ≡ handler % 2 ^ 16 = and_mask 16 handler in
    let high : bit_and handler 0xffffffffffff0000 ≡ handler / 2 ^ 16 * 2 ^ 16 =
      and_mask_above 16 handler (2 ^ 48 - 1)
      ∙ ap (λ (t : ℕ). t * 2 ^ 16) (and_mask 48 (handler / 2 ^ 16) ∙ omega arith) in
    let shifted : handler / 2 ^ 16 * 2 ^ 16 * 2 ^ 32 % 2 ^ 128 ≡ handler / 2 ^ 16 * 2 ^ 48 =
      omega arith in
    rw (low, high, zero-or (handler % 2 ^ 16), shifted)
      (or_reorder (handler % 2 ^ 16) (handler / 2 ^ 16 * 2 ^ 48) (0x8 * 2 ^ 16) (0xe * 2 ^ 40)
          (8 * 2 ^ 44)
        ∙ or_fields (handler % 2 ^ 16) (handler / 2 ^ 16) (omega arith)
        ∙ omega arith)

-- For a 64-bit address, a processor that reads the descriptor finds: the address in its two parts, the
-- kernel's code segment, no interrupt stack, the type of an interrupt gate, privilege 0, and present.
pub descriptor-fields :
    (handler : ℕ)
    → handler < 2 ^ 64
    → (descriptor handler % 2 ^ 16 + descriptor handler / 2 ^ 48 * 2 ^ 16 ≡ handler)
      × (descriptor handler / 2 ^ 16 % 2 ^ 16 ≡ 0x8)
      × (descriptor handler / 2 ^ 32 % 2 ^ 8 ≡ 0)
      × (descriptor handler / 2 ^ 40 % 2 ^ 5 ≡ 0xe)
      × (descriptor handler / 2 ^ 45 % 2 ^ 2 ≡ 0)
      × (descriptor handler / 2 ^ 47 % 2 ≡ 1)
descriptor-fields handler fits =
    let e = descriptor-sum handler fits in
    (
      omega (arith, e),
      omega (arith, e),
      omega (arith, e),
      omega (arith, e),
      omega (arith, e),
      omega (arith, e),
    )
