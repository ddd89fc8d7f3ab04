-- ===== src/Segments/Fields.antt =====
-- The fields of the descriptors of src/arch/x86_64/pm.rs.
use an_os_in_rust.Base.{ℕ, ◌+◌, ◌-◌, ◌*◌, ◌/◌, ◌%◌, ◌^◌, ◌<◌, ◌≡◌, ap, ◌∙◌, arith, bit_and, bit_or}
use an_os_in_rust.Base.Bits.{or_field, zero-or, digit-or, digits_ext, and_mask, and_mask_above}
use an_os_in_rust.Segments.{SegmentDescriptor, encode}

or_reorder : (l h t : ℕ) → bit_or (bit_or l h) t ≡ bit_or h (bit_or t l)
or_reorder l h t = digits_ext _ _ λ i.
    omega
      (arith, digit-or i (bit_or l h) t, digit-or i l h, digit-or i h (bit_or t l), digit-or i t l)

encode-sum :
    (s : SegmentDescriptor)
    → s.base < 2 ^ 32
    → s.ty < 2 ^ 16
    → encode s ≡ s.base / 2 ^ 24 * 2 ^ 56 + (s.ty * 2 ^ 40 + s.base % 2 ^ 24 * 2 ^ 16)
unfolding encode
encode-sum s small ty =
    let low : bit_and s.base 0xffffff * 2 ^ 16 % 2 ^ 64 ≡ s.base % 2 ^ 24 * 2 ^ 16 =
      ap (λ (t : ℕ). t * 2 ^ 16 % 2 ^ 64) (and_mask 24 s.base) ∙ omega arith in
    let high : bit_and s.base 0xff000000 * 2 ^ 32 % 2 ^ 64 ≡ s.base / 2 ^ 24 * 2 ^ 56 =
      ap (λ (t : ℕ). t * 2 ^ 32 % 2 ^ 64)
        (and_mask_above 24 s.base (2 ^ 8 - 1)
          ∙ ap (λ (t : ℕ). t * 2 ^ 24) (and_mask 8 (s.base / 2 ^ 24)))
      ∙ omega (arith, small) in
    let middle : s.ty * 2 ^ 40 % 2 ^ 64 ≡ s.ty * 2 ^ 40 = omega (arith, ty) in
    rw (low, high, middle, zero-or (s.base % 2 ^ 24 * 2 ^ 16))
      (or_reorder (s.base % 2 ^ 24 * 2 ^ 16) (s.base / 2 ^ 24 * 2 ^ 56) (s.ty * 2 ^ 40)
        ∙ ap (bit_or (s.base / 2 ^ 24 * 2 ^ 56))
            (or_field 40 s.ty (s.base % 2 ^ 24 * 2 ^ 16) (omega arith))
        ∙ or_field 56 (s.base / 2 ^ 24) (s.ty * 2 ^ 40 + s.base % 2 ^ 24 * 2 ^ 16)
            (omega (arith, ty)))

-- For a base of 32 bits and a type of 16 bits, a processor that reads the descriptor finds the base in
-- its two parts, the type, and the limit 0.
encode-fields :
    (s : SegmentDescriptor)
    → s.base < 2 ^ 32
    → s.ty < 2 ^ 16
    → (encode s / 2 ^ 16 % 2 ^ 24 + encode s / 2 ^ 56 * 2 ^ 24 ≡ s.base)
      × (encode s / 2 ^ 40 % 2 ^ 16 ≡ s.ty)
      × (encode s % 2 ^ 16 ≡ 0)
encode-fields s small ty = rw (encode-sum s small ty) (omega (arith, small, ty))
