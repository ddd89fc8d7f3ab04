-- ===== src/Paging/Table/Entry.antt =====
-- What the setters of a paging-structure entry leave for its getters.
use an_os_in_rust.Base.{
  ℕ, ◌-◌, ◌*◌, ◌/◌, ◌%◌, ◌^◌, ◌<◌, ◌≡◌, refl, ap, ap₂, ◌∙◌, bit_and, bit_or, true, false, arith,
}
use an_os_in_rust.Base.Bits.{
  and_assoc, or-and, and-zero, or-zero, zero-or, and_mask, and_mask_above, two-pow-pos,
}
use an_os_in_rust.Paging.Table.{
  pml4_level, pdpt_level, pd_level, pt_level, entry_idx, get_flags, set_flags, get_addr, set_addr,
  mask_51_12, rw_flag,
}

-- `(a & m) & n` for masks whose conjunction is known.
pub and-and : (a m n k : ℕ) → bit_and m n ≡ k → bit_and (bit_and a m) n ≡ bit_and a k
and-and a m n k e = and_assoc a m n ∙ ap (bit_and a) e

abbrev keep : ℕ
keep = 2 ^ 64 - 1 - mask_51_12

-- The address that was set is read, cut to bits 12 to 51.
pub get_addr-set_addr : (e a : ℕ) → get_addr (set_addr e a) ≡ bit_and a mask_51_12
unfolding get_addr set_addr
get_addr-set_addr e a =
    or-and (bit_and e keep) (bit_and a mask_51_12) mask_51_12
    ∙ ap₂ bit_or (and-and e keep mask_51_12 0 refl ∙ and-zero e)
        (and-and a mask_51_12 mask_51_12 mask_51_12 refl)
    ∙ zero-or _

-- A flag that lies outside the bits of the address is after `set_addr` what it was before.
pub get_flags-set_addr :
    (e a f : ℕ)
    → bit_and keep f ≡ f
    → bit_and mask_51_12 f ≡ 0
    → get_flags (set_addr e a) f ≡ get_flags e f
unfolding get_flags set_addr
get_flags-set_addr e a f keeps clears =
    or-and (bit_and e keep) (bit_and a mask_51_12) f
    ∙ ap₂ bit_or (and-and e keep f f keeps) (and-and a mask_51_12 f 0 clears ∙ and-zero a)
    ∙ or-zero _

-- Setting flags leaves the address only as far as they lie outside it.
pub get_addr-set_flags :
    (e f : ℕ) → get_addr (set_flags e f true) ≡ bit_or (get_addr e) (bit_and f mask_51_12)
unfolding get_addr set_flags
get_addr-set_flags e f = or-and e f mask_51_12

pub get_flags-set_flags :
    (e f g : ℕ) → get_flags (set_flags e f true) g ≡ bit_or (get_flags e g) (bit_and f g)
unfolding get_flags set_flags
get_flags-set_flags e f g = or-and e f g

pub get_addr-clear_rw : (e : ℕ) → get_addr (set_flags e rw_flag false) ≡ get_addr e
unfolding get_addr set_flags
get_addr-clear_rw e = and-and e (2 ^ 64 - 1 - rw_flag) mask_51_12 mask_51_12 refl

-- A physical page address within 52 bits is stored whole.
pub addr_stored : (n : ℕ) → n < 2 ^ 40 → bit_and (n * 2 ^ 12) mask_51_12 ≡ n * 2 ^ 12
addr_stored n fits =
    and_mask_above 12 (n * 2 ^ 12) (2 ^ 40 - 1) ∙ omega (arith, and_mask 40 (n * 2 ^ 12 / 2 ^ 12))

mul-div : (a k : ℕ) → a * 2 ^ k / 2 ^ k ≡ a
mul-div a k = grind (arith, two-pow-pos k)

field : (k v : ℕ) → bit_and v (511 * 2 ^ k) / 2 ^ k ≡ v / 2 ^ k % 512
field k v =
    ap (λ (t : ℕ). t / 2 ^ k) (and_mask_above k v 511)
    ∙ mul-div (bit_and (v / 2 ^ k) 511) k
    ∙ and_mask 9 (v / 2 ^ k)

-- Each index is a nine-bit field of the virtual address.
entry_idx_fields :
    (v : ℕ)
    → (entry_idx pml4_level v ≡ v / 2 ^ 39 % 512)
      × (entry_idx pdpt_level v ≡ v / 2 ^ 30 % 512)
      × (entry_idx pd_level v ≡ v / 2 ^ 21 % 512)
      × (entry_idx pt_level v ≡ v / 2 ^ 12 % 512)
unfolding entry_idx
entry_idx_fields v = (field 39 v, field 30 v, field 21 v, field 12 v)
