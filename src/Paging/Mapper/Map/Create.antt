-- ===== src/Paging/Mapper/Map/Create.antt =====
-- The entry that `walk_or_create_table` of arch/x86_64/src/paging/mapping.rs writes for a new table.
use an_os_in_rust.Base.{
  ℕ, suc, ◌+◌, ◌-◌, ◌*◌, ◌%◌, ◌^◌, ◌<◌, ◌≡◌, refl, sym, ap, ◌∙◌, bit_and, bit_or, true, false, ◌==◌,
  ltb, leb, lt→ltb, arith, ok, Bool-cases, inl, inr, ==_iff, ◌⊎◌, ◌&&◌, ==_self,
}
use an_os_in_rust.Base.Bits.{or-zero, and_bit}
use an_os_in_rust.Paging.Table.{
  get_flags, set_flags, get_addr, set_addr, phys_addr_of, present_flag, rw_flag, ps_flag, all_flags,
  mask_51_12,
}
use an_os_in_rust.Paging.Table.Entry.{
  and-and, get_addr-set_addr, get_flags-set_addr, get_addr-set_flags, get_flags-set_flags,
  addr_stored,
}
use an_os_in_rust.Paging.Mapper.{Mapper, Memory, write_entry, table_for_phys_addr}
use an_os_in_rust.Paging.Mapper.Unmap.Walks.{is_present}
use an_os_in_rust.Paging.Mapper.Map.{table_at, entry_is_leaf, HasRoom}

-- An entry for an address, present and writable.
abbrev pub linked : ℕ → ℕ → ℕ
linked entry addr = set_flags (set_addr entry addr) (bit_or present_flag rw_flag) true

-- A flag of bits 0 to 8 is, in the written entry, what it was or what was set.
flag_of-linked :
    (entry addr f : ℕ)
    → bit_and all_flags f ≡ f
    → bit_and (2 ^ 64 - 1 - mask_51_12) f ≡ f
    → bit_and mask_51_12 f ≡ 0
    → bit_and (get_flags (linked entry addr) all_flags) f
      ≡ bit_or (bit_and entry f) (bit_and (bit_or present_flag rw_flag) f)
unfolding get_flags
flag_of-linked entry addr f a b c =
    and-and (linked entry addr) all_flags f f a
    ∙ get_flags-set_flags (set_addr entry addr) (bit_or present_flag rw_flag) f
    ∙ ap (λ n. bit_or n (bit_and (bit_or present_flag rw_flag) f))
        (get_flags-set_addr entry addr f b c)

or_lowest : (entry : ℕ) → bit_or (bit_and entry 1) 1 ≡ 1
or_lowest entry = elim (Bool-cases (entry % 2 == 0)) [
  | inl even ↦ ap (λ n. bit_or n 1) (lowest entry ∙ (==_iff (entry % 2) 0).0 even)
  | inr odd ↦ ap (λ n. bit_or n 1) (lowest entry ∙ one (entry % 2) odd (omega arith))
]
  where
    lowest : (e : ℕ) → bit_and e 1 ≡ e % 2
    lowest e = omega (arith, and_bit 0 e)

    one : (n : ℕ) → (n == 0) ≡ false → n < 2 → n ≡ 1
    one n h k = ground (arith, h, k)

pub linked_present : (entry addr : ℕ) → is_present (linked entry addr) ≡ true
linked_present entry addr =
    ap (λ n. n == present_flag)
      (flag_of-linked entry addr present_flag refl refl refl ∙ or_lowest entry)

pub linked_leaf : (entry addr : ℕ) → entry_is_leaf (linked entry addr) ≡ entry_is_leaf entry
unfolding get_flags
linked_leaf entry addr =
    ap (λ n. n == ps_flag)
      (flag_of-linked entry addr ps_flag refl refl refl
        ∙ or-zero (bit_and entry ps_flag)
        ∙ sym (and-and entry all_flags ps_flag ps_flag refl))

pub linked_addr : (entry n : ℕ) → n < 2 ^ 40 → get_addr (linked entry (n * 4096)) ≡ n * 4096
linked_addr entry n fits =
    get_addr-set_flags (set_addr entry (n * 4096)) (bit_or present_flag rw_flag)
    ∙ or-zero _
    ∙ get_addr-set_addr entry (n * 4096)
    ∙ addr_stored n fits

-- The address of a new table is written, and the table is found by it.
pub new_table_addr :
    (n : ℕ) (m : Mapper) (r : HasRoom (suc n) m)
    → phys_addr_of m.psb (table_at m m.next) ≡ ok ((r.offset + m.next) * 4096)
unfolding phys_addr_of
new_table_addr n m r =
    let over : leb m.psb (table_at m m.next) ≡ true = ground (arith, r.region) in
    rw (over) (ap ok (omega (arith, r.region)))

pub table_for-new :
    (n : ℕ) (m : Mapper) (r : HasRoom (suc n) m)
    → table_for_phys_addr m ((r.offset + m.next) * 4096) ≡ ok (table_at m m.next)
unfolding table_for_phys_addr
table_for-new n m r =
    let sum : m.psb + (r.offset + m.next) * 4096 ≡ table_at m m.next = omega (arith, r.region) in
    let fits : ltb (table_at m m.next) (2 ^ 64) ≡ true = lt→ltb _ _ (omega (arith, r.in_word)) in
    let over : leb m.base (table_at m m.next) ≡ true = ground arith in
    rw (sum, fits, over) (ap (λ k. ok (table_at m k)) (omega arith))

-- A write changes one entry.
pub write_entry_cases :
    (memory : Memory) (t i e x j : ℕ)
    → ((x ≡ t) × (j ≡ i)) ⊎ (write_entry memory t i e x j ≡ memory x j)
unfolding write_entry
write_entry_cases memory t i e x j = elim (Bool-cases (x == t && j == i)) [
  | inl here ↦ inl (both x t j i here)
  | inr other ↦ inr (rw (other) refl)
]
  where
    both : (a b c d : ℕ) → (a == b && c == d) ≡ true → (a ≡ b) × (c ≡ d)
    both a b c d e = (ground arith, ground arith)

pub write_entry_self : (memory : Memory) (t i e : ℕ) → write_entry memory t i e t i ≡ e
unfolding write_entry
write_entry_self memory t i e = rw (==_self t, ==_self i) refl
