-- ===== src/Paging/Mapper/Fork/Entries.antt =====
-- The entries that `fork` writes into the copy.
use an_os_in_rust.Base.{
  ℕ, ◌+◌, ◌*◌, ◌/◌, ◌%◌, ◌^◌, ◌<◌, ◌≡◌, refl, ap₂, ◌∙◌, bit_and, bit_or, max, sym, arith,
}
use an_os_in_rust.Base.Bits.{or-zero, or_block, and_bit}
use an_os_in_rust.Paging.Table.{get_addr, set_addr, get_flags, all_flags, rw_flag, mask_51_12}
use an_os_in_rust.Paging.Table.Entry.{get_addr-set_addr, get_addr-set_flags, addr_stored, and-and}
use an_os_in_rust.Paging.Mapper.Fork.{clone_table_entry}

-- The entry of the copy holds the number of the new table, but its lowest digit is set also if that
-- of the table that is copied is: `ALL_FLAGS` counts bit 12 as a flag.
pub clone_table_entry_addr :
    (dst_entry src_entry n : ℕ)
    → n < 2 ^ 40
    → get_addr (clone_table_entry dst_entry src_entry (n * 2 ^ 12))
      ≡ (n / 2 * 2 + max (n % 2) (get_addr src_entry / 2 ^ 12 % 2)) * 2 ^ 12
unfolding clone_table_entry
clone_table_entry_addr dst_entry src_entry n fits =
    get_addr-set_flags _ rw_flag
    ∙ or-zero _
    ∙ get_addr-set_flags (set_addr dst_entry (n * 2 ^ 12)) (get_flags src_entry all_flags)
    ∙ ap₂ bit_or (get_addr-set_addr dst_entry (n * 2 ^ 12) ∙ addr_stored n fits)
        (bit_twelve src_entry)
    ∙ or_block 12 n (get_addr src_entry / 2 ^ 12 % 2) (omega arith)
  where
    bit_twelve :
        (e : ℕ) → bit_and (get_flags e all_flags) mask_51_12 ≡ get_addr e / 2 ^ 12 % 2 * 2 ^ 12
    bit_twelve e =
        unfold get_flags get_addr in
        (and-and e all_flags mask_51_12 4096 refl
          ∙ sym (and-and e mask_51_12 4096 4096 refl)
          ∙ and_bit 12 (bit_and e mask_51_12))
