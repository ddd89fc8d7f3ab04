-- ===== src/Paging/Mapper/Fork.antt =====
-- `Mapper::fork` and `recursively_clone` of arch/x86_64/src/paging/mapping.rs.
pub mod Entries
use an_os_in_rust.Base.{
  ℕ, zero, suc, ◌+◌, ◌*◌, ◌^◌, bit_and, bit_or, Bool, true, false, ◌||◌, not, ◌==◌, if◌then◌else◌,
  Outcome, ok, panic, ◌>>=◌, ◌>>◌, expect,
}
use an_os_in_rust.Base.Assoc.{lookup, put}
use an_os_in_rust.Paging.Table.{
  get_addr, set_addr, get_flags, set_flags, phys_addr_of, present_flag, rw_flag, all_flags,
}
use an_os_in_rust.Paging.Mapper.{
  MappedPage, Mapper, update_entry, new_table, table_for_phys_addr, pair_insert, is_leaf,
}

-- `for i in i..i + n`
unfoldable pub for_range : ℕ → ℕ → (ℕ → Mapper → Outcome Mapper) → Mapper → Outcome Mapper
for_range zero i body m = ok m
for_range (suc n) i body m = body i m >>= λ m'. for_range n (i + 1) body m'

abbrev is_absent : ℕ → Bool
is_absent flags = not (bit_and flags present_flag == present_flag)

-- The shift of an index in `recursively_clone`: 3 is a page-directory-pointer table, 2 a page directory, 1 a page table.
unfoldable pub shift_at : ℕ → ℕ
shift_at level = if level == 3 then 30 else if level == 2 then 21 else 12

-- An entry that maps memory: shared, and read-only on both sides from now on.
unfoldable pub clone_leaf : Mapper → ℕ → ℕ → ℕ → ℕ → ℕ → Outcome Mapper
clone_leaf m src dst i dst_cr3 virt_addr =
    let entry = m.memory src i in
    let src_addr = get_addr entry in
    let m1 = update_entry m dst i (λ e.
      set_flags (set_flags (set_addr e src_addr) (get_flags entry all_flags) true) rw_flag false) in
    let m2 = update_entry m1 src i (λ e. set_flags e rw_flag false) in
    expect (lookup src_addr m2.mapped_pages) >>= λ page. ok (record m2 {
      mapped_pages =
          put src_addr
            (record page {
              refs = page.refs + 1;
              aliasing_paging_structures =
                  pair_insert (dst_cr3, virt_addr) page.aliasing_paging_structures;
            })
            m2.mapped_pages;
    })

-- What an entry for a table below becomes in the copy, `addr` being the new table's address.
unfoldable pub clone_table_entry : ℕ → ℕ → ℕ → ℕ
clone_table_entry dst_entry src_entry addr =
    set_flags (set_flags (set_addr dst_entry addr) (get_flags src_entry all_flags) true) rw_flag
      true

-- The body of the loop of `recursively_clone`; `below` is the call for the level below.
unfoldable pub clone_entry :
    (Mapper → ℕ → ℕ → ℕ → ℕ → Outcome Mapper) → ℕ → ℕ → ℕ → ℕ → ℕ → ℕ → Mapper → Outcome Mapper
clone_entry below level src dst dst_cr3 virt_addr i m =
    let entry = m.memory src i in
    let flags = get_flags entry all_flags in
    let virt_addr' = bit_or virt_addr (i * 2 ^ shift_at level) in
    if is_absent flags
    then ok m
    else (if level == 1 || is_leaf flags then clone_leaf m src dst i dst_cr3 virt_addr' else (do
      let (dst_table, m1) = new_table m
      addr ← phys_addr_of m1.psb dst_table
      let m2 = update_entry m1 dst i (λ e. clone_table_entry e entry addr)
      src_table ← table_for_phys_addr m2 (get_addr entry)
      below m2 src_table dst_table dst_cr3 virt_addr'))

-- `recursively_clone`, of which each call is one level below its caller; level 0 is unreachable.
unfoldable pub recursively_clone : ℕ → Mapper → ℕ → ℕ → ℕ → ℕ → Outcome Mapper
recursively_clone zero m src dst dst_cr3 virt_addr = panic
recursively_clone (suc level) m src dst dst_cr3 virt_addr =
    for_range 512 0 (clone_entry (recursively_clone level) (suc level) src dst dst_cr3 virt_addr) m

-- The kernel's half of the address space: the tables below are shared.
unfoldable pub share_entry : ℕ → ℕ → ℕ → Mapper → Outcome Mapper
share_entry src_pml4 dst_pml4 i m =
    let entry = m.memory src_pml4 i in
    let flags = get_flags entry all_flags in
    if is_absent flags
    then ok m
    else ok (update_entry m dst_pml4 i (λ e. set_flags (set_addr e (get_addr entry)) flags true))

unfoldable pub fork_entry : ℕ → ℕ → ℕ → Mapper → Outcome Mapper
fork_entry src_pml4 dst_pml4 i m =
    let flags = get_flags (m.memory src_pml4 i) all_flags in
    if is_absent flags then ok m else (do
      let (dst_pdpt, m1) = new_table m
      addr ← phys_addr_of m1.psb dst_pdpt
      let m2 = update_entry m1 dst_pml4 i (λ e. set_addr (set_flags e flags true) addr)
      dst_cr3 ← phys_addr_of m2.psb dst_pml4
      src_pdpt ← table_for_phys_addr m2 (get_addr (m2.memory src_pml4 i))
      recursively_clone 3 m2 src_pdpt dst_pdpt dst_cr3 (i * 2 ^ 39))

unfoldable pub fork : Mapper → ℕ → Outcome (ℕ × Mapper)
fork m src_pml4 = do
  let (dst_pml4, m1) = new_table m
  m2 ← for_range 256 256 (share_entry src_pml4 dst_pml4) m1
  m3 ← for_range 256 0 (fork_entry src_pml4 dst_pml4) m2
  cr3 ← phys_addr_of m3.psb dst_pml4
  ok (cr3, m3)
