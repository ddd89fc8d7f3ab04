-- ===== src/Paging/Mapper/Unmap.antt =====
-- `Mapper::unmap` of arch/x86_64/src/paging/mapping.rs.
pub mod Walks
pub mod Cleared
pub mod Gone
use an_os_in_rust.Base.{
  ℕ, ◌-◌, ◌/◌, ◌^◌, bit_and, true, not, List, [], ◌∷◌, ltb, ◌==◌, if◌then◌else◌, Outcome, ok, panic,
  ◌>>=◌, ◌>>◌, assert, expect,
}
use an_os_in_rust.Base.Assoc.{lookup, put, erase}
use an_os_in_rust.Paging.Table.{misaligned_address, page_bytes, set_flags, phys_addr_of, rw_flag}
use an_os_in_rust.Paging.Mapper.{
  MappedPage, Mapper, update_entry, pair_contains, pair_remove, table_for_phys_addr, walk_to_leaf,
  Reply, done, err,
}

-- The one alias that is left; any other number of them fails the assertion.
unfoldable pub last_alias : List (ℕ × ℕ) → Outcome ℕ
last_alias [] = panic
last_alias ((pml4, _) ∷ []) = ok pml4
last_alias (_ ∷ _ ∷ _) = panic

-- The alias that is left may write to the page again.
unfoldable pub make_writable : Mapper → List (ℕ × ℕ) → ℕ → Outcome Mapper
make_writable m left virt_addr = do
  alias ← last_alias left
  pml4 ← table_for_phys_addr m alias
  found ← walk_to_leaf m pml4 virt_addr
  leaf ← expect found
  ok (update_entry m leaf.table leaf.idx (λ e. set_flags e rw_flag true))

-- A page that had more than one reference.
unfoldable pub release_shared : Mapper → ℕ → MappedPage → ℕ → ℕ → Outcome Mapper
release_shared m page_addr page cr3 virt_addr = do
  let left = pair_remove (cr3, virt_addr) page.aliasing_paging_structures
  let refs = page.refs - 1
  let m' = record m {
    mapped_pages =
        put page_addr (record page { refs = refs; aliasing_paging_structures = left })
          m.mapped_pages;
  }
  assert (pair_contains (cr3, virt_addr) page.aliasing_paging_structures)
  let writable = make_writable m' left virt_addr
  if refs == 1 then writable else ok m'

-- The part of `unmap` for the lower half.
unfoldable pub release_page : Mapper → ℕ → ℕ → Outcome Mapper
release_page m page_addr virt_addr = do
  page ← expect (lookup page_addr m.mapped_pages)
  cr3 ← phys_addr_of m.psb m.root
  let shared = release_shared m page_addr page cr3 virt_addr
  if ltb 1 page.refs
      then shared
      else ok (record m { mapped_pages = erase page_addr m.mapped_pages })

unfoldable pub unmap : Mapper → ℕ → Outcome (Reply × Mapper)
unmap m virt_addr = do
  found ← walk_to_leaf m m.root virt_addr
  leaf ← expect found
  let m1 = update_entry m leaf.table leaf.idx (λ _. 0)
  let rest =
      (if virt_addr / 2 ^ 51 == 0 then release_page m1 leaf.phys_addr virt_addr else ok m1)
      >>= λ m2. ok (done, m2)
  if not (bit_and virt_addr (page_bytes leaf.page_size - 1) == 0)
      then ok (err (misaligned_address virt_addr leaf.page_size), m)
      else rest
