-- ===== src/Paging/Mapper/Cow.antt =====
-- `Mapper::cow` of arch/x86_64/src/paging/mapping.rs. The bytes in memory are a function of their
-- physical address.
use an_os_in_rust.Base.{
  ℕ, zero, suc, ◌+◌, ◌≡◌, refl, bit_and, true, false, ltb, ◌==◌, if◌then◌else◌, some, Outcome, ok,
  panic, ◌>>=◌, ◌>>◌, assert, expect,
}
use an_os_in_rust.Base.Assoc.{lookup}
use an_os_in_rust.Physical
use an_os_in_rust.Physical.{Block, PageAllocator}
use an_os_in_rust.Paging.Table.{normal, huge, gigantic, misaligned_address}
use an_os_in_rust.Paging.Mapper.{
  Mapper, LeafEntry, walk_to_leaf, phys_addr, map, alloc_page_at, mask_11_0, Reply, done, err,
}
use an_os_in_rust.Paging.Mapper.Unmap.{unmap}

abbrev pub Bytes : Type 0
Bytes = ℕ → ℕ

-- `ptr::copy_nonoverlapping` through the mapping. A byte that is not mapped is a panic: the page fault
-- that it raises waits for the lock of the mapper for ever.
unfoldable pub copy : ℕ → Mapper → ℕ → ℕ → Bytes → Outcome Bytes
copy zero m src dest bytes = ok bytes
copy (suc n) m src dest bytes = do
  found ← phys_addr m src
  from ← expect found
  found' ← phys_addr m dest
  to ← expect found'
  copy n m (src + 1) (dest + 1) (λ a. if a == to then bytes from else bytes a)

-- The guards of `cow` on the page that the address lies in.
unfoldable pub check_shared : Mapper → LeafEntry → Outcome (Unit {0})
check_shared m leaf = elim leaf.page_size [
  | gigantic ↦ panic
  | huge ↦ panic
  | normal ↦ expect (lookup leaf.phys_addr m.mapped_pages) >>= λ page. assert (ltb 1 page.refs)
]

-- `cow_tmp_map`, which drops the result of `map`.
unfoldable pub cow_tmp_map : Mapper → ℕ → Outcome (Block × Mapper)
cow_tmp_map m scratch = do
  (found, pa) ← Physical.allocate m.page_allocator 12
  new_page ← expect found
  (_, m') ← map (record m { page_allocator = pa }) (Physical.get_addr new_page) scratch
  ok (new_page, m')

-- `?` on the results of the two calls of `unmap`, and the `map` at the end.
unfoldable pub move_page : Mapper → ℕ → ℕ → ℕ → Outcome (Reply × Mapper)
move_page m virt_addr scratch new_addr = do
  (first, m1) ← unmap m virt_addr
  let after_first = (do
    (second, m2) ← unmap m1 scratch
    let mapped = map m2 new_addr virt_addr
    (elim second [ done ↦ mapped | err e ↦ ok (err e, m2) ]))
  elim first [ done ↦ after_first | err e ↦ ok (err e, m1) ]

unfoldable pub cow : Mapper → ℕ → ℕ → Bytes → Outcome (Reply × Mapper × Bytes)
cow m virt_addr scratch bytes = do
  found ← walk_to_leaf m m.root virt_addr
  leaf ← expect found
  check_shared m leaf >> (do
    (new_page, m1) ← cow_tmp_map m scratch
    bytes' ← copy 0x1000 m1 virt_addr scratch bytes
    (reply, m2) ← move_page m1 virt_addr scratch (Physical.get_addr new_page)
    ok (reply, m2, bytes'))

-- Where the allocator has a page: mapping it at an address that is not a multiple of the page's size
-- returns an error and changes nothing but the allocator, which the page is taken from for good.
pub alloc_page_at-misaligned :
    (m : Mapper) (virt_addr : ℕ) (block : Block) (pa : PageAllocator)
    → Physical.allocate m.page_allocator 12 ≡ ok (some block, pa)
    → (bit_and (Physical.get_addr block) mask_11_0 == 0) ≡ true
    → (bit_and virt_addr mask_11_0 == 0) ≡ false
    → alloc_page_at m virt_addr
      ≡ ok (err (misaligned_address virt_addr normal), record m { page_allocator = pa })
unfolding alloc_page_at map
alloc_page_at-misaligned m virt_addr block pa got aligned off = rw (got, aligned, off) refl
