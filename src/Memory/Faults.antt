-- ===== src/Memory/Faults.antt =====
-- Page faults of src/arch/x86_64/mm.rs.
use an_os_in_rust.Base.{
  ℕ, ◌+◌, ◌^◌, ◌<◌, ◌≡◌, refl, ◌==◌, true, false, List, [], ◌∷◌, ok, bit_and, length, get_or,
}
use an_os_in_rust.Physical.{PageAllocator, get_addr}
use an_os_in_rust.Physical.Allocate.{allocate_takes}
use an_os_in_rust.Physical.Cover.{within, cover}
use an_os_in_rust.Paging.Mapper.{Mapper, mask_11_0}
use an_os_in_rust.Paging.Mapper.Cow.{Bytes, alloc_page_at-misaligned}
use an_os_in_rust.Memory.{returned, page_fault_handler}

-- A fault on a page that is not present, at an address that is not a multiple of the page's size, as
-- the faulting instruction's address is, where the allocator's list of pages begins with an aligned
-- page: the handler returns, and has changed nothing but the allocator. No page is mapped, and the free
-- memory has shrunk by exactly that page.
pub page_fault_handler-unaligned :
    (error_code virt_addr addr : ℕ) (rest : List ℕ) (m : Mapper) (bytes : Bytes)
    → (bit_and error_code 0x1 == 0) ≡ true
    → (virt_addr == 0) ≡ false
    → (bit_and virt_addr mask_11_0 == 0) ≡ false
    → 0 < length m.page_allocator.free_lists
    → get_or m.page_allocator.free_lists 0 [] ≡ addr ∷ rest
    → (bit_and addr mask_11_0 == 0) ≡ true
    → (pa : PageAllocator) × (page_fault_handler error_code virt_addr m bytes
        ≡ ok (returned (record m { page_allocator = pa }) bytes))
      × ((p : ℕ) → cover pa p + within addr (2 ^ 12) p ≡ cover m.page_allocator p)
unfolding page_fault_handler get_addr
page_fault_handler-unaligned error_code virt_addr addr rest m bytes missing other off has_list front
      aligned =
    let (pa, got, shrunk) = allocate_takes m.page_allocator 0 addr rest has_list front in
    let tried =
      alloc_page_at-misaligned m virt_addr (record { addr = addr; order = 12 }) pa got aligned
        off in
    (pa, rw (missing, other, tried) refl, shrunk)
