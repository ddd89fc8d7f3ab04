-- ===== src/Examples/Memory.antt =====
-- Examples for paging/src/physical.rs and arch/x86_64/src/paging.
use an_os_in_rust.Base.{
  ℕ, ◌+◌, ◌*◌, ◌^◌, ◌/◌, ◌%◌, ◌≤◌, ◌<◌, ◌≡◌, refl, max, true, List, [], ◌∷◌, arith, length, ok,
  panic,
}
use an_os_in_rust.Base.Sets.{weigh, contains, insert, remove}
use an_os_in_rust.Physical.{PageAllocator, Block, new, allocate, free, carve, init}
use an_os_in_rust.Physical.Cover.{within, list_cover, cover_from, cover}
use an_os_in_rust.Physical.Free.{free-Freed, free_drops_buddy}
use an_os_in_rust.Physical.Merge.{IsFreeable, Gains}
use an_os_in_rust.Physical.Allocate.{allocate_never_splits}
use an_os_in_rust.Physical.Init.{requested, init_inside, carve_skips}
use an_os_in_rust.Paging.Table.{get_addr}
use an_os_in_rust.Heap.{KernelAllocator}
use an_os_in_rust.Heap.Apart.{Placed, alloc_each, demand, AreApart, alloc_each-AreApart}
use an_os_in_rust.Paging.Mapper.Fork.{clone_table_entry}
use an_os_in_rust.Paging.Mapper.Fork.Entries.{clone_table_entry_addr}

abbrev one_page : PageAllocator
one_page = record { free_lists = (4096 ∷ []) ∷ [] ∷ [] }

abbrev first_page : Block
first_page = record { addr = 0; order = 12 }

first_page_disjoint : (p : ℕ) → cover_from 12 one_page.free_lists p + within 0 (2 ^ 12) p ≤ 1
unfolding cover_from list_cover weigh within
first_page_disjoint p = ground arith

abbrev first_page-IsFreeable : IsFreeable one_page.free_lists first_page
first_page-IsFreeable = record {
  index = 0;
  at_index = refl;
  has_list = omega arith;
  few_lists = omega arith;
  multiple = 0;
  aligned = refl;
  in_word = omega arith;
  disjoint = first_page_disjoint;
}

-- The tests of `init` in the source: the page and its buddy become one block.
free_merges : free one_page first_page ≡ ok (record { free_lists = [] ∷ (0 ∷ []) ∷ [] })
unfolding free contains insert remove
free_merges = refl

free-Freed_example :
    (pa' : PageAllocator) × (free one_page first_page ≡ ok pa')
    × (length pa'.free_lists ≡ length one_page.free_lists)
    × Gains one_page.free_lists first_page pa'.free_lists
free-Freed_example = free-Freed one_page first_page first_page-IsFreeable

abbrev both_pages : PageAllocator
both_pages = record { free_lists = (4096 ∷ []) ∷ [] }

both_pages_disjoint : (p : ℕ) → cover_from 12 both_pages.free_lists p + within 0 (2 ^ 12) p ≤ 1
unfolding cover_from list_cover weigh within
both_pages_disjoint p = ground arith

abbrev last_page-IsFreeable : IsFreeable both_pages.free_lists first_page
last_page-IsFreeable = record {
  index = 0;
  at_index = refl;
  has_list = omega arith;
  few_lists = omega arith;
  multiple = 0;
  aligned = refl;
  in_word = omega arith;
  disjoint = both_pages_disjoint;
}

has_buddy : contains 4096 (4096 ∷ []) ≡ true
unfolding contains
has_buddy = refl

free_drops_buddy_example :
    (pa' : PageAllocator) × (free both_pages first_page ≡ ok pa')
    × ((p : ℕ) → cover pa' p + within 4096 4096 p ≡ cover both_pages p + within 0 4096 p)
free_drops_buddy_example =
    free_drops_buddy both_pages first_page last_page-IsFreeable refl has_buddy

abbrev one_block : PageAllocator
one_block = record { free_lists = [] ∷ (0 ∷ []) ∷ [] }

allocate_never_splits_example : allocate one_block 12 ≡ panic
allocate_never_splits_example = allocate_never_splits one_block 0 (omega arith) (omega arith) refl

abbrev one_range : List (ℕ × ℕ)
one_range = (0x100000, 0x2000) ∷ []

one_range_once : (p : ℕ) → requested one_range p ≤ 1
unfolding requested within
one_range_once p = ground arith

init_inside_example :
    (pa : PageAllocator) × (init new one_range ≡ ok pa)
    × ((p : ℕ) → cover pa p ≤ requested one_range p)
init_inside_example =
    init_inside one_range ((256, refl), (2, refl), omega arith, omega arith, tt) one_range_once

carve_skips_example : carve 8 0 4096 0x100000 0x100000 one_page ≡ ok (2 ^ 20, one_page)
carve_skips_example =
    carve_skips 0x100000 0x100000 512 1 one_page refl refl (omega arith) (omega arith)

clone_table_entry_addr_example :
    get_addr (clone_table_entry 0 0x5003 (8 * 2 ^ 12))
    ≡ (8 / 2 * 2 + max (8 % 2) (get_addr 0x5003 / 2 ^ 12 % 2)) * 2 ^ 12
clone_table_entry_addr_example = clone_table_entry_addr 0 0x5003 8 (omega arith)

abbrev small_heap : KernelAllocator
small_heap = record { heap_bottom = 0x1000; head = 0x1000 }

small_demand : 0x1000 + demand ((24, 3) ∷ (100, 4) ∷ []) < 2 ^ 64
unfolding demand
small_demand = omega arith

alloc_each-AreApart_example :
    (blocks : List Placed) × (a' : KernelAllocator) × (alloc_each
        ((24, 3) ∷ (100, 4) ∷ [])
        small_heap
      ≡ ok (blocks, a'))
    × AreApart 0x1000 blocks
alloc_each-AreApart_example =
    alloc_each-AreApart ((24, 3) ∷ (100, 4) ∷ []) small_heap (omega arith) small_demand
