-- ===== src/Physical.antt =====
-- paging/src/physical.rs: the buddy allocator of physical pages. `free_lists[i]` holds the addresses
-- of the free blocks of `2 ^ (12 + i)` bytes. Addresses are `usize`; `1 << order` is computed for
-- orders below 64 only, since an order outside the free lists stops at its index first.
pub mod Cover
pub mod Free
pub mod Merge
pub mod Allocate
pub mod Init
use an_os_in_rust.Base.{
  ℕ, zero, suc, ◌+◌, ◌-◌, ◌*◌, ◌^◌, bit_and, bit_xor, Bool, true, false, not, ◌&&◌, Option, none,
  some, List, [], ◌∷◌, ◌++◌, leb, ltb, ◌==◌, if◌then◌else◌, length, get_or, set, replicate, Outcome,
  ok, panic, ◌>>=◌, ◌>>◌, assert, checked_add, checked_sub,
}
use an_os_in_rust.Base.Sets.{contains, insert, remove}

abbrev pub page_size_order : ℕ
page_size_order = 12

abbrev pub page_size : ℕ
page_size = 2 ^ page_size_order

-- From 4 KiB to 512 KiB.
abbrev pub block_order_count : ℕ
block_order_count = 7

pub record PageAllocator : Type 0 where
  pub free_lists : List (List ℕ)

pub record Block : Type 0 where
  pub addr : ℕ
  pub order : ℕ

unfoldable pub new : PageAllocator
new = record { free_lists = [] }

-- `!x` on `usize`.
abbrev pub word_not : ℕ → ℕ
word_not x = 2 ^ 64 - 1 - x

unfoldable pub get_addr : Block → ℕ
get_addr b = b.addr

-- The order falls at each call, so `order + 1` rounds are enough.
unfoldable pub allocate_within : ℕ → PageAllocator → ℕ → Outcome (Option Block × PageAllocator)
allocate_within zero pa order = panic
allocate_within (suc fuel) pa order = do
  list_idx ← checked_sub order page_size_order
  let larger = allocate_within fuel pa (list_idx + 1)
  if leb (length pa.free_lists) list_idx
      then ok (none, pa)
      else elim (get_or pa.free_lists list_idx []) [
        | addr ∷ _ ↦ ok (
          some (record { addr = addr; order = order }),
          record {
            free_lists =
                set pa.free_lists list_idx (remove addr (get_or pa.free_lists list_idx []));
          },
        )
        | [] ↦ larger >>= λ (found, pa'). elim found [
          | none ↦ ok (none, pa')
          | some large_block ↦
              let buddy = bit_xor large_block.addr (2 ^ order) in
              ok (
                some (record { addr = large_block.addr; order = order }),
                record {
                  free_lists =
                      set pa'.free_lists list_idx
                        (insert buddy (get_or pa'.free_lists list_idx []));
                },
              )
        ]
      ]

unfoldable pub allocate : PageAllocator → ℕ → Outcome (Option Block × PageAllocator)
unfolding allocate_within
allocate pa order = allocate_within (order + 1) pa order

-- The order rises at each call and stays below the number of lists.
unfoldable pub free_within : ℕ → List (List ℕ) → Block → Outcome (List (List ℕ))
free_within zero fls block = panic
free_within (suc fuel) fls block = do
  list_idx ← checked_sub block.order page_size_order
  let block_size = 2 ^ block.order
  let buddy = bit_xor block.addr block_size
  let list = get_or fls list_idx []
  let merged = bit_and block.addr (word_not block_size)
  let up =
      free_within fuel (set fls list_idx (remove buddy list))
        (record { addr = merged; order = block.order + 1 })
  assert (ltb list_idx (length fls))
  if contains buddy list && ltb (list_idx + 1) (length fls)
      then up
      else ok (set fls list_idx (insert block.addr (remove buddy list)))

unfoldable pub free : PageAllocator → Block → Outcome PageAllocator
unfolding free_within
free pa block = free_within (suc (length pa.free_lists)) pa.free_lists block >>= λ fls.
    ok (record { free_lists = fls })

-- The tests of `is_buddy_in_range(addr, PAGE_SIZE << k, start, size)`, where the range ends at `end`:
-- every call of the source has a block size of this form, and halves it until it is `PAGE_SIZE`.
unfoldable pub are_buddies_within : ℕ → ℕ → ℕ → ℕ → Bool
are_buddies_within zero addr start end =
    let buddy = bit_xor addr page_size in leb start buddy && ltb buddy end
are_buddies_within (suc k) addr start end =
    let buddy = bit_xor addr (page_size * 2 ^ suc k) in
    (leb start buddy && ltb buddy end) && are_buddies_within k buddy start end

-- `start + size` is the same sum at each call, so it overflows at the first one or never.
unfoldable pub is_buddy_in_range : ℕ → ℕ → ℕ → ℕ → Outcome Bool
is_buddy_in_range k addr start size = do
  end ← checked_add start size
  ok (are_buddies_within k addr start end)

-- The `for` loop of `init`, with `left` sizes to try from order `12 + k`. It returns `shift`.
unfoldable pub carve : ℕ → ℕ → ℕ → ℕ → ℕ → PageAllocator → Outcome (ℕ × PageAllocator)
carve zero k shift start size pa = ok (shift, pa)
carve (suc left) k shift start size pa =
    let bigger = carve left (k + 1) (2 ^ (page_size_order + k) * 2) start size pa in
    let freed =
      free pa (record { addr = start; order = page_size_order + k }) >>= (λ pa'. ok (shift, pa')) in
    is_buddy_in_range k start start size >>= (λ inside. if not inside then freed else bigger)

-- The `loop` of `init` over one range. A round takes at least a page off `size`.
unfoldable pub carve_all : ℕ → ℕ → ℕ → PageAllocator → Outcome PageAllocator
carve_all zero start size pa = panic
carve_all (suc fuel) start size pa = do
  (shift, pa') ← carve (block_order_count + 1) 0 page_size start size pa
  start' ← checked_add start shift
  size' ← checked_sub size shift
  let rest = carve_all fuel start' size' pa'
  if size' == 0 then ok pa' else rest

unfoldable pub init_ranges : PageAllocator → List (ℕ × ℕ) → Outcome PageAllocator
init_ranges pa [] = ok pa
init_ranges pa ((start, size) ∷ rest) = do
  pa' ← carve_all (size + 1) start size pa
  init_ranges pa' rest

unfoldable pub init : PageAllocator → List (ℕ × ℕ) → Outcome PageAllocator
init pa init_free =
    init_ranges (record { free_lists = pa.free_lists ++ replicate (block_order_count + 1) [] })
      init_free
