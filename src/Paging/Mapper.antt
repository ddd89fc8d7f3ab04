-- ===== src/Paging/Mapper.antt =====
-- arch/x86_64/src/paging/mapping.rs: the mapper. The memory that holds paging structures is a
-- function from the address of a table and an index to the entry there, so that tables that two
-- page-table trees share are shared here too. Lengths in use stay below 512 entries. `E` is a
-- parameter: `psb` is its constant, `root` what `paging_structure_base()` returns (a pointer to the
-- table in CR3), and a flush of the TLB is counted. Atomic reference counts are plain numbers, for
-- every method holds the mapper exclusively.
pub mod Cow
pub mod Map
pub mod Unmap
pub mod Fork
use an_os_in_rust.Base.{
  ℕ, zero, suc, ◌+◌, ◌-◌, ◌*◌, ◌/◌, ◌%◌, ◌^◌, bit_and, bit_or, Bool, true, false, ◌&&◌, ◌||◌, not,
  Option, none, some, List, [], ◌∷◌, leb, ltb, ◌==◌, if◌then◌else◌, length, Outcome, ok, panic,
  ◌>>=◌, ◌>>◌, assert, expect, checked_add, checked_sub,
}
use an_os_in_rust.Base.Assoc.{lookup, put, erase}
use an_os_in_rust.Physical
use an_os_in_rust.Physical.{PageAllocator}
use an_os_in_rust.Paging.Table.{
  PagingLevel, pml4_level, pdpt_level, pd_level, pt_level, PageSize, normal, huge, gigantic,
  PagingError, misaligned_address, page_bytes, entry_idx, get_flags, set_flags, get_addr, set_addr,
  phys_addr_of, present_flag, rw_flag, ps_flag, all_flags, mask_51_12, mmio_base,
}

pub record MappedPage : Type 0 where
  pub phys_addr : ℕ
  pub size : PageSize
  pub refs : ℕ
  pub aliasing_paging_structures : List (ℕ × ℕ)

pub record LeafEntry : Type 0 where
  pub table : ℕ
  pub phys_addr : ℕ
  pub idx : ℕ
  pub page_size : PageSize

abbrev pub Memory : Type 0
Memory = ℕ → ℕ → ℕ

pub record Mapper : Type 0 where
  pub psb : ℕ
  pub root : ℕ
  pub base : ℕ
  pub length : ℕ
  pub next : ℕ
  pub mapped_pages : List (ℕ × MappedPage)
  pub page_allocator : PageAllocator
  pub memory : Memory
  pub flushes : ℕ

abbrev pub boot_page_table_count : ℕ
boot_page_table_count = 7

-- `(*table).get_entry_mut(idx)` written with `entry`.
unfoldable pub write_entry : Memory → ℕ → ℕ → ℕ → Memory
write_entry m table idx entry t i = if t == table && i == idx then entry else m t i

abbrev pub update_entry : Mapper → ℕ → ℕ → (ℕ → ℕ) → Mapper
update_entry m table idx f = record m {
  memory = write_entry m.memory table idx (f (m.memory table idx));
}

-- `BTreeSet<(usize, usize)>`, in ascending order.
unfoldable pub pair_insert : ℕ × ℕ → List (ℕ × ℕ) → List (ℕ × ℕ)
pair_insert (a, b) [] = (a, b) ∷ []
pair_insert (a, b) ((c, d) ∷ xs) =
    if a == c && b == d
    then (c, d) ∷ xs
    else if ltb a c || (a == c && ltb b d)
    then (a, b) ∷ (c, d) ∷ xs
    else (c, d) ∷ pair_insert (a, b) xs

unfoldable pub pair_contains : ℕ × ℕ → List (ℕ × ℕ) → Bool
pair_contains (a, b) [] = false
pair_contains (a, b) ((c, d) ∷ xs) = (a == c && b == d) || pair_contains (a, b) xs

unfoldable pub pair_remove : ℕ × ℕ → List (ℕ × ℕ) → List (ℕ × ℕ)
pair_remove (a, b) [] = []
pair_remove (a, b) ((c, d) ∷ xs) = if a == c && b == d then xs else (c, d) ∷ pair_remove (a, b) xs

-- `Mapper::new` zeroes the region of paging structures past the tables made at boot.
unfoldable pub new : ℕ → ℕ → ℕ → ℕ → ℕ → PageAllocator → Memory → Mapper
new psb root base len next allocator memory = record {
  psb = psb;
  root = root;
  base = base;
  length = len;
  next = next;
  mapped_pages = [];
  page_allocator = allocator;
  memory = λ t i.
      if leb (base + 4096 * boot_page_table_count) t && ltb t (base + len) then 0 else memory t i;
  flushes = 0;
}

unfoldable pub new_table : Mapper → ℕ × Mapper
new_table m = (m.base + 4096 * m.next, record m { next = m.next + 1 })

unfoldable pub table_for_phys_addr : Mapper → ℕ → Outcome ℕ
table_for_phys_addr m phys_addr = do
  virt ← checked_add m.psb phys_addr
  offset ← checked_sub virt m.base
  ok (m.base + 4096 * (offset / 4096))

unfoldable pub walk : PagingLevel → Mapper → ℕ → ℕ → Option (ℕ × ℕ)
walk l m table virt_addr =
    let entry = m.memory table (entry_idx l virt_addr) in
    let flags = get_flags entry all_flags in
    if bit_and flags present_flag == present_flag then some (get_addr entry, flags) else none

-- The table below the entry and the flags of the entry.
unfoldable pub walk_or_create_table : PagingLevel → Mapper → ℕ → ℕ → Outcome (ℕ × ℕ × Mapper)
walk_or_create_table l m table virt_addr = elim (walk l m table virt_addr) [
  | some (addr, flags) ↦ table_for_phys_addr m addr >>= λ next_table. ok (next_table, flags, m)
  | none ↦
      let (next_table, m') = new_table m in
      let flags = bit_or present_flag rw_flag in
      phys_addr_of m.psb next_table >>= λ addr. ok (
        next_table,
        flags,
        update_entry m' table (entry_idx l virt_addr) (λ e. set_flags (set_addr e addr) flags true),
      )
]

-- `flags & PS_FLAG == PS_FLAG`
abbrev pub is_leaf : ℕ → Bool
is_leaf flags = bit_and flags ps_flag == ps_flag

-- The part of `walk_to_leaf` from a page table down.
unfoldable pub walk_pt : Mapper → ℕ → ℕ → Outcome (Option LeafEntry)
walk_pt m pt virt_addr = elim (walk pt_level m pt virt_addr) [
  | none ↦ ok none
  | some (addr, _) ↦ ok (
      some (record {
        table = pt;
        phys_addr = addr;
        idx = entry_idx pt_level virt_addr;
        page_size = normal;
      }))
]

unfoldable pub walk_pd : Mapper → ℕ → ℕ → Outcome (Option LeafEntry)
walk_pd m pd virt_addr = elim (walk pd_level m pd virt_addr) [
  | none ↦ ok none
  | some (addr, flags) ↦
      if is_leaf flags
      then ok (
          some (record {
            table = pd;
            phys_addr = addr;
            idx = entry_idx pd_level virt_addr;
            page_size = huge;
          }))
      else table_for_phys_addr m addr >>= (λ pt. walk_pt m pt virt_addr)
]

unfoldable pub walk_pdpt : Mapper → ℕ → ℕ → Outcome (Option LeafEntry)
walk_pdpt m pdpt virt_addr = elim (walk pdpt_level m pdpt virt_addr) [
  | none ↦ ok none
  | some (addr, flags) ↦
      if is_leaf flags
      then ok (
          some (record {
            table = pdpt;
            phys_addr = addr;
            idx = entry_idx pdpt_level virt_addr;
            page_size = gigantic;
          }))
      else table_for_phys_addr m addr >>= (λ pd. walk_pd m pd virt_addr)
]

unfoldable pub walk_to_leaf : Mapper → ℕ → ℕ → Outcome (Option LeafEntry)
walk_to_leaf m pml4 virt_addr = elim (walk pml4_level m pml4 virt_addr) [
  | none ↦ ok none
  | some (addr, _) ↦ table_for_phys_addr m addr >>= λ pdpt. walk_pdpt m pdpt virt_addr
]

-- `Mapper::phys_addr`
unfoldable pub phys_addr : Mapper → ℕ → Outcome (Option ℕ)
phys_addr m virt_addr = do
  found ← walk_to_leaf m m.root virt_addr
  ok (elim found [
    | none ↦ none
    | some leaf ↦ some (bit_or leaf.phys_addr (bit_and virt_addr (page_bytes leaf.page_size - 1)))
  ])

pub data Reply : Type 0 where
  done : Reply
  err : PagingError → Reply

-- The `for` loop of `map` over the pairs, of which it takes the first part.
unfoldable pub write_protect_aliases : List (ℕ × ℕ) → ℕ → Mapper → Outcome Mapper
write_protect_aliases [] virt_addr m = ok m
write_protect_aliases ((aliasing, _) ∷ rest) virt_addr m = do
  aliasing_pml4 ← table_for_phys_addr m aliasing
  found ← walk_to_leaf m aliasing_pml4 virt_addr
  leaf ← expect found
  write_protect_aliases rest virt_addr
      (update_entry m leaf.table leaf.idx (λ e. set_flags e rw_flag false))

-- The part of `map` for the lower half. `entry_addr` is `pte.get_addr()`.
unfoldable pub count_mapping : Mapper → ℕ → ℕ → ℕ → Outcome Mapper
count_mapping m entry_addr phys_addr virt_addr = do
  cr3 ← phys_addr_of m.psb m.root
  elim (lookup entry_addr m.mapped_pages) [
    | some page ↦
        let aliases = pair_insert (cr3, virt_addr) page.aliasing_paging_structures in
        write_protect_aliases aliases virt_addr (record m {
          mapped_pages =
              put entry_addr
                (record page { refs = page.refs + 1; aliasing_paging_structures = aliases })
                m.mapped_pages;
        })
    | none ↦ ok (record m {
      mapped_pages =
          put phys_addr
            (record {
              phys_addr = phys_addr;
              size = normal;
              refs = 1;
              aliasing_paging_structures = pair_insert (cr3, virt_addr) [];
            })
            m.mapped_pages;
    })
  ]

abbrev pub mask_11_0 : ℕ
mask_11_0 = 2 ^ 12 - 1

-- `map` past its two guards.
unfoldable pub map_aligned : Mapper → ℕ → ℕ → Outcome (Reply × Mapper)
map_aligned m phys_addr virt_addr = do
  (pdpt, _, m1) ← walk_or_create_table pml4_level m m.root virt_addr
  (pd, _, m2) ← walk_or_create_table pdpt_level m1 pdpt virt_addr
  (pt, _, m3) ← walk_or_create_table pd_level m2 pd virt_addr
  let idx = bit_and virt_addr pt_level.mask / 2 ^ pt_level.shift
  let m4 = update_entry m3 pt idx (λ e.
      set_flags (set_addr e (bit_and phys_addr mask_51_12)) (bit_or present_flag rw_flag) true)
  m5 ←
      (if virt_addr / 2 ^ 51 == 0
        then count_mapping m4 (get_addr (m4.memory pt idx)) phys_addr virt_addr
        else ok m4)
  ok (done, record m5 { flushes = m5.flushes + 1 })

unfoldable pub map : Mapper → ℕ → ℕ → Outcome (Reply × Mapper)
map m phys_addr virt_addr =
    if not (bit_and phys_addr mask_11_0 == 0)
    then ok (err (misaligned_address phys_addr normal), m)
    else if not (bit_and virt_addr mask_11_0 == 0)
    then ok (err (misaligned_address virt_addr normal), m)
    else map_aligned m phys_addr virt_addr

unfoldable pub alloc_page_at : Mapper → ℕ → Outcome (Reply × Mapper)
alloc_page_at m virt_addr = do
  (found, pa) ← Physical.allocate m.page_allocator 12
  block ← expect found
  map (record m { page_allocator = pa }) (Physical.get_addr block) virt_addr

-- The result of `map` is dropped.
unfoldable pub map_mmio : Mapper → ℕ → Outcome Mapper
map_mmio m phys_addr = do
  virt_addr ← checked_add phys_addr mmio_base
  (_, m') ← map m phys_addr virt_addr
  ok m'
