-- ===== src/Examples/Mapping.antt =====
-- Examples for arch/x86_64/src/paging/mapping.rs.
use an_os_in_rust.Base.{
  ◌-◌, bit_and, ◌≡◌, refl, ◌==◌, ◌&&◌, if◌then◌else◌, arith, [], ◌∷◌, none, some, ok,
}
use an_os_in_rust.Base.Assoc.{lookup}
use an_os_in_rust.Paging.Table.{normal, page_bytes, entry_idx, get_flags, get_addr}
use an_os_in_rust.Paging.Mapper.{
  Mapper, MappedPage, LeafEntry, Memory, done, walk, walk_pt, walk_pd, walk_pdpt, walk_to_leaf,
  table_for_phys_addr, phys_addr,
}
use an_os_in_rust.Paging.Mapper.Unmap.{unmap}
use an_os_in_rust.Paging.Mapper.Unmap.Gone.{unmap-phys_addr, unmap_last}

-- Four tables, the last of which maps the page 0x5000 at 0x1000.
abbrev four_tables : Memory
four_tables t i =
    if t == 0 && i == 0
    then 0x1003
    else if t == 0x1000 && i == 0
    then 0x2003
    else if t == 0x2000 && i == 0
    then 0x3003
    else if t == 0x3000 && i == 1
    then 0x5003
    else 0

abbrev only_page : MappedPage
only_page = record {
  phys_addr = 0x5000;
  size = normal;
  refs = 1;
  aliasing_paging_structures = (0, 0x1000) ∷ [];
}

abbrev pub small : Mapper
small = record {
  psb = 0;
  root = 0;
  base = 0;
  length = 0x10000;
  next = 4;
  mapped_pages = (0x5000, only_page) ∷ [];
  page_allocator = record { free_lists = [] };
  memory = four_tables;
  flushes = 0;
}

abbrev only_leaf : LeafEntry
only_leaf = record { table = 0x3000; phys_addr = 0x5000; idx = 1; page_size = normal }

finds_leaf : walk_to_leaf small 0 0x1000 ≡ ok (some only_leaf)
unfolding walk_to_leaf walk_pdpt walk_pd walk_pt walk table_for_phys_addr entry_idx get_flags
    get_addr
finds_leaf = refl

counted : lookup 0x5000 small.mapped_pages ≡ some only_page
unfolding lookup
counted = refl

page_aligned : bit_and 0x1000 (page_bytes normal - 1) ≡ 0
unfolding page_bytes
page_aligned = refl

unmap_last_example :
    (m' : Mapper) × (unmap small 0x1000 ≡ ok (done, m'))
    × (phys_addr m' 0x1000 ≡ ok none)
    × (lookup 0x5000 m'.mapped_pages ≡ none)
unmap_last_example =
    unmap_last small only_leaf only_page 0x1000 finds_leaf page_aligned (omega arith) counted
      (omega arith) (omega arith)

abbrev unmapped :
    (m' : Mapper) × (unmap small 0x1000 ≡ ok (done, m'))
    × (phys_addr m' 0x1000 ≡ ok none)
    × (lookup 0x5000 m'.mapped_pages ≡ none)
unmapped =
    unmap_last small only_leaf only_page 0x1000 finds_leaf page_aligned (omega arith) counted
      (omega arith) (omega arith)

unmap-phys_addr_example : phys_addr (unmapped.0) 0x1000 ≡ ok none
unmap-phys_addr_example = unmap-phys_addr small (unmapped.0) 0x1000 (unmapped.1)
