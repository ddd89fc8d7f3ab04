-- ===== src/Examples/NewPage.antt =====
-- A first page in empty tables, and a page beside a huge one.
use an_os_in_rust.Base.{
  ℕ, suc, ◌*◌, ◌≤◌, ◌≡◌, refl, sym, subst, ok_injective, ap, ◌∙◌, Bool-cases, true, false, none,
  some, ◌⊎◌, inl, inr, ok, [], ◌==◌, ◌&&◌, if◌then◌else◌, arith,
}
use an_os_in_rust.Base.Assoc.{lookup}
use an_os_in_rust.Paging.Table.{get_flags, get_addr, entry_idx, pml4_level, gigantic}
use an_os_in_rust.Paging.Mapper.{
  Mapper, Memory, done, map, phys_addr, walk, walk_pdpt, walk_to_leaf, table_for_phys_addr,
}
use an_os_in_rust.Paging.Mapper.Unmap.Walks.{is_present}
use an_os_in_rust.Paging.Mapper.Map.{table_at, entry_is_leaf, IsTree, HasNoHuge, HasRoom, level_of}
use an_os_in_rust.Paging.Mapper.Map.Found.{map-phys_addr}
use an_os_in_rust.Paging.Mapper.Map.Others.{map-walk_to_leaf}
use an_os_in_rust.Examples.Mapping.{small}

-- The root is the first table of the region.
abbrev empty : Mapper
empty = record small {
  psb = 0x8000;
  root = 0xa000;
  base = 0xa000;
  next = 1;
  mapped_pages = [];
  memory = λ t i. 0;
}

abbrev levels : ℕ → ℕ
levels x = if x == 0xa000 then 4 else 0

absent : is_present 0 ≡ false
unfolding get_flags
absent = refl

not_leaf : entry_is_leaf 0 ≡ false
unfolding get_flags
not_leaf = refl

other : (k : ℕ) → 1 ≤ k → levels (table_at empty k) ≡ 0
other k h = ground (arith, h)

empty-IsTree : IsTree levels empty
empty-IsTree = record {
  root_level = refl;
  leads = λ t i k level there leaf. absurd (differ (sym there ∙ absent));
  no_table = other;
  is_clear = λ k i h. refl;
}
  where
    differ : true ≡ false → ⊥
    differ e = cc

different : true ≡ false → ⊥
different e = cc

empty-HasNoHuge : HasNoHuge 3 0xa000 empty 0x1000
empty-HasNoHuge = (not_leaf, λ u there leads. absurd (different (sym there ∙ absent)))

empty-HasRoom : HasRoom 3 empty
empty-HasRoom = record { offset = 2; region = refl; in_word = omega arith; in_entry = omega arith }

map-phys_addr_example :
    (m' : Mapper) × (map empty (7 * 4096) 0x1000 ≡ ok (done, m'))
    × (phys_addr m' 0x1000 ≡ ok (some (7 * 4096)))
unfolding lookup
map-phys_addr_example =
    map-phys_addr levels empty 0x1000 7 empty-IsTree empty-HasNoHuge empty-HasRoom (omega arith)
      refl (inr (refl, omega arith))

-- Two tables, the second of which maps 1 GiB at 1 GiB.
abbrev two_tables : Memory
two_tables t i =
    if t == 0xa000 && i == 0 then 0x3003 else if t == 0xb000 && i == 1 then 0x40000083 else 0

abbrev with_gigantic : Mapper
with_gigantic = record empty { next = 2; memory = two_tables }

abbrev two_levels : ℕ → ℕ
two_levels x = if x == 0xa000 then 4 else if x == 0xb000 then 3 else 0

gigantic_leaf : entry_is_leaf 0x40000083 ≡ true
unfolding get_flags
gigantic_leaf = refl

table_not_leaf : entry_is_leaf 0x3003 ≡ false
unfolding get_flags
table_not_leaf = refl

leads_on : table_for_phys_addr with_gigantic (get_addr 0x3003) ≡ ok 0xb000
unfolding table_for_phys_addr get_addr
leads_on = refl

entries :
    (t i : ℕ)
    → ((t ≡ 0xa000) × (two_tables t i ≡ 0x3003))
      ⊎ ((two_tables t i ≡ 0x40000083) ⊎ (two_tables t i ≡ 0))
entries t i = elim (Bool-cases (t == 0xa000 && i == 0)) [
  | inl first ↦ inl (ground (arith, first), rw (first) refl)
  | inr other ↦ inr (elim (Bool-cases (t == 0xb000 && i == 1)) [
    | inl second ↦ inl (rw (other, second) refl)
    | inr none_such ↦ inr (rw (other, none_such) refl)
  ])
]

with_gigantic-leads :
    (t i k : ℕ)
    → two_levels t ≡ suc (suc k)
    → is_present (two_tables t i) ≡ true
    → entry_is_leaf (two_tables t i) ≡ false
    → (u : ℕ) × (table_for_phys_addr with_gigantic (get_addr (two_tables t i)) ≡ ok u)
      × (two_levels u ≡ suc k)
with_gigantic-leads t i k level there inner = elim (entries t i) [
  | inl (root, e) ↦ (
    0xb000,
    ap (λ a. table_for_phys_addr with_gigantic (get_addr a)) e ∙ leads_on,
    omega (arith, ap two_levels root, level),
  )
  | inr (inl e) ↦ absurd (different (sym gigantic_leaf ∙ ap entry_is_leaf (sym e) ∙ inner))
  | inr (inr e) ↦ absurd (different (sym there ∙ ap is_present e ∙ absent))
]

two_other : (k : ℕ) → 2 ≤ k → two_levels (table_at with_gigantic k) ≡ 0
two_other k h = ground (arith, h)

two_clear : (k i : ℕ) → 2 ≤ k → two_tables (table_at with_gigantic k) i ≡ 0
two_clear k i h = ground (arith, h)

with_gigantic-IsTree : IsTree two_levels with_gigantic
with_gigantic-IsTree = record {
  root_level = refl;
  leads = with_gigantic-leads;
  no_table = two_other;
  is_clear = two_clear;
}

first_half : entry_is_leaf (two_tables 0xb000 (entry_idx (level_of 3) 0x1000)) ≡ false
unfolding get_flags entry_idx
first_half = refl

first_absent : is_present (two_tables 0xb000 (entry_idx (level_of 3) 0x1000)) ≡ false
unfolding get_flags entry_idx
first_absent = refl

first_table : two_tables 0xa000 (entry_idx (level_of 4) 0x1000) ≡ 0x3003
unfolding entry_idx
first_table = refl

only_table : (u : ℕ) → ok 0xb000 ≡ ok u → 0xb000 ≡ u
only_table u e = ok_injective e

with_gigantic-HasNoHuge : HasNoHuge 3 0xa000 with_gigantic 0x1000
with_gigantic-HasNoHuge = (
  ap entry_is_leaf first_table ∙ table_not_leaf,
  λ u there leads.
      let second = only_table u (
        sym (ap (λ e. table_for_phys_addr with_gigantic (get_addr e)) first_table ∙ leads_on)
        ∙ leads) in
      subst (λ t. HasNoHuge 2 t with_gigantic 0x1000) second
        (first_half, λ u' there' leads'. absurd (different (sym there' ∙ first_absent))),
)

with_gigantic-HasRoom : HasRoom 3 with_gigantic
with_gigantic-HasRoom = record {
  offset = 2;
  region = refl;
  in_word = omega arith;
  in_entry = omega arith;
}

gigantic_found :
    walk_to_leaf with_gigantic 0xa000 0x40000000
    ≡ ok (some (record { table = 0xb000; phys_addr = 0x40000000; idx = 1; page_size = gigantic }))
unfolding walk_to_leaf walk_pdpt walk table_for_phys_addr entry_idx get_flags get_addr
gigantic_found = refl

no_page : walk_to_leaf with_gigantic 0xa000 0x1000 ≡ ok none
unfolding walk_to_leaf walk_pdpt walk table_for_phys_addr entry_idx get_flags get_addr
no_page = refl

root_inner : entry_is_leaf (two_tables 0xa000 (entry_idx pml4_level 0x40000000)) ≡ false
unfolding get_flags entry_idx
root_inner = refl

map-walk_to_leaf_example :
    (m' : Mapper) × (map with_gigantic (7 * 4096) 0x1000 ≡ ok (done, m'))
    × (walk_to_leaf m' m'.root 0x40000000
        ≡ ok (
            some
              (record { table = 0xb000; phys_addr = 0x40000000; idx = 1; page_size = gigantic })))
unfolding lookup
map-walk_to_leaf_example =
    map-walk_to_leaf two_levels with_gigantic 0x1000 7 with_gigantic-IsTree with_gigantic-HasNoHuge
      with_gigantic-HasRoom (omega arith) refl (inr (refl, omega arith)) no_page 0x40000000
      (record { table = 0xb000; phys_addr = 0x40000000; idx = 1; page_size = gigantic }) root_inner
      gigantic_found
