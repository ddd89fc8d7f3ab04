-- ===== src/Paging/Mapper/Map/Level.antt =====
-- One level of `map` in arch/x86_64/src/paging/mapping.rs: the table below is found or made.
use an_os_in_rust.Base.{
  ℕ, suc, ◌+◌, ◌≡◌, ◌≢◌, refl, ap, ◌∙◌, true, false, Bool-cases, some, ◌⊎◌, inl, inr, ==_self, ok,
  ◌>>=◌, arith, bit_or,
}
use an_os_in_rust.Paging.Table.{
  PagingLevel, entry_idx, get_flags, get_addr, all_flags, present_flag, rw_flag,
}
use an_os_in_rust.Paging.Mapper.{
  Mapper, is_leaf, walk, walk_or_create_table, new_table, table_for_phys_addr,
}
use an_os_in_rust.Paging.Mapper.Unmap.Walks.{is_present}
use an_os_in_rust.Paging.Mapper.Map.{IsTree, level_of, HasNoHuge, HasRoom}
use an_os_in_rust.Paging.Mapper.Map.Create.{
  linked, linked_present, linked_leaf, linked_addr, new_table_addr, table_for-new,
}
use an_os_in_rust.Paging.Mapper.Map.Made
use an_os_in_rust.Paging.Mapper.Map.Made.{
  not_fresh, entry_written, others_same, keeps_present, clear_still, created-IsTree,
  created-HasNoHuge,
}

-- From a table `t` of level `k + 2`, the table `u` below is found in the state `m'`, which is a tree too
-- and differs in no other table.
pub record Descends (lev : ℕ → ℕ) (m : Mapper) (v t k room : ℕ) (u : ℕ) (m' : Mapper) : Type 0 where
  pub levels : ℕ → ℕ
  pub tree : IsTree levels m'
  pub level_below : levels u ≡ suc k
  pub same_levels : (x : ℕ) → lev x ≢ 0 → levels x ≡ lev x
  pub no_huge : HasNoHuge k u m' v
  pub has_room : HasRoom room m'
  pub addr : ℕ
  pub flags : ℕ
  pub found : walk (level_of (suc (suc k))) m' t v ≡ some (addr, flags)
  pub not_leaf : is_leaf flags ≡ false
  pub leads_to : table_for_phys_addr m' addr ≡ ok u
  pub keeps :
      (x i : ℕ) → lev x ≢ 0 → is_present (m.memory x i) ≡ true → m'.memory x i ≡ m.memory x i
  -- The table was there, or it was none before and is empty.
  pub known :
      ((m' ≡ m) × (is_present (m.memory t (entry_idx (level_of (suc (suc k))) v)) ≡ true))
      ⊎ ((lev u ≡ 0) × ((i : ℕ) → m'.memory u i ≡ 0))
  pub others : (x i : ℕ) → x ≢ t → lev x ≢ 0 → m'.memory x i ≡ m.memory x i
  pub same_psb : m'.psb ≡ m.psb
  pub same_base : m'.base ≡ m.base
  pub same_root : m'.root ≡ m.root
  pub same_pages : m'.mapped_pages ≡ m.mapped_pages

module _ (lev : ℕ → ℕ) (m : Mapper) (v t k room : ℕ) (tree : IsTree lev m)
    (huge : HasNoHuge (suc k) t m v) (r : HasRoom (suc room) m)
    (at_level : lev t ≡ suc (suc k)) where
  abbrev l : PagingLevel
  l = level_of (suc (suc k))

  abbrev entry : ℕ
  entry = m.memory t (entry_idx l v)

  fewer : (n : ℕ) (m : Mapper) → HasRoom (suc n) m → HasRoom n m
  fewer n m r = record {
    offset = r.offset;
    region = r.region;
    in_word = omega (arith, r.in_word);
    in_entry = omega (arith, r.in_entry);
  }

  -- The entry is there.
  follows :
      (u : ℕ)
      → is_present entry ≡ true
      → table_for_phys_addr m (get_addr entry) ≡ ok u
      → lev u ≡ suc k
      → Descends lev m v t k room u m
  unfolding walk
  follows u there leads below = record {
    levels = lev;
    tree = tree;
    level_below = below;
    same_levels = λ x h. refl;
    no_huge = huge.1 u there leads;
    has_room = fewer room m r;
    addr = get_addr entry;
    flags = get_flags entry all_flags;
    found = rw (there) refl;
    not_leaf = huge.0;
    leads_to = leads;
    keeps = λ x i h g. refl;
    known = inl (refl, there);
    others = λ x i h g. refl;
    same_psb = refl;
    same_base = refl;
    same_root = refl;
    same_pages = refl;
  }

  abbrev fresh : ℕ
  fresh = Made.fresh lev m v t k room tree huge r at_level

  abbrev addr : ℕ
  addr = Made.addr lev m v t k room tree huge r at_level

  abbrev created : Mapper
  created = Made.created lev m v t k room tree huge r at_level

  abbrev new_levels : ℕ → ℕ
  new_levels = Made.new_levels lev m v t k room tree huge r at_level

  makes : is_present entry ≡ false → Descends lev m v t k room fresh created
  unfolding walk table_for_phys_addr
  makes absent = record {
    levels = new_levels;
    tree = (created-IsTree lev m v t k room tree huge r at_level);
    level_below = rw (==_self fresh) refl;
    same_levels = λ x h. rw ((not_fresh lev m v t k room tree huge r at_level) x h) refl;
    no_huge = created-HasNoHuge lev m v t k room tree huge r at_level k;
    has_room = record {
      offset = r.offset;
      region = r.region;
      in_word = omega (arith, r.in_word);
      in_entry = omega (arith, r.in_entry);
    };
    addr = get_addr (linked entry addr);
    flags = get_flags (linked entry addr) all_flags;
    found =
        rw ((entry_written lev m v t k room tree huge r at_level), linked_present entry addr) refl;
    not_leaf = linked_leaf entry addr ∙ huge.0;
    leads_to =
        ap (table_for_phys_addr m)
          (linked_addr entry (r.offset + m.next) (omega (arith, r.in_entry)))
        ∙ table_for-new room m r;
    keeps = (keeps_present lev m v t k room tree huge r at_level) absent;
    known = inr (
      tree.no_table m.next (omega arith),
      λ i. (clear_still lev m v t k room tree huge r at_level) m.next i (omega arith),
    );
    others = λ x i other used. (others_same lev m v t k room tree huge r at_level) x i other;
    same_psb = refl;
    same_base = refl;
    same_root = refl;
    same_pages = refl;
  }

  there_is :
      is_present entry ≡ true
      → walk_or_create_table l m t v ≡ (
          table_for_phys_addr m (get_addr entry) >>= λ next_table.
          ok (next_table, get_flags entry all_flags, m))
  unfolding walk_or_create_table walk
  there_is there = rw (walk_or_create_table, walk, there) refl

  there_is_none :
      is_present entry ≡ false
      → walk_or_create_table l m t v ≡ ok (fresh, bit_or present_flag rw_flag, created)
  unfolding walk_or_create_table walk new_table
  there_is_none absent = rw (walk_or_create_table, walk, absent, new_table_addr room m r) refl

  -- The table below is there or is made, and the walk of the new state leads to it.
  pub walk_or_create_table-Descends :
      (u : ℕ) × (flags : ℕ) × (m' : Mapper) × (walk_or_create_table l m t v ≡ ok (u, flags, m'))
      × Descends lev m v t k room u m'
  walk_or_create_table-Descends = elim (Bool-cases (is_present entry)) [
    | inl there ↦
        let (u, leads, below) = tree.leads t (entry_idx l v) k at_level there huge.0 in
        (
          u,
          get_flags entry all_flags,
          m,
          there_is there ∙ rw (leads) refl,
          follows u there leads below,
        )
    | inr absent ↦ (fresh, bit_or present_flag rw_flag, created, there_is_none absent, makes absent)
  ]
