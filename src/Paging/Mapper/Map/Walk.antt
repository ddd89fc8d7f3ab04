-- ===== src/Paging/Mapper/Map/Walk.antt =====
-- The walks of arch/x86_64/src/paging/mapping.rs, step by step.
use an_os_in_rust.Base.{ℕ, ◌≡◌, refl, true, false, none, some, Option, ok, Outcome}
use an_os_in_rust.Paging.Table.{
  PagingLevel, pml4_level, pdpt_level, pd_level, pt_level, normal, huge, gigantic, entry_idx,
  get_addr, get_flags, all_flags,
}
use an_os_in_rust.Paging.Mapper.{
  Mapper, LeafEntry, is_leaf, walk, table_for_phys_addr, walk_pt, walk_pd, walk_pdpt, walk_to_leaf,
}
use an_os_in_rust.Paging.Mapper.Unmap.Walks.{is_present}

-- A walk reads one entry.
pub walk_same :
    (l : PagingLevel) (m m' : Mapper) (t v : ℕ)
    → m'.memory t (entry_idx l v) ≡ m.memory t (entry_idx l v)
    → walk l m' t v ≡ walk l m t v
unfolding walk
walk_same l m m' t v e = rw (e) refl

pub table_same :
    (m m' : Mapper) (addr : ℕ)
    → m'.psb ≡ m.psb
    → m'.base ≡ m.base
    → table_for_phys_addr m' addr ≡ table_for_phys_addr m addr
unfolding table_for_phys_addr
table_same m m' addr e f = rw (e, f) refl

pub walk_present :
    (l : PagingLevel) (m : Mapper) (t v : ℕ)
    → is_present (m.memory t (entry_idx l v)) ≡ true
    → walk l m t v
      ≡ some
          (get_addr (m.memory t (entry_idx l v)), get_flags (m.memory t (entry_idx l v)) all_flags)
unfolding walk
walk_present l m t v there = rw (there) refl

pub walk_absent :
    (l : PagingLevel) (m : Mapper) (t v : ℕ)
    → is_present (m.memory t (entry_idx l v)) ≡ false
    → walk l m t v ≡ none
unfolding walk
walk_absent l m t v absent = rw (absent) refl

module _ (m : Mapper) (t v addr flags : ℕ) where
  pub pt_leaf :
      walk pt_level m t v ≡ some (addr, flags)
      → walk_pt m t v
        ≡ ok (
            some (record {
              table = t;
              phys_addr = addr;
              idx = entry_idx pt_level v;
              page_size = normal;
            }))
  unfolding walk_pt
  pt_leaf e = rw (walk_pt, e) refl

  pub pd_leaf :
      walk pd_level m t v ≡ some (addr, flags)
      → is_leaf flags ≡ true
      → walk_pd m t v
        ≡ ok (
            some (record {
              table = t;
              phys_addr = addr;
              idx = entry_idx pd_level v;
              page_size = huge;
            }))
  unfolding walk_pd
  pd_leaf e leaf = rw (walk_pd, e, leaf) refl

  pub pdpt_leaf :
      walk pdpt_level m t v ≡ some (addr, flags)
      → is_leaf flags ≡ true
      → walk_pdpt m t v
        ≡ ok (
            some (record {
              table = t;
              phys_addr = addr;
              idx = entry_idx pdpt_level v;
              page_size = gigantic;
            }))
  unfolding walk_pdpt
  pdpt_leaf e leaf = rw (walk_pdpt, e, leaf) refl

  pub pd_below :
      (u : ℕ)
      → walk pd_level m t v ≡ some (addr, flags)
      → is_leaf flags ≡ false
      → table_for_phys_addr m addr ≡ ok u
      → walk_pd m t v ≡ walk_pt m u v
  unfolding walk_pd
  pd_below u e inner leads = rw (walk_pd, e, inner, leads) refl

  pub pdpt_below :
      (u : ℕ)
      → walk pdpt_level m t v ≡ some (addr, flags)
      → is_leaf flags ≡ false
      → table_for_phys_addr m addr ≡ ok u
      → walk_pdpt m t v ≡ walk_pd m u v
  unfolding walk_pdpt
  pdpt_below u e inner leads = rw (walk_pdpt, e, inner, leads) refl

  pub root_below :
      (u : ℕ)
      → walk pml4_level m t v ≡ some (addr, flags)
      → table_for_phys_addr m addr ≡ ok u
      → walk_to_leaf m t v ≡ walk_pdpt m u v
  unfolding walk_to_leaf
  root_below u e leads = rw (walk_to_leaf, e, leads) refl

-- A walk that ends at a leaf ends at no hole.
pub leaf_or_none :
    (r : Outcome (Option LeafEntry)) (leaf : LeafEntry) → r ≡ ok none → r ≡ ok (some leaf) → ⊥
leaf_or_none r leaf e f = cc
