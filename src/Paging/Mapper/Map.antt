-- ===== src/Paging/Mapper/Map.antt =====
-- A page that `map` of arch/x86_64/src/paging/mapping.rs has mapped is found, in tables that form a tree
-- of levels. What makes up the tree is here; its children follow `map` through it.
pub mod Create
pub mod Made
pub mod Level
pub mod Descent
pub mod Walk
pub mod Found
pub mod Keeps
pub mod Others
use an_os_in_rust.Base.{ℕ, zero, suc, ◌+◌, ◌*◌, ◌^◌, ◌≤◌, ◌≡◌, Bool, true, false, ok}
use an_os_in_rust.Paging.Table.{
  PagingLevel, pml4_level, pdpt_level, pd_level, pt_level, entry_idx, get_flags, get_addr,
  all_flags,
}
use an_os_in_rust.Paging.Mapper.{Mapper, is_leaf, table_for_phys_addr}
use an_os_in_rust.Paging.Mapper.Unmap.Walks.{is_present}

-- The table that `new_table` makes when `next` is `k`.
abbrev pub table_at : Mapper → ℕ → ℕ
table_at m k = m.base + 4096 * k

abbrev pub entry_is_leaf : ℕ → Bool
entry_is_leaf entry = is_leaf (get_flags entry all_flags)

-- `lev` says which addresses are tables, and of which level: 4 for the root, 0 for no table. An entry
-- of a table leads to a table of the level below, and a table that is not in use yet is empty.
pub record IsTree (lev : ℕ → ℕ) (m : Mapper) : Type 0 where
  pub root_level : lev m.root ≡ 4
  pub leads :
      (t i k : ℕ)
      → lev t ≡ suc (suc k)
      → is_present (m.memory t i) ≡ true
      → entry_is_leaf (m.memory t i) ≡ false
      → (u : ℕ) × (table_for_phys_addr m (get_addr (m.memory t i)) ≡ ok u) × (lev u ≡ suc k)
  pub no_table : (k : ℕ) → m.next ≤ k → lev (table_at m k) ≡ 0
  pub is_clear : (k i : ℕ) → m.next ≤ k → m.memory (table_at m k) i ≡ 0

-- The level of a table as the source's type.
abbrev pub level_of : ℕ → PagingLevel
level_of zero = pt_level
level_of (suc zero) = pt_level
level_of (suc (suc zero)) = pd_level
level_of (suc (suc (suc zero))) = pdpt_level
level_of (suc (suc (suc (suc k)))) = pml4_level

-- The walk for an address reads, in a table and that many levels of tables below, no entry that has the
-- flag of a huge page.
abbrev pub HasNoHuge : ℕ → ℕ → Mapper → ℕ → Type 0
HasNoHuge zero t m v = Unit {0}
HasNoHuge (suc k) t m v =
    (entry_is_leaf (m.memory t (entry_idx (level_of (suc (suc k))) v)) ≡ false)
    × ((u : ℕ)
        → is_present (m.memory t (entry_idx (level_of (suc (suc k))) v)) ≡ true
        → table_for_phys_addr m (get_addr (m.memory t (entry_idx (level_of (suc (suc k))) v)))
          ≡ ok u
        → HasNoHuge k u m v)

-- That many more tables have addresses that fit a word, and that their entries can hold.
pub record HasRoom (tables : ℕ) (m : Mapper) : Type 0 where
  pub offset : ℕ
  pub region : m.base ≡ m.psb + offset * 4096
  pub in_word : table_at m (m.next + tables) ≤ 2 ^ 64
  pub in_entry : offset + m.next + tables ≤ 2 ^ 40
