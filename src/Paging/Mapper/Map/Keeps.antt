-- ===== src/Paging/Mapper/Map/Keeps.antt =====
-- What `map` of arch/x86_64/src/paging/mapping.rs leaves of the pages that were mapped before.
use an_os_in_rust.Base.{
  ℕ, suc, ◌≡◌, ◌≢◌, refl, sym, ◌∙◌, true, false, Bool-cases, some, inl, inr, ok, arith,
}
use an_os_in_rust.Paging.Table.{
  pml4_level, pdpt_level, pd_level, pt_level, entry_idx, get_addr, get_flags, all_flags,
}
use an_os_in_rust.Paging.Mapper.{
  Mapper, LeafEntry, table_for_phys_addr, walk_pt, walk_pd, walk_pdpt, walk_to_leaf,
}
use an_os_in_rust.Paging.Mapper.Unmap.Walks.{is_present}
use an_os_in_rust.Paging.Mapper.Map.{entry_is_leaf, IsTree}
use an_os_in_rust.Paging.Mapper.Map.Walk.{
  walk_same, table_same, walk_present, walk_absent, pt_leaf, pd_leaf, pdpt_leaf, pd_below,
  pdpt_below, root_below, leaf_or_none,
}

-- A state `n` that keeps the entries that are present in the tables of `m`.
module _ (lev : ℕ → ℕ) (m n : Mapper) (tree : IsTree lev m)
    (keeps : (x i : ℕ) → lev x ≢ 0 → is_present (m.memory x i) ≡ true → n.memory x i ≡ m.memory x i)
    (psb : n.psb ≡ m.psb) (base : n.base ≡ m.base) where
  in_use : (x k : ℕ) → lev x ≡ suc k → lev x ≢ 0
  in_use x k e h = absurd (omega (arith, e, h))

  abbrev addr_of : ℕ → ℕ → ℕ
  addr_of t i = get_addr (m.memory t i)

  abbrev flags_of : ℕ → ℕ → ℕ
  flags_of t i = get_flags (m.memory t i) all_flags

  table_kept : (addr u : ℕ) → table_for_phys_addr m addr ≡ ok u → table_for_phys_addr n addr ≡ ok u
  table_kept addr u e = table_same m n addr psb base ∙ e

  pt_kept :
      (t v : ℕ) (leaf : LeafEntry)
      → lev t ≡ 1
      → walk_pt m t v ≡ ok (some leaf)
      → walk_pt n t v ≡ ok (some leaf)
  unfolding walk_pt
  pt_kept t v leaf level e = elim (Bool-cases (is_present (m.memory t (entry_idx pt_level v)))) [
    | inr absent ↦
        absurd (
          leaf_or_none (walk_pt m t v) leaf (rw (walk_pt, walk_absent pt_level m t v absent) refl)
            e)
    | inl there ↦
        let found = walk_present pt_level m t v there in
        let same = walk_same pt_level m n t v (keeps t _ (in_use t 0 level) there) in
        pt_leaf n t v _ _ (same ∙ found) ∙ sym (pt_leaf m t v _ _ found) ∙ e
  ]

  pd_kept :
      (t v : ℕ) (leaf : LeafEntry)
      → lev t ≡ 2
      → walk_pd m t v ≡ ok (some leaf)
      → walk_pd n t v ≡ ok (some leaf)
  unfolding walk_pd
  pd_kept t v leaf level e = elim (Bool-cases (is_present (m.memory t (entry_idx pd_level v)))) [
    | inr absent ↦
        absurd (
          leaf_or_none (walk_pd m t v) leaf (rw (walk_pd, walk_absent pd_level m t v absent) refl)
            e)
    | inl there ↦
        let found = walk_present pd_level m t v there in
        let found' = walk_same pd_level m n t v (keeps t _ (in_use t 1 level) there) ∙ found in
        elim (Bool-cases (entry_is_leaf (m.memory t (entry_idx pd_level v)))) [
          | inl huge ↦ pd_leaf n t v _ _ found' huge ∙ sym (pd_leaf m t v _ _ found huge) ∙ e
          | inr inner ↦
              let (u, leads, below) = tree.leads t _ 0 level there inner in
              pd_below n t v _ _ u found' inner (table_kept _ u leads)
              ∙ pt_kept u v leaf below (sym (pd_below m t v _ _ u found inner leads) ∙ e)
        ]
  ]

  pdpt_kept :
      (t v : ℕ) (leaf : LeafEntry)
      → lev t ≡ 3
      → walk_pdpt m t v ≡ ok (some leaf)
      → walk_pdpt n t v ≡ ok (some leaf)
  unfolding walk_pdpt
  pdpt_kept t v leaf level e =
      elim (Bool-cases (is_present (m.memory t (entry_idx pdpt_level v)))) [
        | inr absent ↦ absurd (
            leaf_or_none (walk_pdpt m t v) leaf
              (rw (walk_pdpt, walk_absent pdpt_level m t v absent) refl) e)
        | inl there ↦
            let found = walk_present pdpt_level m t v there in
            let found' =
              walk_same pdpt_level m n t v (keeps t _ (in_use t 2 level) there) ∙ found in
            elim (Bool-cases (entry_is_leaf (m.memory t (entry_idx pdpt_level v)))) [
              | inl gigantic ↦
                  pdpt_leaf n t v _ _ found' gigantic ∙ sym (pdpt_leaf m t v _ _ found gigantic) ∙ e
              | inr inner ↦
                  let (u, leads, below) = tree.leads t _ 1 level there inner in
                  pdpt_below n t v _ _ u found' inner (table_kept _ u leads)
                  ∙ pd_kept u v leaf below (sym (pdpt_below m t v _ _ u found inner leads) ∙ e)
            ]
      ]

  -- What the walk from the root finds, it still finds.
  pub walk_to_leaf_kept :
      (v : ℕ) (leaf : LeafEntry)
      → entry_is_leaf (m.memory m.root (entry_idx pml4_level v)) ≡ false
      → walk_to_leaf m m.root v ≡ ok (some leaf)
      → walk_to_leaf n m.root v ≡ ok (some leaf)
  unfolding walk_to_leaf
  walk_to_leaf_kept v leaf inner e =
      elim (Bool-cases (is_present (m.memory m.root (entry_idx pml4_level v)))) [
        | inr absent ↦ absurd (
            leaf_or_none (walk_to_leaf m m.root v) leaf
              (rw (walk_to_leaf, walk_absent pml4_level m m.root v absent) refl) e)
        | inl there ↦
            let found = walk_present pml4_level m m.root v there in
            let found' =
              walk_same pml4_level m n m.root v
                (keeps m.root _ (in_use m.root 3 tree.root_level) there)
              ∙ found in
            let (u, leads, below) = tree.leads m.root _ 2 tree.root_level there inner in
            root_below n m.root v _ _ u found' (table_kept _ u leads)
            ∙ pdpt_kept u v leaf below (sym (root_below m m.root v _ _ u found leads) ∙ e)
      ]
