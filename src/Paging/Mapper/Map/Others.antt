-- ===== src/Paging/Mapper/Map/Others.antt =====
-- The pages that `map` of arch/x86_64/src/paging/mapping.rs does not map.
use an_os_in_rust.Base.{
  ℕ, ◌*◌, ◌/◌, ◌^◌, ◌<◌, ◌≤◌, ◌≡◌, ◌≢◌, refl, sym, ap, ap₂, ◌∙◌, true, false, none, some, ◌⊎◌, inl,
  inr, ◌==◌, ok, bit_and,
}
use an_os_in_rust.Base.Assoc.{lookup}
use an_os_in_rust.Paging.Table.{
  pml4_level, pdpt_level, pd_level, pt_level, entry_idx, get_flags, mask_51_12,
}
use an_os_in_rust.Paging.Mapper.{
  Mapper, LeafEntry, done, walk, table_for_phys_addr, walk_pt, walk_to_leaf, map, mask_11_0,
}
use an_os_in_rust.Paging.Mapper.Unmap.Walks.{is_present}
use an_os_in_rust.Paging.Mapper.Map.{entry_is_leaf, IsTree, HasNoHuge, HasRoom}
use an_os_in_rust.Paging.Mapper.Map.Walk.{
  walk_present, pt_leaf, pd_below, pdpt_below, root_below, leaf_or_none,
}
use an_os_in_rust.Paging.Mapper.Map.Create.{linked, write_entry_cases}
use an_os_in_rust.Paging.Mapper.Map.Descent.{Descent, descend, written}
use an_os_in_rust.Paging.Mapper.Map.Found.{maps}
use an_os_in_rust.Paging.Mapper.Map.Keeps.{walk_to_leaf_kept}

clear_absent : (e : ℕ) → e ≡ 0 → is_present e ≡ true → ⊥
unfolding get_flags
clear_absent e h there = different (sym (rw (h) refl) ∙ there)
  where
    different : false ≡ true → ⊥
    different e = cc

module _ (lev : ℕ → ℕ) (m : Mapper) (v page : ℕ) (tree : IsTree lev m) (small : page < 2 ^ 40)
    (p : Descent lev m v) where
  abbrev after : Mapper
  after = written lev m v page tree small p

  abbrev levels1 : ℕ → ℕ
  levels1 = p.to_pdpt.levels

  abbrev levels2 : ℕ → ℕ
  levels2 = p.to_pd.levels

  used1 : (x : ℕ) → lev x ≢ 0 → levels1 x ≢ 0
  used1 x h e = h (sym (p.to_pdpt.same_levels x h) ∙ e)

  used2 : (x : ℕ) → lev x ≢ 0 → levels2 x ≢ 0
  used2 x h e = used1 x h (sym (p.to_pd.same_levels x (used1 x h)) ∙ e)

  -- The tables were all there.
  walk_there : p.m1 ≡ m → p.m2 ≡ m → p.m3 ≡ m → walk_to_leaf m m.root v ≡ walk_pt m p.pt v
  walk_there e1 e2 e3 =
      root_below m m.root v p.to_pdpt.addr p.to_pdpt.flags p.pdpt
        (ap (λ s. walk pml4_level s m.root v) (sym e1) ∙ p.to_pdpt.found)
        (ap (λ s. table_for_phys_addr s p.to_pdpt.addr) (sym e1) ∙ p.to_pdpt.leads_to)
      ∙ pdpt_below m p.pdpt v p.to_pd.addr p.to_pd.flags p.pd
          (ap (λ s. walk pdpt_level s p.pdpt v) (sym e2) ∙ p.to_pd.found) p.to_pd.not_leaf
          (ap (λ s. table_for_phys_addr s p.to_pd.addr) (sym e2) ∙ p.to_pd.leads_to)
      ∙ pd_below m p.pd v p.to_pt.addr p.to_pt.flags p.pt
          (ap (λ s. walk pd_level s p.pd v) (sym e3) ∙ p.to_pt.found) p.to_pt.not_leaf
          (ap (λ s. table_for_phys_addr s p.to_pt.addr) (sym e3) ∙ p.to_pt.leads_to)

  -- A page table that was in use has no entry at the place of a page that is not mapped.
  free :
      walk_to_leaf m m.root v ≡ ok none
      → lev p.pt ≢ 0
      → is_present (m.memory p.pt (entry_idx pt_level v)) ≡ true
      → ⊥
  free unmapped used there = elim p.to_pt.known [
    | inr (new, _) ↦ used2 p.pt used new
    | inl (e3, there3) ↦ elim p.to_pd.known [
      | inr (_, clear) ↦ clear_absent _ (clear (entry_idx pd_level v)) there3
      | inl (e2, there2) ↦ elim p.to_pdpt.known [
        | inr (_, clear) ↦ clear_absent _ (clear (entry_idx pdpt_level v)) there2
        | inl (e1, _) ↦ leaf_or_none (walk_to_leaf m m.root v) _ unmapped (
            walk_there e1 (e2 ∙ e1) (e3 ∙ e2 ∙ e1)
            ∙ pt_leaf m p.pt v _ _ (walk_present pt_level m p.pt v there))
      ]
    ]
  ]

  kept :
      walk_to_leaf m m.root v ≡ ok none
      → (x i : ℕ) → lev x ≢ 0
      → is_present (m.memory x i) ≡ true
      → after.memory x i ≡ m.memory x i
  kept unmapped x i used there =
      let same1 = p.to_pdpt.keeps x i used there in
      let same2 = p.to_pd.keeps x i (used1 x used) (ap is_present same1 ∙ there) ∙ same1 in
      let same3 = p.to_pt.keeps x i (used2 x used) (ap is_present same2 ∙ there) ∙ same2 in
      elim (write_entry_cases p.m3.memory p.pt (entry_idx pt_level v)
        (linked (p.m3.memory p.pt (entry_idx pt_level v)) (bit_and (page * 4096) mask_51_12)) x i) [
          | inr same ↦ same ∙ same3
          | inl (at_pt, at_idx) ↦ absurd (
              free unmapped (λ e. used (ap lev at_pt ∙ e))
                (ap is_present (sym (ap₂ m.memory at_pt at_idx)) ∙ there))
        ]

-- In tables that form a tree, where no entry that the walk for the address reads has the flag of a huge
-- page, and with room for three more tables: an aligned page below 2 ^ 52 that is mapped at an aligned
-- address, either in the upper half or for the first time with the root not below the base of the kernel's
-- mappings, leaves every other leaf that a walk finds, where no page was mapped at the address, and
-- unless the entry of the root on that other walk has the flag of a leaf.
pub map-walk_to_leaf :
    (lev : ℕ → ℕ) (m : Mapper) (v page : ℕ)
    → IsTree lev m
    → HasNoHuge 3 m.root m v
    → HasRoom 3 m
    → page < 2 ^ 40
    → bit_and v mask_11_0 ≡ 0
    → ((v / 2 ^ 51 == 0) ≡ false)
      ⊎ ((lookup (page * 4096) m.mapped_pages ≡ none) × (m.psb ≤ m.root))
    → walk_to_leaf m m.root v ≡ ok none
    → (other : ℕ) (leaf : LeafEntry)
    → entry_is_leaf (m.memory m.root (entry_idx pml4_level other)) ≡ false
    → walk_to_leaf m m.root other ≡ ok (some leaf)
    → (m' : Mapper) × (map m (page * 4096) v ≡ ok (done, m'))
      × (walk_to_leaf m' m'.root other ≡ ok (some leaf))
map-walk_to_leaf lev m v page tree huge room small aligned first unmapped other leaf inner found =
    let p = descend lev m v tree huge room in
    let (m', mapped, memory, psb, base, root) = maps lev m v page tree small p aligned first in
    let keeps : (x i : ℕ)
        → lev x ≢ 0
        → is_present (m.memory x i) ≡ true
        → m'.memory x i ≡ m.memory x i =
      λ x i used there.
        ap (λ f. f x i) memory ∙ kept lev m v page tree small p unmapped x i used there in
    let same_psb = psb ∙ p.to_pt.same_psb ∙ p.to_pd.same_psb ∙ p.to_pdpt.same_psb in
    let same_base = base ∙ p.to_pt.same_base ∙ p.to_pd.same_base ∙ p.to_pdpt.same_base in
    (
      m',
      mapped,
      ap (λ r. walk_to_leaf m' r other) root
          ∙ walk_to_leaf_kept lev m m' tree keeps same_psb same_base other leaf inner found,
    )
