-- ===== src/Paging/Mapper/Map/Found.antt =====
-- What `map` of arch/x86_64/src/paging/mapping.rs has mapped is found by `phys_addr`.
use an_os_in_rust.Base.{
  ℕ, ◌+◌, ◌*◌, ◌/◌, ◌^◌, ◌<◌, ◌≤◌, ◌≡◌, refl, sym, ap, ◌∙◌, true, false, Bool-cases, none, some,
  ◌⊎◌, inl, inr, ◌==◌, leb, ◌-◌, [], ok, arith, bit_and,
}
use an_os_in_rust.Base.Assoc.{lookup, put}
use an_os_in_rust.Base.Bits.{or-zero, and_mask}
use an_os_in_rust.Paging.Table.{
  pml4_level, pdpt_level, pd_level, pt_level, normal, entry_idx, get_addr, mask_51_12, page_bytes,
  phys_addr_of,
}
use an_os_in_rust.Paging.Mapper.{
  Mapper, done, pair_insert, walk, walk_pt, walk_pd, walk_pdpt, walk_to_leaf, phys_addr,
  count_mapping, map_aligned, map, mask_11_0,
}
use an_os_in_rust.Paging.Mapper.Map.{IsTree, HasNoHuge, HasRoom}
use an_os_in_rust.Paging.Mapper.Map.Create.{linked, linked_present}
use an_os_in_rust.Paging.Mapper.Map.Descent.{
  Descent, descend, written, pd_entry, pdpt_entry, root_entry, written_there, held, same_root,
  same_psb, same_pages,
}
use an_os_in_rust.Paging.Mapper.Map.Walk.{walk_same, table_same, pd_below, pdpt_below, root_below}

module _ (lev : ℕ → ℕ) (m : Mapper) (v page : ℕ) (tree : IsTree lev m) (small : page < 2 ^ 40)
    (p : Descent lev m v) where
  abbrev after : Mapper
  after = written lev m v page tree small p

  -- Any state with the after tables.
  module _ (n : Mapper) (memory : n.memory ≡ after.memory) (psb : n.psb ≡ p.m3.psb)
      (base : n.base ≡ p.m3.base) where
    reads : (x i : ℕ) → n.memory x i ≡ after.memory x i
    reads x i = ap (λ f. f x i) memory

    entry_there :
        n.memory p.pt (entry_idx pt_level v)
        ≡ linked (p.m3.memory p.pt (entry_idx pt_level v)) (bit_and (page * 4096) mask_51_12)
    entry_there = reads p.pt (entry_idx pt_level v) ∙ written_there lev m v page tree small p

    pt_found :
        walk_pt n p.pt v
        ≡ ok (
            some (record {
              table = p.pt;
              phys_addr = get_addr (
                  linked
                    (p.m3.memory p.pt (entry_idx pt_level v))
                    (bit_and (page * 4096) mask_51_12));
              idx = entry_idx pt_level v;
              page_size = normal;
            }))
    unfolding walk_pt walk
    pt_found =
        rw
          (
            walk_pt,
            walk,
            entry_there,
            linked_present (p.m3.memory p.pt (entry_idx pt_level v))
                (bit_and (page * 4096) mask_51_12),
          )
          refl

    pd_found : walk_pd n p.pd v ≡ walk_pt n p.pt v
    pd_found =
        pd_below n p.pd v p.to_pt.addr p.to_pt.flags p.pt
          (walk_same pd_level p.m3 n p.pd v (
              reads p.pd (entry_idx pd_level v)
              ∙ pd_entry lev m v page tree small p (entry_idx pd_level v))
            ∙ p.to_pt.found)
          p.to_pt.not_leaf (table_same p.m3 n p.to_pt.addr psb base ∙ p.to_pt.leads_to)

    pdpt_found : walk_pdpt n p.pdpt v ≡ walk_pd n p.pd v
    pdpt_found =
        pdpt_below n p.pdpt v p.to_pd.addr p.to_pd.flags p.pd
          (walk_same pdpt_level p.m2 n p.pdpt v (
              reads p.pdpt (entry_idx pdpt_level v)
              ∙ pdpt_entry lev m v page tree small p (entry_idx pdpt_level v))
            ∙ p.to_pd.found)
          p.to_pd.not_leaf
          (table_same p.m2 n p.to_pd.addr (psb ∙ p.to_pt.same_psb) (base ∙ p.to_pt.same_base)
            ∙ p.to_pd.leads_to)

    root_found : walk_to_leaf n m.root v ≡ walk_pdpt n p.pdpt v
    root_found =
        root_below n m.root v p.to_pdpt.addr p.to_pdpt.flags p.pdpt
          (walk_same pml4_level p.m1 n m.root v (
              reads m.root (entry_idx pml4_level v)
              ∙ root_entry lev m v page tree small p (entry_idx pml4_level v))
            ∙ p.to_pdpt.found)
          (table_same p.m1 n p.to_pdpt.addr (psb ∙ p.to_pt.same_psb ∙ p.to_pd.same_psb)
              (base ∙ p.to_pt.same_base ∙ p.to_pd.same_base)
            ∙ p.to_pdpt.leads_to)

    found : walk_to_leaf n m.root v ≡ walk_pt n p.pt v
    found = root_found ∙ pdpt_found ∙ pd_found

    phys_addr_found :
        n.root ≡ m.root → bit_and v mask_11_0 ≡ 0 → phys_addr n v ≡ ok (some (page * 4096))
    unfolding phys_addr page_bytes
    phys_addr_found same aligned =
        let leaf = ap (λ r. walk_to_leaf n r v) same ∙ found ∙ pt_found in
        rw
          (
            phys_addr,
            leaf,
            held lev m v page tree small p (p.m3.memory p.pt (entry_idx pt_level v)),
            aligned,
          )
          (ap (λ a. ok (some a)) (or-zero (page * 4096)))

  -- The page has no entry among the mapped pages yet.
  abbrev counted : Mapper
  counted = record after {
    mapped_pages =
        put (page * 4096)
          (record {
            phys_addr = page * 4096;
            size = normal;
            refs = 1;
            aliasing_paging_structures = pair_insert (p.m3.root - p.m3.psb, v) [];
          })
          p.m3.mapped_pages;
  }

  counts :
      lookup (page * 4096) m.mapped_pages ≡ none
      → m.psb ≤ m.root
      → count_mapping after (page * 4096) (page * 4096) v ≡ ok counted
  unfolding count_mapping phys_addr_of
  counts new over =
      let fits : leb p.m3.psb p.m3.root ≡ true = ground (
        arith,
        (same_psb lev m v page tree small p),
        (same_root lev m v page tree small p),
        over,
      ) in
      let unmapped : lookup (page * 4096) p.m3.mapped_pages ≡ none =
        ap (lookup (page * 4096)) (same_pages lev m v page tree small p) ∙ new in
      rw (count_mapping, fits, unmapped) refl

  aligned_page : bit_and (page * 4096) mask_11_0 ≡ 0
  aligned_page = and_mask 12 (page * 4096) ∙ omega (arith)

  maps_upper :
      bit_and v mask_11_0 ≡ 0
      → (v / 2 ^ 51 == 0) ≡ false
      → map m (page * 4096) v ≡ ok (done, record after { flushes = p.m3.flushes + 1 })
  unfolding map map_aligned entry_idx
  maps_upper aligned upper =
      rw (map, aligned_page, aligned, map_aligned, p.first, p.second, p.third, upper) refl

  maps_lower :
      bit_and v mask_11_0 ≡ 0
      → (v / 2 ^ 51 == 0) ≡ true
      → lookup (page * 4096) m.mapped_pages ≡ none
      → m.psb ≤ m.root
      → map m (page * 4096) v ≡ ok (done, record counted { flushes = p.m3.flushes + 1 })
  unfolding map map_aligned entry_idx
  maps_lower aligned lower new over =
      let at : get_addr (after.memory p.pt (entry_idx pt_level v)) ≡ page * 4096 =
        ap get_addr (written_there lev m v page tree small p)
        ∙ held lev m v page tree small p (p.m3.memory p.pt (entry_idx pt_level v)) in
      rw
        (
          map,
          aligned_page,
          aligned,
          map_aligned,
          p.first,
          p.second,
          p.third,
          lower,
          at,
          counts new over,
        )
        refl

  pub maps :
      bit_and v mask_11_0 ≡ 0
      → ((v / 2 ^ 51 == 0) ≡ false)
        ⊎ ((lookup (page * 4096) m.mapped_pages ≡ none) × (m.psb ≤ m.root))
      → (m' : Mapper) × (map m (page * 4096) v ≡ ok (done, m'))
        × (m'.memory ≡ after.memory)
        × (m'.psb ≡ p.m3.psb)
        × (m'.base ≡ p.m3.base)
        × (m'.root ≡ m.root)
  maps aligned first = elim (Bool-cases (v / 2 ^ 51 == 0)) [
    | inr high ↦ (
      record after { flushes = p.m3.flushes + 1 },
      maps_upper aligned high,
      refl,
      refl,
      refl,
      same_root lev m v page tree small p,
    )
    | inl low ↦ elim first [
      | inl high ↦ absurd (differ (sym low ∙ high))
      | inr (new, over) ↦ (
        record counted { flushes = p.m3.flushes + 1 },
        maps_lower aligned low new over,
        refl,
        refl,
        refl,
        same_root lev m v page tree small p,
      )
    ]
  ]
    where
      differ : true ≡ false → ⊥
      differ e = cc

-- In tables that form a tree, where no entry that the walk for the address reads has the flag of a huge
-- page, and with room for three more tables: an aligned page below 2 ^ 52 that is mapped at an aligned
-- address, either in the upper half or for the first time with the root not below the base of the kernel's
-- mappings, is found at its address afterwards.
pub map-phys_addr :
    (lev : ℕ → ℕ) (m : Mapper) (v page : ℕ)
    → IsTree lev m
    → HasNoHuge 3 m.root m v
    → HasRoom 3 m
    → page < 2 ^ 40
    → bit_and v mask_11_0 ≡ 0
    → ((v / 2 ^ 51 == 0) ≡ false)
      ⊎ ((lookup (page * 4096) m.mapped_pages ≡ none) × (m.psb ≤ m.root))
    → (m' : Mapper) × (map m (page * 4096) v ≡ ok (done, m'))
      × (phys_addr m' v ≡ ok (some (page * 4096)))
map-phys_addr lev m v page tree huge room small aligned first =
    let p = descend lev m v tree huge room in
    let (m', mapped, memory, psb, base, root) = maps lev m v page tree small p aligned first in
    (m', mapped, phys_addr_found lev m v page tree small p m' memory psb base root aligned)
