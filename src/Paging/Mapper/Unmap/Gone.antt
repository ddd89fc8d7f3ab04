-- ===== src/Paging/Mapper/Unmap/Gone.antt =====
-- A page that `unmap` of arch/x86_64/src/paging/mapping.rs has unmapped is not found.
use an_os_in_rust.Base.{
  ℕ, ◌-◌, ◌/◌, ◌^◌, ◌≤◌, ◌<◌, bit_and, ◌≡◌, refl, ap, ◌∙◌, true, false, not, Option, none, some,
  List, inl, inr, ◌==◌, ==_self, ltb, leb, if◌then◌else◌, arith, Bool-cases, ok, >>=-eq-ok,
  ok_injective, expect, assert, subst,
}
use an_os_in_rust.Base.Assoc.{lookup, put, erase, lookup-erase}
use an_os_in_rust.Paging.Table.{PagingError, set_flags, page_bytes, phys_addr_of, rw_flag}
use an_os_in_rust.Paging.Mapper.{
  Mapper, MappedPage, LeafEntry, done, err, update_entry, pair_contains, pair_remove,
  table_for_phys_addr, walk_to_leaf, phys_addr,
}
use an_os_in_rust.Paging.Mapper.Unmap.{
  last_alias, make_writable, release_shared, release_page, unmap,
}
use an_os_in_rust.Paging.Mapper.Unmap.Walks.{IsCut, walk_to_leaf-cut}
use an_os_in_rust.Paging.Mapper.Unmap.Cleared.{cleared, cleared-IsCut, writable-IsCut}

-- What the part of `unmap` for the lower half may make of the state.
record IsReleased (m : Mapper) (leaf : LeafEntry) (m' : Mapper) : Type 0 where
  cut : IsCut m m' leaf.table leaf.idx
  same_root : m'.root ≡ m.root

make_writable-of :
    (n : Mapper) (left : List (ℕ × ℕ)) (v : ℕ) (m' : Mapper)
    → make_writable n left v ≡ ok m'
    → (other : LeafEntry) × (update_entry n other.table other.idx (λ e. set_flags e rw_flag true)
        ≡ m')
unfolding make_writable
make_writable-of n left v m' h =
    let (alias, _, h1) = >>=-eq-ok (last_alias left) _ h in
    let (pml4, _, h2) = >>=-eq-ok (table_for_phys_addr n alias) _ h1 in
    let (found, _, h3) = >>=-eq-ok (walk_to_leaf n pml4 v) _ h2 in
    let (other, _, h4) = >>=-eq-ok (expect found) _ h3 in (other, ok_injective h4)

release_shared-IsReleased :
    (m m' : Mapper) (leaf : LeafEntry) (page : MappedPage) (cr3 v : ℕ)
    → release_shared (cleared m leaf m.mapped_pages) leaf.phys_addr page cr3 v ≡ ok m'
    → IsReleased m leaf m'
unfolding release_shared
release_shared-IsReleased m m' leaf page cr3 v h =
    let (_, _, h1) =
      >>=-eq-ok (assert (pair_contains (cr3, v) page.aliasing_paging_structures)) _ h in
    elim (Bool-cases (page.refs - 1 == 1)) [
      | inl e ↦
          let (other, h2) = make_writable-of _ _ _ m' (rw (e) at h1) in
          subst (λ n. IsReleased m leaf n) h2
            (record {
              cut =
                  writable-IsCut m (cleared m leaf pages) leaf.table leaf.idx other.table other.idx
                    (cleared-IsCut m leaf pages);
              same_root = refl;
            })
      | inr e ↦
          subst (λ n. IsReleased m leaf n) (ok_injective (rw (e) at h1))
            (record { cut = cleared-IsCut m leaf pages; same_root = refl })
    ]
  where
    pages : List (ℕ × MappedPage)
    pages =
        put leaf.phys_addr
          (record page {
            refs = page.refs - 1;
            aliasing_paging_structures = pair_remove (cr3, v) page.aliasing_paging_structures;
          })
          m.mapped_pages

release_page-IsReleased :
    (m m' : Mapper) (leaf : LeafEntry) (v : ℕ)
    → release_page (cleared m leaf m.mapped_pages) leaf.phys_addr v ≡ ok m'
    → IsReleased m leaf m'
unfolding release_page
release_page-IsReleased m m' leaf v h =
    let (page, _, h1) = >>=-eq-ok (expect (lookup leaf.phys_addr m.mapped_pages)) _ h in
    let (cr3, _, h2) = >>=-eq-ok (phys_addr_of m.psb m.root) _ h1 in
    elim (Bool-cases (ltb 1 page.refs)) [
      | inl e ↦ release_shared-IsReleased m m' leaf page cr3 v (rw (e) at h2)
      | inr e ↦ released (ok_injective (rw (e) at h2))
    ]
  where
    released : cleared m leaf (erase leaf.phys_addr m.mapped_pages) ≡ m' → IsReleased m leaf m'
    released e =
        subst (λ n. IsReleased m leaf n) e
          (record {
            cut = cleared-IsCut m leaf (erase leaf.phys_addr m.mapped_pages);
            same_root = refl;
          })

expect-eq-ok : (o : Option LeafEntry) (leaf : LeafEntry) → expect o ≡ ok leaf → o ≡ some leaf
expect-eq-ok none leaf h = cc
expect-eq-ok (some found) leaf h = ap some (ok_injective h)

unmap_cases :
    (m m' : Mapper) (leaf : LeafEntry) (v : ℕ)
    → (if v / 2 ^ 51 == 0
        then release_page (cleared m leaf m.mapped_pages) leaf.phys_addr v
        else ok (cleared m leaf m.mapped_pages))
      ≡ ok m'
    → IsReleased m leaf m'
unmap_cases m m' leaf v h = elim (Bool-cases (v / 2 ^ 51 == 0)) [
  | inl e ↦ release_page-IsReleased m m' leaf v (rw (e) at h)
  | inr e ↦
      subst (λ n. IsReleased m leaf n) (ok_injective (rw (e) at h))
        (record { cut = cleared-IsCut m leaf m.mapped_pages; same_root = refl })
]

phys_addr-none : (m : Mapper) (v : ℕ) → walk_to_leaf m m.root v ≡ ok none → phys_addr m v ≡ ok none
unfolding phys_addr
phys_addr-none m v h = rw (h) refl

-- Once `unmap` has unmapped a virtual address, no physical address is found for it: neither the count of the
-- page's aliases nor the last alias's becoming writable brings it back, also where page tables are shared.
pub unmap-phys_addr : (m m' : Mapper) (v : ℕ) → unmap m v ≡ ok (done, m') → phys_addr m' v ≡ ok none
unfolding unmap
unmap-phys_addr m m' v h =
    let (found, e1, h1) = >>=-eq-ok (walk_to_leaf m m.root v) _ h in
    let (leaf, e2, h2) = >>=-eq-ok (expect found) _ h1 in
    elim (Bool-cases (not (bit_and v (page_bytes leaf.page_size - 1) == 0))) [
      | inl e ↦ absurd (no_error _ (ap (λ r. r.0) (ok_injective (rw (e) at h2))))
      | inr e ↦
          let (m2, e3, h3) = >>=-eq-ok {A = Mapper} _ _ (rw (e) at h2) in
          let released = unmap_cases m m2 leaf v e3 in
          let before = e1 ∙ ap ok (expect-eq-ok found leaf e2) in
          let after = walk_to_leaf-cut m m2 leaf released.cut m.root v before in
          subst (λ n. phys_addr n v ≡ ok none) (ap (λ r. r.1) (ok_injective h3))
            (phys_addr-none m2 v (ap (λ t. walk_to_leaf m2 t v) released.same_root ∙ after))
    ]
  where
    no_error : (e : PagingError) → err e ≡ done → ⊥
    no_error e h = cc

-- Unmapping an aligned address of the lower half, mapped to a page that has no other reference,
-- returns when the root table lies in the region of paging structures; the address is no longer
-- mapped, and the page is no longer counted.
pub unmap_last :
    (m : Mapper) (leaf : LeafEntry) (page : MappedPage) (v : ℕ)
    → walk_to_leaf m m.root v ≡ ok (some leaf)
    → bit_and v (page_bytes leaf.page_size - 1) ≡ 0
    → v < 2 ^ 51
    → lookup leaf.phys_addr m.mapped_pages ≡ some page
    → page.refs ≤ 1
    → m.psb ≤ m.root
    → (m' : Mapper) × (unmap m v ≡ ok (done, m'))
      × (phys_addr m' v ≡ ok none)
      × (lookup leaf.phys_addr m'.mapped_pages ≡ none)
unfolding unmap release_page phys_addr_of
unmap_last m leaf page v walks aligned lower counted single below = (
  m',
  returns,
  unmap-phys_addr m m' v returns,
  rw (lookup-erase leaf.phys_addr leaf.phys_addr m.mapped_pages, ==_self leaf.phys_addr) refl,
)
  where
    m' : Mapper
    m' = cleared m leaf (erase leaf.phys_addr m.mapped_pages)

    whole : not (bit_and v (page_bytes leaf.page_size - 1) == 0) ≡ false
    whole = ap (λ n. not (n == 0)) aligned

    half : (v / 2 ^ 51 == 0) ≡ true
    half = ground arith

    alone : ltb 1 page.refs ≡ false
    alone = ground arith

    over : leb m.psb m.root ≡ true
    over = ground arith

    returns : unmap m v ≡ ok (done, m')
    returns = rw (walks, whole, half, counted, over, alone) refl
