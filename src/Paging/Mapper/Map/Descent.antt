-- ===== src/Paging/Mapper/Map/Descent.antt =====
-- The way of `map` of arch/x86_64/src/paging/mapping.rs from the root to a page table, and what it leaves of
-- the entries on it.
use an_os_in_rust.Base.{ℕ, suc, ◌*◌, ◌^◌, ◌<◌, ◌≡◌, ◌≢◌, sym, ap, ◌∙◌, inl, inr, ok, arith, bit_and}
use an_os_in_rust.Paging.Table.{
  pml4_level, pdpt_level, pd_level, pt_level, entry_idx, get_addr, mask_51_12,
}
use an_os_in_rust.Paging.Table.Entry.{addr_stored}
use an_os_in_rust.Paging.Mapper.{Mapper, walk_or_create_table, update_entry}
use an_os_in_rust.Paging.Mapper.Map.{IsTree, HasNoHuge, HasRoom}
use an_os_in_rust.Paging.Mapper.Map.Create.{
  linked, write_entry_cases, write_entry_self, linked_addr,
}
use an_os_in_rust.Paging.Mapper.Map.Level.{Descends, walk_or_create_table-Descends}

-- The tables that `map` goes through, and the states that it leaves behind.
pub record Descent (lev : ℕ → ℕ) (m : Mapper) (v : ℕ) : Type 0 where
  pub pdpt : ℕ
  pub pd : ℕ
  pub pt : ℕ
  pub flags1 : ℕ
  pub flags2 : ℕ
  pub flags3 : ℕ
  pub m1 : Mapper
  pub m2 : Mapper
  pub m3 : Mapper
  pub first : walk_or_create_table pml4_level m m.root v ≡ ok (pdpt, flags1, m1)
  pub second : walk_or_create_table pdpt_level m1 pdpt v ≡ ok (pd, flags2, m2)
  pub third : walk_or_create_table pd_level m2 pd v ≡ ok (pt, flags3, m3)
  pub to_pdpt : Descends lev m v m.root 2 2 pdpt m1
  pub to_pd : Descends to_pdpt.levels m1 v pdpt 1 1 pd m2
  pub to_pt : Descends to_pd.levels m2 v pd 0 0 pt m3

pub descend :
    (lev : ℕ → ℕ) (m : Mapper) (v : ℕ)
    → IsTree lev m
    → HasNoHuge 3 m.root m v
    → HasRoom 3 m
    → Descent lev m v
descend lev m v tree huge room =
    let (pdpt, f1, m1, e1, d1) =
      walk_or_create_table-Descends lev m v m.root 2 2 tree huge room tree.root_level in
    let (pd, f2, m2, e2, d2) =
      walk_or_create_table-Descends d1.levels m1 v pdpt 1 1 d1.tree d1.no_huge d1.has_room
        d1.level_below in
    let (pt, f3, m3, e3, d3) =
      walk_or_create_table-Descends d2.levels m2 v pd 0 0 d2.tree d2.no_huge d2.has_room
        d2.level_below in
    record {
      pdpt = pdpt;
      pd = pd;
      pt = pt;
      flags1 = f1;
      flags2 = f2;
      flags3 = f3;
      m1 = m1;
      m2 = m2;
      m3 = m3;
      first = e1;
      second = e2;
      third = e3;
      to_pdpt = d1;
      to_pd = d2;
      to_pt = d3;
    }

module _ (lev : ℕ → ℕ) (m : Mapper) (v page : ℕ) (tree : IsTree lev m) (small : page < 2 ^ 40)
    (p : Descent lev m v) where
  abbrev pub written : Mapper
  written =
      update_entry p.m3 p.pt (entry_idx pt_level v)
        (λ e. linked e (bit_and (page * 4096) mask_51_12))

  up : (f g : ℕ → ℕ) (x k : ℕ) → ((y : ℕ) → f y ≢ 0 → g y ≡ f y) → f x ≡ suc k → g x ≡ suc k
  up f g x k same e = same x (λ h. absurd (omega (arith, e, h))) ∙ e

  apart : (f : ℕ → ℕ) (x y a b : ℕ) → f x ≡ a → f y ≡ b → a ≢ b → x ≢ y
  apart f x y a b e g differ same = differ (sym e ∙ ap f same ∙ g)

  in_use : (f : ℕ → ℕ) (x k : ℕ) → f x ≡ suc k → f x ≢ 0
  in_use f x k e h = absurd (omega (arith, e, h))

  root1 : p.to_pdpt.levels m.root ≡ 4
  root1 = up lev p.to_pdpt.levels m.root 3 p.to_pdpt.same_levels tree.root_level

  root2 : p.to_pd.levels m.root ≡ 4
  root2 = up p.to_pdpt.levels p.to_pd.levels m.root 3 p.to_pd.same_levels root1

  root3 : p.to_pt.levels m.root ≡ 4
  root3 = up p.to_pd.levels p.to_pt.levels m.root 3 p.to_pt.same_levels root2

  pdpt2 : p.to_pd.levels p.pdpt ≡ 3
  pdpt2 = up p.to_pdpt.levels p.to_pd.levels p.pdpt 2 p.to_pd.same_levels p.to_pdpt.level_below

  pdpt3 : p.to_pt.levels p.pdpt ≡ 3
  pdpt3 = up p.to_pd.levels p.to_pt.levels p.pdpt 2 p.to_pt.same_levels pdpt2

  pd3 : p.to_pt.levels p.pd ≡ 2
  pd3 = up p.to_pd.levels p.to_pt.levels p.pd 1 p.to_pt.same_levels p.to_pd.level_below

  abbrev leaf : ℕ
  leaf = linked (p.m3.memory p.pt (entry_idx pt_level v)) (bit_and (page * 4096) mask_51_12)

  elsewhere : (x i : ℕ) → x ≢ p.pt → written.memory x i ≡ p.m3.memory x i
  elsewhere x i other = elim (write_entry_cases p.m3.memory p.pt (entry_idx pt_level v) leaf x i) [
    | inl (same, _) ↦ absurd (other same)
    | inr same ↦ same
  ]

  pub pd_entry : (i : ℕ) → written.memory p.pd i ≡ p.m3.memory p.pd i
  pd_entry i =
      elsewhere p.pd i (
        apart p.to_pt.levels p.pd p.pt 2 1 pd3 p.to_pt.level_below (λ e. absurd (omega (arith, e))))

  pub pdpt_entry : (i : ℕ) → written.memory p.pdpt i ≡ p.m2.memory p.pdpt i
  pdpt_entry i =
      elsewhere p.pdpt i (
        apart p.to_pt.levels p.pdpt p.pt 3 1 pdpt3 p.to_pt.level_below
          (λ e. absurd (omega (arith, e))))
      ∙ p.to_pt.others p.pdpt i
          (apart p.to_pd.levels p.pdpt p.pd 3 2 pdpt2 p.to_pd.level_below
            (λ e. absurd (omega (arith, e))))
          (in_use p.to_pd.levels p.pdpt 2 pdpt2)

  pub root_entry : (i : ℕ) → written.memory m.root i ≡ p.m1.memory m.root i
  root_entry i =
      elsewhere m.root i (
        apart p.to_pt.levels m.root p.pt 4 1 root3 p.to_pt.level_below
          (λ e. absurd (omega (arith, e))))
      ∙ p.to_pt.others m.root i
          (apart p.to_pd.levels m.root p.pd 4 2 root2 p.to_pd.level_below
            (λ e. absurd (omega (arith, e))))
          (in_use p.to_pd.levels m.root 3 root2)
      ∙ p.to_pd.others m.root i
          (apart p.to_pdpt.levels m.root p.pdpt 4 3 root1 p.to_pdpt.level_below
            (λ e. absurd (omega (arith, e))))
          (in_use p.to_pdpt.levels m.root 3 root1)

  pub written_there : written.memory p.pt (entry_idx pt_level v) ≡ leaf
  written_there = write_entry_self p.m3.memory p.pt (entry_idx pt_level v) leaf

  pub held : (e : ℕ) → get_addr (linked e (bit_and (page * 4096) mask_51_12)) ≡ page * 4096
  held e = ap (λ a. get_addr (linked e a)) (addr_stored page small) ∙ linked_addr e page small

  pub same_root : p.m3.root ≡ m.root
  same_root = p.to_pt.same_root ∙ p.to_pd.same_root ∙ p.to_pdpt.same_root

  pub same_psb : p.m3.psb ≡ m.psb
  same_psb = p.to_pt.same_psb ∙ p.to_pd.same_psb ∙ p.to_pdpt.same_psb

  pub same_pages : p.m3.mapped_pages ≡ m.mapped_pages
  same_pages = p.to_pt.same_pages ∙ p.to_pd.same_pages ∙ p.to_pdpt.same_pages
