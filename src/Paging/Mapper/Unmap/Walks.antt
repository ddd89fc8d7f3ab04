-- ===== src/Paging/Mapper/Unmap/Walks.antt =====
-- What walks find after a change of the paging structures.
use an_os_in_rust.Base.{
  ℕ, bit_and, bit_or, ◌≡◌, refl, sym, ap, ap₂, ◌∙◌, Bool, true, false, Option, none, some, ◌⊎◌, inl,
  inr, ◌==◌, if◌then◌else◌, Bool-cases, Option-cases, Outcome, ok, ◌>>=◌, >>=-eq-ok,
}
use an_os_in_rust.Base.Bits.{or-and, or-zero}
use an_os_in_rust.Paging.Table.{
  PagingLevel, pml4_level, pdpt_level, pd_level, pt_level, PageSize, huge, gigantic, entry_idx,
  get_flags, set_flags, get_addr, present_flag, rw_flag, ps_flag, all_flags,
}
use an_os_in_rust.Paging.Table.Entry.{and-and, get_addr-set_flags}
use an_os_in_rust.Paging.Mapper.{
  Mapper, LeafEntry, is_leaf, walk, table_for_phys_addr, walk_pt, walk_pd, walk_pdpt, walk_to_leaf,
}

abbrev pub is_present : ℕ → Bool
is_present entry = bit_and (get_flags entry all_flags) present_flag == present_flag

-- Entries that a walk takes for each other.
pub record AreAlike (e e' : ℕ) : Type 0 where
  pub same_addr : get_addr e' ≡ get_addr e
  pub same_present : is_present e' ≡ is_present e
  pub same_leaf : is_leaf (get_flags e' all_flags) ≡ is_leaf (get_flags e all_flags)

flag_alike :
    (e f k : ℕ)
    → bit_and all_flags f ≡ k
    → bit_and rw_flag k ≡ 0
    → bit_and (get_flags (set_flags e rw_flag true) all_flags) f ≡ bit_and (get_flags e all_flags) f
unfolding get_flags set_flags
flag_alike e f k a b =
    and-and (bit_or e rw_flag) all_flags f k a
    ∙ or-and e rw_flag k
    ∙ ap (bit_or (bit_and e k)) b
    ∙ or-zero _
    ∙ sym (and-and e all_flags f k a)

pub AreAlike-set_rw : (e : ℕ) → AreAlike e (set_flags e rw_flag true)
AreAlike-set_rw e = record {
  same_addr = get_addr-set_flags e rw_flag ∙ or-zero _;
  same_present = ap (λ n. n == present_flag) (flag_alike e present_flag 1 refl refl);
  same_leaf = ap (λ n. n == ps_flag) (flag_alike e ps_flag 128 refl refl);
}

-- The second state has no entry at one place, and elsewhere what a walk takes for the first state's
-- entry, or none.
pub record IsCut (m m' : Mapper) (table idx : ℕ) : Type 0 where
  pub gone : is_present (m'.memory table idx) ≡ false
  pub others :
      (t i : ℕ) → (is_present (m'.memory t i) ≡ false) ⊎ AreAlike (m.memory t i) (m'.memory t i)
  pub same_psb : m'.psb ≡ m.psb
  pub same_base : m'.base ≡ m.base

module _ (m m' : Mapper) (leaf : LeafEntry) (cut : IsCut m m' leaf.table leaf.idx) where
  walk_absent :
      (l : PagingLevel) (t v : ℕ)
      → is_present (m'.memory t (entry_idx l v)) ≡ false
      → walk l m' t v ≡ none
  unfolding walk
  walk_absent l t v e = rw (e) refl

  walk_alike :
      (l : PagingLevel) (t v addr flags : ℕ)
      → AreAlike (m.memory t (entry_idx l v)) (m'.memory t (entry_idx l v))
      → walk l m t v ≡ some (addr, flags)
      → (flags' : ℕ) × (walk l m' t v ≡ some (addr, flags')) × (is_leaf flags' ≡ is_leaf flags)
  unfolding walk
  walk_alike l t v addr flags alike h =
      elim (Bool-cases (is_present (m.memory t (entry_idx l v)))) [
        | inr e ↦ absurd (nothing (rw (e) at h))
        | inl e ↦
            let found = some_injective (rw (e) at h) in
            let there : is_present (m'.memory t (entry_idx l v)) ≡ true = alike.same_present ∙ e in
            (
              get_flags (m'.memory t (entry_idx l v)) all_flags,
              rw (there) (
                  ap (λ a. some (a, get_flags (m'.memory t (entry_idx l v)) all_flags))
                    (alike.same_addr ∙ ap (λ r. r.0) found)),
              alike.same_leaf ∙ ap (λ r. is_leaf r.1) found,
            )
      ]
    where
      nothing : {r : ℕ × ℕ} → none ≡ some r → ⊥
      nothing e = cc

      some_injective : {r s : ℕ × ℕ} → some r ≡ some s → r ≡ s
      some_injective e = cc

  same_table : (addr : ℕ) → table_for_phys_addr m' addr ≡ table_for_phys_addr m addr
  unfolding table_for_phys_addr
  same_table addr = rw (cut.same_psb, cut.same_base) refl

  -- A level of `walk_to_leaf` at which an entry may map a page.
  abbrev level :
      PagingLevel
      → PageSize
      → Mapper
      → (ℕ → Outcome (Option LeafEntry))
      → ℕ
      → ℕ
      → Outcome (Option LeafEntry)
  level l size n down t v = elim (walk l n t v) [
    | none ↦ ok none
    | some (addr, flags) ↦
        if is_leaf flags
        then ok
            (some (record { table = t; phys_addr = addr; idx = entry_idx l v; page_size = size }))
        else table_for_phys_addr n addr >>= down
  ]

  level-cut :
      (l : PagingLevel) (size : PageSize) (down down' : ℕ → Outcome (Option LeafEntry)) (t v : ℕ)
      → ((u : ℕ) → down u ≡ ok (some leaf) → down' u ≡ ok none)
      → level l size m down t v ≡ ok (some leaf)
      → level l size m' down' t v ≡ ok none
  level-cut l size down down' t v below h = elim (cut.others t (entry_idx l v)) [
    | inl e ↦ rw (level, walk_absent l t v e) refl
    | inr alike ↦ elim (Option-cases (walk l m t v)) [
      | inl e ↦ absurd (nothing (rw (level, e) at h))
      | inr ((addr, flags), e) ↦
          let (flags', e', same) = walk_alike l t v addr flags alike e in
          elim (Bool-cases (is_leaf flags)) [
            | inl at_leaf ↦
                let at_this = injective (rw (level, e, at_leaf) at h) in
                rw
                  (
                    level,
                    walk_absent l t v (here (ap (λ f. f.table) at_this) (ap (λ f. f.idx) at_this)),
                  )
                  refl
            | inr deeper ↦
                let (u, e1, e2) =
                  >>=-eq-ok (table_for_phys_addr m addr) down (rw (level, e, deeper) at h) in
                rw (level, e', same ∙ deeper, same_table addr, e1) (below u e2)
          ]
    ]
  ]
    where
      nothing : ok none ≡ ok (some leaf) → ⊥
      nothing e = cc

      injective : {f : LeafEntry} → ok (some f) ≡ ok (some leaf) → f ≡ leaf
      injective e = cc

      here :
          t ≡ leaf.table
          → entry_idx l v ≡ leaf.idx
          → is_present (m'.memory t (entry_idx l v)) ≡ false
      here a b = ap₂ (λ x y. is_present (m'.memory x y)) a b ∙ cut.gone

  walk_pt-cut : (t v : ℕ) → walk_pt m t v ≡ ok (some leaf) → walk_pt m' t v ≡ ok none
  unfolding walk_pt
  walk_pt-cut t v h = elim (cut.others t (entry_idx pt_level v)) [
    | inl e ↦ rw (walk_pt, walk_absent pt_level t v e) refl
    | inr alike ↦ elim (Option-cases (walk pt_level m t v)) [
      | inl e ↦ absurd (nothing (rw (walk_pt, e) at h))
      | inr (_, e) ↦
          let at_this = injective (rw (walk_pt, e) at h) in
          rw
            (
              walk_pt,
              walk_absent pt_level t v (here (ap (λ f. f.table) at_this) (ap (λ f. f.idx) at_this)),
            )
            refl
    ]
  ]
    where
      nothing : ok none ≡ ok (some leaf) → ⊥
      nothing e = cc

      injective : {f : LeafEntry} → ok (some f) ≡ ok (some leaf) → f ≡ leaf
      injective e = cc

      here :
          t ≡ leaf.table
          → entry_idx pt_level v ≡ leaf.idx
          → is_present (m'.memory t (entry_idx pt_level v)) ≡ false
      here a b = ap₂ (λ x y. is_present (m'.memory x y)) a b ∙ cut.gone

  walk_pd-cut : (t v : ℕ) → walk_pd m t v ≡ ok (some leaf) → walk_pd m' t v ≡ ok none
  unfolding walk_pd
  walk_pd-cut t v h =
      level-cut pd_level huge (λ u. walk_pt m u v) (λ u. walk_pt m' u v) t v (λ u. walk_pt-cut u v)
        h

  walk_pdpt-cut : (t v : ℕ) → walk_pdpt m t v ≡ ok (some leaf) → walk_pdpt m' t v ≡ ok none
  unfolding walk_pdpt
  walk_pdpt-cut t v h =
      level-cut pdpt_level gigantic (λ u. walk_pd m u v) (λ u. walk_pd m' u v) t v
        (λ u. walk_pd-cut u v) h

  -- A walk that led to the entry that is gone finds nothing.
  pub walk_to_leaf-cut :
      (t v : ℕ) → walk_to_leaf m t v ≡ ok (some leaf) → walk_to_leaf m' t v ≡ ok none
  unfolding walk_to_leaf
  walk_to_leaf-cut t v h = elim (cut.others t (entry_idx pml4_level v)) [
    | inl e ↦ rw (walk_to_leaf, walk_absent pml4_level t v e) refl
    | inr alike ↦ elim (Option-cases (walk pml4_level m t v)) [
      | inl e ↦ absurd (nothing (rw (walk_to_leaf, e) at h))
      | inr ((addr, flags), e) ↦
          let (flags', e', _) = walk_alike pml4_level t v addr flags alike e in
          let (u, e1, e2) = >>=-eq-ok (table_for_phys_addr m addr) _ (rw (walk_to_leaf, e) at h) in
          rw (walk_to_leaf, e', same_table addr, e1) (walk_pdpt-cut u v e2)
    ]
  ]
    where
      nothing : ok none ≡ ok (some leaf) → ⊥
      nothing e = cc
