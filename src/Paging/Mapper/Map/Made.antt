-- ===== src/Paging/Mapper/Map/Made.antt =====
-- The table that `walk_or_create_table` of arch/x86_64/src/paging/mapping.rs makes, in the tree of tables.
use an_os_in_rust.Base.{
  ℕ, zero, suc, ◌+◌, ◌*◌, ◌≤◌, ◌≡◌, ◌≢◌, refl, sym, ap, ap₂, ◌∙◌, true, false, Bool-cases, ◌⊎◌, inl,
  inr, ◌==◌, ==_self, ==_iff, if◌then◌else◌, ok, arith,
}
use an_os_in_rust.Paging.Table.{PagingLevel, entry_idx, get_flags, get_addr}
use an_os_in_rust.Paging.Mapper.{Mapper, table_for_phys_addr, update_entry}
use an_os_in_rust.Paging.Mapper.Unmap.Walks.{is_present}
use an_os_in_rust.Paging.Mapper.Map.{table_at, entry_is_leaf, IsTree, level_of, HasNoHuge, HasRoom}
use an_os_in_rust.Paging.Mapper.Map.Create.{
  linked, write_entry_cases, write_entry_self, linked_addr, table_for-new,
}

module _ (lev : ℕ → ℕ) (m : Mapper) (v t k room : ℕ) (tree : IsTree lev m)
    (huge : HasNoHuge (suc k) t m v) (r : HasRoom (suc room) m)
    (at_level : lev t ≡ suc (suc k)) where
  abbrev l : PagingLevel
  l = level_of (suc (suc k))

  abbrev entry : ℕ
  entry = m.memory t (entry_idx l v)

  abbrev pub fresh : ℕ
  fresh = table_at m m.next

  abbrev pub addr : ℕ
  addr = (r.offset + m.next) * 4096

  abbrev pub created : Mapper
  created = update_entry (record m { next = m.next + 1 }) t (entry_idx l v) (λ e. linked e addr)

  abbrev pub new_levels : ℕ → ℕ
  new_levels x = if x == fresh then suc k else lev x

  pub not_fresh : (x : ℕ) → lev x ≢ 0 → (x == fresh) ≡ false
  not_fresh x h = elim (Bool-cases (x == fresh)) [
    | inl same ↦ absurd (h (ap lev ((==_iff x fresh).0 same) ∙ tree.no_table m.next (omega arith)))
    | inr other ↦ other
  ]

  in_use : (n : ℕ) (x : ℕ) → lev x ≡ suc n → lev x ≢ 0
  in_use n x e h = absurd (omega (arith, e, h))

  written_or_same :
      (x i : ℕ) → ((x ≡ t) × (i ≡ entry_idx l v)) ⊎ (created.memory x i ≡ m.memory x i)
  written_or_same = write_entry_cases m.memory t (entry_idx l v) (linked entry addr)

  pub others_same : (x i : ℕ) → x ≢ t → created.memory x i ≡ m.memory x i
  others_same x i other = elim (written_or_same x i) [
    | inl (same, _) ↦ absurd (other same)
    | inr same ↦ same
  ]

  pub entry_written : created.memory t (entry_idx l v) ≡ linked entry addr
  entry_written = write_entry_self m.memory t (entry_idx l v) (linked entry addr)

  fresh_ne : (n : ℕ) → m.next ≤ n → table_at m n ≢ t
  fresh_ne n h same = in_use (suc k) t at_level (sym (ap lev same) ∙ tree.no_table n h)

  pub clear_still : (n i : ℕ) → m.next ≤ n → created.memory (table_at m n) i ≡ 0
  clear_still n i h = others_same (table_at m n) i (fresh_ne n h) ∙ tree.is_clear n i h

  clear_absent : (e : ℕ) → e ≡ 0 → is_present e ≡ false
  unfolding get_flags
  clear_absent e h = rw (h) refl

  clear_not_leaf : (e : ℕ) → e ≡ 0 → entry_is_leaf e ≡ false
  unfolding get_flags
  clear_not_leaf e h = rw (h) refl

  created-leads :
      (x i n : ℕ)
      → new_levels x ≡ suc (suc n)
      → is_present (created.memory x i) ≡ true
      → entry_is_leaf (created.memory x i) ≡ false
      → (u : ℕ) × (table_for_phys_addr created (get_addr (created.memory x i)) ≡ ok u)
        × (new_levels u ≡ suc n)
  unfolding table_for_phys_addr
  created-leads x i n level there not_leaf = elim (Bool-cases (x == fresh)) [
    | inl new ↦
        let is_fresh = (==_iff x fresh).0 new in
        let absent =
          clear_absent _
            (ap (λ y. created.memory y i) is_fresh ∙ clear_still m.next i (omega arith)) in
        absurd (differ (sym there ∙ absent))
    | inr old ↦
        let old_level : lev x ≡ suc (suc n) = sym (rw (old) refl) ∙ level in
        elim (written_or_same x i) [
          | inl (at_t, at_idx) ↦
              let written : created.memory x i ≡ linked entry addr =
                ap₂ created.memory at_t at_idx ∙ entry_written in
              let held = linked_addr entry (r.offset + m.next) (omega (arith, r.in_entry)) in
              let same_k : k ≡ n = omega (arith, at_level, old_level, ap lev at_t) in
              (
                fresh,
                ap (λ e. table_for_phys_addr m (get_addr e)) written
                    ∙ ap (table_for_phys_addr m) held
                    ∙ table_for-new room m r,
                rw (==_self fresh) (ap suc same_k),
              )
          | inr same ↦
              let (u, leads, below) =
                tree.leads x i n old_level (sym (ap is_present same) ∙ there)
                  (sym (ap entry_is_leaf same) ∙ not_leaf) in
              (
                u,
                ap (λ e. table_for_phys_addr m (get_addr e)) same ∙ leads,
                rw (not_fresh u (in_use n u below)) below,
              )
        ]
  ]
    where
      differ : true ≡ false → ⊥
      differ e = cc

  pub created-IsTree : IsTree new_levels created
  created-IsTree = record {
    root_level = rw (not_fresh m.root (in_use 3 m.root tree.root_level)) tree.root_level;
    leads = created-leads;
    no_table = λ n h. rw (later n h) (tree.no_table n (omega (arith, h)));
    is_clear = λ n i h. clear_still n i (omega (arith, h));
  }
    where
      later : (n : ℕ) → m.next + 1 ≤ n → (table_at m n == fresh) ≡ false
      later n h = ground (arith, h)

  pub created-HasNoHuge : (k : ℕ) → HasNoHuge k fresh created v
  created-HasNoHuge zero = tt
  created-HasNoHuge (suc n) = (
    clear_not_leaf _ (clear_still m.next _ (omega arith)),
    λ u there leads.
        absurd (different (sym there ∙ clear_absent _ (clear_still m.next _ (omega arith)))),
  )
    where
      different : true ≡ false → ⊥
      different e = cc

  pub keeps_present :
      is_present entry ≡ false
      → (x i : ℕ) → lev x ≢ 0
      → is_present (m.memory x i) ≡ true
      → created.memory x i ≡ m.memory x i
  keeps_present absent x i used there = elim (written_or_same x i) [
    | inr same ↦ same
    | inl (at_t, at_idx) ↦
        absurd (differ (sym there ∙ ap is_present (ap₂ m.memory at_t at_idx) ∙ absent))
  ]
    where
      differ : true ≡ false → ⊥
      differ e = cc
