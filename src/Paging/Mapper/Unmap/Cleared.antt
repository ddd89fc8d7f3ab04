-- ===== src/Paging/Mapper/Unmap/Cleared.antt =====
-- Writes to the tables of arch/x86_64/src/paging/mapping.rs that cut one page off.
use an_os_in_rust.Base.{
  ℕ, ◌≡◌, refl, sym, ◌∙◌, true, ◌&&◌, List, inl, inr, ◌==◌, arith, Bool-cases, subst,
}
use an_os_in_rust.Paging.Table.{get_flags, set_flags, rw_flag}
use an_os_in_rust.Paging.Mapper.{Mapper, MappedPage, LeafEntry, Memory, write_entry, update_entry}
use an_os_in_rust.Paging.Mapper.Unmap.Walks.{AreAlike, AreAlike-set_rw, IsCut}

AreAlike-refl : (e : ℕ) → AreAlike e e
AreAlike-refl e = record { same_addr = refl; same_present = refl; same_leaf = refl }

-- The state after the entry is cleared, whatever pages are then counted.
abbrev pub cleared : Mapper → LeafEntry → List (ℕ × MappedPage) → Mapper
cleared m leaf pages = record (update_entry m leaf.table leaf.idx (λ _. 0)) { mapped_pages = pages }

pub cleared-IsCut :
    (m : Mapper) (leaf : LeafEntry) (pages : List (ℕ × MappedPage))
    → IsCut m (cleared m leaf pages) leaf.table leaf.idx
unfolding write_entry get_flags
cleared-IsCut m leaf pages = record {
  gone = ground arith;
  others = λ t i. elim (Bool-cases (t == leaf.table && i == leaf.idx)) [
    | inl e ↦ inl (rw (e) refl)
    | inr e ↦ inr (rw (e) (AreAlike-refl (m.memory t i)))
  ];
  same_psb = refl;
  same_base = refl;
}

AreAlike-trans : (a b c : ℕ) → AreAlike a b → AreAlike b c → AreAlike a c
AreAlike-trans a b c first second = record {
  same_addr = second.same_addr ∙ first.same_addr;
  same_present = second.same_present ∙ first.same_present;
  same_leaf = second.same_leaf ∙ first.same_leaf;
}

both_equal : (a b c d : ℕ) → (a == b && c == d) ≡ true → (a ≡ b) × (c ≡ d)
both_equal a b c d e = (ground arith, ground arith)

writable_alike :
    (n : Memory) (t i t' i' : ℕ)
    → AreAlike (n t' i') (write_entry n t i (set_flags (n t i) rw_flag true) t' i')
unfolding write_entry
writable_alike n t i t' i' = elim (Bool-cases (t' == t && i' == i)) [
  | inl e ↦
      let (a, b) = both_equal t' t i' i e in
      rw (e) (
        subst (λ x. AreAlike (n x i') (set_flags (n t i) rw_flag true)) (sym a)
          (subst (λ y. AreAlike (n t y) (set_flags (n t i) rw_flag true)) (sym b)
            (AreAlike-set_rw (n t i))))
  | inr e ↦ rw (e) (AreAlike-refl (n t' i'))
]

-- Making an entry writable brings nothing back.
pub writable-IsCut :
    (m m' : Mapper) (table idx t i : ℕ)
    → IsCut m m' table idx
    → IsCut m (update_entry m' t i (λ e. set_flags e rw_flag true)) table idx
writable-IsCut m m' table idx t i cut = record {
  gone = (writable_alike m'.memory t i table idx).same_present ∙ cut.gone;
  others = λ t' i'.
      let alike = writable_alike m'.memory t i t' i' in
      elim (cut.others t' i') [
        | inl e ↦ inl (alike.same_present ∙ e)
        | inr before ↦ inr (AreAlike-trans _ _ _ before alike)
      ];
  same_psb = cut.same_psb;
  same_base = cut.same_base;
}
