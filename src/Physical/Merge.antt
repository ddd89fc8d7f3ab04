-- ===== src/Physical/Merge.antt =====
-- One step of `PageAllocator::free`: the block, its buddy and the block they merge into.
use an_os_in_rust.Base.{
  ℕ, suc, ◌+◌, ◌-◌, ◌*◌, ◌/◌, ◌%◌, ◌^◌, ◌≤◌, ◌<◌, ◌≡◌, refl, sym, ap, ◌∙◌, true, false, ◌&&◌, ◌⊎◌,
  inl, inr, List, [], arith, ltb, if◌then◌else◌, length, get_or, set, bit_and, bit_xor, lt→ltb,
  checked_sub, length-set, get_or-set_ne, Outcome, ok, Bool-cases,
}
use an_os_in_rust.Base.Bits.{
  xor_block, and_not_block, two-pow-add_one, two-pow-pos, two-pow-add, lt_of_mul_lt, mul_le_mul,
}
use an_os_in_rust.Base.Sets.{contains, insert, remove, remove_absent}
use an_os_in_rust.Physical.{Block, free_within, word_not}
use an_os_in_rust.Physical.Cover.{
  within, list_cover, cover_from, cover_from-set, list_cover-le, list_cover-insert,
  list_cover-remove, within-le-list_cover, within_start, within_halves,
}

-- A block that `free` may be given: aligned to its size, inside the address space, of an order that
-- has a list, and disjoint from the free memory, which is disjoint in itself.
pub record IsFreeable (fls : List (List ℕ)) (b : Block) : Type 0 where
  pub index : ℕ
  pub at_index : b.order ≡ 12 + index
  pub has_list : index < length fls
  pub few_lists : length fls ≤ 40
  pub multiple : ℕ
  pub aligned : b.addr ≡ multiple * 2 ^ b.order
  pub in_word : b.addr < 2 ^ 64
  pub disjoint : (p : ℕ) → cover_from 12 fls p + within b.addr (2 ^ b.order) p ≤ 1

-- The free memory grows by the block, but for one free block of the largest size, which may be
-- dropped.
abbrev pub Gains : List (List ℕ) → Block → List (List ℕ) → Type 0
Gains fls b out =
    ((p : ℕ) → cover_from 12 out p ≡ cover_from 12 fls p + within b.addr (2 ^ b.order) p)
    ⊎ ((top : ℕ) × (contains top (get_or fls (length fls - 1) []) ≡ true)
        × ((p : ℕ)
            → cover_from 12 out p + within top (2 ^ (11 + length fls)) p
              ≡ cover_from 12 fls p + within b.addr (2 ^ b.order) p))

pub record Freed (fls : List (List ℕ)) (b : Block) (r : Outcome (List (List ℕ))) : Type 0 where
  pub out : List (List ℕ)
  pub returns : r ≡ ok out
  pub same_length : length out ≡ length fls
  pub gains : Gains fls b out

module _ (fls : List (List ℕ)) (b : Block) (ok_block : IsFreeable fls b) where
  open ok_block use {index, at_index, has_list, few_lists, multiple, aligned, in_word, disjoint}

  abbrev pub buddy : ℕ
  buddy = bit_xor b.addr (2 ^ b.order)

  abbrev pub list : List ℕ
  list = get_or fls index []

  abbrev pub merged : Block
  merged = record { addr = bit_and b.addr (word_not (2 ^ b.order)); order = b.order + 1 }

  abbrev pub rest : List (List ℕ)
  rest = set fls index (remove buddy list)

  abbrev width : ℕ
  width = 51 - index

  width_fits : 2 ^ suc width * 2 ^ b.order ≡ 2 ^ 64
  width_fits = two-pow-add (suc width) b.order 64 (omega arith)

  multiple_fits : multiple < 2 ^ suc width
  multiple_fits =
      lt_of_mul_lt multiple (2 ^ suc width) (2 ^ b.order) (omega (arith, width_fits, aligned))

  buddy-eq : buddy ≡ (multiple / 2 * 2 + (multiple % 2 + 1) % 2) * 2 ^ b.order
  buddy-eq = ap (λ (t : ℕ). bit_xor t (2 ^ b.order)) aligned ∙ xor_block b.order multiple

  merged-eq : merged.addr ≡ multiple / 2 * 2 * 2 ^ b.order
  merged-eq =
      ap (λ (t : ℕ). bit_and t (word_not (2 ^ b.order))) aligned
      ∙ ap (λ (t : ℕ). bit_and (multiple * 2 ^ b.order) (t - 1 - 2 ^ b.order)) (sym width_fits)
      ∙ and_not_block b.order width multiple multiple_fits

  merged_cover :
      (p : ℕ)
      → within merged.addr (2 ^ merged.order) p
        ≡ within b.addr (2 ^ b.order) p + within buddy (2 ^ b.order) p
  merged_cover p = cc (
    merged-eq,
    buddy-eq,
    two-pow-add_one b.order,
    aligned,
    within_halves multiple (2 ^ b.order) p,
  )

  rest_cover :
      contains buddy list ≡ true
      → (p : ℕ) → cover_from 12 rest p + within buddy (2 ^ b.order) p ≡ cover_from 12 fls p
  rest_cover h p = omega (
    arith,
    cover_from-set 12 index b.order fls (remove buddy list) p has_list at_index,
    list_cover-remove b.order buddy list p h,
  )

  merged-le : merged.addr ≤ b.addr
  merged-le =
      rw (merged-eq, aligned) (mul_le_mul (multiple / 2 * 2) multiple (2 ^ b.order) (omega arith))

  pub merged-IsFreeable :
      contains buddy list ≡ true → index + 1 < length fls → IsFreeable rest merged
  merged-IsFreeable h below = record {
    index = index + 1;
    at_index = omega arith;
    has_list = rw (length-set fls index (remove buddy list)) below;
    few_lists = rw (length-set fls index (remove buddy list)) ok_block.few_lists;
    multiple = multiple / 2;
    aligned = merged-eq ∙ omega (arith, ap (λ (t : ℕ). multiple / 2 * t) (two-pow-add_one b.order));
    in_word = omega (arith, merged-le);
    disjoint = λ p. omega (arith, disjoint p, merged_cover p, rest_cover h p);
  }

  absent-addr :
      (l : List ℕ)
      → ((p : ℕ) → list_cover b.order l p ≤ cover_from 12 fls p)
      → contains b.addr l ≡ false
  absent-addr l below = elim (Bool-cases (contains b.addr l)) [
    | inr out ↦ out
    | inl h ↦ absurd (
        omega (
          arith,
          below b.addr,
          disjoint b.addr,
          within-le-list_cover b.order b.addr l b.addr h,
          within_start b.addr (2 ^ b.order) (two-pow-pos b.order),
        ))
  ]

  abbrev pub placed : List (List ℕ)
  placed = set fls index (insert b.addr (remove buddy list))

  removed-le : (p : ℕ) → list_cover b.order (remove buddy list) p ≤ cover_from 12 fls p
  removed-le p = elim (Bool-cases (contains buddy list)) [
    | inl h ↦ omega (
      arith,
      list_cover-remove b.order buddy list p h,
      list_cover-le 12 index b.order fls p has_list at_index,
    )
    | inr h ↦
        rw (remove_absent buddy list h) (list_cover-le 12 index b.order fls p has_list at_index)
  ]

  pub placed_cover :
      (p : ℕ)
      → cover_from 12 placed p + list_cover b.order list p
        ≡ cover_from 12 fls p
          + list_cover b.order (remove buddy list) p
          + within b.addr (2 ^ b.order) p
  placed_cover p = omega (
    arith,
    cover_from-set 12 index b.order fls (insert b.addr (remove buddy list)) p has_list at_index,
    list_cover-insert b.order b.addr (remove buddy list) p
        (absent-addr (remove buddy list) removed-le),
  )

  pub free_within_step :
      (fuel : ℕ)
      → free_within (suc fuel) fls b ≡ (
          if contains buddy list && ltb (index + 1) (length fls)
          then free_within fuel rest merged
          else ok placed)
  unfolding free_within
  free_within_step fuel = rw (at_12, lt→ltb index (length fls) has_list)
    where
      at_12 : checked_sub b.order 12 ≡ ok index
      at_12 = ground arith

  pub placed-Freed : (contains buddy list ≡ true → index + 1 ≡ length fls) → Freed fls b (ok placed)
  placed-Freed last = record {
    out = placed;
    returns = refl;
    same_length = length-set fls index (insert b.addr (remove buddy list));
    gains = elim (Bool-cases (contains buddy list)) [
      | inl h ↦
          let at_end : length fls - 1 ≡ index = omega (arith, last h) in
          let top_order : 11 + length fls ≡ b.order = omega (arith, last h) in
          inr (
            buddy,
            rw at_end h,
            λ p.
                rw top_order
                  (omega (arith, placed_cover p, list_cover-remove b.order buddy list p h)),
          )
      | inr h ↦ inl λ p.
          omega
            (arith, placed_cover p, ap (λ l. list_cover b.order l p) (remove_absent buddy list h))
    ];
  }

  -- What the recursive call on the merged block gains, this call gains.
  pub merged-Freed :
      (h : contains buddy list ≡ true)
      → index + 1 < length fls
      → (r : Outcome (List (List ℕ))) → Freed rest merged r
      → Freed fls b r
  merged-Freed h below r f = record {
    out = f.out;
    returns = f.returns;
    same_length = f.same_length ∙ length-set fls index (remove buddy list);
    gains = elim f.gains [
      | inl exact ↦ inl λ p. omega (arith, exact p, merged_cover p, rest_cover h p)
      | inr (top, held, short) ↦
          let same : length rest ≡ length fls = length-set fls index (remove buddy list) in
          inr (
            top,
            ap (contains top) (
                  sym (
                    ap (λ n. get_or rest (n - 1) []) same
                    ∙ get_or-set_ne fls index (length fls - 1) (remove buddy list) []
                        (λ e. absurd (omega arith))))
                ∙ held,
            λ p. omega (
              arith,
              short p,
              ap (λ n. within top (2 ^ (11 + n)) p) same,
              merged_cover p,
              rest_cover h p,
            ),
          )
    ];
  }
