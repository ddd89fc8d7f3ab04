-- ===== src/Memory/Ranges.antt =====
-- The memory that src/arch/x86_64/mm.rs leaves to the page allocator.
use an_os_in_rust.Base.{
  checked_mul, ℕ, ◌+◌, ◌-◌, ◌^◌, ◌≤◌, ◌<◌, ◌≡◌, refl, ap, subst, ◌∙◌, ltb, leb, Bool, true, false,
  ◌&&◌, ◌||◌, lt→ltb, ◌*◌, not, Bool-cases, ◌⊎◌, inl, inr, Option, none, some, List, [], ◌∷◌, arith,
  ok, >>=-eq-ok, ok_injective,
}
use an_os_in_rust.Memory.{
  MemoryDescriptor, contains, nonempty, exclude_range, exclude_from, exclude_ranges, kernel_range,
  push_block, free_blocks, is_free,
}

-- An address lies in a block.
abbrev pub covers : Option (ℕ × ℕ) → ℕ → Bool
covers none x = false
covers (some (start, length)) x = leb start x && ltb x (start + length)

-- For a block that ends below 2 ^ 64, and that starts at the lower end of the range or above or ends
-- below the upper end of the range: the exclusion returns, and exactly the addresses of the block
-- outside the range are in the block that is left.
pub exclude_range-covers :
    (start length low high : ℕ)
    → start + length < 2 ^ 64
    → (low ≤ start) ⊎ (start + length < high)
    → (r : Option (ℕ × ℕ)) × (exclude_range (start, length) (low, high) ≡ ok r)
      × ((x : ℕ) → covers r x ≡ (covers (some (start, length)) x && not (contains (low, high) x)))
unfolding exclude_range
exclude_range-covers start length low high fits one_side =
    let small : ltb (start + length) (2 ^ 64) ≡ true = ground arith in
    elim (Bool-cases (contains (low, high) start)) [
      | inl first ↦ elim (Bool-cases (contains (low, high) (start + length))) [
        | inl last ↦ (none, rw (small, first, last) refl, λ x. ground (arith, first, last))
        | inr last ↦
            let room : leb (high - start) length ≡ true = ground (arith, first, last) in
            (
              nonempty high (length - (high - start)),
              rw (small, first, last, room) refl,
              λ x. ground (arith, first, last),
            )
      ]
      | inr first ↦ elim (Bool-cases (contains (low, high) (start + length))) [
        | inl last ↦
            let room : leb (start + length - low) length ≡ true = ground (arith, first, last) in
            (
              nonempty start (length - (start + length - low)),
              rw (small, first, last, room) refl,
              λ x. ground (arith, first, last),
            )
        | inr last ↦ (
          some (start, length),
          rw (small, first, last) refl,
          λ x. ground (arith, first, last, one_side),
        )
      ]
    ]

-- Every block starts where the kernel's own memory ends, or above.
abbrev AllAbove : List (ℕ × ℕ) → Type 0
AllAbove [] = Unit {0}
AllAbove ((start, _) ∷ blocks) = (kernel_range.1 ≤ start) × AllAbove blocks

kept_above :
    (start length : ℕ) (r : Option (ℕ × ℕ)) (blocks : List (ℕ × ℕ))
    → exclude_range (start, length) kernel_range ≡ ok r
    → AllAbove blocks
    → AllAbove (push_block r blocks)
unfolding exclude_range
kept_above start length none blocks e above = above
kept_above start length (some (s, l)) blocks e above = (grind (arith, e), above)

-- Where the blocks that `init_mm` gives to the page allocator are computed, none of them has memory
-- below 8 MiB, where the kernel and its tables are.
free_blocks-above :
    (memory_map : List MemoryDescriptor) (blocks : List (ℕ × ℕ))
    → free_blocks memory_map ≡ ok blocks
    → AllAbove blocks
unfolding free_blocks exclude_ranges exclude_from
free_blocks-above [] blocks e = subst AllAbove (ok_injective e) tt
free_blocks-above (mdesc ∷ rest) blocks e = elim (Bool-cases (is_free mdesc.ty)) [
  | inl free ↦
      let (block, e1, e2) =
        >>=-eq-ok (exclude_ranges mdesc (kernel_range ∷ [])) _ (rw (free) at e) in
      let (more, e3, e4) = >>=-eq-ok (free_blocks rest) _ e2 in
      let (length, _, e5) = >>=-eq-ok (checked_mul mdesc.page_count 0x1000) _ e1 in
      let (block', e6, e7) =
        >>=-eq-ok (exclude_range (mdesc.phys_start, length) kernel_range) _ e5 in
      subst AllAbove (ap (λ b. push_block b more) (ok_injective e7) ∙ ok_injective e4)
        (kept_above mdesc.phys_start length block' more e6 (free_blocks-above rest more e3))
  | inr used ↦ free_blocks-above rest blocks (rw (used) at e)
]

-- An address lies in one of the blocks.
unfoldable pub covered : List (ℕ × ℕ) → ℕ → Bool
covered [] x = false
covered (block ∷ blocks) x = covers (some block) x || covered blocks x

-- An address lies in memory that the firmware's map states as free.
unfoldable pub free_at : List MemoryDescriptor → ℕ → Bool
free_at [] x = false
free_at (mdesc ∷ rest) x =
    (is_free mdesc.ty && covers (some (mdesc.phys_start, mdesc.page_count * 0x1000)) x)
    || free_at rest x

-- What the map describes ends below 2 ^ 64.
abbrev pub AreInWord : List MemoryDescriptor → Type 0
AreInWord [] = Unit {0}
AreInWord (mdesc ∷ rest) = (mdesc.phys_start + mdesc.page_count * 0x1000 < 2 ^ 64) × AreInWord rest

push_block-covered :
    (r : Option (ℕ × ℕ)) (blocks : List (ℕ × ℕ)) (x : ℕ)
    → covered (push_block r blocks) x ≡ (covers r x || covered blocks x)
unfolding covered
push_block-covered none blocks x = refl
push_block-covered (some (s, l)) blocks x = refl

both_sides :
    (a b c d : Bool) (x : ℕ)
    → c ≡ (a && not (contains kernel_range x))
    → d ≡ (leb 0x800000 x && b)
    → (c || d) ≡ (leb 0x800000 x && (a || b))
both_sides a b c d x e f = ground (arith, e, f)

-- For a map that ends below 2 ^ 64: the blocks that `init_mm` gives to the page allocator are computed,
-- and an address is in one of them exactly where the map states free memory and it is not below
-- 8 MiB, where the kernel and its tables are.
pub free_blocks-free_at :
    (memory_map : List MemoryDescriptor)
    → AreInWord memory_map
    → (blocks : List (ℕ × ℕ)) × (free_blocks memory_map ≡ ok blocks)
      × ((x : ℕ) → covered blocks x ≡ (leb 0x800000 x && free_at memory_map x))
unfolding free_blocks exclude_ranges exclude_from covered free_at
free_blocks-free_at [] w = ([], refl, λ x. ground arith)
free_blocks-free_at (mdesc ∷ rest) (fits, w) =
    let (more, e, are) = free_blocks-free_at rest w in
    elim (Bool-cases (is_free mdesc.ty)) [
      | inr used ↦ (more, rw (used) e, λ x. rw (used) (are x))
      | inl free ↦
          let size = mdesc.page_count * 0x1000 in
          let (r, excluded, cut) =
            exclude_range-covers mdesc.phys_start size 0 0x800000 fits (inl (omega arith)) in
          let small = lt→ltb size (2 ^ 64) (omega (arith, fits)) in
          (
            push_block r more,
            rw (free, small, excluded, e) refl,
            λ x.
                push_block-covered r more x
                ∙ rw (free) (
                    both_sides (covers (some (mdesc.phys_start, size)) x) (free_at rest x)
                      (covers r x) (covered more x) x (cut x) (are x)),
          )
    ]
