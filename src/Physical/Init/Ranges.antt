-- ===== src/Physical/Init/Ranges.antt =====
-- `is_buddy_in_range` of paging/src/physical.rs: when the block twice as large as the one at `addr` lies in the range.
use an_os_in_rust.Base.{
  ℕ, zero, suc, ◌+◌, ◌*◌, ◌/◌, ◌%◌, ◌^◌, ◌≤◌, ◌<◌, ◌≡◌, refl, ap, ◌∙◌, Bool, true, ◌&&◌, arith, leb,
  ltb, bit_xor,
}
use an_os_in_rust.Base.Bits.{xor_block, two-pow-add_one, two-pow-pos, two-pow-add}
use an_os_in_rust.Physical.{page_size, are_buddies_within}

-- The block of `2 ^ k` pages at a multiple of twice its size: its buddy is the next one.
buddy_above : (k n : ℕ) → bit_xor (n * 2 ^ (k + 1)) (2 ^ k) ≡ n * 2 ^ (k + 1) + 2 ^ k
buddy_above k n =
    ap (λ (t : ℕ). bit_xor t (2 ^ k)) doubled
    ∙ xor_block k (2 * n)
    ∙ sum (2 * n / 2 * 2 + (2 * n % 2 + 1) % 2) (omega arith)
  where
    doubled : n * 2 ^ (k + 1) ≡ 2 * n * 2 ^ k
    doubled = omega (arith, ap (λ (t : ℕ). n * t) (two-pow-add_one k))

    sum : (m : ℕ) → m ≡ 2 * n + 1 → m * 2 ^ k ≡ n * 2 ^ (k + 1) + 2 ^ k
    sum m e = ap (λ (t : ℕ). t * 2 ^ k) e ∙ omega (arith, doubled)

pages : (k : ℕ) → page_size * 2 ^ k ≡ 2 ^ (12 + k)
pages k = two-pow-add 12 k (12 + k) refl

-- One step of the test, in units of the next smaller block.
halved : (k : ℕ) → 2 ^ (12 + suc k) ≡ 2 ^ (12 + k + 1)
halved k = ap (λ (t : ℕ). 2 ^ t) (shift k)
  where
    shift : (k : ℕ) → 12 + suc k ≡ 12 + k + 1
    shift k = omega arith

whole_block : (k n : ℕ) → n * 2 ^ (12 + suc k + 1) ≡ 2 * n * 2 ^ (12 + k + 1)
whole_block k n =
    omega (
      arith,
      ap (λ (t : ℕ). n * t) (two-pow-add_one (12 + suc k)),
      ap (λ (t : ℕ). n * t) (halved k),
    )

buddy_step :
    (k n : ℕ)
    → bit_xor (n * 2 ^ (12 + suc k + 1)) (page_size * 2 ^ suc k) ≡ (2 * n + 1) * 2 ^ (12 + k + 1)
buddy_step k n =
    ap (bit_xor (n * 2 ^ (12 + suc k + 1))) (pages (suc k))
    ∙ buddy_above (12 + suc k) n
    ∙ omega (arith, whole_block k n, halved k)

both_true : (a b e : ℕ) (r : Bool) → a ≤ b → b < e → r ≡ true → ((leb a b && ltb b e) && r) ≡ true
both_true a b e r low high h = ground arith

module _ (start size s : ℕ) (whole : start + size ≡ s * 4096) where
  -- The test passes for an aligned block of twice the size only if that block ends in the range.
  pub in_range_ends :
      (k n : ℕ)
      → are_buddies_within k (n * 2 ^ (12 + k + 1)) start (start + size) ≡ true
      → n * 2 ^ (12 + k + 1) + 2 ^ (12 + k + 1) ≤ start + size
  unfolding are_buddies_within
  in_range_ends zero n h = ground (arith, buddy_above 12 n)
  in_range_ends (suc k) n h =
      let smaller = in_range_ends k (2 * n + 1) in
      ground (
        arith,
        whole_block k n,
        halved k,
        two-pow-add_one (12 + suc k),
        smaller (rw (← buddy_step k n) (ground arith)),
      )

  pub in_range_of_ends :
      (k n : ℕ)
      → start ≤ n * 2 ^ (12 + k + 1)
      → n * 2 ^ (12 + k + 1) + 2 ^ (12 + k + 1) ≤ start + size
      → are_buddies_within k (n * 2 ^ (12 + k + 1)) start (start + size) ≡ true
  unfolding are_buddies_within
  in_range_of_ends zero n low high = ground (arith, buddy_above 12 n)
  in_range_of_ends (suc k) n low high =
      let smaller = in_range_of_ends k (2 * n + 1) in
      rw (buddy_step k n) (
        both_true start ((2 * n + 1) * 2 ^ (12 + k + 1)) (start + size) _
          (omega (arith, whole_block k n)) (omega (arith, bounds, two-pow-pos (12 + k + 1)))
          (smaller (omega (arith, whole_block k n)) (omega (arith, bounds))))
    where
      bounds : 2 * n * 2 ^ (12 + k + 1) + 2 * 2 ^ (12 + k + 1) ≤ start + size
      bounds = omega (arith, whole_block k n, halved k, two-pow-add_one (12 + suc k))

buddy_not_below :
    (k addr start size : ℕ)
    → are_buddies_within k addr start (start + size) ≡ true
    → start ≤ bit_xor addr (page_size * 2 ^ k)
unfolding are_buddies_within
buddy_not_below zero addr start size h = ground arith
buddy_not_below (suc k) addr start size h = ground arith

-- At the start of the range itself the test passes only for a multiple of twice the size.
pub in_range_even :
    (k n size : ℕ)
    → are_buddies_within k (n * 2 ^ (12 + k)) (n * 2 ^ (12 + k)) (n * 2 ^ (12 + k) + size) ≡ true
    → n ≡ 2 * (n / 2)
in_range_even k n size h = parity (n / 2) (n % 2) (omega arith) (omega arith) (
    rw (ap (bit_xor (n * 2 ^ (12 + k))) (pages k) ∙ xor_block (12 + k) n) at
      (buddy_not_below k (n * 2 ^ (12 + k)) (n * 2 ^ (12 + k)) size h))
  where
    parity :
        (q r : ℕ)
        → r < 2
        → n ≡ q * 2 + r
        → n * 2 ^ (12 + k) ≤ (q * 2 + (r + 1) % 2) * 2 ^ (12 + k)
        → n ≡ 2 * q
    parity q zero b e le = omega arith
    parity q (suc zero) b e le =
        absurd (omega (arith, two-pow-pos (12 + k), ap (λ (t : ℕ). t * 2 ^ (12 + k)) e))
    parity q (suc (suc r)) b e le = absurd (omega arith)
