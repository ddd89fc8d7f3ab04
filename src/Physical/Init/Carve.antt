-- ===== src/Physical/Init/Carve.antt =====
-- The loops of `PageAllocator::init`.
use an_os_in_rust.Base.{
  ℕ, zero, suc, ◌+◌, ◌-◌, ◌*◌, ◌^◌, ◌≤◌, ◌<◌, ◌≡◌, ◌≢◌, refl, sym, ap, subst, true, arith, inl, inr,
  List, [], ◌∷◌, length, replicate, Outcome, ok, Bool-cases, ◌==◌, checked_sub, lt→ltb,
}
use an_os_in_rust.Base.Bits.{two-pow-pos, two-pow-add, mul_le_mul}
use an_os_in_rust.Base.Sets.{weigh}
use an_os_in_rust.Physical.{
  PageAllocator, is_buddy_in_range, are_buddies_within, carve, carve_all, init_ranges, init, new,
}
use an_os_in_rust.Physical.Cover.{within, cover}
use an_os_in_rust.Physical.Init.Ranges.{in_range_of_ends}
use an_os_in_rust.Physical.Init.Step.{IsRange, Carved, within_mono, carve-Carved}

-- One range: `init` returns, and only addresses of the range become free.
pub record Filled (start size : ℕ) (pa : PageAllocator) (r : Outcome PageAllocator) : Type 0 where
  pub pa' : PageAllocator
  pub returns : r ≡ ok pa'
  pub same_length : length pa'.free_lists ≡ 8
  pub inside : (p : ℕ) → cover pa' p ≤ cover pa p + within start size p

within_split : (a s t p : ℕ) → s ≤ t → within a t p ≡ within a s p + within (a + s) (t - s) p
unfolding within
within_split a s t p h = ground arith

left-IsRange :
    {start size : ℕ} {pa : PageAllocator} {r : Outcome (ℕ × PageAllocator)}
    → IsRange pa start size
    → (c : Carved start size pa r) → size - c.shift ≢ 0
    → IsRange c.pa' (start + c.shift) (size - c.shift)
left-IsRange {start} {size} v c more = record {
  eight_lists = c.same_length;
  start_pages = v.start_pages + c.shift_pages;
  start_whole = omega (arith, v.start_whole, c.whole);
  size_pages = v.size_pages - c.shift_pages;
  size_whole = omega (arith, v.size_whole, c.whole);
  not_empty = omega (arith, v.size_whole, c.whole, c.not_more);
  in_word = omega (arith, v.in_word, c.not_more);
  disjoint =
      λ p. omega (arith, v.disjoint p, c.inside p, within_split start c.shift size p c.not_more);
}

carve_all-Filled :
    (fuel start size : ℕ) (pa : PageAllocator)
    → IsRange pa start size
    → size < fuel
    → Filled start size pa (carve_all fuel start size pa)
unfolding carve_all
carve_all-Filled zero start size pa v h = absurd (omega arith)
carve_all-Filled (suc fuel) start size pa v h =
    let c =
      carve-Carved start size pa v 8 0 v.start_pages 4096 refl v.start_whole v.not_empty refl in
    let left = size - c.shift in
    let moved = lt→ltb (start + c.shift) (2 ^ 64) (omega (arith, v.in_word, c.not_more)) in
    let same : checked_sub size c.shift ≡ ok left = ground (arith, c.not_more) in
    elim (Bool-cases (left == 0)) [
      | inl done ↦
          rw (c.returns, moved, same, done)
            (record {
              pa' = c.pa';
              returns = refl;
              same_length = c.same_length;
              inside = λ p. omega (arith, c.inside p, within_mono start c.shift size p c.not_more);
            })
      | inr more ↦
          let rest =
            carve_all-Filled fuel (start + c.shift) left c.pa'
              (left-IsRange v c (ground (arith, more))) (omega (arith, c.some_page, c.not_more)) in
          rw (c.returns, moved, same, more)
            (record {
              pa' = rest.pa';
              returns = rest.returns;
              same_length = rest.same_length;
              inside = λ p.
                  omega (
                    arith,
                    rest.inside p,
                    c.inside p,
                    within_split start c.shift size p c.not_more,
                  );
            })
    ]

-- How many of the ranges an address lies in.
unfoldable pub requested : List (ℕ × ℕ) → ℕ → ℕ
requested [] p = 0
requested ((start, size) ∷ rest) p = within start size p + requested rest p

abbrev pub AreRanges : List (ℕ × ℕ) → Type 0
AreRanges [] = Unit {0}
AreRanges ((start, size) ∷ rest) =
    ((m : ℕ) × (start ≡ m * 2 ^ 12))
    × ((n : ℕ) × (size ≡ n * 4096))
    × (4096 ≤ size)
    × (start + size < 2 ^ 64)
    × AreRanges rest

init_ranges-inside :
    (ranges : List (ℕ × ℕ)) (pa : PageAllocator)
    → length pa.free_lists ≡ 8
    → AreRanges ranges
    → ((p : ℕ) → cover pa p + requested ranges p ≤ 1)
    → (pa' : PageAllocator) × (init_ranges pa ranges ≡ ok pa')
      × ((p : ℕ) → cover pa' p ≤ cover pa p + requested ranges p)
unfolding init_ranges requested
init_ranges-inside [] pa eight v d = (pa, refl, λ p. omega arith)
init_ranges-inside ((start, size) ∷ rest) pa eight v d =
    let first = carve_all-Filled (size + 1) start size pa first-IsRange (omega arith) in
    let (out, returns, inside) =
      init_ranges-inside rest first.pa' first.same_length v.4
        (λ p. omega (arith, d p, first.inside p)) in
    (out, rw first.returns returns, λ p. omega (arith, inside p, first.inside p))
  where
    first-IsRange : IsRange pa start size
    first-IsRange = record {
      eight_lists = eight;
      start_pages = (v.0).0;
      start_whole = (v.0).1;
      size_pages = (v.1).0;
      size_whole = (v.1).1;
      not_empty = v.2;
      in_word = v.3;
      disjoint = λ p. omega (arith, d p);
    }

abbrev eight_empty : PageAllocator
eight_empty = record { free_lists = replicate 8 [] }

cover-empty : (p : ℕ) → cover eight_empty p ≡ 0
unfolding cover weigh
cover-empty p = refl

-- Given page-aligned, disjoint ranges that are not empty and end below 2 ^ 64, `init` of a new
-- allocator returns, and no address outside the ranges becomes free, nor any address twice.
pub init_inside :
    (ranges : List (ℕ × ℕ))
    → AreRanges ranges
    → ((p : ℕ) → requested ranges p ≤ 1)
    → (pa : PageAllocator) × (init new ranges ≡ ok pa) × ((p : ℕ) → cover pa p ≤ requested ranges p)
unfolding init new
init_inside ranges v d =
    let (pa, returns, inside) =
      init_ranges-inside ranges eight_empty refl v (λ p. omega (arith, d p, cover-empty p)) in
    (pa, returns, λ p. omega (arith, inside p, cover-empty p))

-- A page-aligned range of a MiB or more that starts at a multiple of a MiB and ends below 2 ^ 64: no size of block has its buddy
-- outside the range, so a round of `init` frees nothing and goes on a MiB later.
pub carve_skips :
    (start size s m : ℕ) (pa : PageAllocator)
    → start + size ≡ s * 4096
    → start ≡ m * 2 ^ 20
    → 2 ^ 20 ≤ size
    → start + size < 2 ^ 64
    → carve 8 0 4096 start size pa ≡ ok (2 ^ 20, pa)
unfolding carve is_buddy_in_range
carve_skips start size s m pa whole aligned large fits = ground (
  arith,
  fits,
  passes 0 7 refl,
  passes 1 6 refl,
  passes 2 5 refl,
  passes 3 4 refl,
  passes 4 3 refl,
  passes 5 2 refl,
  passes 6 1 refl,
  passes 7 0 refl,
)
  where
    passes :
        (k j : ℕ) → 20 ≡ j + (12 + k + 1) → are_buddies_within k start start (start + size) ≡ true
    passes k j e =
        let block : start ≡ m * 2 ^ j * 2 ^ (12 + k + 1) =
          omega (arith, aligned, ap (λ (t : ℕ). m * t) (two-pow-add j (12 + k + 1) 20 e)) in
        subst (λ a. are_buddies_within k a start (start + size) ≡ true) (sym block)
          (in_range_of_ends start size s whole k (m * 2 ^ j) (omega (arith, block)) (
            omega (
              arith,
              block,
              two-pow-add j (12 + k + 1) 20 e,
              mul_le_mul 1 (2 ^ j) (2 ^ (12 + k + 1)) (two-pow-pos j),
            )))
