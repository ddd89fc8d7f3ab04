-- ===== src/Physical/Init/Step.antt =====
-- One block that `init` of paging/src/physical.rs takes from a range.
use an_os_in_rust.Base.{
  ℕ, zero, suc, ◌+◌, ◌*◌, ◌/◌, ◌^◌, ◌≤◌, ◌<◌, ◌≡◌, refl, sym, ap, subst, ◌∙◌, true, arith, inl, inr,
  length, ltb, lt→ltb, Outcome, ok, Bool-cases, ◌>>=◌,
}
use an_os_in_rust.Base.Bits.{two-pow-add_one, two-pow-pos, two-pow-add}
use an_os_in_rust.Physical.{PageAllocator, free, is_buddy_in_range, are_buddies_within, carve}
use an_os_in_rust.Physical.Cover.{within, cover}
use an_os_in_rust.Physical.Free.{free-Freed}
use an_os_in_rust.Physical.Merge.{IsFreeable}
use an_os_in_rust.Physical.Init.Ranges.{in_range_ends, in_range_even}

-- A page-aligned range that is not empty, ends below 2 ^ 64, and is disjoint from the
-- free memory.
pub record IsRange (pa : PageAllocator) (start size : ℕ) : Type 0 where
  pub eight_lists : length pa.free_lists ≡ 8
  pub start_pages : ℕ
  pub start_whole : start ≡ start_pages * 2 ^ 12
  pub size_pages : ℕ
  pub size_whole : size ≡ size_pages * 4096
  pub not_empty : 4096 ≤ size
  pub in_word : start + size < 2 ^ 64
  pub disjoint : (p : ℕ) → cover pa p + within start size p ≤ 1

-- What one round of the inner loop makes of the range.
pub record Carved (start size : ℕ) (pa : PageAllocator) (r : Outcome (ℕ × PageAllocator))
    : Type 0 where
  pub shift : ℕ
  pub pa' : PageAllocator
  pub returns : r ≡ ok (shift, pa')
  pub some_page : 4096 ≤ shift
  pub not_more : shift ≤ size
  pub shift_pages : ℕ
  pub whole : shift ≡ shift_pages * 4096
  pub same_length : length pa'.free_lists ≡ 8
  pub inside : (p : ℕ) → cover pa' p ≤ cover pa p + within start shift p

pub within_mono : (a s t p : ℕ) → s ≤ t → within a s p ≤ within a t p
unfolding within
within_mono a s t p h = ground arith

block_pages : (k : ℕ) → 2 ^ (12 + k) ≡ 2 ^ k * 4096
block_pages k = sym (two-pow-add k 12 (12 + k) (omega arith))

module _ (start size : ℕ) (pa : PageAllocator) (v : IsRange pa start size) where
  open v use {eight_lists, size_whole, in_word, disjoint}

  in_word_test : ltb (start + size) (2 ^ 64) ≡ true
  in_word_test = lt→ltb (start + size) (2 ^ 64) in_word

  freeable :
      (k n : ℕ)
      → k < 8
      → start ≡ n * 2 ^ (12 + k)
      → 2 ^ (12 + k) ≤ size
      → IsFreeable pa.free_lists (record { addr = start; order = 12 + k })
  unfolding cover
  freeable k n small aligned fits = record {
    index = k;
    at_index = refl;
    has_list = omega arith;
    few_lists = omega arith;
    multiple = n;
    aligned = aligned;
    in_word = omega (arith, v.not_empty);
    disjoint = λ p. omega (arith, disjoint p, within_mono start (2 ^ (12 + k)) size p fits);
  }

  carve_frees :
      (k n : ℕ)
      → k < 8
      → start ≡ n * 2 ^ (12 + k)
      → 2 ^ (12 + k) ≤ size
      → Carved start size pa
          (free pa (record { addr = start; order = 12 + k }) >>= (λ pa'. ok (2 ^ (12 + k), pa')))
  unfolding cover
  carve_frees k n small aligned fits =
      let (out, returns, same, gains) =
        free-Freed pa (record { addr = start; order = 12 + k }) (freeable k n small aligned fits) in
      record {
        shift = 2 ^ (12 + k);
        pa' = out;
        returns = rw returns;
        some_page = omega (arith, block_pages k, two-pow-pos k);
        not_more = fits;
        shift_pages = 2 ^ k;
        whole = block_pages k;
        same_length = same ∙ eight_lists;
        inside = λ p. elim gains [
          | inl exact ↦ omega (arith, exact p)
          | inr (top, held, short) ↦ omega (arith, short p)
        ];
      }

  pub carve-Carved :
      (left k n shift : ℕ)
      → k + left ≡ 8
      → start ≡ n * 2 ^ (12 + k)
      → 2 ^ (12 + k) ≤ size
      → shift ≡ 2 ^ (12 + k)
      → Carved start size pa (carve left k shift start size pa)
  unfolding carve is_buddy_in_range
  carve-Carved zero k n shift rounds aligned fits e = record {
    shift = shift;
    pa' = pa;
    returns = refl;
    some_page = omega (arith, block_pages k, two-pow-pos k);
    not_more = omega arith;
    shift_pages = 2 ^ k;
    whole = e ∙ block_pages k;
    same_length = eight_lists;
    inside = λ p. omega arith;
  }
  carve-Carved (suc left) k n shift rounds aligned fits e =
      elim (Bool-cases (are_buddies_within k start start (start + size))) [
        | inr out ↦ rw (in_word_test, out, e) (carve_frees k n (omega arith) aligned fits)
        | inl more ↦
            let even : n ≡ 2 * (n / 2) = in_range_even k n size (rw (aligned) at more) in
            let double : 2 ^ (12 + k + 1) ≡ 2 ^ (12 + k) * 2 = two-pow-add_one (12 + k) in
            let next : 2 ^ (12 + (k + 1)) ≡ 2 ^ (12 + k + 1) =
              ap (λ (t : ℕ). 2 ^ t) (add_assoc_one k) in
            let twice : start ≡ n / 2 * 2 ^ (12 + k + 1) = omega (
              arith,
              aligned,
              ap (λ (t : ℕ). t * 2 ^ (12 + k)) even,
              ap (λ (t : ℕ). n / 2 * t) double,
            ) in
            let ends : n / 2 * 2 ^ (12 + k + 1) + 2 ^ (12 + k + 1) ≤ start + size =
              in_range_ends start size (v.start_pages + v.size_pages)
                (omega (arith, v.start_whole, size_whole)) k (n / 2)
                (subst (λ a. are_buddies_within k a start (start + size) ≡ true) twice more) in
            rw (in_word_test, more)
              (carve-Carved left (k + 1) (n / 2) (2 ^ (12 + k) * 2) (omega arith)
                (twice ∙ ap (λ (t : ℕ). n / 2 * t) (sym next)) (omega (arith, next, ends, twice))
                (sym (next ∙ double)))
      ]
    where
      add_assoc_one : (k : ℕ) → 12 + (k + 1) ≡ 12 + k + 1
      add_assoc_one k = omega arith
