-- ===== src/Physical/Free.antt =====
-- What `PageAllocator::free` does to the free memory.
use an_os_in_rust.Base.{
  ℕ, zero, suc, ◌+◌, ◌^◌, ◌≤◌, ◌<◌, ◌≡◌, true, inl, inr, List, [], arith, ltb, length, get_or,
  bit_xor, ltb→lt, length-set, ok, Bool-cases,
}
use an_os_in_rust.Base.Sets.{contains, remove}
use an_os_in_rust.Physical.{PageAllocator, Block, free_within, free}
use an_os_in_rust.Physical.Cover.{within, cover, list_cover-remove}
use an_os_in_rust.Physical.Merge.{
  IsFreeable, Gains, Freed, buddy, list, rest, merged, placed, merged-IsFreeable, placed-Freed,
  merged-Freed, free_within_step, placed_cover,
}

free_within_lem :
    (fuel : ℕ) (fls : List (List ℕ)) (b : Block) (v : IsFreeable fls b)
    → 12 + length fls ≤ b.order + fuel
    → Freed fls b (free_within fuel fls b)
free_within_lem zero fls b v h = absurd (omega (arith, v.has_list, v.at_index))
free_within_lem (suc fuel) fls b v h =
    rw (free_within_step fls b v fuel)
      (elim (Bool-cases (contains (buddy fls b v) (list fls b v))) [
        | inr single ↦ rw single (placed-Freed fls b v (λ e. cc))
        | inl pair ↦ elim (Bool-cases (ltb (v.index + 1) (length fls))) [
          | inl below ↦
              let lt : v.index + 1 < length fls = ltb→lt _ _ below in
              rw (pair, below)
                (merged-Freed fls b v pair lt _ (
                  free_within_lem fuel (rest fls b v) (merged fls b v)
                    (merged-IsFreeable fls b v pair lt)
                    (omega
                      (arith, length-set fls v.index (remove (buddy fls b v) (list fls b v))))))
          | inr top ↦ rw (pair, top) (placed-Freed fls b v (λ e. ground (arith, v.has_list)))
        ]
      ])

-- Freeing a block that is aligned to its size, within the 64-bit space, of an order that has a list and
-- disjoint from the free memory (which overlaps nowhere) always returns; the lists keep their
-- number; and an address is free afterwards exactly if it was before or lies in the block, except
-- that one whole free block of the largest order may be dropped.
pub free-Freed :
    (pa : PageAllocator) (b : Block)
    → IsFreeable pa.free_lists b
    → (pa' : PageAllocator) × (free pa b ≡ ok pa')
      × (length pa'.free_lists ≡ length pa.free_lists)
      × Gains pa.free_lists b pa'.free_lists
unfolding free
free-Freed pa b v =
    (record { free_lists = freed.out }, rw freed.returns, freed.same_length, freed.gains)
  where
    freed : Freed pa.free_lists b (free_within (suc (length pa.free_lists)) pa.free_lists b)
    freed =
        free_within_lem (suc (length pa.free_lists)) pa.free_lists b v (omega (arith, v.at_index))

-- Freeing a block that may be freed, of the largest order and with its buddy free as well,
-- returns and exchanges one block for the other: every address of the buddy, which was free, is
-- free no more.
pub free_drops_buddy :
    (pa : PageAllocator) (b : Block) (v : IsFreeable pa.free_lists b)
    → v.index + 1 ≡ length pa.free_lists
    → contains (bit_xor b.addr (2 ^ b.order)) (get_or pa.free_lists v.index []) ≡ true
    → (pa' : PageAllocator) × (free pa b ≡ ok pa')
      × ((p : ℕ)
          → cover pa' p + within (bit_xor b.addr (2 ^ b.order)) (2 ^ b.order) p
            ≡ cover pa p + within b.addr (2 ^ b.order) p)
unfolding free cover
free_drops_buddy pa b v top pair = (
  record { free_lists = placed pa.free_lists b v },
  rw (free_within_step pa.free_lists b v (length pa.free_lists), pair) (ground (arith, top)),
  λ p. omega (
    arith,
    placed_cover pa.free_lists b v p,
    list_cover-remove b.order (buddy pa.free_lists b v) (list pa.free_lists b v) p pair,
  ),
)
