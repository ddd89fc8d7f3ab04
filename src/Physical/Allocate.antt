-- ===== src/Physical/Allocate.antt =====
-- What `PageAllocator::allocate` returns.
use an_os_in_rust.Base.{
  ℕ, suc, ◌+◌, ◌^◌, ◌≤◌, ◌<◌, ◌≡◌, refl, none, some, List, [], ◌∷◌, arith, length, get_or, set, ok,
  panic,
}
use native.Mathlib.Numerals.{add-one}
use an_os_in_rust.Base.Sets.{contains, remove}
use an_os_in_rust.Physical.{PageAllocator, allocate}
use an_os_in_rust.Physical.Cover.{within, cover, cover_from-set, list_cover-remove}

-- An order below that of a page stops the kernel, and an order with no list finds nothing.
pub allocate_out_of_range :
    (pa : PageAllocator) (order : ℕ)
    → (order < 12 → allocate pa order ≡ panic)
      × (12 + length pa.free_lists ≤ order → allocate pa order ≡ ok (none, pa))
unfolding allocate
allocate_out_of_range pa order = rw add-one (λ h. ground arith, λ h. ground arith)

-- An empty list, of an order from 12 to 22: `allocate` calls itself with the index of the next list in place of its
-- order, which is below 12, so the kernel stops; no larger block is ever split.
pub allocate_never_splits :
    (pa : PageAllocator) (i : ℕ)
    → i < 11
    → i < length pa.free_lists
    → get_or pa.free_lists i [] ≡ []
    → allocate pa (12 + i) ≡ panic
unfolding allocate
allocate_never_splits pa i small has_list empty =
    let rounds : 12 + i + 1 ≡ suc (suc (11 + i)) = omega arith in rw rounds (ground (arith, empty))

-- A list that is not empty: `allocate` returns its first address, and the free memory shrinks by exactly the
-- block returned.
pub allocate_takes :
    (pa : PageAllocator) (i addr : ℕ) (rest : List ℕ)
    → i < length pa.free_lists
    → get_or pa.free_lists i [] ≡ addr ∷ rest
    → (pa' : PageAllocator) × (allocate pa (12 + i)
        ≡ ok (some (record { addr = addr; order = 12 + i }), pa'))
      × ((p : ℕ) → cover pa' p + within addr (2 ^ (12 + i)) p ≡ cover pa p)
unfolding allocate cover contains
allocate_takes pa i addr rest has_list front = (
  record { free_lists = set pa.free_lists i (remove addr (get_or pa.free_lists i [])) },
  rw add-one (ground (arith, front)),
  λ p. omega (
    arith,
    cover_from-set 12 i (12 + i) pa.free_lists (remove addr (get_or pa.free_lists i [])) p has_list
        refl,
    list_cover-remove (12 + i) addr (get_or pa.free_lists i []) p (rw front (ground arith)),
  ),
)
