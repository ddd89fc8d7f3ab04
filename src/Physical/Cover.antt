-- ===== src/Physical/Cover.antt =====
-- Which addresses the free lists of paging/src/physical.rs hold, as a count: how many free blocks
-- an address lies in.
use an_os_in_rust.Base.{
  ℕ, zero, suc, ◌+◌, ◌*◌, ◌/◌, ◌%◌, ◌^◌, ◌≤◌, ◌<◌, ◌≡◌, ◌∙◌, ap, true, false, ◌&&◌, List, [], ◌∷◌,
  arith, leb, ltb, if◌then◌else◌, length, get_or, set,
}
use an_os_in_rust.Base.Sets.{contains, insert, remove, weigh, weigh-insert, weigh-remove, le-weigh}
use an_os_in_rust.Physical.{PageAllocator, Block}

-- 1 if `p` is one of the `size` addresses from `start`, else 0.
unfoldable pub within : ℕ → ℕ → ℕ → ℕ
within start size p = if leb start p && ltb p (start + size) then 1 else 0

unfoldable pub within_block : Block → ℕ → ℕ
within_block b p = within b.addr (2 ^ b.order) p

unfoldable pub list_cover : ℕ → List ℕ → ℕ → ℕ
list_cover order l p = weigh (λ a. within a (2 ^ order) p) l

unfoldable pub cover_from : ℕ → List (List ℕ) → ℕ → ℕ
cover_from order [] p = 0
cover_from order (l ∷ ls) p = list_cover order l p + cover_from (suc order) ls p

-- The number of free blocks that the address lies in.
unfoldable pub cover : PageAllocator → ℕ → ℕ
unfolding cover_from list_cover within
cover pa p = cover_from 12 pa.free_lists p

pub cover_from-set :
    (order i j : ℕ) (fls : List (List ℕ)) (l : List ℕ) (p : ℕ)
    → i < length fls
    → j ≡ order + i
    → cover_from order (set fls i l) p + list_cover j (get_or fls i []) p
      ≡ cover_from order fls p + list_cover j l p
unfolding cover_from
cover_from-set order i j [] l p h e = absurd (omega arith)
cover_from-set order zero j (x ∷ ls) l p h e = ground arith
cover_from-set order (suc i) j (x ∷ ls) l p h e =
    omega (arith, cover_from-set (suc order) i j ls l p (omega arith) (omega arith))

pub list_cover-le :
    (order i j : ℕ) (fls : List (List ℕ)) (p : ℕ)
    → i < length fls
    → j ≡ order + i
    → list_cover j (get_or fls i []) p ≤ cover_from order fls p
unfolding cover_from
list_cover-le order i j [] p h e = absurd (omega arith)
list_cover-le order zero j (x ∷ ls) p h e = ground arith
list_cover-le order (suc i) j (x ∷ ls) p h e =
    omega (arith, list_cover-le (suc order) i j ls p (omega arith) (omega arith))

module _ (order : ℕ) (a : ℕ) (l : List ℕ) (p : ℕ) where
  pub list_cover-insert :
      contains a l ≡ false
      → list_cover order (insert a l) p ≡ list_cover order l p + within a (2 ^ order) p
  unfolding list_cover
  list_cover-insert h = weigh-insert (λ a. within a (2 ^ order) p) a l h

  pub list_cover-remove :
      contains a l ≡ true
      → list_cover order (remove a l) p + within a (2 ^ order) p ≡ list_cover order l p
  unfolding list_cover
  list_cover-remove h = weigh-remove (λ a. within a (2 ^ order) p) a l h

  pub within-le-list_cover : contains a l ≡ true → within a (2 ^ order) p ≤ list_cover order l p
  unfolding list_cover
  within-le-list_cover h = le-weigh (λ a. within a (2 ^ order) p) a l h

pub within_start : (a size : ℕ) → 1 ≤ size → within a size a ≡ 1
unfolding within
within_start a size h = ground arith

within_add : (a s t p : ℕ) → within a (s + t) p ≡ within a s p + within (a + s) t p
unfolding within
within_add a s t p = ground arith

-- Two halves make a block, whichever of them is the buddy of the other.
pub within_halves :
    (m k p : ℕ)
    → within (m / 2 * 2 * k) (k * 2) p
      ≡ within (m * k) k p + within ((m / 2 * 2 + (m % 2 + 1) % 2) * k) k p
within_halves m k p = parity (m / 2) (m % 2) (omega arith) (omega arith)
  where
    parity :
        (h r : ℕ)
        → r < 2
        → m ≡ h * 2 + r
        → within (h * 2 * k) (k * 2) p ≡ within (m * k) k p + within ((h * 2 + (r + 1) % 2) * k) k p
    parity h zero b e =
        let whole : k * 2 ≡ k + k = omega arith in
        let own : m * k ≡ h * 2 * k = ap (λ (t : ℕ). t * k) e ∙ omega arith in
        let other : (h * 2 + 1) * k ≡ h * 2 * k + k = omega arith in
        rw (whole, own, other) (within_add (h * 2 * k) k k p)
    parity h (suc zero) b e =
        let whole : k * 2 ≡ k + k = omega arith in
        let own : m * k ≡ h * 2 * k + k = ap (λ (t : ℕ). t * k) e ∙ omega arith in
        let other : (h * 2 + 0) * k ≡ h * 2 * k = omega arith in
        rw (whole, own, other) (omega (arith, within_add (h * 2 * k) k k p))
    parity h (suc (suc r)) b e = absurd (omega arith)
