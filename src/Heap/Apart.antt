-- ===== src/Heap/Apart.antt =====
-- The blocks of the heap of src/mm/malloc.rs.
use an_os_in_rust.Base.{
  ℕ, ◌+◌, ◌*◌, ◌/◌, ◌^◌, ◌≤◌, ◌<◌, ◌≡◌, refl, true, false, List, [], ◌∷◌, ◌==◌, ltb, arith, Outcome,
  ok, ◌>>=◌,
}
use an_os_in_rust.Base.Bits.{two-pow-pos}
use an_os_in_rust.Heap.{KernelAllocator, alloc}

-- What a block of the heap is: its place, its size and its alignment.
pub record Placed : Type 0 where
  pub place : ℕ
  pub size : ℕ
  pub align : ℕ

-- The clients' calls one after the other, each with a size and the exponent of an alignment.
unfoldable pub alloc_each : List (ℕ × ℕ) → KernelAllocator → Outcome (List Placed × KernelAllocator)
alloc_each [] a = ok ([], a)
alloc_each ((size, k) ∷ rest) a = do
  (place, a1) ← alloc size (2 ^ k) a
  (blocks, a2) ← alloc_each rest a1
  ok (record { place = place; size = size; align = 2 ^ k } ∷ blocks, a2)

-- The most that the calls move the head.
unfoldable pub demand : List (ℕ × ℕ) → ℕ
demand [] = 0
demand ((size, k) ∷ rest) = size + 2 ^ k + demand rest

-- Each block is aligned and starts above the given address and no earlier than the one before ends.
abbrev pub AreApart : ℕ → List Placed → Type 0
AreApart low [] = Unit {0}
AreApart low (b ∷ rest) =
    (low < b.place) × ((n : ℕ) × (b.place ≡ n * b.align)) × AreApart (b.place + b.size) rest

-- As long as the addresses do not run out, every call returns, and the blocks are aligned, start above where
-- the heap stood, and each starts after the end of the one before.
pub alloc_each-AreApart :
    (requests : List (ℕ × ℕ)) (a : KernelAllocator)
    → 0 < a.head
    → a.head + demand requests < 2 ^ 64
    → (blocks : List Placed) × (a' : KernelAllocator) × (alloc_each requests a ≡ ok (blocks, a'))
      × AreApart a.head blocks
unfolding alloc_each demand alloc
alloc_each-AreApart [] a started fits = ([], a, refl, tt)
alloc_each-AreApart ((size, k) ∷ rest) a started fits =
    let (blocks, a2, returns, apart) =
      alloc_each-AreApart rest a1 (omega (arith, above)) (omega (arith, above, near)) in
    (
      record { place = place; size = size; align = 2 ^ k } ∷ blocks,
      a2,
      rw (running, fits1, fits2, returns) refl,
      (above, (a.head / 2 ^ k + 1, whole (a.head / 2 ^ k) (2 ^ k)), apart),
    )
  where
    whole : (n d : ℕ) → n * d + d ≡ (n + 1) * d
    whole n d = grind arith

    place : ℕ
    place = a.head / 2 ^ k * 2 ^ k + 2 ^ k

    a1 : KernelAllocator
    a1 = record a { head = place + size }

    above : a.head < place
    above = grind (arith, two-pow-pos k)

    near : place ≤ a.head + 2 ^ k
    near = grind (arith, two-pow-pos k)

    running : (a.head == 0) ≡ false
    running = ground arith

    fits1 : ltb place (2 ^ 64) ≡ true
    fits1 = ground (arith, near)

    fits2 : ltb (place + size) (2 ^ 64) ≡ true
    fits2 = ground (arith, near)
