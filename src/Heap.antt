-- ===== src/Heap.antt =====
-- src/mm/malloc.rs: the kernel's heap, which only ever grows. The alignments of a `Layout` are powers
-- of two, so not zero.
pub mod Apart
use an_os_in_rust.Base.{
  ℕ, ◌+◌, ◌*◌, ◌/◌, ◌^◌, List, [], ◌∷◌, ◌==◌, if◌then◌else◌, Outcome, ok, panic, ◌>>=◌, checked_add,
}

pub record KernelAllocator : Type 0 where
  pub heap_bottom : ℕ
  pub head : ℕ

abbrev pub kernel_base : ℕ
kernel_base = 0xffff800000000000

-- The heap starts 512 MiB above the kernel.
unfoldable pub new : KernelAllocator
new = record { heap_bottom = kernel_base + 2 ^ 29; head = kernel_base + 2 ^ 29 }

-- `alloc`: the null pointer is 0.
unfoldable pub alloc : ℕ → ℕ → KernelAllocator → Outcome (ℕ × KernelAllocator)
alloc size align a =
    let placed = checked_add (a.head / align * align) align >>= λ head.
    checked_add head size >>= λ end. ok (head, record a { head = end }) in
    if a.head == 0 then ok (0, a) else placed

-- `dealloc` leaks.
unfoldable pub dealloc : ℕ → KernelAllocator → KernelAllocator
dealloc ptr a = a
