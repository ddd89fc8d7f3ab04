-- ===== src/Memory.antt =====
-- src/arch/x86_64/mm.rs: which memory the page allocator gets, and page faults. The tables of the boot
-- code, which `init_mm` writes through their own addresses, are not modelled.
pub mod Ranges
pub mod Faults
use an_os_in_rust.Base.{
  ℕ, zero, suc, ◌+◌, ◌-◌, ◌*◌, ◌^◌, ◌==◌, ltb, leb, if◌then◌else◌, Bool, true, false, ◌&&◌, Option,
  none, some, List, [], ◌∷◌, ◌++◌, Outcome, ok, panic, ◌>>=◌, checked_add, checked_mul, checked_sub,
  bit_and,
}
use an_os_in_rust.Paging.Mapper.{Mapper, Reply, alloc_page_at, map_mmio}
use an_os_in_rust.Paging.Mapper
use an_os_in_rust.Paging.Mapper.Cow.{Bytes, cow}

-- The types of memory that the code names.
pub data MemoryType : Type 0 where
  boot_services_code boot_services_data conventional : MemoryType
  runtime_services_code runtime_services_data acpi_reclaim acpi_non_volatile : MemoryType
  loader_data mmio mmio_port_space reserved : MemoryType
  unnamed : ℕ → MemoryType

pub record MemoryDescriptor : Type 0 where
  pub ty : MemoryType
  pub phys_start : ℕ
  pub page_count : ℕ

-- `range.contains(&x)` for the range from `low` to `high`.
abbrev pub contains : ℕ × ℕ → ℕ → Bool
contains (low, high) x = leb low x && ltb x high

-- A block that is not empty.
abbrev pub nonempty : ℕ → ℕ → Option (ℕ × ℕ)
nonempty start length = if length == 0 then none else some (start, length)

unfoldable pub exclude_range : ℕ × ℕ → ℕ × ℕ → Outcome (Option (ℕ × ℕ))
exclude_range (start, length) (low, high) = do
  end ← checked_add start length
  let cut_front = checked_sub length (high - start) >>= (λ left. ok (nonempty high left))
  let cut_back = checked_sub length (end - low) >>= (λ left. ok (nonempty start left))
  if contains (low, high) start
      then (if contains (low, high) end then ok none else cut_front)
      else if contains (low, high) end
      then cut_back
      else ok (some (start, length))

-- The loop of `exclude_ranges`, with its `block?`.
unfoldable pub exclude_from : Option (ℕ × ℕ) → List (ℕ × ℕ) → Outcome (Option (ℕ × ℕ))
exclude_from block [] = ok block
exclude_from none (range ∷ ranges) = ok none
exclude_from (some block) (range ∷ ranges) =
    exclude_range block range >>= λ block'. exclude_from block' ranges

unfoldable pub exclude_ranges : MemoryDescriptor → List (ℕ × ℕ) → Outcome (Option (ℕ × ℕ))
exclude_ranges mdesc ranges = checked_mul mdesc.page_count 0x1000 >>= λ length.
    exclude_from (some (mdesc.phys_start, length)) ranges

-- The arms of the two matches of `init_mm`.
unfoldable pub is_free : MemoryType → Bool
is_free boot_services_code = true
is_free boot_services_data = true
is_free conventional = true
is_free _ = false

unfoldable pub is_mapped : MemoryType → Bool
is_mapped runtime_services_code = true
is_mapped runtime_services_data = true
is_mapped acpi_reclaim = true
is_mapped acpi_non_volatile = true
is_mapped loader_data = true
is_mapped mmio = true
is_mapped mmio_port_space = true
is_mapped reserved = true
is_mapped _ = false

abbrev pub kernel_range : ℕ × ℕ
kernel_range = (0, 0x800000)

abbrev pub push_block : Option (ℕ × ℕ) → List (ℕ × ℕ) → List (ℕ × ℕ)
push_block none blocks = blocks
push_block (some block) blocks = block ∷ blocks

-- `free_blocks` of `init_mm`.
unfoldable pub free_blocks : List MemoryDescriptor → Outcome (List (ℕ × ℕ))
free_blocks [] = ok []
free_blocks (mdesc ∷ rest) =
    let blocks = free_blocks rest in
    let excluded =
      exclude_ranges mdesc (kernel_range ∷ [])
      >>= (λ block. blocks >>= (λ more. ok (push_block block more))) in
    if is_free mdesc.ty then excluded else blocks

-- The loop over the pages of a descriptor, from page `p` on.
unfoldable pub map_pages : ℕ → ℕ → ℕ → Mapper → Outcome Mapper
map_pages zero p phys_start m = ok m
map_pages (suc left) p phys_start m = do
  offset ← checked_mul p 0x1000
  phys_addr ← checked_add phys_start offset
  m' ← map_mmio m phys_addr
  map_pages left (p + 1) phys_start m'

unfoldable pub map_descriptors : List MemoryDescriptor → Mapper → Outcome Mapper
map_descriptors [] m = ok m
map_descriptors (mdesc ∷ rest) m =
    let mapped =
      map_pages mdesc.page_count 0 mdesc.phys_start m >>= (λ m'. map_descriptors rest m') in
    if is_mapped mdesc.ty then mapped else map_descriptors rest m

abbrev pub scratch : ℕ
scratch = 0xffffffffc0000000

-- The processor is halted with interrupts off, or the handler returns.
pub data Fault : Type 0 where
  halted : Fault
  returned : Mapper → Bytes → Fault

-- `page_fault_handler`: the results of `alloc_page_at` and `cow` are dropped.
unfoldable pub page_fault_handler : ℕ → ℕ → Mapper → Bytes → Outcome Fault
page_fault_handler error_code virt_addr m bytes =
    let allocated = alloc_page_at m virt_addr >>= (λ (_, m'). ok (returned m' bytes)) in
    let copied = cow m virt_addr scratch bytes >>= (λ (_, m', bytes'). ok (returned m' bytes')) in
    if bit_and error_code 0x1 == 0
    then (if virt_addr == 0 then ok halted else allocated)
    else if bit_and error_code 0x2 == 0x2
    then copied
    else ok halted
