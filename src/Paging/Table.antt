-- ===== src/Paging/Table.antt =====
-- arch/x86_64/src/paging/mod.rs and table.rs: masks, flags and one entry of a paging structure. An
-- entry is a 64-bit word. A pointer to a `PagingStruct` is its address.
pub mod Entry
use an_os_in_rust.Base.{
  ℕ, ◌-◌, ◌/◌, ◌^◌, bit_and, bit_or, Bool, true, false, Outcome, ok, checked_sub,
}

abbrev pub mask_51_12 : ℕ
mask_51_12 = 0x000f_ffff_ffff_f000

abbrev pub mask_51_30 : ℕ
mask_51_30 = 0x000f_ffff_ffc0_0000_00

abbrev pub mask_47_39 : ℕ
mask_47_39 = 0x0000_ff80_0000_0000

abbrev pub mask_38_30 : ℕ
mask_38_30 = 0x0000_007f_c000_0000

abbrev pub mask_29_21 : ℕ
mask_29_21 = 0x0000_0000_3fe0_0000

abbrev pub mask_20_12 : ℕ
mask_20_12 = 0x0000_0000_001f_f000

-- The address at which the running kernel sees the paging structures.
abbrev pub paging_structure_base : ℕ
paging_structure_base = 0xffff_ff80_0000_0000

abbrev pub mmio_base : ℕ
mmio_base = 0xffff_ff00_0000_0000

pub data PageSize : Type 0 where
  normal huge gigantic : PageSize

-- `Into<usize> for PageSize`.
unfoldable pub page_bytes : PageSize → ℕ
page_bytes normal = 0x1000
page_bytes huge = 0x200000
page_bytes gigantic = 0x40000000

-- error.rs
pub data PagingError : Type 0 where
  misaligned_address : ℕ → PageSize → PagingError

abbrev pub present_flag : ℕ
present_flag = 1

abbrev pub rw_flag : ℕ
rw_flag = 2

abbrev pub ps_flag : ℕ
ps_flag = 128

-- Bits 0 to 8, and bit 12 for `PAT_FLAG`.
abbrev pub all_flags : ℕ
all_flags = 0x11ff

-- The trait `PagingLevel` and its four implementors.
pub record PagingLevel : Type 0 where
  pub mask : ℕ
  pub shift : ℕ

abbrev pub pml4_level : PagingLevel
pml4_level = record { mask = mask_47_39; shift = 39 }

abbrev pub pdpt_level : PagingLevel
pdpt_level = record { mask = mask_38_30; shift = 30 }

abbrev pub pd_level : PagingLevel
pd_level = record { mask = mask_29_21; shift = 21 }

abbrev pub pt_level : PagingLevel
pt_level = record { mask = mask_20_12; shift = 12 }

unfoldable pub entry_idx : PagingLevel → ℕ → ℕ
entry_idx l virt_addr = bit_and virt_addr l.mask / 2 ^ l.shift

-- `!x` on `usize`.
abbrev word_not : ℕ → ℕ
word_not x = 2 ^ 64 - 1 - x

-- `PagingStructEntry::new`
unfoldable pub new_entry : ℕ → ℕ → ℕ
new_entry flags phys_addr = bit_or flags (bit_and phys_addr mask_51_12)

unfoldable pub get_flags : ℕ → ℕ → ℕ
get_flags entry flag = bit_and entry flag

unfoldable pub set_flags : ℕ → ℕ → Bool → ℕ
set_flags entry flag true = bit_or entry flag
set_flags entry flag false = bit_and entry (word_not flag)

unfoldable pub get_addr : ℕ → ℕ
get_addr entry = bit_and entry mask_51_12

unfoldable pub set_addr : ℕ → ℕ → ℕ
set_addr entry addr = bit_or (bit_and entry (word_not mask_51_12)) (bit_and addr mask_51_12)

-- `PagingStruct::phys_addr`, with `E::PAGING_STRUCTURE_BASE` for `psb`.
unfoldable pub phys_addr_of : ℕ → ℕ → Outcome ℕ
phys_addr_of psb table = checked_sub table psb
