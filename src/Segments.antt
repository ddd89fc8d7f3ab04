-- ===== src/Segments.antt =====
-- src/arch/x86_64/pm.rs: segment descriptors and their table.
pub mod Fields
use an_os_in_rust.Base.{ℕ, ◌*◌, ◌%◌, ◌^◌, List, set, bit_and, bit_or}

pub record SegmentDescriptor : Type 0 where
  pub base : ℕ
  pub limit : ℕ
  pub ty : ℕ

-- `From<SegmentDescriptor> for u64`; the shifts drop what passes 64 bits.
unfoldable pub encode : SegmentDescriptor → ℕ
encode s =
    bit_or
      (bit_or (bit_or 0 (bit_and s.base 0xffffff * 2 ^ 16 % 2 ^ 64))
        (bit_and s.base 0xff000000 * 2 ^ 32 % 2 ^ 64))
      (s.ty * 2 ^ 40 % 2 ^ 64)

abbrev pub kernel_code : SegmentDescriptor
kernel_code = record { base = 0; limit = 0; ty = 0xaf9a }

abbrev pub kernel_data : SegmentDescriptor
kernel_data = record { base = 0; limit = 0; ty = 0xcf92 }

pub record Gdtr : Type 0 where
  pub limit : ℕ
  pub base : ℕ

-- `init`: the table, of eight entries that hold what the memory held, and what its register gets.
unfoldable pub init : ℕ → List ℕ → List ℕ × Gdtr
init at gdt = (
  set (set (set gdt 0 0x0) 1 (encode kernel_code)) 2 (encode kernel_data),
  record { limit = 39; base = at },
)
