-- ===== src/Bootloader/Start.antt =====
-- bootloader/src/main.rs: from the configuration table to the jump into the kernel. The screen that
-- comes before is in Bootloader/Framebuffer. Output is left out.
use an_os_in_rust.Base.{
  ℕ, if◌then◌else◌, Bool, Option, none, some, List, [], ◌∷◌, Outcome, ok, ◌>>=◌, ◌>>◌, assert,
  checked_add, length,
}
use an_os_in_rust.Net.Ethernet.{Bytes}
use an_os_in_rust.Acpi.{Memory}
use an_os_in_rust.Paging.Table.{mmio_base}
use an_os_in_rust.Memory.{MemoryType}
use an_os_in_rust.Bootloader.Elf.{ElfFile, load_elf}
use an_os_in_rust.Bootloader.Framebuffer.{RawFramebuffer}

-- The firmware's `MemoryDescriptor`.
pub record Descriptor : Type 0 where
  pub ty : MemoryType
  pub phys_start : ℕ
  pub virt_start : ℕ
  pub page_count : ℕ
  pub att : ℕ

-- A row of the configuration table: whether its name is `ACPI2_GUID`, and its address.
pub record ConfigEntry : Type 0 where
  pub is_acpi2 : Bool
  pub address : ℕ

-- `bootlib::types::BootData`
pub record BootData : Type 0 where
  pub memory_map_buf : ℕ
  pub memory_map_len : ℕ
  pub framebuffer : RawFramebuffer
  pub system_table : ℕ
  pub acpi_rsdp : ℕ

-- The loop over the configuration table: the last row of the name counts.
unfoldable pub find_rsdp : ℕ → List ConfigEntry → ℕ
find_rsdp rsdp [] = rsdp
find_rsdp rsdp (t ∷ ts) = find_rsdp (if t.is_acpi2 then t.address else rsdp) ts

-- The loop over the memory map.
unfoldable pub virtual_map : List Descriptor → Outcome (List Descriptor)
virtual_map [] = ok []
virtual_map (entry ∷ entries) = do
  virt_start ← checked_add entry.phys_start mmio_base
  rest ← virtual_map entries
  ok (record entry { virt_start = virt_start } ∷ rest)

abbrev pub memory_map_at : ℕ
memory_map_at = 0x401000

abbrev pub boot_data_at : ℕ
boot_data_at = 0x400000

-- What the firmware answers, in the order of the calls. `memory_map` is the sorted map that
-- `exit_boot_services` leaves, and `relocates` says whether `set_virtual_address_map` succeeds.
pub record Firmware : Type 0 where
  pub config_table : List ConfigEntry
  pub kernel : Option ElfFile
  pub framebuffer : RawFramebuffer
  pub memory_map : List Descriptor
  pub relocates : Bool
  pub system_table : ℕ

-- The loader gives up, or enters the kernel: at this address, with this memory, the boot data at
-- `boot_data_at` and the memory map at `memory_map_at`.
pub data Started : Type 0 where
  aborted : Started
  entered : ℕ → Memory → BootData → List Descriptor → Started

module _ (is_utf8 : Bytes → Bool) where
  unfoldable pub efi_main : Firmware → Memory → Outcome Started
  efi_main fw mem =
      let acpi_rsdp = find_rsdp 0 fw.config_table in
      elim fw.kernel [
        | none ↦ ok aborted
        | some file ↦ do
          virt_mmap ← virtual_map fw.memory_map
          assert fw.relocates >> (do
            loaded ← load_elf is_utf8 file mem
            ok (elim loaded [
              | none ↦ aborted
              | some (entry_point, mem') ↦
                  entered entry_point mem'
                    (record {
                      memory_map_buf = memory_map_at;
                      memory_map_len = length virt_mmap;
                      framebuffer = fw.framebuffer;
                      system_table = fw.system_table;
                      acpi_rsdp = acpi_rsdp;
                    })
                    virt_mmap
            ]))
      ]
