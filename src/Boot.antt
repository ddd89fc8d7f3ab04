-- ===== src/Boot.antt =====
-- src/boot/mod.rs: the boot loader's data as the kernel sees it, through its own mappings.
use an_os_in_rust.Base.{ℕ, ◌>>=◌, Outcome, ok, checked_add}
use an_os_in_rust.Heap.{kernel_base}
use an_os_in_rust.Bootloader.Framebuffer.{RawFramebuffer}
use an_os_in_rust.Bootloader.Start

-- `BootData` of the kernel; slices are an address and a length.
pub record BootData : Type 0 where
  pub memory_map : ℕ × ℕ
  pub framebuffer : RawFramebuffer
  pub system_table : ℕ
  pub acpi_rsdp : ℕ

-- `RawFramebuffer::relocate` keeps the address.
unfoldable pub relocate_framebuffer : RawFramebuffer → ℕ → RawFramebuffer
relocate_framebuffer phys_fb base = phys_fb

unfoldable pub relocate : Start.BootData → ℕ → Outcome BootData
relocate phys_boot_data base = do
  acpi_rsdp ← checked_add phys_boot_data.acpi_rsdp base
  mm_ptr ← checked_add phys_boot_data.memory_map_buf kernel_base
  ok (record {
    memory_map = (mm_ptr, phys_boot_data.memory_map_len);
    framebuffer = relocate_framebuffer phys_boot_data.framebuffer base;
    system_table = phys_boot_data.system_table;
    acpi_rsdp = acpi_rsdp;
  })
