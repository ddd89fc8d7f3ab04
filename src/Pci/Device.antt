-- ===== src/Pci/Device.antt =====
-- src/drivers/pci.rs: functions of PCI devices, their configuration space and its registers.
pub mod Address
use an_os_in_rust.Base.{
  ℕ, ◌+◌, ◌-◌, ◌*◌, ◌/◌, ◌%◌, ◌^◌, ◌==◌, if◌then◌else◌, Option, none, some, bit_and, bit_or,
}
use an_os_in_rust.Ports.{Ports}

pub record Bdf : Type 0 where
  pub bus_number : ℕ
  pub device_number : ℕ
  pub function_number : ℕ

pub data BarNumber : Type 0 where
  bar0 bar1 bar2 bar3 bar4 bar5 : BarNumber

-- `From<BarNumber> for usize`
unfoldable pub bar_index : BarNumber → ℕ
bar_index bar0 = 0
bar_index bar1 = 1
bar_index bar2 = 2
bar_index bar3 = 3
bar_index bar4 = 4
bar_index bar5 = 5

pub record PciDevice : Type 0 where
  pub bdf : Bdf
  pub device_id : ℕ
  pub vendor_id : ℕ
  pub subsystem_id : ℕ
  pub subsystem_vendor_id : ℕ
  pub interrupt_pin : ℕ
  pub interrupt_line : ℕ
  pub msi_capability_pointer : Option ℕ

abbrev pub config_address : ℕ
config_address = 0xcf8

abbrev pub config_data : ℕ
config_data = 0xcfc

-- `n << k` on `u32`.
unfoldable pub shl : ℕ → ℕ → ℕ
shl n k = n * 2 ^ k % 2 ^ 32

-- `0x8000_0000 | n_bus << 16 | n_device << 11`
unfoldable pub device_address : ℕ → ℕ → ℕ
device_address n_bus n_device = bit_or (bit_or 0x80000000 (shl n_bus 16)) (shl n_device 11)

-- The address that `outl` and `inl` of a device write.
unfoldable pub cfg_addr : Bdf → ℕ → ℕ
cfg_addr bdf offset =
    bit_or
      (bit_or (device_address bdf.bus_number bdf.device_number)
        (shl (bit_and bdf.function_number 0b111) 8))
      offset

-- The address that `inl` writes, which drops the two lowest bits of the register.
unfoldable pub read_addr : Bdf → ℕ → ℕ
read_addr bdf offset = cfg_addr bdf (bit_and offset 0xfc)

module _ {W : Type 0} (ports : Ports W) where
  -- `PCIDevice::outl` and `PCIDevice::inl`
  unfoldable pub write_config : PciDevice → ℕ → ℕ → W → W
  write_config d offset value w =
      ports.outl config_data value (ports.outl config_address (cfg_addr d.bdf offset) w)

  unfoldable pub read_config : PciDevice → ℕ → W → ℕ × W
  read_config d offset w =
      ports.inl config_data (ports.outl config_address (read_addr d.bdf offset) w)

  unfoldable pub read_control_register : PciDevice → W → ℕ × W
  read_control_register d w = let (read, w') = read_config d 0x4 w in (bit_and read 0xffff, w')

  unfoldable pub write_control_register : PciDevice → ℕ → W → W
  write_control_register d control w = write_config d 0x4 (bit_or (shl 0 16) control) w

  unfoldable pub read_status_register : PciDevice → W → ℕ × W
  read_status_register d w =
      let (read, w') = read_config d 0x4 w in (bit_and read 0xffff0000 / 2 ^ 16, w')

  unfoldable pub read_header_type : PciDevice → W → ℕ × W
  read_header_type d w =
      let (read, w') = read_config d 0xc w in (bit_and read 0x00ff0000 / 2 ^ 16, w')

  unfoldable pub read_bar_register : PciDevice → BarNumber → W → ℕ × W
  read_bar_register d bar w =
      let (header_type, w') = read_header_type d w in
      if bit_and header_type 0b1111111 == 0x0
      then read_config d (0x10 + bar_index bar * 4) w'
      else (0, w')

  unfoldable pub write_bar_register : PciDevice → BarNumber → ℕ → W → W
  write_bar_register d bar value w = write_config d (0x10 + bar_index bar * 4) value w
