-- ===== src/Pci.antt =====
-- src/drivers/pci.rs: the PCI bus. Devices are found by reading the identifiers of every function.
pub mod Device
pub mod Msi
use an_os_in_rust.Base.{
  ℕ, zero, suc, ◌+◌, ◌*◌, ◌/◌, ◌^◌, Bool, true, false, ◌&&◌, not, ◌==◌, if◌then◌else◌, Option, none,
  some, List, [], ◌∷◌, ◌++◌, Outcome, ok, panic, ◌>>=◌, bit_and, bit_or,
}
use an_os_in_rust.Ports.{Ports}
use an_os_in_rust.Pci.Device.{
  PciDevice, Bdf, shl, device_address, config_address, config_data, read_config, write_config,
  read_status_register, read_header_type,
}

-- `BDF` and the identifiers of a device that was found; the other fields are filled in later.
unfoldable pub found_device : ℕ → ℕ → ℕ → ℕ → PciDevice
found_device n_bus n_device n_function cfg_data = record {
  bdf = record { bus_number = n_bus; device_number = n_device; function_number = n_function };
  vendor_id = bit_and cfg_data 0xffff;
  device_id = bit_and cfg_data 0xffff0000 / 2 ^ 16;
  interrupt_line = 0;
  interrupt_pin = 0;
  subsystem_id = 0;
  subsystem_vendor_id = 0;
  msi_capability_pointer = none;
}

-- The vector of the driver's messages.
abbrev pub msi_vector : ℕ
msi_vector = 0x26

abbrev pub reg_cap_ptr : ℕ
reg_cap_ptr = 0x34

abbrev pub push_found : Option PciDevice → List PciDevice → List PciDevice
push_found none devices = devices
push_found (some d) devices = devices ++ d ∷ []

module _ {W : Type 0} (ports : Ports W) where
  unfoldable pub read_ids : PciDevice → W → PciDevice × W
  read_ids d w =
      let (subsystem_vendor, w1) = read_config ports d 0x2c w in
      let (subsystem, w2) = read_config ports d 0x2e w1 in
      let (line, w3) = read_config ports d 0x3c w2 in
      let (pin, w4) = read_config ports d 0x3c w3 in
      (
        record d {
          subsystem_vendor_id = bit_and subsystem_vendor 0xffff;
          subsystem_id = bit_and subsystem 0xffff0000 / 2 ^ 16;
          interrupt_line = bit_and line 0xff;
          interrupt_pin = bit_and pin 0xff00 / 2 ^ 8;
        },
        w4,
      )

  -- What the loop does with the MSI capability at `ptr`.
  unfoldable pub enable_msi : ℕ → ℕ → PciDevice → W → PciDevice × W
  enable_msi lapic_id ptr d w =
      let w1 = write_config ports d ptr 0x1 w in
      let addr = bit_or (bit_or 0xfee00000 (shl lapic_id 12)) 0 in
      let w2 = write_config ports d (ptr + 0x4) addr w1 in
      let w3 = write_config ports d (ptr + 0x8) msi_vector w2 in
      (record d { msi_capability_pointer = some ptr }, w3)

  -- `while ptr != 0`. Out of fuel is a panic.
  unfoldable pub find_msi : ℕ → ℕ → ℕ → PciDevice → W → Outcome (PciDevice × W)
  find_msi zero lapic_id ptr d w = panic
  find_msi (suc fuel) lapic_id ptr d w =
      let (v, w1) = read_config ports d ptr w in
      let next = find_msi fuel lapic_id (bit_and v 0xff00 / 2 ^ 8) d w1 in
      if ptr == 0
      then ok (d, w)
      else if bit_and v 0xff == 0x05
      then ok (enable_msi lapic_id ptr d w1)
      else next

  unfoldable pub visit_found : ℕ → ℕ → PciDevice → W → Outcome (PciDevice × W)
  visit_found fuel lapic_id d w =
      let (d1, w1) = read_ids d w in
      let (status, w2) = read_status_register ports d1 w1 in
      let searched = find_msi fuel lapic_id reg_cap_ptr d1 w2 in
      if bit_and status 0b10000 == 0 then ok (d1, w2) else searched

  unfoldable pub visit_configuration_space : ℕ → ℕ → ℕ → ℕ → ℕ → W → Outcome (Option PciDevice × W)
  visit_configuration_space fuel n_bus n_device n_function lapic_id w =
      let addr = bit_or (device_address n_bus n_device) (shl n_function 8) in
      let (cfg_data, w1) = ports.inl config_data (ports.outl config_address addr w) in
      let visited =
        visit_found fuel lapic_id (found_device n_bus n_device n_function cfg_data) w1
        >>= (λ (d, w'). ok (some d, w')) in
      if bit_and cfg_data 0xffff == 0xffff then ok (none, w1) else visited

  -- `for n_function in 0..8`, from `n_function` on.
  unfoldable pub visit_functions :
      ℕ → ℕ → ℕ → ℕ → ℕ → ℕ → List PciDevice → W → Outcome (List PciDevice × W)
  visit_functions fuel zero n_function n_bus n_device lapic_id devices w = ok (devices, w)
  visit_functions fuel (suc left) n_function n_bus n_device lapic_id devices w = do
    (found, w1) ← visit_configuration_space fuel n_bus n_device n_function lapic_id w
    visit_functions fuel left (n_function + 1) n_bus n_device lapic_id (push_found found devices) w1

  -- The body of the loops of `enumerate_pci_bus`: function 0, and all eight for a device with several.
  unfoldable pub visit_device : ℕ → ℕ → ℕ → ℕ → List PciDevice → W → Outcome (List PciDevice × W)
  visit_device fuel n_bus n_device lapic_id devices w =
      visit_configuration_space fuel n_bus n_device 0 lapic_id w >>= λ (found, w1). elim found [
        | none ↦ ok (devices, w1)
        | some d ↦
            let (header_type, w2) = read_header_type ports d w1 in
            let all = visit_functions fuel 8 0 n_bus n_device lapic_id devices w2 in
            (if bit_and header_type 0b10000000 == 0b10000000 then all else ok (devices, w2))
            >>= λ (devices', w3). ok (devices' ++ d ∷ [], w3)
      ]

  unfoldable pub visit_bus : ℕ → ℕ → ℕ → ℕ → ℕ → List PciDevice → W → Outcome (List PciDevice × W)
  visit_bus fuel zero n_device n_bus lapic_id devices w = ok (devices, w)
  visit_bus fuel (suc left) n_device n_bus lapic_id devices w = do
    (devices', w') ← visit_device fuel n_bus n_device lapic_id devices w
    visit_bus fuel left (n_device + 1) n_bus lapic_id devices' w'

  unfoldable pub visit_buses : ℕ → ℕ → ℕ → ℕ → List PciDevice → W → Outcome (List PciDevice × W)
  visit_buses fuel zero n_bus lapic_id devices w = ok (devices, w)
  visit_buses fuel (suc left) n_bus lapic_id devices w = do
    (devices', w') ← visit_bus fuel 32 0 n_bus lapic_id devices w
    visit_buses fuel left (n_bus + 1) lapic_id devices' w'

  unfoldable pub enumerate_pci_bus : ℕ → ℕ → List PciDevice → W → Outcome (List PciDevice × W)
  enumerate_pci_bus fuel lapic_id devices w = visit_buses fuel 256 0 lapic_id devices w

abbrev pub is_device : ℕ → ℕ → PciDevice → Bool
is_device vendor_id device_id x = x.device_id == device_id && x.vendor_id == vendor_id

-- `extract_if(.., p)`: the devices that go to the caller, and those that stay.
unfoldable pub get_device : ℕ → ℕ → List PciDevice → List PciDevice × List PciDevice
get_device vendor_id device_id [] = ([], [])
get_device vendor_id device_id (x ∷ xs) =
    let (got, left) = get_device vendor_id device_id xs in
    if is_device vendor_id device_id x then (x ∷ got, left) else (got, x ∷ left)
