-- ===== src/Pci/Device/Address.antt =====
-- The addresses of configuration registers in src/drivers/pci.rs.
use an_os_in_rust.Base.{ℕ, ◌+◌, ◌*◌, ◌/◌, ◌%◌, ◌^◌, ◌<◌, ◌≡◌, ◌∙◌, arith, bit_and, bit_or}
use an_os_in_rust.Base.Bits.{and_mask_above, or_field, and_mask}
use an_os_in_rust.Pci.Device.{Bdf, shl, device_address, cfg_addr, read_addr}

device_address-fields :
    (n_bus n_device : ℕ)
    → n_bus < 256
    → n_device < 32
    → device_address n_bus n_device ≡ ((0x8000 + n_bus) * 32 + n_device) * 2 ^ 11
unfolding device_address shl
device_address-fields n_bus n_device b d =
    let low_bus : n_bus * 2 ^ 16 % 2 ^ 32 ≡ n_bus * 2 ^ 16 = omega arith in
    let low_device : n_device * 2 ^ 11 % 2 ^ 32 ≡ n_device * 2 ^ 11 = omega arith in
    let top : bit_or 0x80000000 (n_bus * 2 ^ 16) ≡ (0x8000 + n_bus) * 2 ^ 16 =
      or_field 31 1 (n_bus * 2 ^ 16) (omega arith) ∙ omega arith in
    rw (low_bus, low_device, top)
      (or_field 16 (0x8000 + n_bus) (n_device * 2 ^ 11) (omega arith) ∙ omega arith)

cfg_addr-sum :
    (bdf : Bdf) (offset : ℕ)
    → bdf.bus_number < 256
    → bdf.device_number < 32
    → bdf.function_number < 8
    → offset < 256
    → cfg_addr bdf offset
      ≡ 2 ^ 31
        + bdf.bus_number * 2 ^ 16
        + bdf.device_number * 2 ^ 11
        + bdf.function_number * 2 ^ 8
        + offset
unfolding cfg_addr shl
cfg_addr-sum bdf offset b d f o =
    let function : bit_and bdf.function_number 0b111 ≡ bdf.function_number =
      and_mask 3 bdf.function_number ∙ omega arith in
    let low : bdf.function_number * 2 ^ 8 % 2 ^ 32 ≡ bdf.function_number * 2 ^ 8 = omega arith in
    let device = (0x8000 + bdf.bus_number) * 32 + bdf.device_number in
    let above : bit_or (device * 2 ^ 11) (bdf.function_number * 2 ^ 8)
        ≡ (device * 8 + bdf.function_number) * 2 ^ 8 =
      or_field 11 device (bdf.function_number * 2 ^ 8) (omega arith) ∙ omega arith in
    rw (device_address-fields bdf.bus_number bdf.device_number b d, function, low, above)
      (or_field 8 (device * 8 + bdf.function_number) offset o ∙ omega arith)

-- For a bus, a device, a function and a register of the configuration space in their ranges: the
-- address that a device's `outl` writes has the enable bit and every number in its field, and the one
-- that `inl` writes is the same but for the register, of which it drops the two lowest bits.
pub cfg_addr-fields :
    (bdf : Bdf) (offset : ℕ)
    → bdf.bus_number < 256
    → bdf.device_number < 32
    → bdf.function_number < 8
    → offset < 256
    → (cfg_addr bdf offset / 2 ^ 31 ≡ 1)
      × (cfg_addr bdf offset / 2 ^ 16 % 2 ^ 15 ≡ bdf.bus_number)
      × (cfg_addr bdf offset / 2 ^ 11 % 2 ^ 5 ≡ bdf.device_number)
      × (cfg_addr bdf offset / 2 ^ 8 % 2 ^ 3 ≡ bdf.function_number)
      × (cfg_addr bdf offset % 2 ^ 8 ≡ offset)
      × (read_addr bdf offset + offset % 4 ≡ cfg_addr bdf offset)
unfolding read_addr
cfg_addr-fields bdf offset b d f o =
    let e = cfg_addr-sum bdf offset b d f o in
    let masked : bit_and offset 0xfc ≡ offset / 4 * 4 =
      and_mask_above 2 offset 63 ∙ omega (arith, and_mask 6 (offset / 2 ^ 2), o) in
    let r = cfg_addr-sum bdf (bit_and offset 0xfc) b d f (omega (arith, masked, o)) in
    (
      omega (arith, e),
      omega (arith, e),
      omega (arith, e),
      omega (arith, e),
      omega (arith, e),
      omega (arith, e, r, masked),
    )
