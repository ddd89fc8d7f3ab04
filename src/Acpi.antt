-- ===== src/Acpi.antt =====
-- src/drivers/acpi.rs: the tables that the firmware leaves in memory. Memory is a function from address
-- to byte; a field is read at its offset in the declared order of its structure. The sums of a table's
-- address and an offset within it are taken to fit 64 bits.
pub mod Tables
pub mod Structures
pub mod Configurations
use an_os_in_rust.Base.{
  ℕ, zero, suc, ◌+◌, ◌-◌, ◌*◌, ◌/◌, ◌%◌, ◌^◌, ◌==◌, ltb, leb, if◌then◌else◌, Bool, true, false,
  ◌&&◌, not, Option, none, some, List, [], ◌∷◌, ◌++◌, Outcome, ok, panic, ◌>>=◌, ◌>>◌, assert,
  checked_add, checked_sub, expect, bit_and,
}
use an_os_in_rust.Net.Ethernet.{Bytes}
use an_os_in_rust.Net.Stack.{same_bytes}
use an_os_in_rust.Paging.Table.{mmio_base}
use an_os_in_rust.Paging.Mapper.{Mapper, map_mmio}

abbrev pub Memory : Type 0
Memory = ℕ → ℕ

-- `n` bytes from an address on, and the little-endian number that they are.
unfoldable pub bytes_at : Memory → ℕ → ℕ → Bytes
bytes_at mem zero addr = []
bytes_at mem (suc n) addr = mem addr ∷ bytes_at mem n (addr + 1)

unfoldable pub number_at : Memory → ℕ → ℕ → ℕ
number_at mem zero addr = 0
number_at mem (suc n) addr = mem addr + number_at mem n (addr + 1) * 256

pub record InterruptMapping : Type 0 where
  pub irq_number : ℕ
  pub global_system_interrupt : ℕ

pub record Madt : Type 0 where
  pub lapic_addr : ℕ
  pub ioapic_addr : ℕ
  pub global_system_interrupt_base : ℕ
  pub interrupt_mappings : List InterruptMapping

pub record Hpet : Type 0 where
  pub hardware_rev_id : ℕ
  pub comparator_count : ℕ
  pub counter_size : ℕ
  pub legacy_replacement_irq_routing_capable : Bool
  pub pci_vendor_id : ℕ
  pub address_space_id : ℕ
  pub register_bit_width : ℕ
  pub register_bit_offset : ℕ
  pub base_address : ℕ
  pub hpet_number : ℕ
  pub minimum_tick : ℕ
  pub page_protection : ℕ

-- `ConfigurationSpaceBaseAddressAllocationStructure`
pub record Configuration : Type 0 where
  pub base_address : ℕ
  pub segment_group_number : ℕ
  pub start_bus_number : ℕ
  pub end_bus_number : ℕ

abbrev pub rsd_ptr : Bytes
rsd_ptr = 0x52 ∷ 0x53 ∷ 0x44 ∷ 0x20 ∷ 0x50 ∷ 0x54 ∷ 0x52 ∷ 0x20 ∷ []

abbrev pub xsdt_signature : Bytes
xsdt_signature = 0x58 ∷ 0x53 ∷ 0x44 ∷ 0x54 ∷ []

abbrev pub apic : Bytes
apic = 0x41 ∷ 0x50 ∷ 0x49 ∷ 0x43 ∷ []

abbrev pub hpet_signature : Bytes
hpet_signature = 0x48 ∷ 0x50 ∷ 0x45 ∷ 0x54 ∷ []

abbrev pub mcfg_signature : Bytes
mcfg_signature = 0x4d ∷ 0x43 ∷ 0x46 ∷ 0x47 ∷ []

-- `_parse_xsdt`: the address of the entries, and how many there are.
unfoldable pub parse_xsdt : Memory → ℕ → Outcome (ℕ × ℕ)
parse_xsdt mem rsdp = assert (same_bytes (bytes_at mem 8 rsdp) rsd_ptr) >> (do
  xsdt_addr ← checked_add (number_at mem 8 (rsdp + 24)) mmio_base
  assert (same_bytes (bytes_at mem 4 xsdt_addr) xsdt_signature) >> (do
    left ← checked_sub (number_at mem 4 (xsdt_addr + 4)) 36
    ok (xsdt_addr + 36, left / 8)))

-- The structure of the MADT at `head`, which the loop matches on its type.
unfoldable pub apply_structure : Memory → ℕ → Madt → Outcome Madt
apply_structure mem head madt =
    let ty = mem head in
    if ty == 1
    then (do
      ioapic_addr ← checked_add (number_at mem 4 (head + 4)) mmio_base
      ok (record madt {
        ioapic_addr = ioapic_addr;
        global_system_interrupt_base = number_at mem 4 (head + 8);
      }))
    else if ty == 2
    then ok (record madt {
      interrupt_mappings =
          madt.interrupt_mappings
          ++ record { irq_number = mem (head + 3); global_system_interrupt = mem (head + 4) } ∷ [];
    })
    else if ty == 5
    then (do
      lapic_addr ← checked_add (number_at mem 8 (head + 4)) mmio_base
      ok (record madt { lapic_addr = lapic_addr }))
    else ok madt

-- `while head < tail`, for that many rounds: `none` if it has not ended then.
unfoldable pub structures : ℕ → Memory → ℕ → ℕ → Madt → Outcome (Option Madt)
structures zero mem head tail madt = ok none
structures (suc fuel) mem head tail madt =
    let rest = (do
      madt' ← apply_structure mem head madt
      structures fuel mem (head + mem (head + 1)) tail madt') in
    if ltb head tail then rest else ok (some madt)

-- `_parse_madt`. Out of fuel is a panic.
unfoldable pub parse_madt_at : ℕ → Memory → ℕ → ℕ → Mapper → Outcome (Madt × Mapper)
parse_madt_at fuel mem madt_addr length m = do
  lapic_addr ← checked_add (number_at mem 4 (madt_addr + 36)) mmio_base
  let info : Madt = record {
    lapic_addr = lapic_addr;
    ioapic_addr = 0;
    global_system_interrupt_base = 0;
    interrupt_mappings = [];
  }
  found ← structures fuel mem (madt_addr + 44) (madt_addr + length) info
  madt ← expect found
  ioapic ← checked_sub madt.ioapic_addr mmio_base
  m1 ← map_mmio m ioapic
  lapic ← checked_sub madt.lapic_addr mmio_base
  m2 ← map_mmio m1 lapic
  ok (madt, m2)

-- `_parse_hpet`
unfoldable pub parse_hpet_at : Memory → ℕ → Mapper → Outcome (Hpet × Mapper)
parse_hpet_at mem hpet_addr m = do
  let id = number_at mem 4 (hpet_addr + 36)
  base_address ← checked_add (number_at mem 8 (hpet_addr + 44)) mmio_base
  base ← checked_sub base_address mmio_base
  m' ← map_mmio m base
  ok (
    record {
      hardware_rev_id = bit_and id 0xff;
      comparator_count = bit_and (id / 2 ^ 8) 0xf;
      counter_size = bit_and (id / 2 ^ 13) 0x1;
      legacy_replacement_irq_routing_capable = not (bit_and (id / 2 ^ 15) 0x1 == 0);
      pci_vendor_id = bit_and (id / 2 ^ 16) 0xffff;
      address_space_id = mem (hpet_addr + 40);
      register_bit_width = mem (hpet_addr + 41);
      register_bit_offset = mem (hpet_addr + 42);
      base_address = base_address;
      hpet_number = mem (hpet_addr + 52);
      minimum_tick = number_at mem 2 (hpet_addr + 53);
      page_protection = mem (hpet_addr + 55);
    },
    m',
  )

unfoldable pub configuration_at : Memory → ℕ → Configuration
configuration_at mem offset = record {
  base_address = number_at mem 8 offset;
  segment_group_number = number_at mem 2 (offset + 8);
  start_bus_number = mem (offset + 10);
  end_bus_number = mem (offset + 11);
}

-- The loop of `_parse_mcfg`. Out of fuel is a panic.
unfoldable pub configurations_from : ℕ → Memory → ℕ → ℕ → Outcome (List Configuration)
configurations_from zero mem offset tail = panic
configurations_from (suc fuel) mem offset tail =
    let rest = configurations_from fuel mem (offset + 16) tail in
    if ltb offset tail then rest >>= (λ more. ok (configuration_at mem offset ∷ more)) else ok []

unfoldable pub parse_mcfg_at : ℕ → Memory → ℕ → ℕ → Outcome (List Configuration)
parse_mcfg_at fuel mem mcfg_addr length =
    configurations_from fuel mem (mcfg_addr + 44) (mcfg_addr + length)
