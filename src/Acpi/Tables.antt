-- ===== src/Acpi/Tables.antt =====
-- src/drivers/acpi.rs: the search for a table by its signature.
use an_os_in_rust.Base.{
  ℕ, zero, suc, ◌+◌, if◌then◌else◌, Bool, Option, none, some, List, [], Outcome, ok, ◌>>=◌, ◌>>◌,
  assert, checked_add,
}
use an_os_in_rust.Net.Ethernet.{Bytes}
use an_os_in_rust.Net.Stack.{same_bytes}
use an_os_in_rust.Paging.Table.{mmio_base}
use an_os_in_rust.Paging.Mapper.{Mapper}
use an_os_in_rust.Acpi.{
  Memory, bytes_at, number_at, Madt, Hpet, Configuration, apic, hpet_signature, mcfg_signature,
  parse_xsdt, parse_madt_at, parse_hpet_at, parse_mcfg_at,
}

-- `core::str::from_utf8` is the parameter `is_utf8`.
module _ (is_utf8 : Bytes → Bool) where
  -- The address of a table, its signature and its length.
  unfoldable pub entry_at : Memory → ℕ → Outcome (ℕ × Bytes × ℕ)
  entry_at mem at = do
    entry_addr ← checked_add (number_at mem 8 at) mmio_base
    let signature = bytes_at mem 4 entry_addr
    assert (is_utf8 signature) >> ok (entry_addr, signature, number_at mem 4 (entry_addr + 4))

  -- The loop of `parse_madt` over `left` entries: a later table replaces an earlier one.
  unfoldable pub madt_entries : ℕ → Memory → ℕ → ℕ → Madt × Mapper → Outcome (Madt × Mapper)
  madt_entries fuel mem zero at (madt, m) = ok (madt, m)
  madt_entries fuel mem (suc left) at (madt, m) = do
    (entry_addr, signature, length) ← entry_at mem at
    let parsed = parse_madt_at fuel mem entry_addr length m
    next ← (if same_bytes signature apic then parsed else ok (madt, m))
    madt_entries fuel mem left (at + 8) next

  unfoldable pub parse_madt : ℕ → Memory → ℕ → Mapper → Outcome (Madt × Mapper)
  parse_madt fuel mem rsdp m = do
    (at, len) ← parse_xsdt mem rsdp
    let info : Madt = record {
      lapic_addr = 0;
      ioapic_addr = 0;
      global_system_interrupt_base = 0;
      interrupt_mappings = [];
    }
    madt_entries fuel mem len at (info, m)

  -- The loop of `parse_hpet` and of `parse_mcfg`: the first table with the signature.
  unfoldable pub find_table : Memory → Bytes → ℕ → ℕ → Outcome (Option (ℕ × ℕ))
  find_table mem wanted zero at = ok none
  find_table mem wanted (suc left) at = do
    (entry_addr, signature, length) ← entry_at mem at
    let rest = find_table mem wanted left (at + 8)
    if same_bytes signature wanted then ok (some (entry_addr, length)) else rest

  -- `Err` is `none`.
  unfoldable pub parse_hpet : Memory → ℕ → Mapper → Outcome (Option (Hpet × Mapper))
  parse_hpet mem rsdp m = do
    (at, len) ← parse_xsdt mem rsdp
    found ← find_table mem hpet_signature len at
    (elim found [ none ↦ ok none | some (addr, _) ↦ parse_hpet_at mem addr m >>= λ r. ok (some r) ])

  unfoldable pub parse_mcfg : ℕ → Memory → ℕ → Outcome (Option (List Configuration))
  parse_mcfg fuel mem rsdp = do
    (at, len) ← parse_xsdt mem rsdp
    found ← find_table mem mcfg_signature len at
    (elim found [
      | none ↦ ok none
      | some (addr, length) ↦ parse_mcfg_at fuel mem addr length >>= λ r. ok (some r)
    ])
