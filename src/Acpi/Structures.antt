-- ===== src/Acpi/Structures.antt =====
-- The loop over the interrupt controller structures in src/drivers/acpi.rs.
use mathlib.Core.List.{append_assoc, append-nil}
use an_os_in_rust.Base.{
  ℕ, zero, suc, ◌+◌, ◌≤◌, ◌<◌, ◌≡◌, ◌^◌, ◌==◌, refl, sym, ap, ◌∙◌, false, Bool-cases, inl, inr, ltb,
  lt→ltb, none, some, List, [], ◌∷◌, ◌++◌, arith, length, ok,
}
use an_os_in_rust.Paging.Table.{mmio_base}
use an_os_in_rust.Acpi.{Memory, Madt, InterruptMapping, number_at, apply_structure, structures}

-- What a structure of the table says.
pub data Structure : Type 0 where
  io_apic : ℕ → ℕ → Structure
  source_override : ℕ → ℕ → Structure
  lapic_override : ℕ → Structure
  other : Structure

-- A structure lies at an address, and the address that it states has its place in the kernel's mappings.
abbrev pub IsStructure : Memory → ℕ → Structure → Type 0
IsStructure mem head (io_apic addr gsi_base) =
    (mem head ≡ 1)
    × (number_at mem 4 (head + 4) ≡ addr)
    × (number_at mem 4 (head + 8) ≡ gsi_base)
    × (addr + mmio_base < 2 ^ 64)
IsStructure mem head (source_override irq gsi) =
    (mem head ≡ 2) × (mem (head + 3) ≡ irq) × (mem (head + 4) ≡ gsi)
IsStructure mem head (lapic_override addr) =
    (mem head ≡ 5) × (number_at mem 8 (head + 4) ≡ addr) × (addr + mmio_base < 2 ^ 64)
IsStructure mem head other =
    ((mem head == 1) ≡ false) × ((mem head == 2) ≡ false) × ((mem head == 5) ≡ false)

-- These structures lie one behind the other from `head` on, and none but the last reaches over `tail`.
pub data AreStructures (mem : Memory) (tail : ℕ) : ℕ → List Structure → Type 0 where
  at_end : {head : ℕ} → tail ≤ head → AreStructures mem tail head []
  one_more :
      {head : ℕ} {ss : List Structure} (s : Structure)
      → head < tail
      → IsStructure mem head s
      → AreStructures mem tail (head + mem (head + 1)) ss
      → AreStructures mem tail head (s ∷ ss)

-- The last address of an I/O APIC, its first interrupt, the last address of the local APIC, and all
-- overrides of interrupts; the argument is what is known before.
unfoldable pub last_io_apic : ℕ → List Structure → ℕ
last_io_apic before [] = before
last_io_apic before (io_apic addr _ ∷ ss) = last_io_apic (addr + mmio_base) ss
last_io_apic before (source_override _ _ ∷ ss) = last_io_apic before ss
last_io_apic before (lapic_override _ ∷ ss) = last_io_apic before ss
last_io_apic before (other ∷ ss) = last_io_apic before ss

unfoldable pub last_gsi_base : ℕ → List Structure → ℕ
last_gsi_base before [] = before
last_gsi_base before (io_apic _ gsi_base ∷ ss) = last_gsi_base gsi_base ss
last_gsi_base before (source_override _ _ ∷ ss) = last_gsi_base before ss
last_gsi_base before (lapic_override _ ∷ ss) = last_gsi_base before ss
last_gsi_base before (other ∷ ss) = last_gsi_base before ss

unfoldable pub last_lapic : ℕ → List Structure → ℕ
last_lapic before [] = before
last_lapic before (io_apic _ _ ∷ ss) = last_lapic before ss
last_lapic before (source_override _ _ ∷ ss) = last_lapic before ss
last_lapic before (lapic_override addr ∷ ss) = last_lapic (addr + mmio_base) ss
last_lapic before (other ∷ ss) = last_lapic before ss

unfoldable pub overrides : List Structure → List InterruptMapping
overrides [] = []
overrides (io_apic _ _ ∷ ss) = overrides ss
overrides (source_override irq gsi ∷ ss) =
    record { irq_number = irq; global_system_interrupt = gsi } ∷ overrides ss
overrides (lapic_override _ ∷ ss) = overrides ss
overrides (other ∷ ss) = overrides ss

abbrev pub described : List Structure → Madt → Madt
described ss madt = record {
  lapic_addr = last_lapic madt.lapic_addr ss;
  ioapic_addr = last_io_apic madt.ioapic_addr ss;
  global_system_interrupt_base = last_gsi_base madt.global_system_interrupt_base ss;
  interrupt_mappings = madt.interrupt_mappings ++ overrides ss;
}

-- One structure, and what is described behind it.
apply_structure-described :
    (mem : Memory) (head : ℕ) (s : Structure) (ss : List Structure) (madt : Madt)
    → IsStructure mem head s
    → (madt' : Madt) × (apply_structure mem head madt ≡ ok madt')
      × (described ss madt' ≡ described (s ∷ ss) madt)
unfolding apply_structure last_io_apic last_gsi_base last_lapic overrides
apply_structure-described mem head (io_apic addr gsi_base) ss madt (ty, a, b, fits) = (
  record madt { ioapic_addr = addr + mmio_base; global_system_interrupt_base = gsi_base },
  rw (ty, a, b, lt→ltb (addr + mmio_base) (2 ^ 64) fits) refl,
  refl,
)
apply_structure-described mem head (source_override irq gsi) ss madt (ty, a, b) =
    let mapping : InterruptMapping = record { irq_number = irq; global_system_interrupt = gsi } in
    (
      record madt { interrupt_mappings = madt.interrupt_mappings ++ mapping ∷ [] },
      rw (ty, a, b) refl,
      ap (λ ms. record (described ss madt) { interrupt_mappings = ms })
          (append_assoc madt.interrupt_mappings (mapping ∷ []) (overrides ss)),
    )
apply_structure-described mem head (lapic_override addr) ss madt (ty, a, fits) = (
  record madt { lapic_addr = addr + mmio_base },
  rw (ty, a, lt→ltb (addr + mmio_base) (2 ^ 64) fits) refl,
  refl,
)
apply_structure-described mem head other ss madt (one, two, five) =
    (madt, rw (one, two, five) refl, refl)

-- Where structures lie one behind the other up to the end of the table, every address in them has its
-- place in the kernel's mappings, and there are more rounds than structures: the loop ends, with the
-- last addresses that they state and all their overrides of interrupts, in order.
pub structures-described :
    (mem : Memory) (tail fuel head : ℕ) (ss : List Structure) (madt : Madt)
    → AreStructures mem tail head ss
    → length ss < fuel
    → structures fuel mem head tail madt ≡ ok (some (described ss madt))
unfolding structures last_io_apic last_gsi_base last_lapic overrides
structures-described mem tail zero head ss madt v enough = absurd (omega (arith, enough))
structures-described mem tail (suc fuel) head _ madt (at_end past) enough =
    let over : ltb head tail ≡ false = ground arith in
    rw (over) (
      ap (λ ms. ok (some (record madt { interrupt_mappings = ms })))
        (sym (append-nil madt.interrupt_mappings)))
structures-described mem tail (suc fuel) head _ madt (one_more {ss = ss} s inside here v) enough =
    let (madt', applied, same) = apply_structure-described mem head s ss madt here in
    rw (lt→ltb head tail inside, applied)
      (structures-described mem tail fuel (head + mem (head + 1)) ss madt' v (omega (arith, enough))
        ∙ ap (λ m. ok (some m)) same)

apply_structure-returns :
    (mem : Memory) (head : ℕ) (madt : Madt)
    → (mem head == 1) ≡ false
    → (mem head == 5) ≡ false
    → (madt' : Madt) × (apply_structure mem head madt ≡ ok madt')
unfolding apply_structure
apply_structure-returns mem head madt one five = elim (Bool-cases (mem head == 2)) [
  | inl two ↦ (
    record madt {
      interrupt_mappings =
          madt.interrupt_mappings
          ++ record { irq_number = mem (head + 3); global_system_interrupt = mem (head + 4) } ∷ [];
    },
    rw (one, two) refl,
  )
  | inr untyped ↦ (madt, rw (one, untyped, five) refl)
]

-- A structure inside the table that states the length 0, of a type that is no APIC's: after any number of
-- rounds the loop has neither ended nor stopped the kernel.
pub structures-endless :
    (mem : Memory) (tail fuel head : ℕ) (madt : Madt)
    → head < tail
    → mem (head + 1) ≡ 0
    → (mem head == 1) ≡ false
    → (mem head == 5) ≡ false
    → structures fuel mem head tail madt ≡ ok none
unfolding structures
structures-endless mem tail zero head madt inside empty one five = refl
structures-endless mem tail (suc fuel) head madt inside empty one five =
    let stays : head + mem (head + 1) ≡ head = omega (arith, empty) in
    let (madt', applied) = apply_structure-returns mem head madt one five in
    rw (lt→ltb head tail inside, applied, stays)
      (structures-endless mem tail fuel head madt' inside empty one five)
