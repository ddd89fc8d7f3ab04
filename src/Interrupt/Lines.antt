-- ===== src/Interrupt/Lines.antt =====
-- The lines of the I/O APIC and the handlers in src/arch/x86_64/interrupt.rs.
use an_os_in_rust.Base.{
  ℕ, ◌<◌, ◌≡◌, refl, ◌==◌, if◌then◌else◌, true, false, arith, List, length, set, lt→ltb, ok, expect,
  ◌≢◌, ap, sym, Bool-cases, inl, inr, get_elem?-set_self, get_elem?-set_ne,
}
use an_os_in_rust.Interrupt.{
  Registers, write, destination, remap, remap_all, mask_line, register_handler, device_handler,
}

-- After `remap_all` and the unmasking of line 2 by the timer's driver: line 1 goes to vector 0x21, line 4
-- to 0x24 and line 2 to 0x20, all unmasked, line 12 is masked, and lines 2, 4 and 12 go to the
-- processor that was asked for, but line 1 to processor 0.
pub remap_all-lines :
    (lapic_id : ℕ) (regs : Registers)
    → (mask_line false 2 (remap_all lapic_id regs) 0x12 ≡ 0x21)
      × (mask_line false 2 (remap_all lapic_id regs) 0x13 ≡ 0)
      × (mask_line false 2 (remap_all lapic_id regs) 0x14 ≡ 0x20)
      × (mask_line false 2 (remap_all lapic_id regs) 0x15 ≡ destination lapic_id)
      × (mask_line false 2 (remap_all lapic_id regs) 0x18 ≡ 0x24)
      × (mask_line false 2 (remap_all lapic_id regs) 0x19 ≡ destination lapic_id)
      × (mask_line false 2 (remap_all lapic_id regs) 0x28 ≡ 0x100ff)
      × (mask_line false 2 (remap_all lapic_id regs) 0x29 ≡ destination lapic_id)
unfolding mask_line remap_all remap write destination
remap_all-lines lapic_id regs = (refl, refl, refl, refl, refl, refl, refl, refl)

-- A handler that is registered for a vector of the table is the one that is called for it, and the
-- handlers of the other vectors are as before.
pub device_handler-register_handler :
    (vector other handler : ℕ) (handlers : List ℕ)
    → vector < length handlers
    → (handlers' : List ℕ) × (register_handler vector handler handlers ≡ ok handlers')
      × (device_handler vector handlers' ≡ ok handler)
      × (device_handler other handlers'
          ≡ (if vector == other then ok handler else device_handler other handlers))
unfolding register_handler device_handler
device_handler-register_handler vector other handler handlers inside = (
  set handlers vector handler,
  rw (lt→ltb vector (length handlers) inside) refl,
  ap expect (get_elem?-set_self handlers vector handler inside),
  elim (Bool-cases (vector == other)) [
    | inl same ↦
        rw (same, sym (equal vector other same))
          (ap expect (get_elem?-set_self handlers vector handler inside))
    | inr differs ↦
        rw (differs)
          (ap expect (get_elem?-set_ne handlers vector other handler (apart vector other differs)))
  ],
)
  where
    equal : (a b : ℕ) → (a == b) ≡ true → a ≡ b
    equal a b e = ground arith

    apart : (a b : ℕ) → (a == b) ≡ false → a ≢ b
    apart a b e = ground arith
