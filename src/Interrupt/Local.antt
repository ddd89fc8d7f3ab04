-- ===== src/Interrupt/Local.antt =====
-- src/arch/x86_64/interrupt.rs: the local APIC, the end of `init`, and the handlers of the timers
-- and the serial port.
-- Registers in memory are a function of their address.
use an_os_in_rust.Base.{ℕ, ◌+◌, ◌==◌, if◌then◌else◌, Bool, Option, none, some, Outcome, ok, ◌>>=◌}
use an_os_in_rust.Acpi.{Madt}
use an_os_in_rust.Interrupt.{Registers, remap_all, mask_line}
use an_os_in_rust.Clock.{Clock, tick_fn}
use an_os_in_rust.Hpet.{Mmio, Hpet, hpet_tick}
use an_os_in_rust.Ports.{Ports}
use an_os_in_rust.Serial.{Com, read_com1}
use an_os_in_rust.Pit.{Pit, pit_tick}

-- `LocalAPIC`, by its base address.
unfoldable pub read : ℕ → ℕ → Registers → ℕ
read base index regs = regs (base + index)

unfoldable pub write : ℕ → ℕ → ℕ → Registers → Registers
write base index value regs reg = if reg == base + index then value else regs reg

unfoldable pub id : ℕ → Registers → ℕ
id base regs = read base 0x20 regs

unfoldable pub end_of_interrupt : ℕ → Registers → Registers
end_of_interrupt base regs = write base 0xb0 0 regs

-- What `init` leaves: the base addresses that the statics hold, the I/O APIC and the processor's id.
pub record Apics : Type 0 where
  pub local_base : ℕ
  pub io_base : ℕ
  pub io_registers : Registers

-- `out 0xa1` and `out 0x21`
unfoldable pub mask_pic : {W : Type 0} → Ports W → W → W
mask_pic ports w = ports.outb 0x21 0xff (ports.outb 0xa1 0xff w)

-- The end of `init`, behind `mask_pic`.
unfoldable pub init_apics : Madt → Registers → Registers → ℕ × Apics
init_apics madt local io =
    let lapic_id = id madt.lapic_addr local in
    (
      lapic_id,
      record {
        local_base = madt.lapic_addr;
        io_base = madt.ioapic_addr;
        io_registers = remap_all lapic_id io;
      },
    )

unfoldable pub mask_static_line : Bool → ℕ → Apics → Apics
mask_static_line mask line a = record a { io_registers = mask_line mask line a.io_registers }

unfoldable pub ps2_keyboard_handler : ℕ → Registers → Registers
ps2_keyboard_handler base regs = end_of_interrupt base regs

unfoldable pub pit_handler : {S : Type 0} → ℕ → Pit S → S → Registers → S × Registers
pit_handler base pit s regs = (pit_tick pit s, end_of_interrupt base regs)

-- The function that `start` registers with the timer is `tick_fn`.
unfoldable pub hpet_handler :
    {W S : Type 0}
    → Mmio W
    → ℕ
    → Option Hpet
    → Option (Clock S)
    → S
    → W
    → Registers
    → Outcome (Option Hpet × Option (Clock S) × S × Registers)
hpet_handler mmio base hpet clock s w regs = do
  (called, hpet') ← hpet_tick mmio hpet w
  (clock', s') ← elim called [ none ↦ ok (clock, s) | some ns ↦ tick_fn ns clock s ]
  ok (hpet', clock', s', end_of_interrupt base regs)

-- `fuel` is for the loops of `read_com1`.
unfoldable pub com0_handler :
    {W : Type 0} → Ports W → ℕ → Com → ℕ → W → Registers → Outcome (W × Registers)
com0_handler ports fuel com1 base w regs =
    read_com1 ports fuel com1 w >>= λ w'. ok (w', end_of_interrupt base regs)
