-- ===== src/Interrupt.antt =====
-- src/arch/x86_64/interrupt.rs: the table of interrupt descriptors, the I/O APIC and the handlers. The
-- addresses of the assembly's entry points are arguments; saving and restoring of registers is theirs.
pub mod Local
pub mod Descriptors
pub mod Lines
use an_os_in_rust.Base.{
  ℕ, zero, suc, ◌+◌, ◌*◌, ◌/◌, ◌%◌, ◌^◌, ◌==◌, ltb, if◌then◌else◌, Bool, true, false, Option, none,
  some, List, [], ◌∷◌, set, get_elem?, length, Outcome, ok, panic, ◌>>=◌, expect, bit_and, bit_or,
}
use an_os_in_rust.Sched.Guard.{Scheduler, lock, switch}
use an_os_in_rust.Clock.{Clock, sleep}

-- A descriptor as the blocks of `init` put it together, on `u128`.
unfoldable pub descriptor : ℕ → ℕ
descriptor handler =
    bit_or
      (bit_or
        (bit_or
          (bit_or (bit_or 0 (bit_and handler 0xffff))
            (bit_and handler 0xffffffffffff0000 * 2 ^ 32 % 2 ^ 128))
          (0x8 * 2 ^ 16))
        (0xe * 2 ^ 40))
      (8 * 2 ^ 44)

-- The entry points that `init` installs.
pub record Entries : Type 0 where
  pub page_fault_isr : ℕ
  pub general_protection_fault_isr : ℕ
  pub com0_isr : ℕ
  pub hpet_isr : ℕ
  pub syscall_isr : ℕ
  pub device_isr : ℕ

-- What `init` does to the table: `idt[n] = descriptor`, in order.
unfoldable pub init_idt : Entries → List ℕ → List ℕ
init_idt e idt =
    set
      (set
        (set
          (set
            (set (set idt 0xe (descriptor e.page_fault_isr)) 0xd
              (descriptor e.general_protection_fault_isr))
            0x24 (descriptor e.com0_isr))
          0x20 (descriptor e.hpet_isr))
        0x80 (descriptor e.syscall_isr))
      0x26 (descriptor e.device_isr)

-- The registers of the I/O APIC are behind an index and a window.
abbrev pub Registers : Type 0
Registers = ℕ → ℕ

unfoldable pub write : ℕ → ℕ → Registers → Registers
write index value regs i = if i == index then value else regs i

-- `(lapic_id << 24) & 0x0f000000`
unfoldable pub destination : ℕ → ℕ
destination lapic_id = bit_and (lapic_id * 2 ^ 24 % 2 ^ 32) 0x0f000000

unfoldable pub remap : ℕ → ℕ → ℕ → Registers → Registers
remap lapic_id int_signal vector regs =
    write (0x10 + int_signal * 2 + 1) (destination lapic_id)
      (write (0x10 + int_signal * 2) vector regs)

unfoldable pub remap_all : ℕ → Registers → Registers
remap_all lapic_id regs = write 0xf0 (1 * 2 ^ 8 + 0xff) (
    remap lapic_id 12 0x100ff (
      write 0x29 (destination lapic_id) (
        write 0x28 0x100ff
          (remap lapic_id 2 0x10020 (remap lapic_id 4 0x24 (remap 0 1 0x21 regs))))))

unfoldable pub mask_line : Bool → ℕ → Registers → Registers
mask_line mask line regs =
    let idx = line * 2 + 0x10 in
    let redtlb_low = regs idx in
    write idx (if mask then bit_or redtlb_low 0x10000 else bit_and redtlb_low 0xfffeffff) regs

-- `IRQ_HANDLERS`
unfoldable pub register_handler : ℕ → ℕ → List ℕ → Outcome (List ℕ)
register_handler vector handler handlers =
    if ltb vector (length handlers) then ok (set handlers vector handler) else panic

-- The address that `device_handler` calls.
unfoldable pub device_handler : ℕ → List ℕ → Outcome ℕ
device_handler vector handlers = expect (get_elem? handlers vector)

-- src/arch/x86_64/syscall.rs
pub data Syscall : Type 0 where
  sched_yield nanosleep : Syscall

-- `Err(Unknown(v))` is `none`.
unfoldable pub try_from : ℕ → Option Syscall
try_from value =
    if value == 0x18 then some sched_yield else if value == 0x23 then some nanosleep else none

-- `syscall_handler`, at the times that the clock source and the switch read.
unfoldable pub syscall_handler :
    ℕ → ℕ → ℕ → ℕ → Clock Scheduler → Scheduler → Outcome (Clock Scheduler × Scheduler)
syscall_handler source now syscall_number arg0 c k = elim (try_from syscall_number) [
  | none ↦ panic
  | some sched_yield ↦ switch now (lock k) >>= λ k'. ok (c, k')
  | some nanosleep ↦ sleep source now arg0 c (lock k)
]
