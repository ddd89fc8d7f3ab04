-- ===== src/Examples/Platform.antt =====
-- Examples for src/arch/x86_64, src/drivers/acpi.rs and src/drivers/serial.rs.
use an_os_in_rust.Base.{
  leb, ℕ, zero, suc, ◌+◌, ◌-◌, ◌*◌, ◌/◌, ◌%◌, ◌^◌, ◌≤◌, ◌<◌, ◌≡◌, refl, inl, inr, Bool-cases, true,
  false, ◌&&◌, not, ◌==◌, none, some, Option, List, [], ◌∷◌, ◌++◌, arith, if◌then◌else◌, ok,
  bit_and,
}
use an_os_in_rust.Net.Ethernet.{Bytes}
use an_os_in_rust.Ports.{Ports}
use an_os_in_rust.Serial.{Com, inb, outb, add_port, write_all}
use an_os_in_rust.Serial.Line.{IsUart, sent_for, budget, write_all-sent}
use an_os_in_rust.Memory.{
  exclude_range, contains, free_blocks, is_free, exclude_ranges, exclude_from, MemoryDescriptor,
  conventional,
}
use an_os_in_rust.Memory.Ranges.{
  covers, exclude_range-covers, covered, free_at, free_blocks-free_at,
}
use an_os_in_rust.Acpi.{Memory, Madt, structures}
use an_os_in_rust.Acpi.Structures.{
  source_override, other, AreStructures, at_end, one_more, described, structures-described,
  structures-endless,
}
use an_os_in_rust.Interrupt.{descriptor}
use an_os_in_rust.Interrupt.Descriptors.{descriptor-fields}
use an_os_in_rust.Hpet.{Mmio, Hpet, read_main_counter, hpet_tick}
use an_os_in_rust.Hpet.Ticks.{ticks, last_count, seen, AreForward, ticks-elapsed}

-- A serial port: what is on the line, the places that its buffer has, and for how many more rounds it
-- is busy. A full buffer drops a byte.
record Uart : Type 0 where
  line : Bytes
  places : ℕ
  busy : ℕ

-- The status register is read.
abbrev settle : Uart → Uart
settle w = record w { places = if w.busy == 0 then 16 else w.places; busy = w.busy - 1 }

abbrev uart_ports : Ports Uart
uart_ports = record {
  outb = λ port value w.
      if w.places == 0
      then w
      else record w { line = w.line ++ value ∷ []; places = w.places - 1; busy = 2 };
  inb = λ port w. (if w.busy == 0 then 0x20 else 0, settle w);
  outw = λ port value w. w;
  inw = λ port w. (0, w);
  outl = λ port value w. w;
  inl = λ port w. (0, w);
}

abbrev com1 : Com
com1 = record { port = some 0x3f8 }

abbrev IsNearer : ℕ → Type 0
IsNearer busy =
    (bit_and (if busy == 0 then 0x20 else 0) 0b100000 == 0b100000) ≡ false → busy - 1 < busy

nearer : (busy : ℕ) → IsNearer busy
nearer zero h = cc
nearer (suc busy) h = omega arith

free_when_ready :
    (busy places : ℕ)
    → (bit_and (if busy == 0 then 0x20 else 0) 0b100000 == 0b100000) ≡ true
    → 16 ≤ (if busy == 0 then 16 else places)
free_when_ready busy places h = elim (Bool-cases (busy == 0)) [
  | inl idle ↦ rw (idle) (omega arith)
  | inr working ↦ absurd (different (rw (working) at h))
]
  where
    different : false ≡ true → ⊥
    different e = cc

takes_byte :
    (byte : ℕ) (w : Uart)
    → 0 < w.places
    → (w' : Uart) × (outb uart_ports com1 0 byte w ≡ ok w')
      × (w'.line ≡ w.line ++ byte ∷ [])
      × (w.places ≤ w'.places + 1)
      × (w'.busy ≤ 2)
unfolding outb add_port
takes_byte byte w free =
    let some_place : (w.places == 0) ≡ false = ground (arith, free) in
    (
      record w { line = w.line ++ byte ∷ []; places = w.places - 1; busy = 2 },
      rw (some_place) refl,
      refl,
      omega arith,
      omega arith,
    )

com1-IsUart : IsUart uart_ports com1 (λ w. w.line) (λ w. w.places) (λ w. w.busy) 2
unfolding inb add_port
com1-IsUart = record {
  status = λ w. (_, _, refl, refl, free_when_ready w.busy w.places, nearer w.busy);
  data_sent = takes_byte;
}

enough_rounds : 1 + budget 2 (97 ∷ 10 ∷ []) < 10
unfolding budget
enough_rounds = omega arith

-- "a" and a line feed.
write_all-sent_example :
    (w' : Uart) × (write_all uart_ports 10 com1
        (97 ∷ 10 ∷ [])
        (record { line = []; places = 0; busy = 1 })
      ≡ ok w')
    × (w'.line ≡ [] ++ sent_for (97 ∷ 10 ∷ []))
write_all-sent_example =
    write_all-sent uart_ports com1 (λ w. w.line) (λ w. w.places) (λ w. w.busy) 2 com1-IsUart 10
      (97 ∷ 10 ∷ []) (record { line = []; places = 0; busy = 1 }) enough_rounds

-- A block that starts below 8 MiB.
exclude_range-covers_example :
    (r : Option (ℕ × ℕ)) × (exclude_range (0x7ff000, 0x3000) (0, 0x800000) ≡ ok r)
    × ((x : ℕ)
        → covers r x ≡ (covers (some (0x7ff000, 0x3000)) x && not (contains (0, 0x800000) x)))
exclude_range-covers_example =
    exclude_range-covers 0x7ff000 0x3000 0 0x800000 (omega arith) (inl (omega arith))

abbrev low_memory : List MemoryDescriptor
low_memory = record { ty = conventional; phys_start = 0x7ff000; page_count = 3 } ∷ []

free_blocks-free_at_example :
    (blocks : List (ℕ × ℕ)) × (free_blocks low_memory ≡ ok blocks)
    × ((x : ℕ) → covered blocks x ≡ (leb 0x800000 x && free_at low_memory x))
free_blocks-free_at_example = free_blocks-free_at low_memory (omega arith, tt)

low_memory_blocks : free_blocks low_memory ≡ ok ((0x800000, 0x2000) ∷ [])
unfolding free_blocks is_free exclude_ranges exclude_from exclude_range
low_memory_blocks = refl

-- A table of two structures: an override of 10 bytes and one of an unknown type.
abbrev two_structures : Memory
two_structures a =
    if a == 0
    then 2
    else if a == 1
    then 10
    else if a == 3
    then 9
    else if a == 4
    then 11
    else if a == 10
    then 7
    else if a == 11
    then 6
    else 0

abbrev empty_madt : Madt
empty_madt = record {
  lapic_addr = 0;
  ioapic_addr = 0;
  global_system_interrupt_base = 0;
  interrupt_mappings = [];
}

two_laid : AreStructures two_structures 16 0 (source_override 9 11 ∷ other ∷ [])
two_laid =
    one_more (source_override 9 11) (omega arith) (refl, refl, refl)
      (one_more other (omega arith) (refl, refl, refl) (at_end (omega arith)))

structures-described_example :
    structures 3 two_structures 0 16 empty_madt
    ≡ ok (some (described (source_override 9 11 ∷ other ∷ []) empty_madt))
structures-described_example =
    structures-described two_structures 16 3 0 (source_override 9 11 ∷ other ∷ []) empty_madt
      two_laid (omega arith)

structures-endless_example : structures 5 (λ a. 0) 0 16 empty_madt ≡ ok none
structures-endless_example =
    structures-endless (λ a. 0) 16 5 0 empty_madt (omega arith) refl refl refl

descriptor-fields_example :
    (descriptor 0xffff800000123456 % 2 ^ 16 + descriptor 0xffff800000123456 / 2 ^ 48 * 2 ^ 16
      ≡ 0xffff800000123456)
    × (descriptor 0xffff800000123456 / 2 ^ 16 % 2 ^ 16 ≡ 0x8)
    × (descriptor 0xffff800000123456 / 2 ^ 32 % 2 ^ 8 ≡ 0)
    × (descriptor 0xffff800000123456 / 2 ^ 40 % 2 ^ 5 ≡ 0xe)
    × (descriptor 0xffff800000123456 / 2 ^ 45 % 2 ^ 2 ≡ 0)
    × (descriptor 0xffff800000123456 / 2 ^ 47 % 2 ≡ 1)
descriptor-fields_example = descriptor-fields 0xffff800000123456 (omega arith)

-- The state is the count.
abbrev counter : Mmio ℕ
counter = record {
  inw = λ at w. 0;
  ing = λ at w. w;
  outw = λ at value w. w;
  outg = λ at value w. value;
}

abbrev timer : Hpet
timer = record {
  base_address = 0xfed00000;
  comparator_count = 2;
  counter_size = 1;
  legacy_replacement_irq_routing_capable = true;
  counter_clock_period = 10;
  last_tick_count_timer_0 = 100;
  tick = true;
}

counts_forward : AreForward counter timer (150 ∷ 220 ∷ [])
unfolding read_main_counter
counts_forward = (omega arith, omega arith, (omega arith, omega arith, tt))

ticks-elapsed_example :
    ticks counter timer (150 ∷ 220 ∷ [])
    ≡ ok (
      (last_count counter timer 100 (150 ∷ 220 ∷ []) - 100) * 10,
      seen (last_count counter timer 100 (150 ∷ 220 ∷ [])) timer,
    )
ticks-elapsed_example = ticks-elapsed counter timer (150 ∷ 220 ∷ []) refl counts_forward

both_counted : ticks counter timer (150 ∷ 220 ∷ []) ≡ ok (1200, seen 220 timer)
unfolding ticks hpet_tick read_main_counter
both_counted = refl
