-- ===== src/Rtl8139/Cards.antt =====
-- src/drivers/net/rtl8139.rs: all cards of the machine: `NICS`, their registration and the handler of
-- their interrupts. The buffers that a card gets, by its place among the devices, are an argument.
use an_os_in_rust.Base.{
  ℕ, ◌+◌, ◌%◌, ◌^◌, ◌==◌, ltb, if◌then◌else◌, Bool, ◌&&◌, ◌||◌, Option, none, some, List, [], ◌∷◌,
  length, Outcome, ok, ◌>>=◌,
}
use an_os_in_rust.Ports.{Ports}
use an_os_in_rust.Sched.Guard.{Scheduler}
use an_os_in_rust.Paging.Mapper.{Mapper}
use an_os_in_rust.Net.Ethernet.{Bytes}
use an_os_in_rust.Net.Interface.{Interface}
use an_os_in_rust.Net.Interface
use an_os_in_rust.Acpi.{InterruptMapping}
use an_os_in_rust.Interrupt.{Registers, register_handler, remap}
use an_os_in_rust.Pci.{get_device}
use an_os_in_rust.Pci.Device.{Bdf, PciDevice}
use an_os_in_rust.Rtl8139.{Rtl8139, handle_interrupt}
use an_os_in_rust.Rtl8139.Init.{init_card}

abbrev pub rtl8139_vendor_id : ℕ
rtl8139_vendor_id = 0x10ec

abbrev pub rtl8139_device_id : ℕ
rtl8139_device_id = 0x8139

abbrev pub same_bdf : Bdf → Bdf → Bool
same_bdf a b =
    a.bus_number == b.bus_number
    && a.device_number == b.device_number
    && a.function_number == b.function_number

-- The derived order of `BDF`.
abbrev pub before : Bdf → Bdf → Bool
before a b =
    ltb a.bus_number b.bus_number
    || (a.bus_number == b.bus_number
        && (ltb a.device_number b.device_number
            || (a.device_number == b.device_number && ltb a.function_number b.function_number)))

-- `BTreeMap::insert`
unfoldable pub insert {ℓ} : {A : Type ℓ} → Bdf → A → List (Bdf × A) → List (Bdf × A)
insert k a [] = (k, a) ∷ []
insert k a ((j, b) ∷ m) =
    if before k j
    then (k, a) ∷ (j, b) ∷ m
    else if same_bdf k j
    then (k, a) ∷ m
    else (j, b) ∷ insert k a m

-- The mapping of the interrupt line, if there is one.
unfoldable pub find_mapping : ℕ → List InterruptMapping → Option InterruptMapping
find_mapping line [] = none
find_mapping line (x ∷ xs) = if x.irq_number == line then some x else find_mapping line xs

-- What `init` changes: the cards, the network stack, the handlers and the I/O APIC.
pub record Cards : Type 0 where
  pub nics : List (Bdf × Rtl8139)
  pub network_stack : List (Bdf × Interface)
  pub handlers : List ℕ
  pub ioapic : Registers

-- The buffers of a card: their addresses, what the transmit buffers hold, and what those of its
-- interface hold.
pub record Buffers : Type 0 where
  pub rx_at : ℕ
  pub tx_at : List ℕ
  pub tx_bufs : List Bytes
  pub interface : ℕ → Bytes

-- The part of the loop of `init` for the interrupt of a card, whose handler is at `handler`.
unfoldable pub set_interrupt : ℕ → List InterruptMapping → Rtl8139 → Cards → Outcome Cards
set_interrupt handler mappings n c = elim (find_mapping n.pci.interrupt_line mappings) [
  | none ↦ ok c
  | some mapping ↦ do
    handlers ← register_handler n.vector handler c.handlers
    ok (record c {
      handlers = handlers;
      ioapic = remap 0 (mapping.global_system_interrupt % 2 ^ 32) n.vector c.ioapic;
    })
]

module _ {W : Type 0} (ports : Ports W) (memory : W → Bytes) where
  module _ (m : Mapper) (fuel handler : ℕ) (buffers : ℕ → Buffers)
      (mappings : List InterruptMapping) where
    -- The loop of `init` over the devices, of which this is number `i`.
    unfoldable pub init_cards : ℕ → List PciDevice → Cards → W → Outcome (Cards × W)
    init_cards i [] c w = ok (c, w)
    init_cards i (pci_dev ∷ devices) c w = do
      let b = buffers i
      (n, w1) ← init_card ports memory m fuel pci_dev b.rx_at b.tx_at b.tx_bufs w
      c1 ← set_interrupt handler mappings n c
      interface ← Interface.new b.interface n.pci.bdf
      init_cards (i + 1) devices
          (record c1 {
            nics = insert n.pci.bdf n c1.nics;
            network_stack = insert n.pci.bdf interface c1.network_stack;
          })
          w1

    -- `init`, on the devices of the bus: how many cards there are, and the devices that stay. `spawn`
    -- is `new_task` of the scheduler, at the entry of `rtl8139_bottom_half`.
    unfoldable pub init :
        (Scheduler → Outcome (ℕ × Scheduler))
        → List PciDevice
        → Cards
        → Scheduler
        → W
        → Outcome (ℕ × List PciDevice × Cards × Scheduler × W)
    init spawn devices c k w = do
      let (got, left) = get_device rtl8139_vendor_id rtl8139_device_id devices
      (c1, w1) ← init_cards 0 got c w
      (_, k1) ← spawn k
      ok (length c1.nics, left, c1, k1, w1)

  -- The loop of `rtl8139_handler` over the cards with its vector.
  unfoldable pub handle_cards :
      ℕ → List (Bdf × Rtl8139) → Scheduler → W → Outcome (List (Bdf × Rtl8139) × Scheduler × W)
  handle_cards vector [] k w = ok ([], k, w)
  handle_cards vector ((bdf, n) ∷ nics) k w = do
    (n1, k1, w1) ←
        (if n.vector == vector % 2 ^ 8 then handle_interrupt ports memory n k w else ok (n, k, w))
    (nics1, k2, w2) ← handle_cards vector nics k1 w1
    ok ((bdf, n1) ∷ nics1, k2, w2)

  -- `rtl8139_handler`; `end_of_interrupt` is the local APIC's.
  unfoldable pub rtl8139_handler :
      (W → W)
      → ℕ
      → List (Bdf × Rtl8139)
      → Scheduler
      → W
      → Outcome (List (Bdf × Rtl8139) × Scheduler × W)
  rtl8139_handler end_of_interrupt vector nics k w = do
    (nics', k', w') ← handle_cards vector nics k w
    ok (nics', k', end_of_interrupt w')
