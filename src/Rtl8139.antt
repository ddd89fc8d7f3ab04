-- ===== src/Rtl8139.antt =====
-- src/drivers/net/rtl8139.rs: the driver of the RTL8139 network card. The card is behind the ports;
-- `memory` reads the receive buffer, which the card writes, out of the state behind them.
pub mod Cards
pub mod Receive
pub mod Loop
pub mod Process
pub mod Init
pub mod Arrivals
use an_os_in_rust.Base.{
  ℕ, zero, suc, ◌+◌, ◌-◌, ◌*◌, ◌/◌, ◌%◌, ◌^◌, Bool, true, false, ◌==◌, ltb, if◌then◌else◌, Option,
  none, some, List, [], ◌∷◌, length, set, get_elem?, Outcome, ok, panic, ◌>>=◌, expect, bit_and,
  bit_or,
}
use an_os_in_rust.Base.Slices.{slice}
use an_os_in_rust.Ports.{Ports}
use an_os_in_rust.Sched.Guard.{Scheduler}
use an_os_in_rust.Semaphore.{Semaphore, wait, try_signal}
use an_os_in_rust.Semaphore
use an_os_in_rust.Paging.Mapper.{Mapper, phys_addr}
use an_os_in_rust.Net.Ethernet.{Bytes, EtherType, build}
use an_os_in_rust.Net.Interface.{Interface, recv_frame}
use an_os_in_rust.Pci.Device.{PciDevice, bar0, read_bar_register, write_control_register}

abbrev pub reg_tsd0 : ℕ
reg_tsd0 = 0x10

abbrev pub reg_tsad0 : ℕ
reg_tsad0 = 0x20

abbrev pub reg_rbstart : ℕ
reg_rbstart = 0x30

abbrev pub reg_command : ℕ
reg_command = 0x37

abbrev pub reg_capr : ℕ
reg_capr = 0x38

abbrev pub reg_cbr : ℕ
reg_cbr = 0x3a

abbrev pub reg_imr : ℕ
reg_imr = 0x3c

abbrev pub reg_isr : ℕ
reg_isr = 0x3e

abbrev pub reg_rcr : ℕ
reg_rcr = 0x44

abbrev pub reg_config_1 : ℕ
reg_config_1 = 0x52

abbrev pub rx_buf_size : ℕ
rx_buf_size = 8192

abbrev pub rx_buf_size_with_wrap : ℕ
rx_buf_size_with_wrap = rx_buf_size + 16 + 1500

-- `rx_at` and `tx_at` are the addresses of the buffers on the heap.
pub record Rtl8139 : Type 0 where
  pub pci : PciDevice
  pub vector : ℕ
  pub rx_at : ℕ
  pub tx_bufs : List Bytes
  pub tx_at : List ℕ
  pub next_tx_desc : ℕ
  pub pending_irqs : Semaphore

-- `capr + 4 + frame_size`, aligned to 4 bytes and wrapped.
unfoldable pub advance : ℕ → ℕ → ℕ
advance capr frame_size = bit_and (capr + 4 + frame_size + 3) (2 ^ 64 - 4) % rx_buf_size

-- What the register holds for a position, and the position for what it holds.
unfoldable pub capr_to_register : ℕ → ℕ
capr_to_register capr = (capr % 2 ^ 16 + 2 ^ 16 - 0x10) % 2 ^ 16

unfoldable pub capr_of_register : ℕ → ℕ
capr_of_register register = (register + 0x10) % rx_buf_size

-- `u16::from_le_bytes` of a slice of two bytes.
unfoldable pub from_le_bytes : Bytes → Outcome ℕ
from_le_bytes (a ∷ b ∷ []) = ok (a + b * 256)
from_le_bytes _ = panic

-- `split_at`
unfoldable pub split_at : ℕ → Bytes → Outcome (Bytes × Bytes)
split_at n bytes = do front ← slice 0 n bytes; back ← slice n (length bytes) bytes; ok (front, back)

-- The frame in the receive buffer at `capr`, after the size that its header states.
unfoldable pub read_frame : Bytes → ℕ → Outcome (ℕ × Bytes)
read_frame buf capr = do
  rx_buf ← slice capr (length buf) buf
  (rsr, remaining) ← split_at 2 rx_buf
  _ ← from_le_bytes rsr
  (frame_size, remaining') ← split_at 2 remaining
  size ← from_le_bytes frame_size
  frame ← slice 0 size remaining'
  ok (size, frame)

module _ {W : Type 0} (ports : Ports W) (memory : W → Bytes) where
  unfoldable pub ioaddr : Rtl8139 → ℕ → W → Outcome (ℕ × W)
  ioaddr d offset w =
      let (bar, w') = read_bar_register ports d.pci bar0 w in
      let base =
        (if bit_and bar 0x1 == 0 then bit_and bar (2 ^ 32 - 0x10) else bit_and bar (2 ^ 32 - 0x4))
        % 2 ^ 16 in
      if ltb (base + offset) (2 ^ 16) then ok (base + offset, w') else panic

  unfoldable pub outb : Rtl8139 → ℕ → ℕ → W → Outcome W
  outb d offset value w = ioaddr d offset w >>= λ (port, w'). ok (ports.outb port value w')

  unfoldable pub inb : Rtl8139 → ℕ → W → Outcome (ℕ × W)
  inb d offset w = ioaddr d offset w >>= λ (port, w'). ok (ports.inb port w')

  unfoldable pub outw : Rtl8139 → ℕ → ℕ → W → Outcome W
  outw d offset value w = ioaddr d offset w >>= λ (port, w'). ok (ports.outw port value w')

  unfoldable pub inw : Rtl8139 → ℕ → W → Outcome (ℕ × W)
  inw d offset w = ioaddr d offset w >>= λ (port, w'). ok (ports.inw port w')

  unfoldable pub outl : Rtl8139 → ℕ → ℕ → W → Outcome W
  outl d offset value w = ioaddr d offset w >>= λ (port, w'). ok (ports.outl port value w')

  -- The loop of `id`, from register `i` on.
  unfoldable pub id_from : ℕ → ℕ → Rtl8139 → W → Outcome (Bytes × W)
  id_from zero i d w = ok ([], w)
  id_from (suc left) i d w = do
    (byte, w1) ← inb d i w
    (bytes, w2) ← id_from left (i + 1) d w1
    ok (byte ∷ bytes, w2)

  unfoldable pub id : Rtl8139 → W → Outcome (Bytes × W)
  id d w = id_from 6 0 d w

  unfoldable pub transmit :
      Mapper
      → Bytes
      → List (Option Bytes)
      → EtherType
      → (Bytes → Outcome (Bytes × ℕ))
      → Rtl8139
      → W
      → Outcome (Rtl8139 × W)
  transmit m dest vlan_tags ethertype writer d w = do
    (src, w1) ← id d w
    let tx_i = d.next_tx_desc
    tx_buf ← expect (get_elem? d.tx_bufs tx_i)
    at ← expect (get_elem? d.tx_at tx_i)
    (frame, tx_buf') ← build tx_buf dest src vlan_tags ethertype writer
    found ← phys_addr m at
    addr ← expect found
    w2 ← outl d (reg_tsad0 + tx_i * 4) (addr % 2 ^ 32) w1
    w3 ← outl d (reg_tsd0 + tx_i * 4) (bit_and (length frame % 2 ^ 32) 0x1fff) w2
    ok (record d { next_tx_desc = (tx_i + 1) % 4; tx_bufs = set d.tx_bufs tx_i tx_buf' }, w3)

  -- The loop of `process_receive`: whether it has ended, or sleeps in `recv_frame`. `net` is what
  -- `NETWORK_STACK` holds for the device, and `now` the times of the rounds. Out of fuel is a panic.
  unfoldable pub receive_loop :
      (ℕ → ℕ)
      → Rtl8139
      → ℕ
      → ℕ
      → ℕ
      → Option Interface
      → Scheduler
      → W
      → Outcome (Bool × Option Interface × Scheduler × W)
  receive_loop now d cbr zero capr net k w = panic
  receive_loop now d cbr (suc fuel) capr net k w = do
    (cr, w1) ← inb d reg_command w
    let one_more = (do
      (frame_size, frame) ← read_frame (memory w1) capr
      i ← expect net
      (passed, i', k') ← recv_frame (now fuel) frame i k
      let capr' = advance capr frame_size
      let next =
          outw d reg_capr (capr_to_register capr') w1
          >>= (λ w2. receive_loop now d cbr fuel capr' (some i') k' w2)
      if passed then next else ok (false, some i', k', w1))
    if bit_and cr 0x1 == 0x1
        then ok (true, net, k, w1)
        else if cbr == capr
        then ok (true, net, k, w1)
        else one_more

  -- `process_receive` from a pass of its `wait`: whether it has returned.
  unfoldable pub process_receive :
      (ℕ → ℕ)
      → ℕ
      → Rtl8139
      → Option Interface
      → Scheduler
      → W
      → Outcome (Bool × Rtl8139 × Option Interface × Scheduler × W)
  process_receive now fuel d net k w = do
    (passed, irqs, k1) ← wait (now fuel) d.pending_irqs k
    let d1 = record d { pending_irqs = irqs }
    let received = (do
      (cbr, w1) ← inw d1 reg_cbr w
      (capr, w2) ← inw d1 reg_capr w1
      (ended, net', k2, w3) ← receive_loop now d1 cbr fuel (capr_of_register capr) net k1 w2
      ok (ended, d1, net', k2, w3))
    if passed then received else ok (false, d1, net, k1, w)

  -- What `rtl8139_handler` does with one card that has its vector.
  unfoldable pub handle_interrupt : Rtl8139 → Scheduler → W → Outcome (Rtl8139 × Scheduler × W)
  handle_interrupt n k w = do
    (status, w1) ← inw n reg_isr w
    w2 ← outw n reg_isr 0x05 w1
    let signalled =
        try_signal n.pending_irqs k
        >>= (λ (_, irqs, k'). ok (record n { pending_irqs = irqs }, k', w2))
    if bit_and status 1 == 1 then signalled else ok (n, k, w2)
