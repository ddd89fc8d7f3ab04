-- ===== src/Rtl8139/Init.antt =====
-- src/drivers/net/rtl8139.rs: how a card is set up. The contents of the new buffers are arguments, as
-- are their addresses.
use an_os_in_rust.Base.{
  ℕ, zero, suc, ◌+◌, ◌*◌, ◌%◌, ◌^◌, ◌==◌, if◌then◌else◌, List, [], ◌∷◌, Outcome, ok, panic, ◌>>=◌,
  expect, bit_and, bit_or,
}
use an_os_in_rust.Ports.{Ports}
use an_os_in_rust.Semaphore
use an_os_in_rust.Paging.Mapper.{Mapper, phys_addr}
use an_os_in_rust.Net.Ethernet.{Bytes}
use an_os_in_rust.Pci.Device.{PciDevice, write_control_register}
use an_os_in_rust.Rtl8139.{
  Rtl8139, inb, outb, outw, outl, reg_command, reg_config_1, reg_rbstart, reg_tsad0, reg_rcr,
  reg_imr,
}

-- `RTL8139 { … }`
unfoldable pub new_card : PciDevice → ℕ → List ℕ → List Bytes → Outcome Rtl8139
new_card pci rx_at tx_at tx_bufs = Semaphore.new 0 128 >>= λ irqs. ok (record {
  pci = pci;
  vector = 0x26;
  rx_at = rx_at;
  tx_bufs = tx_bufs;
  tx_at = tx_at;
  next_tx_desc = 0;
  pending_irqs = irqs;
})

module _ {W : Type 0} (ports : Ports W) (memory : W → Bytes) (m : Mapper) where
  -- `while rtl8139.inb(REG_COMMAND) & 0x10 != 0`. Out of fuel is a panic.
  unfoldable pub await_reset : ℕ → Rtl8139 → W → Outcome W
  await_reset zero d w = panic
  await_reset (suc fuel) d w = do
    (command, w') ← inb ports memory d reg_command w
    let again = await_reset fuel d w'
    if bit_and command 0x10 == 0 then ok w' else again

  unfoldable pub write_address : Rtl8139 → ℕ → ℕ → W → Outcome W
  write_address d register at w = do
    found ← phys_addr m at
    addr ← expect found
    outl ports memory d register (addr % 2 ^ 32) w

  -- The loop over the transmit buffers, from buffer `i` on.
  unfoldable pub set_tx_buffers : ℕ → List ℕ → Rtl8139 → W → Outcome W
  set_tx_buffers i [] d w = ok w
  set_tx_buffers i (at ∷ rest) d w =
      write_address d (reg_tsad0 + i * 4) at w >>= λ w'. set_tx_buffers (i + 1) rest d w'

  -- `RTL8139::init`
  unfoldable pub init_card : ℕ → PciDevice → ℕ → List ℕ → List Bytes → W → Outcome (Rtl8139 × W)
  init_card fuel pci rx_at tx_at tx_bufs w = do
    d ← new_card pci rx_at tx_at tx_bufs
    let w1 = write_control_register ports d.pci 0x0005 w
    w2 ← outb ports memory d reg_config_1 0x0 w1
    w3 ← outb ports memory d reg_command 0x10 w2
    w4 ← await_reset fuel d w3
    w5 ← write_address d reg_rbstart d.rx_at w4
    w6 ← set_tx_buffers 0 d.tx_at d w5
    w7 ← outl ports memory d reg_rcr (bit_or 0b1111 (2 ^ 7)) w6
    w8 ← outb ports memory d reg_command 0x0c w7
    w9 ← outw ports memory d reg_imr (bit_or 0x0005 (2 ^ 4)) w8
    ok (d, w9)
