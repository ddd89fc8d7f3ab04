-- ===== src/Examples/Frames.antt =====
-- Examples for src/net/mod.rs and src/drivers: the frames on their way to and from the network stack.
use an_os_in_rust.Base.{
  ℕ, zero, suc, ◌-◌, ◌%◌, ◌≤◌, ◌≡◌, refl, ap, subst, true, none, some, List, [], ◌∷◌, ◌++◌, arith,
  length, replicate, get_elem?, ok, Outcome, ◌==◌, if◌then◌else◌, bit_and,
}
use an_os_in_rust.Sched.Guard.{Scheduler}
use an_os_in_rust.Net.Ethernet.{Bytes}
use an_os_in_rust.Ports.{Ports}
use an_os_in_rust.Pci.Device.{
  Bdf, read_bar_register, read_header_type, read_config, cfg_addr, read_addr, device_address, shl,
  bar_index,
}
use an_os_in_rust.Net.Interface.{RxBuf, Interface, recv_frame}
use an_os_in_rust.Net.Interface.Ring.{contents, queued, frames}
use an_os_in_rust.Net.Interface.Queue.{offer, IsReady, recv_frame-offer}
use an_os_in_rust.Net.Interface.Traffic.{accepted, quiet, receives, Traffic-fifo}
use an_os_in_rust.Rtl8139.{Rtl8139, capr_to_register, ioaddr, inb, inw, outw, process_receive}
use an_os_in_rust.Rtl8139.Arrivals.{Arrived, caught_up, one_more, IsSteady}
use an_os_in_rust.Rtl8139.Loop.{offer_all}
use an_os_in_rust.Rtl8139.Process.{one_taken, process_receive-delivers}
use an_os_in_rust.Examples.Tasks.{machine, idle_found, task_of}

abbrev slot : RxBuf
slot = record { bytes = replicate 1526 0; len = 64 }

abbrev place : Bdf
place = record { bus_number = 0; device_number = 3; function_number = 0 }

-- A ring with `n` frames in front of slot `n`.
abbrev ring_of : ℕ → Interface
ring_of n = record {
  device = place;
  bufs = slot ∷ slot ∷ slot ∷ slot ∷ [];
  recv_empty = record { count = 4 - n; max = 4; waiting = []; releasing = [] };
  recv_full = record { count = n; max = 4; waiting = []; releasing = [] };
  recv_head = n % 4;
  recv_tail = 0;
}

abbrev frame : Bytes
frame = replicate 64 0

slots_sized :
    (n : ℕ) (buf : RxBuf)
    → get_elem? (slot ∷ slot ∷ slot ∷ slot ∷ []) n ≡ some buf
    → (length buf.bytes ≡ 1526) × (buf.len ≤ 1526)
slots_sized n buf h =
    subst (λ b. (length b.bytes ≡ 1526) × (b.len ≤ 1526)) (is_slot n h) (refl, omega arith)
  where
    is_slot : (n : ℕ) → get_elem? (slot ∷ slot ∷ slot ∷ slot ∷ []) n ≡ some buf → slot ≡ buf
    is_slot zero e = cc
    is_slot (suc zero) e = cc
    is_slot (suc (suc zero)) e = cc
    is_slot (suc (suc (suc zero))) e = cc
    is_slot (suc (suc (suc (suc n)))) e = cc

ring_of-IsReady : (n : ℕ) → n ≤ 4 → IsReady (ring_of n) machine
ring_of-IsReady n h = record {
  ring = record {
    empty_max = refl;
    full_max = refl;
    tokens = omega arith;
    nobody_waits = refl;
    nobody_releases = refl;
    nobody_fills = refl;
    tail_lt = omega arith;
    head_ahead = omega arith;
    sized = record { four = refl; each = slots_sized };
  };
  running = (task_of 0 50 1, idle_found);
  waiters = tt;
}

recv_frame-offer_example :
    (i' : Interface) × (k' : Scheduler) × (recv_frame 0 frame (ring_of 0) machine
      ≡ ok (true, i', k'))
    × IsReady i' k'
    × (frames i' ≡ offer frame (frames (ring_of 0)))
recv_frame-offer_example =
    recv_frame-offer 0 frame (ring_of 0) machine (ring_of-IsReady 0 (omega arith)) (omega arith)

-- A step that remembers the frames it is given.
abbrev remember : Bytes → List Bytes → Outcome (ℕ × List Bytes)
remember bytes seen = ok (length bytes, seen ++ bytes ∷ [])

one_frame : frames (ring_of 1) ≡ frame ∷ []
unfolding frames queued contents
one_frame = refl

abbrev after_one : Interface
after_one = recv_frame-offer_example.0

Traffic-fifo_example :
    frames (ring_of 0) ++ ([] ++ accepted frame (ring_of 0)) ≡ [] ++ frames after_one
Traffic-fifo_example =
    Traffic-fifo remember (ring_of 0) after_one ([] ++ accepted frame (ring_of 0)) [] (
      receives 0 frame machine recv_frame-offer_example.1 quiet (ring_of-IsReady 0 (omega arith))
        (omega arith) recv_frame-offer_example.2)

-- A card whose ports start at 0xc000, with the address that was written for the bus and the register
-- with the driver's position.
record Card : Type 0 where
  address : ℕ
  capr : ℕ

-- The card has written up to 68.
abbrev card_ports : Ports Card
card_ports = record {
  outb = λ port value w. w;
  inb = λ port w. (0, w);
  outw = λ port value w. if port == 0xc038 then record w { capr = value } else w;
  inw = λ port w. (if port == 0xc038 then w.capr else 68, w);
  outl = λ port value w. if port == 0xcf8 then record w { address = value } else w;
  inl = λ port w. (if bit_and w.address 0xff == 0x0c then 0 else 0xc001, w);
}

abbrev received : Bytes
received = [] ++ (1 ∷ 0 ∷ 64 ∷ 0 ∷ (frame ++ replicate 9640 0))

abbrev buffer_of : Card → Bytes
buffer_of w = received

abbrev driver : Rtl8139
driver = record {
  pci = record {
    bdf = place;
    device_id = 0x8139;
    vendor_id = 0x10ec;
    subsystem_id = 0;
    subsystem_vendor_id = 0;
    interrupt_pin = 1;
    interrupt_line = 11;
    msi_capability_pointer = none;
  };
  vector = 0x26;
  rx_at = 0x200000;
  tx_bufs = [];
  tx_at = [];
  next_tx_desc = 0;
  pending_irqs = record { count = 1; max = 128; waiting = []; releasing = [] };
}

abbrev AtPosition : ℕ → Card → Type 0
AtPosition c w = w.capr ≡ capr_to_register c

driver-IsSteady : IsSteady card_ports buffer_of driver received 68 AtPosition
unfolding inb inw outw ioaddr read_bar_register read_header_type read_config cfg_addr read_addr
    device_address shl bar_index
driver-IsSteady = record {
  buffer = λ c w at. refl;
  command = λ c w at. (0, _, refl, λ behind. refl, at);
  position = λ c w at. (_, ap (λ r. ok (r, record w { address = 0x80001810 })) at, at);
  written = λ c w at. (_, refl, at);
  moves = λ c c' w at. (_, refl, refl);
}

one-Arrived : Arrived received 68 0 (frame ∷ [])
one-Arrived =
    one_more [] (replicate 9640 0) frame 1 0 64 0 refl refl (λ e. omega (arith, e)) caught_up

starts_at_0 : AtPosition 0 (record { address = 0; capr = 0xfff0 })
unfolding capr_to_register
starts_at_0 = refl

process_receive-delivers_example :
    (i' : Interface) × (k' : Scheduler) × (w' : Card) × (process_receive card_ports buffer_of
        (λ n. n)
        2
        driver
        (some (ring_of 0))
        machine
        (record { address = 0; capr = 0xfff0 })
      ≡ ok (true, one_taken driver, some i', k', w'))
    × IsReady i' k'
    × AtPosition 68 w'
    × (frames i' ≡ offer_all (frame ∷ []) (frames (ring_of 0)))
process_receive-delivers_example =
    process_receive-delivers card_ports buffer_of (λ n. n) driver received 68 AtPosition 2 0
      (frame ∷ []) (ring_of 0) machine (record { address = 0; capr = 0xfff0 }) (omega arith) tt
      driver-IsSteady one-Arrived (omega arith) refl starts_at_0 (ring_of-IsReady 0 (omega arith))
      (omega arith, tt) (omega arith)
