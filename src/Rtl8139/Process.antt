-- ===== src/Rtl8139/Process.antt =====
-- A round of the driver's task in src/drivers/net/rtl8139.rs.
use an_os_in_rust.Base.{ℕ, ◌-◌, ◌%◌, ◌<◌, ◌≡◌, refl, true, some, List, length, ok}
use an_os_in_rust.Ports.{Ports}
use an_os_in_rust.Sched.Guard.{Scheduler}
use an_os_in_rust.Semaphore.{pop_front}
use an_os_in_rust.Semaphore.Progress.{KnowsAll, Follows-KnowsAll, wait-passes}
use an_os_in_rust.Net.Ethernet.{Bytes}
use an_os_in_rust.Net.Interface.{Interface}
use an_os_in_rust.Net.Interface.Ring.{frames}
use an_os_in_rust.Net.Interface.Queue.{IsReady}
use an_os_in_rust.Rtl8139.{Rtl8139, ioaddr, inb, inw, outw, rx_buf_size, process_receive}
use an_os_in_rust.Rtl8139.Receive.{capr_of_register-capr_to_register}
use an_os_in_rust.Rtl8139.Arrivals.{Arrived, IsSteady}
use an_os_in_rust.Rtl8139.Loop.{offer_all, AllFit, receive_loop-delivers}

-- The driver after it took an interrupt that was pending.
abbrev pub one_taken : Rtl8139 → Rtl8139
one_taken d = record d {
  pending_irqs = record (d.pending_irqs) {
    count = d.pending_irqs.count - 1;
    releasing = (pop_front d.pending_irqs.releasing).1;
  };
}

module _ {W : Type 0} (ports : Ports W) (memory : W → Bytes) where
  one_taken-IsSteady :
      (d : Rtl8139) (buf : Bytes) (cbr : ℕ) (At : ℕ → W → Type 0)
      → IsSteady ports memory d buf cbr At
      → IsSteady ports memory (one_taken d) buf cbr At
  unfolding inb inw outw ioaddr
  one_taken-IsSteady d buf cbr At v = record {
    buffer = v.buffer;
    command = v.command;
    position = v.position;
    written = v.written;
    moves = v.moves;
  }

  -- Where an interrupt is pending and the tasks exist, the card behaves as documented with the driver's
  -- position at a multiple of four in the ring, no further frame arrives during the call, there is
  -- more fuel than frames, the network stack is ready and every frame fits its buffers: a call of
  -- `process_receive` returns. It has offered every frame that had arrived to the network stack, in order,
  -- and moved the card's read position up to its write position.
  pub process_receive-delivers :
      (now : ℕ → ℕ) (d : Rtl8139) (buf : Bytes) (cbr : ℕ) (At : ℕ → W → Type 0) (fuel c : ℕ)
      (fs : List Bytes) (i : Interface) (k : Scheduler) (w : W)
      → 0 < d.pending_irqs.count
      → KnowsAll k d.pending_irqs.releasing
      → IsSteady ports memory d buf cbr At
      → Arrived buf cbr c fs
      → c < rx_buf_size
      → c % 4 ≡ 0
      → At c w
      → IsReady i k
      → AllFit fs
      → length fs < fuel
      → (i' : Interface) × (k' : Scheduler) × (w' : W) × (process_receive ports memory now fuel d
            (some i)
            k
            w
          ≡ ok (true, one_taken d, some i', k', w'))
        × IsReady i' k'
        × At cbr w'
        × (frames i' ≡ offer_all fs (frames i))
  unfolding process_receive
  process_receive-delivers now d buf cbr At fuel c fs i k w pending known v arrived low aligned at
        ready fit enough =
      let (k1, e1, f) = wait-passes (now fuel) d.pending_irqs k pending ready.running known in
      let v1 = one_taken-IsSteady d buf cbr At v in
      let (w1, e2, at1) = v1.written c w at in
      let (w2, e3, at2) = v1.position c w1 at1 in
      let back = capr_of_register-capr_to_register c low in
      let ready1 : IsReady i k1 = record {
        ring = ready.ring;
        running = rw (f.same_running) (f.knows k.running ready.running);
        waiters = Follows-KnowsAll k k1 i.recv_full.waiting f ready.waiters;
      } in
      let (i', k', w', e4, ready', at', all) =
        receive_loop-delivers ports memory now (one_taken d) buf cbr At fuel c fs i k1 w2 v1 arrived
          at2 low aligned ready1 fit enough in
      (i', k', w', rw (e1, e2, e3, back, e4) refl, ready', at', all)
