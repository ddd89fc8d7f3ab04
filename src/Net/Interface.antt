-- ===== src/Net/Interface.antt =====
-- src/net/mod.rs: a network interface with its ring of four buffers. The driver's task stores frames
-- and the network stack's task takes them; two semaphores count the empty and the full buffers. A
-- pass of the loop of a semaphore is a step, as in Semaphore. The locks of the buffers are never
-- contended: a buffer is locked only by the one task whose semaphore let it pass.
pub mod Ring
pub mod Queue
pub mod Take
pub mod Traffic
use an_os_in_rust.Base.{
  ℕ, ◌+◌, ◌%◌, Bool, true, false, Option, none, some, List, [], ◌∷◌, if◌then◌else◌, length, set,
  get_elem?, Outcome, ok, panic, ◌>>=◌, expect,
}
use an_os_in_rust.Base.Slices.{slice, write_at}
use an_os_in_rust.Sched.Guard.{Scheduler}
use an_os_in_rust.Semaphore
use an_os_in_rust.Semaphore.{Semaphore, try_wait, wait, signal}
use an_os_in_rust.Net.Ethernet.{Bytes}
use an_os_in_rust.Pci.Device.{Bdf}

pub record RxBuf : Type 0 where
  pub bytes : Bytes
  pub len : ℕ

-- `RxBuf::new`: what the memory of the buffer held before is an argument.
unfoldable pub new_rx_buf : Bytes → RxBuf
new_rx_buf bytes = record { bytes = bytes; len = 0 }

pub record Interface : Type 0 where
  pub device : Bdf
  pub bufs : List RxBuf
  pub recv_empty : Semaphore
  pub recv_full : Semaphore
  pub recv_head : ℕ
  pub recv_tail : ℕ

unfoldable pub new : (ℕ → Bytes) → Bdf → Outcome Interface
new memory device = do
  empty ← Semaphore.new 4 4
  full ← Semaphore.new 0 4
  ok (record {
    device = device;
    bufs =
        new_rx_buf (memory 0)
        ∷ new_rx_buf (memory 1)
        ∷ new_rx_buf (memory 2)
        ∷ new_rx_buf (memory 3)
        ∷ [];
    recv_empty = empty;
    recv_full = full;
    recv_head = 0;
    recv_tail = 0;
  })

-- `|n| (n + 1) % 4`; `update` gives back the old value.
unfoldable pub next_slot : ℕ → ℕ
next_slot n = (n + 1) % 4

-- The buffer at the head gets the frame, and the head moves on.
unfoldable pub store : Bytes → Interface → Outcome Interface
store bytes i = do
  let next = i.recv_head
  buf ← expect (get_elem? i.bufs next)
  bytes' ← write_at 0 bytes buf.bytes
  ok (record i {
    recv_head = next_slot next;
    bufs = set i.bufs next (record { bytes = bytes'; len = length bytes });
  })

-- `recv_frame` after `try_wait` succeeded.
unfoldable pub keep_frame :
    ℕ → Bytes → Interface → Scheduler → Outcome (Bool × Interface × Scheduler)
keep_frame now bytes i k = do
  i' ← store bytes i
  (passed, full, k') ← signal now i'.recv_full k
  ok (passed, record i' { recv_full = full }, k')

-- `Interface::recv_frame`, to the first pass of its `signal`: whether it has returned by then.
unfoldable pub recv_frame :
    ℕ → Bytes → Interface → Scheduler → Outcome (Bool × Interface × Scheduler)
recv_frame now bytes i k = do
  (passed, empty, k') ← try_wait i.recv_empty k
  if passed then keep_frame now bytes (record i { recv_empty = empty }) k' else ok (true, i, k')

-- The frame in the buffer at the tail, which moves on.
unfoldable pub fetch : Interface → Outcome (Bytes × Interface)
fetch i = do
  let next = i.recv_tail
  buf ← expect (get_elem? i.bufs next)
  bytes ← slice 0 buf.len buf.bytes
  ok (bytes, record i { recv_tail = next_slot next })

-- Where a pass of `handle_frame` ends: asleep before it has a frame, asleep with a frame processed,
-- or returned.
pub data Progress (R : Type 0) : Type 0 where
  waiting : Progress R
  releasing : R → Progress R
  returned : R → Progress R

module _ {R S : Type 0} (process : Bytes → S → Outcome (R × S)) where
  -- `handle_frame` after `wait` let it pass. `process` stands for the code between the semaphores.
  unfoldable pub process_next :
      ℕ → Interface → Scheduler → S → Outcome (Progress R × Interface × Scheduler × S)
  process_next now i k s = do
    (bytes, i') ← fetch i
    (result, s') ← process bytes s
    (passed, empty, k') ← signal now i'.recv_empty k
    ok (
      if passed then returned result else releasing result,
      record i' { recv_empty = empty },
      k',
      s',
    )

  -- `Interface::handle_frame`, from a pass of its `wait` to the first pass of its `signal`.
  unfoldable pub handle_with :
      ℕ → Interface → Scheduler → S → Outcome (Progress R × Interface × Scheduler × S)
  handle_with now i k s = do
    (passed, full, k') ← wait now i.recv_full k
    let i' = record i { recv_full = full }
    let next = process_next now i' k' s
    if passed then next else ok (waiting, i', k', s)
