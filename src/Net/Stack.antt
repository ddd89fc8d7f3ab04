-- ===== src/Net/Stack.antt =====
-- src/net/mod.rs: what the network stack does with a frame from an interface. Output is left out; the
-- readers of the frame that it calls are not.
pub mod Answer
use an_os_in_rust.Base.{
  ℕ, Bool, true, false, ◌&&◌, ◌==◌, Option, none, some, List, [], ◌∷◌, if◌then◌else◌, Outcome, ok,
  panic, ◌>>=◌, expect,
}
use an_os_in_rust.Ports.{Ports}
use an_os_in_rust.Sched.Guard.{Scheduler}
use an_os_in_rust.Paging.Mapper.{Mapper}
use an_os_in_rust.Net.Ethernet.{
  Bytes, EtherType, arp, other, try_from_bytes, dest, src, ethertype, payload,
}
use an_os_in_rust.Net.Arp.{target_protocol_address, reply_writer}
use an_os_in_rust.Net.Interface.{Interface, Progress, handle_with}
use an_os_in_rust.Rtl8139
use an_os_in_rust.Rtl8139.{Rtl8139}

-- `Ok(())` and the error of `handle_frame`.
pub data Handled : Type 0 where
  done invalid_frame : Handled

-- The address 192.168.16.40.
abbrev pub me : Bytes
me = 192 ∷ 168 ∷ 16 ∷ 40 ∷ []

-- `==` on byte slices.
unfoldable pub same_bytes : Bytes → Bytes → Bool
same_bytes [] [] = true
same_bytes [] (y ∷ ys) = false
same_bytes (x ∷ xs) [] = false
same_bytes (x ∷ xs) (y ∷ ys) = x == y && same_bytes xs ys

-- What `NICS` holds for the device of the interface, and the state behind the ports.
pub record Devices (W : Type 0) : Type 0 where
  pub nic : Option Rtl8139
  pub world : W

module _ {W : Type 0} (ports : Ports W) (memory : W → Bytes) (m : Mapper) where
  -- The reply.
  unfoldable pub answer_request : Bytes → Devices W → Outcome (Handled × Devices W)
  answer_request frame s = do
    d ← expect s.nic
    request ← payload frame
    (sha, w1) ← Rtl8139.id ports memory d s.world
    to ← dest frame
    (d', w2) ←
        Rtl8139.transmit ports memory m to (none ∷ none ∷ []) arp (reply_writer request sha) d w1
    ok (done, record { nic = some d'; world = w2 })

  unfoldable pub process_arp : Bytes → Devices W → Outcome (Handled × Devices W)
  process_arp frame s = do
    request ← payload frame
    target ← target_protocol_address request
    let answered = answer_request frame s
    if same_bytes target me then answered else ok (done, s)

  -- The code of `handle_frame` between its semaphores.
  unfoldable pub process_frame : Bytes → Devices W → Outcome (Handled × Devices W)
  process_frame buf s = elim (try_from_bytes buf) [
    | none ↦ ok (invalid_frame, s)
    | some frame ↦ do
      _ ← src frame
      _ ← dest frame
      kind ← ethertype frame
      (elim kind [ arp ↦ process_arp frame s | other _ _ ↦ ok (done, s) ])
  ]

  -- `Interface::handle_frame`
  unfoldable pub handle_frame :
      ℕ
      → Interface
      → Scheduler
      → Devices W
      → Outcome (Progress Handled × Interface × Scheduler × Devices W)
  handle_frame now i k s = handle_with process_frame now i k s
