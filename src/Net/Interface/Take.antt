-- ===== src/Net/Interface/Take.antt =====
-- Frames that are taken from the ring of src/net/mod.rs.
use an_os_in_rust.Base.{
  ℕ, suc, ◌+◌, ◌-◌, ◌<◌, ◌≡◌, refl, sym, ap, ◌∙◌, List, ◌∷◌, arith, length, get_elem?, Outcome, ok,
}
use an_os_in_rust.Sched.Guard.{Scheduler}
use an_os_in_rust.Semaphore.{pop_front}
use an_os_in_rust.Semaphore.Progress.{Follows-KnowsAll, Follows-trans, wait-passes, signal-passes}
use an_os_in_rust.Net.Ethernet.{Bytes}
use an_os_in_rust.Net.Interface.{Interface, next_slot, returned, process_next, handle_with}
use an_os_in_rust.Net.Interface.Ring.{contents, queued, frames, IsRing, fetch-contents}
use an_os_in_rust.Net.Interface.Queue.{IsReady, length-queued, without_full, frames-length}

-- The interface after a frame was taken and the wait and the signal passed.
abbrev freed : Interface → Interface
freed i = record i {
  recv_full = record (i.recv_full) {
    count = i.recv_full.count - 1;
    releasing = (pop_front i.recv_full.releasing).1;
  };
  recv_empty = record (i.recv_empty) {
    count = i.recv_empty.count + 1;
    waiting = (pop_front i.recv_empty.waiting).1;
  };
  recv_tail = next_slot i.recv_tail;
}

freed-IsRing : (i : Interface) → IsRing i → 0 < i.recv_full.count → IsRing (freed i)
unfolding pop_front next_slot
freed-IsRing i v some_full = record {
  empty_max = v.empty_max;
  full_max = v.full_max;
  tokens = omega (arith, v.tokens);
  nobody_waits = rw (v.nobody_waits) refl;
  nobody_releases = v.nobody_releases;
  nobody_fills = rw (v.nobody_fills) refl;
  tail_lt = omega (arith, v.tail_lt);
  head_ahead = omega (arith, v.head_ahead, v.tail_lt);
  sized = v.sized;
}

-- The first frame of a queue that is not empty.
pub first_frame :
    (i : Interface) (frame : Bytes) (rest : List Bytes)
    → frames i ≡ frame ∷ rest
    → (contents (get_elem? i.bufs i.recv_tail) ≡ frame) × (frames (freed i) ≡ rest)
unfolding frames queued
first_frame i frame rest e =
    let size : i.recv_full.count ≡ suc (length rest) =
      sym (length-queued i.recv_full.count i.recv_tail i.bufs) ∙ ap length e in
    let (here, there) =
      split (length rest) i.recv_tail (ap (λ n. queued n i.recv_tail i.bufs) (sym size) ∙ e) in
    (here, ap (λ n. queued n (next_slot i.recv_tail) i.bufs) (omega (arith, size)) ∙ there)
  where
    split :
        (n t : ℕ)
        → queued (suc n) t i.bufs ≡ frame ∷ rest
        → (contents (get_elem? i.bufs t) ≡ frame) × (queued n (next_slot t) i.bufs ≡ rest)
    split n t h = (cc, cc)

module _ {R S : Type 0} (process : Bytes → S → Outcome (R × S)) where
  -- Where a frame waits and the code between the semaphores returns a result for the first one:
  -- `handle_frame` returns it, without waiting, and that frame is gone from the queue.
  pub handle_with-first :
      (now : ℕ) (i : Interface) (k : Scheduler) (s s' : S) (r : R) (frame : Bytes)
      (rest : List Bytes)
      → IsReady i k
      → frames i ≡ frame ∷ rest
      → process frame s ≡ ok (r, s')
      → (i' : Interface) × (k' : Scheduler) × (handle_with process now i k s
          ≡ ok (returned r, i', k', s'))
        × IsReady i' k'
        × (frames i' ≡ rest)
  unfolding handle_with process_next
  handle_with-first now i k s s' r frame rest v e done =
      let (here, there) = first_frame i frame rest e in
      let some_full : 0 < i.recv_full.count = omega (arith, frames-length i, ap length e) in
      let (k1, e1, f1) =
        wait-passes now i.recv_full k some_full v.running (rw (v.ring.nobody_fills) tt) in
      let got = fetch-contents (without_full i) v.ring.sized v.ring.tail_lt in
      let (k2, e2, f2) =
        signal-passes now i.recv_empty k1
          (omega (arith, v.ring.tokens, v.ring.empty_max, some_full))
          (rw (f1.same_running) (f1.knows k.running v.running)) (rw (v.ring.nobody_waits) tt) in
      let f = Follows-trans k k1 k2 f1 f2 in
      (
        freed i,
        k2,
        rw (e1, got, here, done, e2) refl,
        record {
          ring = freed-IsRing i v.ring some_full;
          running = rw (f.same_running) (f.knows k.running v.running);
          waiters = Follows-KnowsAll k k2 i.recv_full.waiting f v.waiters;
        },
        there,
      )
