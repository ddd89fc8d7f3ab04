-- ===== src/Net/Interface/Queue.antt =====
-- The ring of src/net/mod.rs is a queue of at most four frames.
use an_os_in_rust.Base.{
  ℕ, zero, suc, ◌+◌, ◌-◌, ◌≤◌, ◌<◌, ◌≡◌, refl, ap, ap₂, ◌∙◌, true, false, List, [], ◌∷◌, ◌++◌,
  arith, length, set, ltb, lt→ltb, if◌then◌else◌, Bool-cases, inl, inr, get_elem?-set_self, ok,
  some,
}
use an_os_in_rust.Sched.Guard.{Scheduler}
use an_os_in_rust.Semaphore.{pop_front}
use an_os_in_rust.Semaphore.Progress.{
  Knows, KnowsAll, Follows-KnowsAll, Follows-trans, try_wait-passes, try_wait-fails, signal-passes,
}
use an_os_in_rust.Net.Ethernet.{Bytes}
use an_os_in_rust.Net.Interface.{RxBuf, Interface, next_slot, keep_frame, recv_frame}
use an_os_in_rust.Net.Interface.Ring.{
  contents, queued, frames, IsRing, queued-set, queued-snoc, set-IsSized, store-contents,
}

-- A queue that drops what it has no room for.
unfoldable pub offer : Bytes → List Bytes → List Bytes
offer bytes q = if ltb (length q) 4 then q ++ bytes ∷ [] else q

-- The running task and the tasks that wait for a frame exist, and the ring is well formed.
pub record IsReady (i : Interface) (k : Scheduler) : Type 0 where
  pub ring : IsRing i
  pub running : Knows k k.running
  pub waiters : KnowsAll k i.recv_full.waiting

pub length-queued : (n t : ℕ) (bufs : List RxBuf) → length (queued n t bufs) ≡ n
unfolding queued
length-queued zero t bufs = refl
length-queued (suc n) t bufs = ap suc (length-queued n (next_slot t) bufs)

KnowsAll-pop : (k : Scheduler) (ids : List ℕ) → KnowsAll k ids → KnowsAll k ((pop_front ids).1)
unfolding pop_front
KnowsAll-pop k [] known = tt
KnowsAll-pop k (id ∷ ids) (_, rest) = rest

-- A full ring drops the frame.
recv_frame-full :
    (now : ℕ) (bytes : Bytes) (i : Interface) (k : Scheduler)
    → i.recv_empty.count ≡ 0
    → recv_frame now bytes i k ≡ ok (true, i, k)
unfolding recv_frame
recv_frame-full now bytes i k e = rw (try_wait-fails i.recv_empty k e) refl

-- The interface after a frame went to the buffer `buf`.
abbrev kept : RxBuf → Interface → Interface
kept buf i = record i {
  recv_empty = record (i.recv_empty) {
    count = i.recv_empty.count - 1;
    releasing = (pop_front i.recv_empty.releasing).1;
  };
  recv_full = record (i.recv_full) {
    count = i.recv_full.count + 1;
    waiting = (pop_front i.recv_full.waiting).1;
  };
  recv_head = next_slot i.recv_head;
  bufs = set i.bufs i.recv_head buf;
}

-- After `try_wait`, and after `wait`.
abbrev without_empty : Interface → Interface
without_empty i = record i {
  recv_empty = record (i.recv_empty) {
    count = i.recv_empty.count - 1;
    releasing = (pop_front i.recv_empty.releasing).1;
  };
}

abbrev pub without_full : Interface → Interface
without_full i = record i {
  recv_full = record (i.recv_full) {
    count = i.recv_full.count - 1;
    releasing = (pop_front i.recv_full.releasing).1;
  };
}

pub frames-length : (i : Interface) → length (frames i) ≡ i.recv_full.count
unfolding frames
frames-length i = length-queued i.recv_full.count i.recv_tail i.bufs

full_queue : (i : Interface) → i.recv_empty.count ≡ 0 → IsRing i → ltb (length (frames i)) 4 ≡ false
full_queue i e v =
    let four : length (frames i) ≡ 4 = omega (arith, frames-length i, e, v.tokens) in rw (four) refl

kept-IsRing :
    (buf : RxBuf) (i : Interface)
    → IsRing i
    → 0 < i.recv_empty.count
    → length buf.bytes ≡ 1526
    → buf.len ≤ 1526
    → IsRing (kept buf i)
unfolding pop_front next_slot
kept-IsRing buf i v room size fits = record {
  empty_max = v.empty_max;
  full_max = v.full_max;
  tokens = omega (arith, v.tokens);
  nobody_waits = v.nobody_waits;
  nobody_releases = rw (v.nobody_releases) refl;
  nobody_fills = v.nobody_fills;
  tail_lt = v.tail_lt;
  head_ahead = omega (arith, v.head_ahead, v.tail_lt);
  sized = set-IsSized i.bufs i.recv_head buf v.sized (omega (arith, v.head_ahead)) size fits;
}

kept-frames :
    (buf : RxBuf) (bytes : Bytes) (i : Interface)
    → IsRing i
    → 0 < i.recv_empty.count
    → contents (some buf) ≡ bytes
    → frames (kept buf i) ≡ frames i ++ bytes ∷ []
unfolding frames
kept-frames buf bytes i v room same =
    let head_lt : i.recv_head < 4 = omega (arith, v.head_ahead) in
    ap (λ n. queued n i.recv_tail (set i.bufs i.recv_head buf)) (omega arith)
    ∙ queued-snoc i.recv_full.count i.recv_tail i.recv_head (set i.bufs i.recv_head buf) v.tail_lt
        v.head_ahead
    ∙ ap₂ (λ q b. q ++ b ∷ [])
        (queued-set i.recv_full.count i.recv_tail i.recv_head buf i.bufs v.tail_lt
          (omega (arith, v.tokens)) v.head_ahead)
        (ap contents
            (get_elem?-set_self i.bufs i.recv_head buf (omega (arith, head_lt, v.sized.four)))
          ∙ same)

-- A frame of at most 1526 bytes is received without waiting: behind the frames that are there, or
-- not at all while there are four.
pub recv_frame-offer :
    (now : ℕ) (bytes : Bytes) (i : Interface) (k : Scheduler)
    → IsReady i k
    → length bytes ≤ 1526
    → (i' : Interface) × (k' : Scheduler) × (recv_frame now bytes i k ≡ ok (true, i', k'))
      × IsReady i' k'
      × (frames i' ≡ offer bytes (frames i))
unfolding recv_frame keep_frame offer
recv_frame-offer now bytes i k v fits = elim (Bool-cases (ltb 0 i.recv_empty.count)) [
  | inl e ↦
      let room : 0 < i.recv_empty.count = ground (arith, e) in
      let (k1, e1, f1) =
        try_wait-passes i.recv_empty k room v.running (rw (v.ring.nobody_releases) tt) in
      let (buf, e2, size, small, same) =
        store-contents bytes (without_empty i) v.ring.sized (omega (arith, v.ring.head_ahead))
          fits in
      let (k2, e3, f2) =
        signal-passes now i.recv_full k1 (omega (arith, v.ring.tokens, v.ring.full_max, room))
          (rw (f1.same_running) (f1.knows k.running v.running))
          (Follows-KnowsAll k k1 i.recv_full.waiting f1 v.waiters) in
      let f = Follows-trans k k1 k2 f1 f2 in
      let waiters = Follows-KnowsAll k k2 i.recv_full.waiting f v.waiters in
      let fits_queue : ltb (length (frames i)) 4 ≡ true =
        lt→ltb _ 4 (omega (arith, v.ring.tokens, frames-length i, room)) in
      (
        kept buf i,
        k2,
        rw (e1, e2, e3) refl,
        record {
          ring = kept-IsRing buf i v.ring room size small;
          running = rw (f.same_running) (f.knows k.running v.running);
          waiters = KnowsAll-pop k2 i.recv_full.waiting waiters;
        },
        kept-frames buf bytes i v.ring room same ∙ rw (fits_queue) refl,
      )
  | inr e ↦ (
    i,
    k,
    recv_frame-full now bytes i k (ground (arith, e)),
    v,
    rw (full_queue i (ground (arith, e)) v.ring) refl,
  )
]
