-- ===== src/Net/Interface/Traffic.antt =====
-- The frames that pass through the ring of src/net/mod.rs over the steps of its two tasks.
use mathlib.Core.List.{append_assoc, append-nil}
use an_os_in_rust.Base.{
  ℕ, ◌≤◌, ◌<◌, ◌≡◌, refl, sym, ap, ap₂, ◌∙◌, true, List, [], ◌∷◌, ◌++◌, arith, length, ltb,
  if◌then◌else◌, Bool-cases, inl, inr, Outcome, ok, >>=-eq-ok, ok_injective,
}
use an_os_in_rust.Sched.Guard.{Scheduler}
use an_os_in_rust.Semaphore.{wait}
use an_os_in_rust.Semaphore.Progress.{wait-passes, wait-blocks}
use an_os_in_rust.Net.Ethernet.{Bytes}
use an_os_in_rust.Net.Interface.{
  Interface, fetch, recv_frame, Progress, waiting, returned, process_next, handle_with,
}
use an_os_in_rust.Net.Interface.Ring.{queued, frames, fetch-contents}
use an_os_in_rust.Net.Interface.Queue.{
  offer, IsReady, recv_frame-offer, frames-length, without_full,
}
use an_os_in_rust.Net.Interface.Take.{first_frame, handle_with-first}

-- What a ring takes of a frame that is offered.
unfoldable pub accepted : Bytes → Interface → List Bytes
accepted bytes i = if ltb (length (frames i)) 4 then bytes ∷ [] else []

module _ {R S : Type 0} (process : Bytes → S → Outcome (R × S)) where
  -- A history: from one state of the interface to another, with the frames that were accepted and
  -- those that were handled. Other code may run the scheduler in between.
  pub data Traffic : Interface → Interface → List Bytes → List Bytes → Type 0 where
    quiet : {i : Interface} → Traffic i i [] []
    receives :
        {i j j' : Interface} {a h : List Bytes} (now : ℕ) (bytes : Bytes) (k k' : Scheduler)
        → Traffic i j a h
        → IsReady j k
        → length bytes ≤ 1526
        → recv_frame now bytes j k ≡ ok (true, j', k')
        → Traffic i j' (a ++ accepted bytes j) h
    handles :
        {i j j0 j' : Interface} {a h : List Bytes} (now : ℕ) (k k' : Scheduler) (s s' : S) (r : R)
        (frame : Bytes)
        → Traffic i j a h
        → IsReady j k
        → fetch j ≡ ok (frame, j0)
        → handle_with process now j k s ≡ ok (returned r, j', k', s')
        → Traffic i j' a (h ++ frame ∷ [])
    sleeps :
        {i j j' : Interface} {a h : List Bytes} (now : ℕ) (k k' : Scheduler) (s s' : S)
        → Traffic i j a h
        → IsReady j k
        → handle_with process now j k s ≡ ok (waiting, j', k', s')
        → Traffic i j' a h

  -- A pass that returns has processed the first frame.
  processed :
      (now : ℕ) (i : Interface) (k : Scheduler) (s : S) (frame : Bytes) (rest : List Bytes)
      {out : Progress R × Interface × Scheduler × S}
      → IsReady i k
      → frames i ≡ frame ∷ rest
      → handle_with process now i k s ≡ ok out
      → (r : R) × (s' : S) × (process frame s ≡ ok (r, s'))
  unfolding handle_with process_next
  processed now i k s frame rest v e h =
      let some_full : 0 < i.recv_full.count = omega (arith, frames-length i, ap length e) in
      let (k1, e1, f1) =
        wait-passes now i.recv_full k some_full v.running (rw (v.ring.nobody_fills) tt) in
      let got = fetch-contents (without_full i) v.ring.sized v.ring.tail_lt in
      let h1 = rw (e1, got, (first_frame i frame rest e).0) at h in
      let ((r, s'), done, _) = >>=-eq-ok (process frame s) _ h1 in (r, s', done)

  -- A pass on an empty queue sleeps and leaves the queue empty.
  slept :
      (now : ℕ) (i i' : Interface) (k k' : Scheduler) (s s' : S) (p : Progress R)
      → frames i ≡ []
      → handle_with process now i k s ≡ ok (p, i', k', s')
      → (p ≡ waiting) × (frames i' ≡ frames i)
  unfolding handle_with frames
  slept now i i' k k' s s' p e h =
      let none_full : i.recv_full.count ≡ 0 = sym (frames-length i) ∙ ap length e in
      let ((passed, full, k1), e1, h1) = >>=-eq-ok (wait now i.recv_full k) _ h in
      let (not_passed, same) = wait-blocks now i.recv_full full k k1 passed none_full e1 in
      let r = sym (ok_injective (rw (not_passed) at h1)) in
      (ap (λ x. x.0) r, ap (λ x. frames (x.1)) r ∙ ap (λ n. queued n i.recv_tail i.bufs) same)

  received :
      (now : ℕ) (bytes : Bytes) (i i' : Interface) (k k' : Scheduler)
      → IsReady i k
      → length bytes ≤ 1526
      → recv_frame now bytes i k ≡ ok (true, i', k')
      → frames i' ≡ frames i ++ accepted bytes i
  unfolding accepted offer
  received now bytes i i' k k' v fits e =
      let (i1, k1, e1, _, f) = recv_frame-offer now bytes i k v fits in
      ap (λ x. frames (x.1)) (ok_injective (sym e ∙ e1)) ∙ f ∙ appended
    where
      appended : offer bytes (frames i) ≡ frames i ++ accepted bytes i
      appended = elim (Bool-cases (ltb (length (frames i)) 4)) [
        | inl room ↦ rw (room) refl
        | inr full ↦ rw (full) (sym (append-nil (frames i)))
      ]

  handled :
      (now : ℕ) (i i0 i' : Interface) (k k' : Scheduler) (s s' : S) (r : R) (frame : Bytes)
      → IsReady i k
      → fetch i ≡ ok (frame, i0)
      → handle_with process now i k s ≡ ok (returned r, i', k', s')
      → frames i ≡ frame ∷ frames i'
  handled now i i0 i' k k' s s' r frame v taken e = go (frames i) refl
    where
      go : (q : List Bytes) → frames i ≡ q → frames i ≡ frame ∷ frames i'
      go [] h = let (contra, _) = slept now i i' k k' s s' (returned r) h e in cc
      go (f ∷ rest) h =
          let (r1, s1, done) = processed now i k s f rest v h e in
          let (i1, k1, e1, _, left) = handle_with-first process now i k s s1 r1 f rest v h done in
          let is_f : frame ≡ f =
            ap (λ x. x.0) (ok_injective (sym taken ∙ fetch-contents i v.ring.sized v.ring.tail_lt))
            ∙ (first_frame i f rest h).0 in
          h ∙ ap₂ ◌∷◌ (sym is_f) (sym (ap (λ x. frames (x.1)) (ok_injective (sym e ∙ e1)) ∙ left))

  stayed :
      (now : ℕ) (i i' : Interface) (k k' : Scheduler) (s s' : S)
      → IsReady i k
      → handle_with process now i k s ≡ ok (waiting, i', k', s')
      → frames i' ≡ frames i
  stayed now i i' k k' s s' v e = go (frames i) refl
    where
      go : (q : List Bytes) → frames i ≡ q → frames i' ≡ frames i
      go [] h = (slept now i i' k k' s s' waiting h e).1
      go (f ∷ rest) h =
          let (r1, s1, done) = processed now i k s f rest v h e in
          let (i1, k1, e1, _, left) = handle_with-first process now i k s s1 r1 f rest v h done in
          let contra : waiting ≡ returned r1 = ap (λ x. x.0) (ok_injective (sym e ∙ e1)) in cc

  -- Over any history of the two tasks on a well-formed ring, in which the running task and the
  -- tasks that wait for frames exist and no frame is longer than 1526 bytes: the frames that were
  -- there and those that were accepted, in this order, are those that were handled and those that
  -- are there. None is lost, repeated or overtaken.
  pub Traffic-fifo :
      (i j : Interface) (a h : List Bytes) → Traffic i j a h → frames i ++ a ≡ h ++ frames j
  Traffic-fifo i _ _ _ quiet = append-nil (frames i)
  Traffic-fifo i j' _ h (receives {j = j} {a = a} now bytes k k' before v fits e) =
      sym (append_assoc (frames i) a (accepted bytes j))
      ∙ ap (λ q. q ++ accepted bytes j) (Traffic-fifo i j a h before)
      ∙ append_assoc h (frames j) (accepted bytes j)
      ∙ ap (◌++◌ h) (sym (received now bytes j j' k k' v fits e))
  Traffic-fifo i j' a _ (handles {j = j} {j0 = j0} {h = h} now k k' s s' r frame before v taken e) =
      Traffic-fifo i j a h before
      ∙ ap (◌++◌ h) (handled now j j0 j' k k' s s' r frame v taken e)
      ∙ sym (append_assoc h (frame ∷ []) (frames j'))
  Traffic-fifo i j' a h (sleeps {j = j} now k k' s s' before v e) =
      Traffic-fifo i j a h before ∙ ap (◌++◌ h) (sym (stayed now j j' k k' s s' v e))
