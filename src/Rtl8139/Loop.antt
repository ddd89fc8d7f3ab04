-- ===== src/Rtl8139/Loop.antt =====
-- The receive loop of src/drivers/net/rtl8139.rs hands every frame that arrived to the network stack.
use an_os_in_rust.Base.{
  ℕ, zero, suc, ◌+◌, ◌*◌, ◌≤◌, ◌<◌, ◌≡◌, ◌≢◌, refl, sym, ap, subst, ◌%◌, ◌∙◌, true, false, some,
  List, [], ◌∷◌, ◌++◌, arith, length, leb, ◌==◌, ==_self, Bool-cases, inl, inr, ok, length-append,
  take-append, bit_and,
}
use an_os_in_rust.Ports.{Ports}
use an_os_in_rust.Sched.Guard.{Scheduler}
use an_os_in_rust.Net.Ethernet.{Bytes}
use an_os_in_rust.Net.Interface.{Interface}
use an_os_in_rust.Net.Interface.Ring.{frames}
use an_os_in_rust.Net.Interface.Queue.{offer, IsReady, recv_frame-offer}
use an_os_in_rust.Rtl8139.{
  Rtl8139, advance, read_frame, rx_buf_size, inb, reg_command, receive_loop,
}
use an_os_in_rust.Rtl8139.Receive.{read_frame-header, advance_bounds}
use an_os_in_rust.Rtl8139.Arrivals.{Arrived, caught_up, one_more, IsSteady}

-- The frames that the network stack takes of a sequence.
unfoldable pub offer_all : List Bytes → List Bytes → List Bytes
offer_all [] q = q
offer_all (frame ∷ rest) q = offer_all rest (offer frame q)

-- Every frame fits a buffer of the network stack.
abbrev pub AllFit : List Bytes → Type 0
AllFit [] = Unit {0}
AllFit (frame ∷ rest) = (length frame ≤ 1526) × AllFit rest

read_arrived :
    (buf before rest frame : Bytes) (status status' low high : ℕ)
    → buf ≡ before ++ (status ∷ status' ∷ low ∷ high ∷ (frame ++ rest))
    → length frame ≡ low + high * 256
    → read_frame buf (length before) ≡ ok (length frame, frame)
read_arrived buf before rest frame status status' low high shape size =
    let room : leb (low + high * 256) (length (frame ++ rest)) ≡ true =
      ground (arith, size, length-append frame rest) in
    ap (λ b. read_frame b (length before)) shape
    ∙ read_frame-header before (frame ++ rest) status status' low high
    ∙ rw (room, sym size, take-append frame rest) refl

module _ {W : Type 0} (ports : Ports W) (memory : W → Bytes) where
  -- While the card behaves as documented and no further frame arrives, with more fuel than frames, where the network stack is
  -- ready and every frame fits its buffers: the loop ends. It has then offered every frame that
  -- arrived to the network stack, in order, and moved the card's read position up to its write position.
  pub receive_loop-delivers :
      (now : ℕ → ℕ) (d : Rtl8139) (buf : Bytes) (cbr : ℕ) (At : ℕ → W → Type 0) (fuel c : ℕ)
      (fs : List Bytes) (i : Interface) (k : Scheduler) (w : W)
      → IsSteady ports memory d buf cbr At
      → Arrived buf cbr c fs
      → At c w
      → c < rx_buf_size
      → c % 4 ≡ 0
      → IsReady i k
      → AllFit fs
      → length fs < fuel
      → (i' : Interface) × (k' : Scheduler) × (w' : W) × (receive_loop ports memory now d cbr fuel c
            (some i)
            k
            w
          ≡ ok (true, some i', k', w'))
        × IsReady i' k'
        × At cbr w'
        × (frames i' ≡ offer_all fs (frames i))
  unfolding receive_loop offer_all
  receive_loop-delivers now d buf cbr At zero c fs i k w v arrived at low aligned ready fit enough =
      absurd (omega (arith, enough))
  receive_loop-delivers now d buf cbr At (suc fuel) _ _ i k w v caught_up at low aligned ready fit
        enough =
      let (cr, w1, e, _, at1) = v.command cbr w at in (i, k, w1, ended cr w1 e, ready, at1, refl)
    where
      ended :
          (cr : ℕ) (w1 : W)
          → inb ports memory d reg_command w ≡ ok (cr, w1)
          → receive_loop ports memory now d cbr (suc fuel) cbr (some i) k w
            ≡ ok (true, some i, k, w1)
      ended cr w1 e = elim (Bool-cases (bit_and cr 0x1 == 0x1)) [
        | inl is_empty ↦ rw (e, is_empty) refl
        | inr not_empty ↦ rw (e, not_empty, ==_self cbr) refl
      ]
  receive_loop-delivers now d buf cbr At (suc fuel) _ _ i k w v
        (one_more {frames = fs} before rest frame status status' low high shape size behind arrived)
        at in_ring aligned ready (fits, fit) enough =
      let c = length before in
      let (cr, w1, e, nonempty, at1) = v.command c w at in
      let not_empty : (bit_and cr 0x1 == 0x1) ≡ false = ground (arith, nonempty behind) in
      let not_yet : (cbr == c) ≡ false = differ cbr c behind in
      let read : read_frame (memory w1) c ≡ ok (length frame, frame) =
        ap (λ b. read_frame b c) (v.buffer c w1 at1)
        ∙ read_arrived buf before rest frame status status' low high shape size in
      let (i1, k1, e1, ready1, offered) = recv_frame-offer (now fuel) frame i k ready fits in
      let c' = advance c (length frame) in
      let (below, whole, same) =
        advance_bounds c (length frame) in_ring aligned (omega (arith, fits)) in
      let further : Arrived buf cbr c' fs = subst (λ n. Arrived buf cbr n fs) (sym same) arrived in
      let (w2, e2, at2) = v.moves c c' w1 at1 in
      let (i', k', w', e3, ready', at', all) =
        receive_loop-delivers now d buf cbr At fuel c' fs i1 k1 w2 v further at2 below whole ready1
          fit (omega (arith, enough)) in
      (
        i',
        k',
        w',
        rw (e, not_empty, not_yet, read, e1, e2) e3,
        ready',
        at',
        all ∙ ap (offer_all fs) offered,
      )
    where
      differ : (a b : ℕ) → b ≢ a → (a == b) ≡ false
      differ a b h = ground arith
