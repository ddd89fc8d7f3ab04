-- ===== src/Rtl8139/Arrivals.antt =====
-- What the card behind src/drivers/net/rtl8139.rs does: its datasheet's behaviour, which the loop
-- of the driver relies on.
use an_os_in_rust.Base.{ℕ, ◌+◌, ◌*◌, ◌/◌, ◌%◌, ◌≡◌, ◌≢◌, List, [], ◌∷◌, ◌++◌, length, ok, bit_and}
use an_os_in_rust.Ports.{Ports}
use an_os_in_rust.Net.Ethernet.{Bytes}
use an_os_in_rust.Rtl8139.{
  Rtl8139, capr_to_register, inb, inw, outw, reg_command, reg_capr, reg_cbr,
}

-- Where the card puts the next header: behind a header of four bytes and a frame of that many, at the
-- next multiple of four, around the end of the ring of 8 KiB.
abbrev pub next_packet : ℕ → ℕ → ℕ
next_packet at size = (at + 4 + (size + 3) / 4 * 4) % 8192

-- The frames that the card has written to the buffer from a position to its own, each behind a header
-- with its status and its size.
pub data Arrived (buf : Bytes) (cbr : ℕ) : ℕ → List Bytes → Type 0 where
  caught_up : Arrived buf cbr cbr []
  one_more :
      {frames : List Bytes} (before rest frame : Bytes) (status status' low high : ℕ)
      → buf ≡ before ++ (status ∷ status' ∷ low ∷ high ∷ (frame ++ rest))
      → length frame ≡ low + high * 256
      → length before ≢ cbr
      → Arrived buf cbr (next_packet (length before) (length frame)) frames
      → Arrived buf cbr (length before) (frame ∷ frames)

module _ {W : Type 0} (ports : Ports W) (memory : W → Bytes) where
  -- The states of the card while the driver reads up to `cbr` and no further frame arrives: `At c` are those with the driver at `c`.
  -- The buffer keeps its bytes, the command register says that it is not empty while the driver is
  -- behind, and the driver's position is what it wrote last.
  pub record IsSteady (d : Rtl8139) (buf : Bytes) (cbr : ℕ) (At : ℕ → W → Type 0) : Type 1 where
    pub buffer : (c : ℕ) (w : W) → At c w → memory w ≡ buf
    pub command :
        (c : ℕ) (w : W)
        → At c w
        → (cr : ℕ) × (w' : W) × (inb ports memory d reg_command w ≡ ok (cr, w'))
          × (c ≢ cbr → bit_and cr 0x1 ≡ 0)
          × At c w'
    pub position :
        (c : ℕ) (w : W)
        → At c w
        → (w' : W) × (inw ports memory d reg_capr w ≡ ok (capr_to_register c, w')) × At c w'
    pub written :
        (c : ℕ) (w : W)
        → At c w
        → (w' : W) × (inw ports memory d reg_cbr w ≡ ok (cbr, w')) × At c w'
    pub moves :
        (c c' : ℕ) (w : W)
        → At c w
        → (w' : W) × (outw ports memory d reg_capr (capr_to_register c') w ≡ ok w') × At c' w'
