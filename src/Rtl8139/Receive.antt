-- ===== src/Rtl8139/Receive.antt =====
-- Positions and frames in the receive buffer of src/drivers/net/rtl8139.rs.
use an_os_in_rust.Base.{
  Bool, ℕ, ◌+◌, ◌-◌, ◌*◌, ◌/◌, ◌%◌, ◌^◌, ◌<◌, ◌≡◌, refl, [], ◌∷◌, ◌++◌, arith, length, take, leb,
  if◌then◌else◌, true, false, ok, panic, ◌>>=◌, length-append, bit_and,
}
use an_os_in_rust.Base.Bits.{and_align}
use an_os_in_rust.Base.Slices.{slice, slice_prefix, slice_suffix}
use an_os_in_rust.Net.Ethernet.{Bytes}
use an_os_in_rust.Rtl8139.{
  advance, capr_to_register, capr_of_register, from_le_bytes, split_at, read_frame, rx_buf_size,
  rx_buf_size_with_wrap,
}

-- From a position in the buffer that is a multiple of four, past a frame of a 16-bit size: the next
-- position is in the buffer and a multiple of four, and lies behind the header, the frame and at
-- most three bytes of padding, around the end of the buffer.
pub advance_bounds :
    (capr frame_size : ℕ)
    → capr < rx_buf_size
    → capr % 4 ≡ 0
    → frame_size < 2 ^ 16
    → (advance capr frame_size < rx_buf_size)
      × (advance capr frame_size % 4 ≡ 0)
      × (advance capr frame_size ≡ (capr + 4 + (frame_size + 3) / 4 * 4) % rx_buf_size)
unfolding advance
advance_bounds capr frame_size low aligned small =
    let e : bit_and (capr + 4 + frame_size + 3) (2 ^ 64 - 4) ≡ (capr + 4 + frame_size + 3) / 4 * 4 =
      and_align (capr + 4 + frame_size + 3) (omega arith) in
    (omega (arith, e), omega (arith, e), omega (arith, e))

-- A position in the buffer that the driver writes to the register is the one that it reads back,
-- also where the register, which is off by 16, wraps around.
pub capr_of_register-capr_to_register :
    (capr : ℕ) → capr < rx_buf_size → capr_of_register (capr_to_register capr) ≡ capr
unfolding capr_of_register capr_to_register
capr_of_register-capr_to_register capr low = omega arith

split_at-two : (a b : ℕ) (xs : Bytes) → split_at 2 (a ∷ b ∷ xs) ≡ ok (a ∷ b ∷ [], xs)
unfolding split_at
split_at-two a b xs =
    rw
      (
        slice_prefix 2 (a ∷ b ∷ []) xs refl,
        slice_suffix 2 (length (a ∷ b ∷ xs)) (a ∷ b ∷ []) xs refl refl,
      )
      refl

slice-take :
    (n : ℕ) (xs : Bytes) → slice 0 n xs ≡ (if leb n (length xs) then ok (take n xs) else panic)
unfolding slice
slice-take n xs =
    let low : leb 0 n ≡ true = ground arith in
    let size : n - 0 ≡ n = omega arith in rw (low, size) refl

-- Where a header stands at a position: the frame is read exactly if the buffer holds as many bytes
-- behind the header as the header states, and these bytes are the frame. Otherwise the driver panics.
pub read_frame-header :
    (before rest : Bytes) (status status' low high : ℕ)
    → read_frame (before ++ (status ∷ status' ∷ low ∷ high ∷ rest)) (length before) ≡ (
        if leb (low + high * 256) (length rest)
        then ok (low + high * 256, take (low + high * 256) rest)
        else panic)
unfolding read_frame from_le_bytes
read_frame-header before rest status status' low high =
    rw
      (
        slice_suffix (length before) _ before (status ∷ status' ∷ low ∷ high ∷ rest) refl refl,
        split_at-two status status' (low ∷ high ∷ rest),
        split_at-two low high rest,
        slice-take (low + high * 256) rest,
      )
      (finish (leb (low + high * 256) (length rest)))
  where
    finish :
        (b : Bool)
        → ◌>>=◌ {B = ℕ × Bytes}
            (if b then ok (take (low + high * 256) rest) else panic)
            (λ frame. ok (low + high * 256, frame))
          ≡ (if b then ok (low + high * 256, take (low + high * 256) rest) else panic)
    finish true = refl
    finish false = refl

-- In a buffer of the driver's size, where a header stands: the frame is read exactly if its position,
-- the four bytes of the header and the size that it states are at most the size of the buffer. At 8188,
-- the last position in the ring, that is a frame of 1516 bytes; with a longer one, the driver panics.
pub read_frame_bounds :
    (before rest : Bytes) (status status' low high : ℕ)
    → length (before ++ (status ∷ status' ∷ low ∷ high ∷ rest)) ≡ rx_buf_size_with_wrap
    → read_frame (before ++ (status ∷ status' ∷ low ∷ high ∷ rest)) (length before) ≡ (
        if leb (length before + 4 + (low + high * 256)) rx_buf_size_with_wrap
        then ok (low + high * 256, take (low + high * 256) rest)
        else panic)
read_frame_bounds before rest status status' low high size =
    let same : leb (length before + 4 + (low + high * 256)) rx_buf_size_with_wrap
        ≡ leb (low + high * 256) (length rest) =
      ground (arith, size, length-append before (status ∷ status' ∷ low ∷ high ∷ rest)) in
    rw (same) (read_frame-header before rest status status' low high)
