-- ===== src/Net/Arp/Reply.antt =====
-- The layout of the packets of src/net/arp.rs, and the reply to a request.
use mathlib.Core.List.{append_assoc}
use an_os_in_rust.Base.{
  ℕ, ◌+◌, ◌<◌, ◌≡◌, refl, sym, ap, ◌∙◌, [], ◌∷◌, ◌++◌, arith, length, length-append, ok, ◌>>=◌,
}
use an_os_in_rust.Base.Slices.{slice, slice_middle}
use an_os_in_rust.Net.Ethernet.{Bytes}
use an_os_in_rust.Net.Arp.{
  Packet, Opcode, opcode_value, to_be_bytes, from_be_bytes, hardware_address_space,
  protocol_address_space, hardware_address_length, protocol_address_length, opcode,
  sender_hardware_address, sender_protocol_address, target_hardware_address,
  target_protocol_address,
}

abbrev pub fixed : Packet → Bytes
fixed p =
    (((to_be_bytes p.hardware_space ++ to_be_bytes p.protocol_space) ++ p.hardware_length ∷ [])
      ++ p.protocol_length ∷ [])
    ++ to_be_bytes (opcode_value p.operation)

-- The bytes of a packet: the layout of RFC 826.
unfoldable pub encode : Packet → Bytes
encode p =
    fixed p
    ++ (p.sender_hardware ++ (p.sender_protocol ++ (p.target_hardware ++ p.target_protocol)))

-- The lengths that a packet states are those of its addresses, and its spaces are 16-bit numbers.
pub record IsPacket (p : Packet) : Type 0 where
  pub hardware_16 : p.hardware_space < 65536
  pub protocol_16 : p.protocol_space < 65536
  pub sender_hardware_fits : length p.sender_hardware ≡ p.hardware_length
  pub sender_protocol_fits : length p.sender_protocol ≡ p.protocol_length
  pub target_hardware_fits : length p.target_hardware ≡ p.hardware_length
  pub target_protocol_fits : length p.target_protocol ≡ p.protocol_length

from_be_bytes-to_be_bytes : (n : ℕ) → n < 65536 → from_be_bytes (to_be_bytes n) ≡ ok n
unfolding from_be_bytes to_be_bytes
from_be_bytes-to_be_bytes n h = ap ok (omega arith)

opcode_value-lt : (o : Opcode) → opcode_value o < 65536
unfolding opcode_value
opcode_value-lt o = ground arith

field_at :
    (from to : ℕ) (whole prefix field tail : Bytes)
    → whole ≡ prefix ++ (field ++ tail)
    → from ≡ length prefix
    → to ≡ length prefix + length field
    → slice from to whole ≡ ok field
field_at from to whole prefix field tail shape e f =
    ap (slice from to) shape ∙ slice_middle from to prefix field tail e f

number_at :
    (from to n : ℕ) (whole prefix tail : Bytes)
    → n < 65536
    → whole ≡ prefix ++ (to_be_bytes n ++ tail)
    → from ≡ length prefix
    → to ≡ length prefix + 2
    → (slice from to whole >>= from_be_bytes) ≡ ok n
unfolding to_be_bytes
number_at from to n whole prefix tail fits shape e f =
    ap (λ o. o >>= from_be_bytes) (field_at from to whole prefix (to_be_bytes n) tail shape e f)
    ∙ from_be_bytes-to_be_bytes n fits

pub fixed-length : (p : Packet) → length (fixed p) ≡ 8
unfolding to_be_bytes
fixed-length p = refl

-- For a packet whose addresses have the lengths that it states and whose spaces are 16-bit
-- numbers, every accessor reads from the encoded packet the field that it names, also where more
-- bytes follow.
pub parse-encode :
    (p : Packet) (rest : Bytes)
    → IsPacket p
    → (hardware_address_space (encode p ++ rest) ≡ ok p.hardware_space)
      × (protocol_address_space (encode p ++ rest) ≡ ok p.protocol_space)
      × (hardware_address_length (encode p ++ rest) ≡ ok p.hardware_length)
      × (protocol_address_length (encode p ++ rest) ≡ ok p.protocol_length)
      × (opcode (encode p ++ rest) ≡ ok (opcode_value p.operation))
      × (sender_hardware_address (encode p ++ rest) ≡ ok p.sender_hardware)
      × (sender_protocol_address (encode p ++ rest) ≡ ok p.sender_protocol)
      × (target_hardware_address (encode p ++ rest) ≡ ok p.target_hardware)
      × (target_protocol_address (encode p ++ rest) ≡ ok p.target_protocol)
unfolding hardware_address_space protocol_address_space hardware_address_length
    protocol_address_length opcode sender_hardware_address sender_protocol_address
    target_hardware_address target_protocol_address encode to_be_bytes
parse-encode p rest v = (
  number_at 0 2 p.hardware_space (encode p ++ rest) [] _ v.hardware_16 refl refl refl,
  number_at 2 4 p.protocol_space (encode p ++ rest) (to_be_bytes p.hardware_space) _ v.protocol_16
      refl refl refl,
  refl,
  refl,
  number_at 6 8 (opcode_value p.operation) (encode p ++ rest)
      (((to_be_bytes p.hardware_space ++ to_be_bytes p.protocol_space) ++ p.hardware_length ∷ [])
        ++ p.protocol_length ∷ [])
      _ (opcode_value-lt p.operation) refl refl refl,
  field_at 8 _ (encode p ++ rest) f sh _ (shape f sh sp th tp rest) refl (omega arith),
  field_at _ _ (encode p ++ rest) (f ++ sh) sp _
      (shape f sh sp th tp rest ∙ sym (append_assoc f sh _)) (omega (arith, size1))
      (omega (arith, size1)),
  field_at _ _ (encode p ++ rest) ((f ++ sh) ++ sp) th _ (shape f sh sp th tp rest ∙ deeper2)
      (omega (arith, size2)) (omega (arith, size2)),
  field_at _ _ (encode p ++ rest) (((f ++ sh) ++ sp) ++ th) tp rest
      (shape f sh sp th tp rest ∙ deeper3) (omega (arith, size3)) (omega (arith, size3)),
)
  where
    open v use {
      sender_hardware_fits, sender_protocol_fits, target_hardware_fits, target_protocol_fits,
    }

    f : Bytes
    f = fixed p

    sh : Bytes
    sh = p.sender_hardware

    sp : Bytes
    sp = p.sender_protocol

    th : Bytes
    th = p.target_hardware

    tp : Bytes
    tp = p.target_protocol

    shape :
        (a b c d e r : Bytes)
        → (a ++ (b ++ (c ++ (d ++ e)))) ++ r ≡ a ++ (b ++ (c ++ (d ++ (e ++ r))))
    shape a b c d e r = simp append_assoc

    deeper2 : f ++ (sh ++ (sp ++ (th ++ (tp ++ rest)))) ≡ ((f ++ sh) ++ sp) ++ (th ++ (tp ++ rest))
    deeper2 = assoc2 f sh sp (th ++ (tp ++ rest))
      where
        assoc2 : (a b c d : Bytes) → a ++ (b ++ (c ++ d)) ≡ ((a ++ b) ++ c) ++ d
        assoc2 a b c d = simp append_assoc

    deeper3 : f ++ (sh ++ (sp ++ (th ++ (tp ++ rest)))) ≡ (((f ++ sh) ++ sp) ++ th) ++ (tp ++ rest)
    deeper3 = assoc3 f sh sp th (tp ++ rest)
      where
        assoc3 : (a b c d e : Bytes) → a ++ (b ++ (c ++ (d ++ e))) ≡ (((a ++ b) ++ c) ++ d) ++ e
        assoc3 a b c d e = simp append_assoc

    size1 : length (f ++ sh) ≡ 8 + p.hardware_length
    size1 = omega (arith, length-append f sh, fixed-length p)

    size2 : length ((f ++ sh) ++ sp) ≡ 8 + p.hardware_length + p.protocol_length
    size2 = omega (arith, length-append (f ++ sh) sp, size1)

    size3 :
        length (((f ++ sh) ++ sp) ++ th)
        ≡ 8 + p.hardware_length + p.protocol_length + p.hardware_length
    size3 = omega (arith, length-append ((f ++ sh) ++ sp) th, size2)
