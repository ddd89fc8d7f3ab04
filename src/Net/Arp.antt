-- ===== src/Net/Arp.antt =====
-- src/net/arp.rs: ARP packets, the packet builder and the writer of replies. The typed steps of the
-- builder fix the order of the calls; here the order is that of `reply_writer`.
pub mod Reply
pub mod Write
use an_os_in_rust.Base.{
  ℕ, ◌+◌, ◌*◌, ◌/◌, ◌%◌, ◌==◌, List, [], ◌∷◌, if◌then◌else◌, Option, none, some, get_elem?, length,
  Outcome, ok, panic, ◌>>=◌, expect,
}
use an_os_in_rust.Base.Slices.{slice}
use an_os_in_rust.Net.Ethernet.{Bytes, FrameBuilder, new, put_bytes}

pub data Opcode : Type 0 where
  request reply unknown : Opcode

-- `From<u16> for Opcode`
unfoldable pub opcode_of : ℕ → Opcode
opcode_of value = if value == 1 then request else if value == 2 then reply else unknown

-- `From<Opcode> for u16`
unfoldable pub opcode_value : Opcode → ℕ
opcode_value request = 1
opcode_value reply = 2
opcode_value unknown = 0

-- `u16::from_be_bytes` of a slice of two bytes, and `to_be_bytes`.
unfoldable pub from_be_bytes : Bytes → Outcome ℕ
from_be_bytes (a ∷ b ∷ []) = ok (a * 256 + b)
from_be_bytes _ = panic

unfoldable pub to_be_bytes : ℕ → Bytes
to_be_bytes n = n / 256 % 256 ∷ n % 256 ∷ []

unfoldable pub hardware_address_space : Bytes → Outcome ℕ
hardware_address_space p = slice 0 2 p >>= from_be_bytes

unfoldable pub protocol_address_space : Bytes → Outcome ℕ
protocol_address_space p = slice 2 4 p >>= from_be_bytes

unfoldable pub hardware_address_length : Bytes → Outcome ℕ
hardware_address_length p = expect (get_elem? p 4)

unfoldable pub protocol_address_length : Bytes → Outcome ℕ
protocol_address_length p = expect (get_elem? p 5)

unfoldable pub opcode : Bytes → Outcome ℕ
opcode p = slice 6 8 p >>= from_be_bytes

unfoldable pub sender_hardware_address : Bytes → Outcome Bytes
sender_hardware_address p = hardware_address_length p >>= λ h. slice 8 (8 + h) p

unfoldable pub sender_protocol_address : Bytes → Outcome Bytes
sender_protocol_address p = do
  h ← hardware_address_length p
  l ← protocol_address_length p
  slice (8 + h) (8 + h + l) p

unfoldable pub target_hardware_address : Bytes → Outcome Bytes
target_hardware_address p = do
  h ← hardware_address_length p
  l ← protocol_address_length p
  slice (8 + h + l) (8 + h + l + h) p

unfoldable pub target_protocol_address : Bytes → Outcome Bytes
target_protocol_address p = do
  h ← hardware_address_length p
  l ← protocol_address_length p
  slice (8 + h + l + h) (8 + h + l + h + l) p

-- The nine fields in the order of the builder's steps.
pub record Packet : Type 0 where
  pub hardware_space : ℕ
  pub protocol_space : ℕ
  pub hardware_length : ℕ
  pub protocol_length : ℕ
  pub operation : Opcode
  pub sender_hardware : Bytes
  pub sender_protocol : Bytes
  pub target_hardware : Bytes
  pub target_protocol : Bytes

-- The whole chain of `ARPBuilder`: the buffer afterwards, and the length of the packet at its front.
unfoldable pub build : Bytes → Packet → Outcome (Bytes × ℕ)
build buf p = do
  b1 ← put_bytes (to_be_bytes p.hardware_space) (new buf)
  b2 ← put_bytes (to_be_bytes p.protocol_space) b1
  b3 ← put_bytes (p.hardware_length ∷ []) b2
  b4 ← put_bytes (p.protocol_length ∷ []) b3
  b5 ← put_bytes (to_be_bytes (opcode_value p.operation)) b4
  b6 ← put_bytes p.sender_hardware b5
  b7 ← put_bytes p.sender_protocol b6
  b8 ← put_bytes p.target_hardware b7
  b9 ← put_bytes p.target_protocol b8
  ok (b9.buf, b9.pos)

-- The packet that `reply_writer` fills in.
unfoldable pub reply_packet : Bytes → Bytes → Outcome Packet
reply_packet received sha = do
  hs ← hardware_address_space received
  ps ← protocol_address_space received
  hl ← hardware_address_length received
  pl ← protocol_address_length received
  spa ← target_protocol_address received
  tha ← sender_hardware_address received
  tpa ← target_protocol_address received
  ok (record {
    hardware_space = hs;
    protocol_space = ps;
    hardware_length = hl;
    protocol_length = pl;
    operation = reply;
    sender_hardware = sha;
    sender_protocol = spa;
    target_hardware = tha;
    target_protocol = tpa;
  })

-- The closure that `reply_writer` returns.
unfoldable pub reply_writer : Bytes → Bytes → Bytes → Outcome (Bytes × ℕ)
reply_writer recv_bytes sha buf = reply_packet recv_bytes sha >>= λ p. build buf p
