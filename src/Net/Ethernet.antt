-- ===== src/Net/Ethernet.antt =====
-- src/net/ethernet.rs: frames and the frame builder. A byte is a number, and a slice of bytes a list. The
-- typed steps of the builder fix the order of the calls; here the order is that of `build`.
pub mod Build
pub mod Parse
use an_os_in_rust.Base.{
  ℕ, ◌+◌, ◌-◌, Bool, true, false, ◌&&◌, ◌||◌, Option, none, some, List, [], ◌∷◌, ◌++◌, ltb, leb,
  ◌==◌, if◌then◌else◌, length, set, take, drop, Outcome, ok, panic, ◌>>=◌, checked_sub,
}
use an_os_in_rust.Base.Slices.{slice, write_at}

-- `MACAddress` and the raw byte arrays are lists of their bytes.
abbrev pub Bytes : Type 0
Bytes = List ℕ

pub data EtherType : Type 0 where
  arp : EtherType
  other : ℕ → ℕ → EtherType

-- `EtherType::as_bytes`
unfoldable pub ethertype_bytes : EtherType → Bytes
ethertype_bytes arp = 0x08 ∷ 0x06 ∷ []
ethertype_bytes (other a b) = a ∷ b ∷ []

-- `Err` is `none`.
unfoldable pub try_from_bytes : Bytes → Option Bytes
try_from_bytes bytes = if ltb (length bytes) 64 || ltb 1534 (length bytes) then none else some bytes

unfoldable pub dest : Bytes → Outcome Bytes
dest frame = slice 0 6 frame

unfoldable pub src : Bytes → Outcome Bytes
src frame = slice 6 12 frame

-- The tag protocol identifier of a VLAN tag.
abbrev pub is_tag : ℕ → ℕ → Bool
is_tag a b = a == 0x81 && b == 0x00

-- `&self.bytes[12..]`
unfoldable pub after_addresses : Bytes → Outcome Bytes
after_addresses frame = slice 12 (length frame) frame

-- The loop of `vlan_tags`: `i` is never changed, and only the identifier is taken off the bytes.
unfoldable pub vlan_tags_from : ℕ → List (Option Bytes) → Bytes → Outcome (List (Option Bytes))
vlan_tags_from i tags [] = panic
vlan_tags_from i tags (a ∷ []) = panic
vlan_tags_from i tags (a ∷ b ∷ rest) =
    let again = vlan_tags_from i tags rest in
    let found = slice 0 2 rest >>= (λ tag. vlan_tags_from i (set tags i (some tag)) rest) in
    if is_tag a b then (if leb 2 i then again else found) else ok tags

unfoldable pub vlan_tags : Bytes → Outcome (List (Option Bytes))
vlan_tags frame = after_addresses frame >>= λ bytes. vlan_tags_from 0 (none ∷ none ∷ []) bytes

unfoldable pub classify : ℕ → ℕ → EtherType
classify a b = if a == 0x8 && b == 0x6 then arp else other a b

-- The loop of `ethertype`. `split_at` stops the kernel where fewer bytes than it takes are left.
unfoldable pub ethertype_from : Bytes → Outcome EtherType
ethertype_from [] = panic
ethertype_from (a ∷ []) = panic
ethertype_from (a ∷ b ∷ []) = if is_tag a b then panic else ok (classify a b)
ethertype_from (a ∷ b ∷ c ∷ []) = if is_tag a b then panic else ok (classify a b)
ethertype_from (a ∷ b ∷ c ∷ d ∷ rest) =
    if is_tag a b then ethertype_from rest else ok (classify a b)

unfoldable pub ethertype : Bytes → Outcome EtherType
ethertype frame = after_addresses frame >>= λ bytes. ethertype_from bytes

-- The loop of `payload_with_crc`.
unfoldable pub payload_from : Bytes → Outcome Bytes
payload_from [] = panic
payload_from (a ∷ []) = panic
payload_from (a ∷ b ∷ []) = if is_tag a b then panic else ok []
payload_from (a ∷ b ∷ c ∷ []) = if is_tag a b then panic else ok (c ∷ [])
payload_from (a ∷ b ∷ c ∷ d ∷ rest) = if is_tag a b then payload_from rest else ok (c ∷ d ∷ rest)

unfoldable pub payload_with_crc : Bytes → Outcome Bytes
payload_with_crc frame = after_addresses frame >>= λ bytes. payload_from bytes

unfoldable pub payload : Bytes → Outcome Bytes
payload frame =
    payload_with_crc frame >>= λ bytes. checked_sub (length bytes) 4 >>= λ n. slice 0 n bytes

unfoldable pub crc : Bytes → Outcome Bytes
crc frame = payload_with_crc frame >>= λ bytes.
    checked_sub (length bytes) 4 >>= λ n. slice n (length bytes) bytes

-- `FrameBuilder`: the whole buffer and the position of the next write.
pub record FrameBuilder : Type 0 where
  pub buf : Bytes
  pub pos : ℕ

unfoldable pub new : Bytes → FrameBuilder
new buf = record { buf = buf; pos = 0 }

-- What `dest`, `src` and `ethertype` of the builder share.
unfoldable pub put_bytes : Bytes → FrameBuilder → Outcome FrameBuilder
put_bytes bytes b =
    write_at b.pos bytes b.buf >>= λ buf. ok (record { buf = buf; pos = b.pos + length bytes })

-- The loop of `vlan_tags` of the builder, which writes byte by byte.
unfoldable pub put_each : Bytes → FrameBuilder → Outcome FrameBuilder
put_each [] b = ok b
put_each (x ∷ xs) b = put_bytes (x ∷ []) b >>= λ b'. put_each xs b'

-- `tags.into_iter().flatten().flat_map(…)`
unfoldable pub tag_bytes : List (Option Bytes) → Bytes
tag_bytes [] = []
tag_bytes (none ∷ tags) = tag_bytes tags
tag_bytes (some tag ∷ tags) = (0x81 ∷ 0x00 ∷ tag) ++ tag_bytes tags

-- `payload`: the writer gets the rest of the buffer, and returns what it made of it and the length.
unfoldable pub put_payload : (Bytes → Outcome (Bytes × ℕ)) → FrameBuilder → Outcome (Bytes × Bytes)
put_payload writer b = do
  rest ← slice b.pos (length b.buf) b.buf
  (rest', len) ← writer rest
  let buf = take b.pos b.buf ++ rest'
  frame ← slice 0 (b.pos + len) buf
  ok (frame, buf)

-- The chain of calls in `RTL8139::transmit`: the frame, and the buffer that holds it.
unfoldable pub build :
    Bytes
    → Bytes
    → Bytes
    → List (Option Bytes)
    → EtherType
    → (Bytes → Outcome (Bytes × ℕ))
    → Outcome (Bytes × Bytes)
build buf dest src tags ethertype writer = do
  b1 ← put_bytes dest (new buf)
  b2 ← put_bytes src b1
  b3 ← put_each (tag_bytes tags) b2
  b4 ← put_bytes (ethertype_bytes ethertype) b3
  put_payload writer b4
