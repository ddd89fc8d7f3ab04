-- ===== src/Net/Arp/Write.antt =====
-- What the packet builder and the writer of replies of src/net/arp.rs leave in the buffer.
use mathlib.Core.List.{append_assoc}
use an_os_in_rust.Base.{
  ◌+◌, ◌≤◌, ◌≡◌, refl, sym, ap, ◌∙◌, [], ◌∷◌, ◌++◌, arith, length, drop, length-append, length-drop,
  ok,
}
use an_os_in_rust.Base.Slices.{drop_add}
use an_os_in_rust.Net.Ethernet.{Bytes, FrameBuilder, new, put_bytes}
use an_os_in_rust.Net.Ethernet.Build.{at, put_bytes-at, Writes}
use an_os_in_rust.Net.Arp.{
  Packet, reply, opcode_value, to_be_bytes, build, reply_packet, reply_writer,
}
use an_os_in_rust.Net.Arp.Reply.{encode, fixed, fixed-length, IsPacket, parse-encode}

-- A builder over `buf` that has written `done`.
abbrev after : Bytes → Bytes → FrameBuilder
after done buf = at done (drop (length done) buf)

put_bytes-after :
    (bytes done buf : Bytes)
    → length done + length bytes ≤ length buf
    → put_bytes bytes (after done buf) ≡ ok (after (done ++ bytes) buf)
put_bytes-after bytes done buf fits =
    put_bytes-at bytes done (drop (length done) buf) (omega (arith, length-drop (length done) buf))
    ∙ ap (λ room. ok (at (done ++ bytes) room))
        (sym (drop_add (length done) (length bytes) buf)
          ∙ ap (λ n. drop n buf) (sym (length-append done bytes)))

-- In a buffer with room for the packet, the builder leaves the packet at the front and the rest as it was.
build-encode :
    (p : Packet) (buf : Bytes)
    → length (encode p) ≤ length buf
    → build buf p ≡ ok (encode p ++ drop (length (encode p)) buf, length (encode p))
unfolding build new encode to_be_bytes
build-encode p buf room =
    rw
      (
        put_bytes-after (to_be_bytes p.hardware_space) [] buf (omega (arith, size)),
        put_bytes-after (to_be_bytes p.protocol_space) (to_be_bytes p.hardware_space) buf
            (omega (arith, size)),
        put_bytes-after (p.hardware_length ∷ []) four buf (omega (arith, size)),
        put_bytes-after (p.protocol_length ∷ []) (four ++ p.hardware_length ∷ []) buf
            (omega (arith, size)),
        put_bytes-after (to_be_bytes (opcode_value p.operation))
            ((four ++ p.hardware_length ∷ []) ++ p.protocol_length ∷ []) buf (omega (arith, size)),
        put_bytes-after p.sender_hardware (fixed p) buf (omega (arith, size)),
        put_bytes-after p.sender_protocol (fixed p ++ p.sender_hardware) buf
            (omega (arith, size, size1)),
        put_bytes-after p.target_hardware ((fixed p ++ p.sender_hardware) ++ p.sender_protocol) buf
            (omega (arith, size, size1, size2)),
        put_bytes-after p.target_protocol
            (((fixed p ++ p.sender_hardware) ++ p.sender_protocol) ++ p.target_hardware) buf
            (omega (arith, size, size1, size2, size3)),
      )
      (ap (λ done. ok (done ++ drop (length done) buf, length done))
        (shape (fixed p) p.sender_hardware p.sender_protocol p.target_hardware p.target_protocol))
  where
    four : Bytes
    four = to_be_bytes p.hardware_space ++ to_be_bytes p.protocol_space

    shape : (a b c d e : Bytes) → (((a ++ b) ++ c) ++ d) ++ e ≡ a ++ (b ++ (c ++ (d ++ e)))
    shape a b c d e = simp append_assoc

    size1 : length (fixed p ++ p.sender_hardware) ≡ 8 + length p.sender_hardware
    size1 = length-append (fixed p) p.sender_hardware

    size2 :
        length ((fixed p ++ p.sender_hardware) ++ p.sender_protocol)
        ≡ 8 + length p.sender_hardware + length p.sender_protocol
    size2 = omega (arith, size1, length-append (fixed p ++ p.sender_hardware) p.sender_protocol)

    size3 :
        length (((fixed p ++ p.sender_hardware) ++ p.sender_protocol) ++ p.target_hardware)
        ≡ 8 + length p.sender_hardware + length p.sender_protocol + length p.target_hardware
    size3 = omega (
      arith,
      size2,
      length-append ((fixed p ++ p.sender_hardware) ++ p.sender_protocol) p.target_hardware,
    )

    size :
        8
          + length p.sender_hardware
          + length p.sender_protocol
          + length p.target_hardware
          + length p.target_protocol
        ≤ length buf
    size = omega (
      arith,
      room,
      fixed-length p,
      length-append (fixed p)
          (p.sender_hardware ++ (p.sender_protocol ++ (p.target_hardware ++ p.target_protocol))),
      length-append p.sender_hardware
          (p.sender_protocol ++ (p.target_hardware ++ p.target_protocol)),
      length-append p.sender_protocol (p.target_hardware ++ p.target_protocol),
      length-append p.target_hardware p.target_protocol,
    )

-- The reply that the code makes of a request: the address asked for, as sender and as target.
unfoldable pub answer : Packet → Bytes → Packet
answer p sha = record {
  hardware_space = p.hardware_space;
  protocol_space = p.protocol_space;
  hardware_length = p.hardware_length;
  protocol_length = p.protocol_length;
  operation = reply;
  sender_hardware = sha;
  sender_protocol = p.target_protocol;
  target_hardware = p.sender_hardware;
  target_protocol = p.target_protocol;
}

reply_packet-encode :
    (p : Packet) (rest sha : Bytes)
    → IsPacket p
    → reply_packet (encode p ++ rest) sha ≡ ok (answer p sha)
unfolding reply_packet answer
reply_packet-encode p rest sha v =
    let (hs, ps, hl, pl, _, sh, sp, th, tp) = parse-encode p rest v in
    rw (hs, ps, hl, pl, tp, sh) refl

-- In a buffer with room for the packet, and for a request whose addresses have the lengths that
-- it states and whose spaces are 16-bit numbers, the writer answers with a reply packet: to the
-- hardware address that asked, from the given hardware address and the protocol address that was
-- asked for. The reply's target protocol address is that same address, not the one of the
-- machine that asked.
pub reply_writer-encode :
    (p : Packet) (rest sha buf : Bytes)
    → IsPacket p
    → length (encode (answer p sha)) ≤ length buf
    → reply_writer (encode p ++ rest) sha buf
      ≡ ok (
        encode (answer p sha) ++ drop (length (encode (answer p sha))) buf,
        length (encode (answer p sha)),
      )
unfolding reply_writer
reply_writer-encode p rest sha buf v room =
    rw (reply_packet-encode p rest sha v) (build-encode (answer p sha) buf room)

-- Such a writer is one that a frame builder can take.
pub reply_writer-Writes :
    (p : Packet) (rest sha buf : Bytes)
    → IsPacket p
    → length (encode (answer p sha)) ≤ length buf
    → Writes (reply_writer (encode p ++ rest) sha) buf (encode (answer p sha))
reply_writer-Writes p rest sha buf v room = record {
  rest = drop (length (encode (answer p sha))) buf;
  returns = reply_writer-encode p rest sha buf v room;
  same_size = omega (arith, room, length-drop (length (encode (answer p sha))) buf);
}
