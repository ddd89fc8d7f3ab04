-- ===== src/Examples/Network.antt =====
-- Examples for src/net.
use an_os_in_rust.Base.{
  ◌≤◌, ◌≡◌, refl, List, [], ◌∷◌, ◌++◌, arith, length, drop, replicate, ok, Option, none, some,
}
use an_os_in_rust.Base.Slices.{slice}
use an_os_in_rust.Net.Ethernet
use an_os_in_rust.Net.Ethernet.{
  Bytes, EtherType, arp, other, dest, src, ethertype, payload_with_crc, vlan_tags,
}
use an_os_in_rust.Net.Ethernet.Build.{Writes, header, build_lem}
use an_os_in_rust.Net.Ethernet.Parse.{parse-header}
use an_os_in_rust.Net.Arp.{
  Packet, request, opcode_value, hardware_address_space, protocol_address_space,
  hardware_address_length, protocol_address_length, opcode, sender_hardware_address,
  sender_protocol_address, target_hardware_address, target_protocol_address, reply_writer,
  to_be_bytes,
}
use an_os_in_rust.Net.Arp.Reply.{encode, IsPacket, parse-encode}
use an_os_in_rust.Net.Arp.Write.{answer, reply_writer-encode, reply_writer-Writes}

abbrev pub machine : Bytes
machine = 0x52 ∷ 0x54 ∷ 0x00 ∷ 0x12 ∷ 0x34 ∷ 0x56 ∷ []

abbrev pub router : Bytes
router = 0x52 ∷ 0x55 ∷ 0x0a ∷ 0x00 ∷ 0x02 ∷ 0x02 ∷ []

-- 192.168.16.1 asks for 192.168.16.40.
abbrev pub question : Packet
question = record {
  hardware_space = 1;
  protocol_space = 0x800;
  hardware_length = 6;
  protocol_length = 4;
  operation = request;
  sender_hardware = router;
  sender_protocol = 192 ∷ 168 ∷ 16 ∷ 1 ∷ [];
  target_hardware = replicate 6 0;
  target_protocol = 192 ∷ 168 ∷ 16 ∷ 40 ∷ [];
}

abbrev pub question-IsPacket : IsPacket question
question-IsPacket = record {
  hardware_16 = omega arith;
  protocol_16 = omega arith;
  sender_hardware_fits = refl;
  sender_protocol_fits = refl;
  target_hardware_fits = refl;
  target_protocol_fits = refl;
}

abbrev pub padding : Bytes
padding = replicate 18 0

parse-encode_example :
    (hardware_address_space (encode question ++ padding) ≡ ok 1)
    × (protocol_address_space (encode question ++ padding) ≡ ok 0x800)
    × (hardware_address_length (encode question ++ padding) ≡ ok 6)
    × (protocol_address_length (encode question ++ padding) ≡ ok 4)
    × (opcode (encode question ++ padding) ≡ ok (opcode_value request))
    × (sender_hardware_address (encode question ++ padding) ≡ ok router)
    × (sender_protocol_address (encode question ++ padding) ≡ ok (192 ∷ 168 ∷ 16 ∷ 1 ∷ []))
    × (target_hardware_address (encode question ++ padding) ≡ ok (replicate 6 0))
    × (target_protocol_address (encode question ++ padding) ≡ ok (192 ∷ 168 ∷ 16 ∷ 40 ∷ []))
parse-encode_example = parse-encode question padding question-IsPacket

abbrev room : Bytes
room = replicate 40 0

answer_fits : length (encode (answer question machine)) ≤ length room
unfolding encode answer to_be_bytes
answer_fits = omega arith

reply_writer-encode_example :
    reply_writer (encode question ++ padding) machine room
    ≡ ok (
      encode (answer question machine) ++ drop (length (encode (answer question machine))) room,
      length (encode (answer question machine)),
    )
reply_writer-encode_example =
    reply_writer-encode question padding machine room question-IsPacket answer_fits

abbrev no_tags : List (Option Bytes)
no_tags = none ∷ none ∷ []

abbrev frame_room : Bytes
frame_room = replicate 54 0

header_fits : length (header router machine no_tags arp) ≤ length frame_room
unfolding header Ethernet.tag_bytes Ethernet.ethertype_bytes
header_fits = omega arith

room_after_header : drop (length (header router machine no_tags arp)) frame_room ≡ room
unfolding header Ethernet.tag_bytes Ethernet.ethertype_bytes
room_after_header = refl

answer_fits_frame :
    length (encode (answer question machine))
    ≤ length (drop (length (header router machine no_tags arp)) frame_room)
answer_fits_frame = rw (room_after_header) answer_fits

abbrev writes_answer :
    Writes
      (reply_writer (encode question ++ padding) machine)
      (drop (length (header router machine no_tags arp)) frame_room)
      (encode (answer question machine))
writes_answer =
    reply_writer-Writes question padding machine
      (drop (length (header router machine no_tags arp)) frame_room) question-IsPacket
      answer_fits_frame

build_lem_example :
    Ethernet.build frame_room router machine no_tags arp
      (reply_writer (encode question ++ padding) machine)
    ≡ ok (
      header router machine no_tags arp ++ encode (answer question machine),
      header router machine no_tags arp ++ (encode (answer question machine) ++ writes_answer.rest),
    )
build_lem_example =
    build_lem frame_room router machine no_tags arp
      (reply_writer (encode question ++ padding) machine) (encode (answer question machine))
      header_fits writes_answer

abbrev two_tags : List (Option Bytes)
two_tags = some (0 ∷ 1 ∷ []) ∷ some (0 ∷ 2 ∷ []) ∷ []

parse-header_example :
    (dest (header router machine two_tags arp ++ padding) ≡ ok router)
    × (src (header router machine two_tags arp ++ padding) ≡ ok machine)
    × (ethertype (header router machine two_tags arp ++ padding) ≡ ok arp)
    × (payload_with_crc (header router machine two_tags arp ++ padding) ≡ ok padding)
parse-header_example =
    parse-header router machine two_tags arp padding refl refl (refl, (refl, tt)) tt

-- The frame has two tags, and the second is not among those found.
abbrev tagged : Bytes
tagged = router ++ (machine ++ (0x81 ∷ 0 ∷ 0 ∷ 1 ∷ 0x81 ∷ 0 ∷ 0 ∷ 2 ∷ 8 ∷ 0 ∷ []))

abbrev found_tags : List (Option Bytes)
found_tags = some (0 ∷ 1 ∷ []) ∷ none ∷ []

tagged_tags : vlan_tags tagged ≡ ok found_tags
unfolding vlan_tags Ethernet.vlan_tags_from Ethernet.after_addresses slice
tagged_tags = refl
