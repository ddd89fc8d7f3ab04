-- ===== src/Net/Stack/Answer.antt =====
-- The answers of src/net/mod.rs to ARP requests.
use an_os_in_rust.Base.{
  ◌≤◌, ◌≡◌, refl, true, false, none, some, [], ◌∷◌, ◌++◌, arith, length, ltb, leb, if◌then◌else◌,
  Outcome, ok, ◌>>=◌, length-append, expect,
}
use an_os_in_rust.Base.Slices.{slice_prefix}
use an_os_in_rust.Ports.{Ports}
use an_os_in_rust.Paging.Mapper.{Mapper}
use an_os_in_rust.Net.Ethernet.{Bytes, arp, try_from_bytes, dest, src, ethertype, payload}
use an_os_in_rust.Net.Ethernet.Build.{header}
use an_os_in_rust.Net.Ethernet.Parse.{parse-header}
use an_os_in_rust.Net.Arp.{Packet, target_protocol_address, reply_writer}
use an_os_in_rust.Net.Arp.Reply.{encode, IsPacket, parse-encode}
use an_os_in_rust.Rtl8139
use an_os_in_rust.Rtl8139.{Rtl8139}
use an_os_in_rust.Net.Stack.{
  Devices, Handled, done, me, same_bytes, process_frame, process_arp, answer_request,
}

payload-header :
    (to from body crc : Bytes)
    → length to ≡ 6
    → length from ≡ 6
    → length crc ≡ 4
    → payload (header to from [] arp ++ (body ++ crc)) ≡ ok body
unfolding payload
payload-header to from body crc six six' four =
    let (_, _, _, p) = parse-header to from [] arp (body ++ crc) six six' tt tt in
    let enough : leb 4 (length (body ++ crc)) ≡ true = ground (arith, length-append body crc) in
    rw (p, enough) (slice_prefix _ body crc (omega (arith, length-append body crc)))

-- A frame with an ARP packet, padding and a checksum.
abbrev pub asking : Bytes → Bytes → Packet → Bytes → Bytes → Bytes
asking to from q padding crc = header to from [] arp ++ ((encode q ++ padding) ++ crc)

valid_size :
    (frame : Bytes) → 64 ≤ length frame → length frame ≤ 1534 → try_from_bytes frame ≡ some frame
unfolding try_from_bytes
valid_size frame long short =
    let not_short : ltb (length frame) 64 ≡ false = ground arith in
    let not_long : ltb 1534 (length frame) ≡ false = ground arith in rw (not_short, not_long) refl

module _ {W : Type 0} (ports : Ports W) (memory : W → Bytes) (m : Mapper) where
  -- The reply to a request, written out.
  abbrev pub reply_to : Bytes → Bytes → Devices W → Outcome (Handled × Devices W)
  reply_to request to s = expect s.nic >>= λ d. Rtl8139.id ports memory d s.world >>= λ (sha, w).
      Rtl8139.transmit ports memory m to (none ∷ none ∷ []) arp (reply_writer request sha) d w
      >>= λ (d', w'). ok (done, record { nic = some d'; world = w' })

  read_request :
      (frame from to request target : Bytes) (s : Devices W)
      → try_from_bytes frame ≡ some frame
      → src frame ≡ ok from
      → dest frame ≡ ok to
      → ethertype frame ≡ ok arp
      → payload frame ≡ ok request
      → target_protocol_address request ≡ ok target
      → process_frame ports memory m frame s
        ≡ (if same_bytes target me then reply_to request to s else ok (done, s))
  unfolding process_frame process_arp answer_request
  read_request frame from to request target s valid e1 e2 e3 e4 e5 =
      rw (process_frame, valid, e1, e2, e3, process_arp, e4, e5, e2) refl

  -- A frame of a valid size without tags that holds an encoded ARP packet, padding and a checksum: where the
  -- packet asks for 192.168.16.40, what is done with it is to read the card's address and to transmit
  -- a reply to that packet from that address, to the frame's destination; otherwise nothing.
  pub process_frame-answer :
      (to from padding crc : Bytes) (q : Packet) (s : Devices W)
      → length to ≡ 6
      → length from ≡ 6
      → length crc ≡ 4
      → IsPacket q
      → 64 ≤ length (asking to from q padding crc)
      → length (asking to from q padding crc) ≤ 1534
      → process_frame ports memory m (asking to from q padding crc) s ≡ (
          if same_bytes q.target_protocol me
          then reply_to (encode q ++ padding) to s
          else ok (done, s))
  process_frame-answer to from padding crc q s six six' four v long short =
      let (parsed_dest, parsed_src, parsed_kind, _) =
        parse-header to from [] arp ((encode q ++ padding) ++ crc) six six' tt tt in
      let target : target_protocol_address (encode q ++ padding) ≡ ok q.target_protocol =
        (parse-encode q padding v).8 in
      read_request (asking to from q padding crc) from to (encode q ++ padding) q.target_protocol s
        (valid_size (asking to from q padding crc) long short) parsed_src parsed_dest parsed_kind
        (payload-header to from (encode q ++ padding) crc six six' four) target
