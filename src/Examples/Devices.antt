-- ===== src/Examples/Devices.antt =====
-- Examples for src/drivers: registers, the receive buffer and the configuration space.
use an_os_in_rust.Base.{
  ℕ, ◌+◌, ◌*◌, ◌/◌, ◌%◌, ◌^◌, ◌≤◌, ◌≡◌, refl, none, [], ◌∷◌, ◌++◌, arith, length, replicate, take,
  leb, if◌then◌else◌, ok, panic,
}
use an_os_in_rust.Physical.{PageAllocator}
use an_os_in_rust.Physical.Cover.{within, cover}
use an_os_in_rust.Paging.Mapper.{Mapper}
use an_os_in_rust.Memory.{returned, page_fault_handler}
use an_os_in_rust.Memory.Faults.{page_fault_handler-unaligned}
use an_os_in_rust.Net.Ethernet.{Bytes, ethertype_bytes, tag_bytes}
use an_os_in_rust.Net.Ethernet.Build.{header}
use an_os_in_rust.Net.Arp.{to_be_bytes, opcode_value}
use an_os_in_rust.Net.Arp.Reply.{encode}
use an_os_in_rust.Net.Stack.{process_frame, me, same_bytes, done}
use an_os_in_rust.Net.Stack.Answer.{asking, reply_to, process_frame-answer}
use an_os_in_rust.Ports.{Ports}
use an_os_in_rust.Pci.Device.{Bdf, PciDevice, cfg_addr, read_addr}
use an_os_in_rust.Pci.Device.Address.{cfg_addr-fields}
use an_os_in_rust.Rtl8139.{read_frame, rx_buf_size_with_wrap}
use an_os_in_rust.Rtl8139.Receive.{read_frame_bounds}
use an_os_in_rust.Examples.Network.{question, question-IsPacket, router, padding}
use an_os_in_rust.Examples.Mapping.{small}

abbrev front : Bytes
front = replicate 8188 0

abbrev back : Bytes
back = replicate 1516 0

-- A frame of 1518 bytes at the last position.
read_frame_bounds_example : read_frame (front ++ (1 ∷ 0 ∷ 238 ∷ 5 ∷ back)) (length front) ≡ (
    if leb (length front + 4 + (238 + 5 * 256)) rx_buf_size_with_wrap
    then ok (238 + 5 * 256, take (238 + 5 * 256) back)
    else panic)
read_frame_bounds_example = read_frame_bounds front back 1 0 238 5 refl

abbrev third : Bdf
third = record { bus_number = 1; device_number = 3; function_number = 2 }

cfg_addr-fields_example :
    (cfg_addr third 0x3c / 2 ^ 31 ≡ 1)
    × (cfg_addr third 0x3c / 2 ^ 16 % 2 ^ 15 ≡ 1)
    × (cfg_addr third 0x3c / 2 ^ 11 % 2 ^ 5 ≡ 3)
    × (cfg_addr third 0x3c / 2 ^ 8 % 2 ^ 3 ≡ 2)
    × (cfg_addr third 0x3c % 2 ^ 8 ≡ 0x3c)
    × (read_addr third 0x3c + 0x3c % 4 ≡ cfg_addr third 0x3c)
cfg_addr-fields_example =
    cfg_addr-fields third 0x3c (omega arith) (omega arith) (omega arith) (omega arith)

-- Every register reads 0x50.
abbrev constant_ports : Ports ℕ
constant_ports = record {
  outb = λ port value w. w;
  inb = λ port w. (0, w);
  outw = λ port value w. w;
  inw = λ port w. (0, w);
  outl = λ port value w. w;
  inl = λ port w. (0x50, w);
}

abbrev device : PciDevice
device = record {
  bdf = third;
  device_id = 1;
  vendor_id = 2;
  subsystem_id = 0;
  subsystem_vendor_id = 0;
  interrupt_pin = 0;
  interrupt_line = 0;
  msi_capability_pointer = none;
}

size_known :
    (64 ≤ length (asking (replicate 6 255) router question padding (replicate 4 0)))
    × (length (asking (replicate 6 255) router question padding (replicate 4 0)) ≤ 1534)
unfolding header encode to_be_bytes opcode_value ethertype_bytes tag_bytes
size_known = (omega arith, omega arith)

process_frame-answer_example :
    process_frame constant_ports
      (λ w. [])
      small
      (asking (replicate 6 255) router question padding (replicate 4 0))
      (record { nic = none; world = 0 })
    ≡ (if same_bytes question.target_protocol me
        then reply_to constant_ports
            (λ w. [])
            small
            (encode question ++ padding)
            (replicate 6 255)
            (record { nic = none; world = 0 })
        else ok (done, record { nic = none; world = 0 }))
process_frame-answer_example =
    process_frame-answer constant_ports (λ w. []) small (replicate 6 255) router padding
      (replicate 4 0) question (record { nic = none; world = 0 }) refl refl refl question-IsPacket
      size_known.0 size_known.1

abbrev with_page : Mapper
with_page = record small { page_allocator = record { free_lists = (0x4000 ∷ []) ∷ [] } }

page_fault_handler-unaligned_example :
    (pa : PageAllocator) × (page_fault_handler 0 0x1008 with_page (λ a. 0)
      ≡ ok (returned (record with_page { page_allocator = pa }) (λ a. 0)))
    × ((p : ℕ) → cover pa p + within 0x4000 (2 ^ 12) p ≡ cover with_page.page_allocator p)
page_fault_handler-unaligned_example =
    page_fault_handler-unaligned 0 0x1008 0x4000 [] with_page (λ a. 0) refl refl refl (omega arith)
      refl refl
