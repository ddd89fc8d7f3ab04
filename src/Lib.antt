-- ===== src/Lib.antt =====
-- A model of the kernel, and proofs about it: the physical page allocator, the page tables and page faults,
-- the network stack with its driver, the scheduler, the clock and the semaphores, the devices, and the boot loader.
--
-- Parts:
--   Base        what the parts share. `Outcome` is code that may stop the kernel: a panic, a failed assertion,
--               an index out of range, or an overflow (the Makefile builds with overflow checks). Words are natural
--               numbers with their bounds written out, `&`, `|` and `^` are laws on binary digits (Base/Bits),
--               ordered sets and maps are lists (Base/Sets, Base/Assoc), byte slices are in Base/Slices.
--   Physical    paging/src/physical.rs: PageAllocator with init, allocate and free. Physical/Cover counts the
--               free blocks that an address lies in; Physical/Free, Physical/Allocate and Physical/Init say
--               what the operations do to that count.
--   Paging      arch/x86_64/src/paging: Paging/Table is table.rs with the masks of mod.rs, Paging/Mapper is
--               mapping.rs. The memory of the paging structures is a function from table and index to entry;
--               tables may be shared. The environment's constants and root are fields of the mapper.
--               Paging/Mapper/Map follows map through tables that form a tree of levels.
--   Memory      src/arch/x86_64/mm.rs: the blocks for the page allocator (Memory/Ranges) and page faults.
--   Net         src/net/ethernet.rs and src/net/arp.rs: the readers of frames and packets, and the builders, which
--               write into a buffer. A frame's payload is written by a function, as ARP replies are.
--               Net/Interface is the receive ring of src/net/mod.rs: Net/Interface/Ring and Net/Interface/Queue
--               relate it to a queue of frames, Net/Interface/Traffic follows the frames over the steps of both
--               tasks. Net/Stack is what happens to a frame.
--   Rtl8139     src/drivers/net/rtl8139.rs: the network card's driver. Rtl8139/Arrivals says what the card does,
--               Rtl8139/Loop and Rtl8139/Process what the driver makes of it. Rtl8139/Cards is all cards of
--               the machine, with their registration and their handler.
--   Pci         src/drivers/pci.rs: configuration space, the walk of the bus and the search for MSI.
--   Serial      src/drivers/serial.rs: the serial port.
--   Acpi        src/drivers/acpi.rs: the firmware's tables in memory.
--   Interrupt   src/arch/x86_64/interrupt.rs and syscall.rs: descriptors, I/O APIC, handlers. Interrupt/Local
--               is the local APIC and the handlers of the timers and of the serial port.
--   Hpet        src/arch/x86_64/hpet.rs: the timer that drives the clock.
--   Ports       src/arch/x86_64/port.rs: the ports, of which the drivers' devices are a parameter.
--   Sched       src/kernel/sched: Sched/Tasks is task.rs, Sched/Guard is mod.rs. The mapper's fork, the
--               allocator's memory, the time and the running task (found from the stack pointer) are arguments.
--               Sched/Guard/Invariant says which tasks are in the heap, and Sched/Guard/Operations that
--               every operation keeps it so.
--   Clock       src/kernel/clock.rs, and sleep of src/kernel/sched/mod.rs.
--   Locking     src/locking/spinlock.rs: locks with the interrupt flag; the mutex below is a parameter.
--   Semaphore   src/locking/semaphore.rs over the scheduler's operations; a pass of a loop is a step.
--   Heap        src/mm/malloc.rs: the kernel's heap.
--   Segments    src/arch/x86_64/pm.rs: the segment descriptors and their table.
--   Pit         src/arch/x86_64/pit.rs: the older timer.
--   Boot        src/boot/mod.rs: the boot loader's data as the kernel sees it.
--   Bootloader  bootloader/src: Bootloader/Elf is loader/elf.rs, Bootloader/Font is framebuffer/fonts.rs,
--               Bootloader/Framebuffer is framebuffer/mod.rs and Bootloader/Start is main.rs. Bootloader/Font/Print
--               writes the text of a font, which the parser reads back.
--   Examples    the theorems at concrete inputs, and tests.
--
-- The scheduler uses the mapper (fork) and the clock (sleep); semaphores use the scheduler (block, wake); the frame
-- builder runs the writer of ARP replies; the mapper takes pages from the page allocator. The card's driver
-- hands frames to the interface's ring, and the network stack sends replies through the driver, which finds the
-- addresses of its buffers in the mapper; page faults and ACPI tables go to the mapper too. The boot loader's ELF
-- file is read as ACPI tables are, and its data goes to the kernel through Boot.
--
-- Bounds: the recursions of `allocate` and `free` run on fuel, of order + 1 and of one more than there are
-- lists: the order falls or rises at each call. The loop of `init` runs on the size of its range plus one, of which
-- each round takes a page. The loops that wait for a device or follow what it wrote (the driver's
-- receive loop, `write_all`, `find_msi`, the tables of ACPI) run on fuel too, and the theorems about them ask for
-- as much as the frames, bytes or structures need. Out of fuel is a panic (of the loop over
-- the MADT, `none`), so a theorem that an operation returns shows that the fuel is
-- enough. All other recursions are structural.
--
-- Devices are behind parameters (Ports, Hpet.Mmio, the bytes of Acpi), since their behaviour is no code here; so is the mutex
-- of the crate spin (Locking.Mutexes), on which Locking.IsMutexes states what the code relies on. Rtl8139.Arrivals and
-- Serial.Line.IsUart state what the drivers rely on of the network card and of the serial port, as their datasheets do.
--
-- Not modelled: the order of initialisation in main.rs, the tables of the boot code, the reading of the kernel's file
-- (load_file), which is calls of the firmware; saving and loading of registers, which is assembly; output.
pub mod Base
pub mod Physical
pub mod Paging
pub mod Net
pub mod Ports
pub mod Pci
pub mod Rtl8139
pub mod Serial
pub mod Acpi
pub mod Interrupt
pub mod Locking
pub mod Bootloader
pub mod Boot
pub mod Segments
pub mod Pit
pub mod Hpet
pub mod Sched
pub mod Clock
pub mod Semaphore
pub mod Heap
pub mod Memory
pub mod Examples
