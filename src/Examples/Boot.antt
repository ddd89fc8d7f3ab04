-- ===== src/Examples/Boot.antt =====
-- Examples for the boot loader: a small ELF file with one segment.
use an_os_in_rust.Base.{
  ℕ, ◌-◌, ◌≡◌, refl, leb, if◌then◌else◌, Bool, true, some, [], ◌∷◌, ◌++◌, ok, arith, get_or,
  replicate, length,
}
use an_os_in_rust.Net.Ethernet.{Bytes}
use an_os_in_rust.Acpi.{Memory, bytes_at, number_at}
use an_os_in_rust.Bootloader.Elf.{
  ProgramHeader, elf_header_at, program_header_at, ElfFile, load_elf,
}
use an_os_in_rust.Bootloader.Elf.Segments.{
  covers, program_headers, segments_of, IsElf, IsLoadable, byte_at, load_elf-byte_at,
}

-- The header, one program header at 64, and two bytes at 120, which go to 0x1000 with a zero behind.
abbrev kernel : Bytes
kernel =
    0x7f
    ∷ 0x45
    ∷ 0x4c
    ∷ 0x46
    ∷ (replicate 20 0
        ++ 0x10
          ∷ 0x10
          ∷ (replicate 6 0
              ++ 64
                ∷ (replicate 21 0
                    ++ 56
                      ∷ 0
                      ∷ 1
                      ∷ (replicate 15 0
                          ++ 120
                            ∷ (replicate 16 0
                                ++ 0x10
                                  ∷ (replicate 6 0
                                      ++ 2
                                        ∷ (replicate 7 0
                                            ++ 3 ∷ (replicate 15 0 ++ 0xab ∷ 0xcd ∷ []))))))))

abbrev file : ElfFile
file = record { at = 0x5000; len = 122 }

abbrev loader_memory : Memory
loader_memory p = if leb 0x5000 p then get_or kernel (p - 0x5000) 0 else 7

abbrev any_text : Bytes → Bool
any_text _ = true

kernel_size : length kernel ≡ 122
kernel_size = refl

entry_read : (elf_header_at loader_memory 0x5000).e_entry ≡ 0x1010
unfolding elf_header_at number_at
entry_read = refl

abbrev segment : ProgramHeader
segment = record {
  p_type = 0;
  p_flags = 0;
  p_offset = 120;
  p_vaddr = 0;
  p_paddr = 0x1000;
  p_filesz = 2;
  p_memsz = 3;
  p_aligh = 0;
}

one_segment : segments_of file loader_memory ≡ segment ∷ []
unfolding elf_header_at program_header_at number_at program_headers
one_segment = refl

kernel-IsElf : IsElf file loader_memory
unfolding elf_header_at number_at bytes_at
kernel-IsElf = record {
  small = omega arith;
  magic = refl;
  entry_size = refl;
  first = omega arith;
  headers_fit = omega arith;
}

segment-IsLoadable : IsLoadable file segment
unfolding covers
segment-IsLoadable = record {
  shorter = omega arith;
  in_file = omega arith;
  away = λ p h. ground arith;
}

load_elf-byte_at_example :
    (out : Memory) × (load_elf any_text file loader_memory
      ≡ ok (some ((elf_header_at loader_memory 0x5000).e_entry, out)))
    × ((p : ℕ)
        → out p ≡ byte_at file loader_memory (segments_of file loader_memory) (loader_memory p) p)
load_elf-byte_at_example =
    load_elf-byte_at any_text file loader_memory refl kernel-IsElf
      (rw one_segment (segment-IsLoadable, tt))
