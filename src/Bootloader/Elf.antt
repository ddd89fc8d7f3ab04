-- ===== src/Bootloader/Elf.antt =====
-- bootloader/src/loader/elf.rs: the kernel's ELF file is copied to where its segments say. The file is
-- a slice of memory. The ends of a segment and of the file are taken to fit 64 bits.
pub mod Segments
use an_os_in_rust.Base.{
  ℕ, zero, suc, ◌+◌, ◌-◌, ◌*◌, ◌==◌, ltb, leb, if◌then◌else◌, Bool, ◌&&◌, Option, none, some, [],
  ◌∷◌, Outcome, ok, ◌>>=◌, ◌>>◌, assert, checked_add, take, drop,
}
use an_os_in_rust.Net.Ethernet.{Bytes}
use an_os_in_rust.Net.Stack.{same_bytes}
use an_os_in_rust.Acpi.{Memory, bytes_at, number_at}

pub record ElfHeader : Type 0 where
  pub e_ident : Bytes
  pub e_type : ℕ
  pub e_machine : ℕ
  pub e_version : ℕ
  pub e_entry : ℕ
  pub e_phoff : ℕ
  pub e_shoff : ℕ
  pub e_flags : ℕ
  pub e_ehsize : ℕ
  pub e_phentsize : ℕ
  pub e_phnum : ℕ
  pub e_shentsize : ℕ
  pub e_shnum : ℕ
  pub e_shstrndx : ℕ

pub record ProgramHeader : Type 0 where
  pub p_type : ℕ
  pub p_flags : ℕ
  pub p_offset : ℕ
  pub p_vaddr : ℕ
  pub p_paddr : ℕ
  pub p_filesz : ℕ
  pub p_memsz : ℕ
  pub p_aligh : ℕ

-- A pointer to the structure, read: the fields at their offsets.
unfoldable pub elf_header_at : Memory → ℕ → ElfHeader
elf_header_at mem at = record {
  e_ident = bytes_at mem 16 at;
  e_type = number_at mem 2 (at + 16);
  e_machine = number_at mem 2 (at + 18);
  e_version = number_at mem 4 (at + 20);
  e_entry = number_at mem 8 (at + 24);
  e_phoff = number_at mem 8 (at + 32);
  e_shoff = number_at mem 8 (at + 40);
  e_flags = number_at mem 4 (at + 48);
  e_ehsize = number_at mem 2 (at + 52);
  e_phentsize = number_at mem 2 (at + 54);
  e_phnum = number_at mem 2 (at + 56);
  e_shentsize = number_at mem 2 (at + 58);
  e_shnum = number_at mem 2 (at + 60);
  e_shstrndx = number_at mem 2 (at + 62);
}

abbrev pub program_header_size : ℕ
program_header_size = 56

unfoldable pub program_header_at : Memory → ℕ → ProgramHeader
program_header_at mem at = record {
  p_type = number_at mem 4 at;
  p_flags = number_at mem 4 (at + 4);
  p_offset = number_at mem 8 (at + 8);
  p_vaddr = number_at mem 8 (at + 16);
  p_paddr = number_at mem 8 (at + 24);
  p_filesz = number_at mem 8 (at + 32);
  p_memsz = number_at mem 8 (at + 40);
  p_aligh = number_at mem 8 (at + 48);
}

-- `elf_file: &[u8]`
pub record ElfFile : Type 0 where
  pub at : ℕ
  pub len : ℕ

abbrev pub elf_magic : Bytes
elf_magic = 0x45 ∷ 0x4c ∷ 0x46 ∷ []

abbrev pub within : ℕ → ℕ → ℕ → Bool
within start size p = leb start p && ltb p (start + size)

-- `for b in buf.iter_mut() { *b = 0 }`
unfoldable pub clear : ℕ → ℕ → Memory → Memory
clear start size mem p = if within start size p then 0 else mem p

-- `copy_from_slice`
unfoldable pub copy_from : ℕ → ℕ → ℕ → Memory → Memory
copy_from source start size mem p =
    if within start size p then mem (source + (p - start)) else mem p

-- The body of the loop over the program headers.
unfoldable pub load_segment : ElfFile → ProgramHeader → Memory → Outcome Memory
load_segment file ph mem =
    if ph.p_paddr == 0
    then ok mem
    else (assert (leb ph.p_filesz ph.p_memsz) >> (do
      end ← checked_add ph.p_offset ph.p_filesz
      assert (leb end file.len)
          >> (ok (
              copy_from (file.at + ph.p_offset) ph.p_paddr ph.p_filesz
                (clear ph.p_paddr ph.p_memsz mem)))))

-- The loop, over `left` program headers from `at` on.
unfoldable pub load_segments : ElfFile → ℕ → ℕ → Memory → Outcome Memory
load_segments file zero at mem = ok mem
load_segments file (suc left) at mem = do
  mem' ← load_segment file (program_header_at mem at) mem
  load_segments file left (at + program_header_size) mem'

-- `core::str::from_utf8` is the parameter `is_utf8`.
module _ (is_utf8 : Bytes → Bool) where
  -- The entry point and the memory, or `none` for `Err`.
  unfoldable pub load_elf : ElfFile → Memory → Outcome (Option (ℕ × Memory))
  load_elf file mem =
      let header = elf_header_at mem file.at in
      let magic = take 3 (drop 1 header.e_ident) in
      assert (ltb 0 file.len)
      >> (if is_utf8 magic
          then (assert (same_bytes magic elf_magic)
              >> (assert (ltb header.e_phoff file.len)
                  >> (assert (program_header_size == header.e_phentsize) >> (do
                    mem' ← load_segments file header.e_phnum (file.at + header.e_phoff) mem
                    ok (some (header.e_entry, mem'))))))
          else ok none)
