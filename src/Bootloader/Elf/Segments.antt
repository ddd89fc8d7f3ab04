-- ===== src/Bootloader/Elf/Segments.antt =====
-- What memory holds once bootloader/src/loader/elf.rs has loaded a file.
use mathlib.Core.Path.{fun_ext}
use an_os_in_rust.Base.{
  ℕ, zero, suc, ◌+◌, ◌-◌, ◌*◌, ◌^◌, ◌≤◌, ◌<◌, ◌≡◌, refl, sym, ap, ap₂, ◌∙◌, ◌==◌, ltb, leb,
  if◌then◌else◌, Bool, true, false, some, Bool-cases, inl, inr, List, [], ◌∷◌, ok, take, drop,
  arith, lt→ltb,
}
use an_os_in_rust.Net.Ethernet.{Bytes}
use an_os_in_rust.Net.Stack.{same_bytes}
use an_os_in_rust.Acpi.{Memory, number_at}
use an_os_in_rust.Bootloader.Elf.{
  ProgramHeader, elf_header_at, program_header_size, program_header_at, ElfFile, elf_magic, within,
  clear, copy_from, load_segment, load_segments, load_elf,
}

-- The program headers that lie one behind the other.
unfoldable pub program_headers : Memory → ℕ → ℕ → List ProgramHeader
program_headers mem zero at = []
program_headers mem (suc left) at =
    program_header_at mem at ∷ program_headers mem left (at + program_header_size)

-- An address that a segment is loaded to.
unfoldable pub covers : ProgramHeader → ℕ → Bool
covers ph p = if ph.p_paddr == 0 then false else within ph.p_paddr ph.p_memsz p

-- What a segment leaves at an address that it covers: a byte of the file, or zero behind them.
unfoldable pub content : ElfFile → Memory → ProgramHeader → ℕ → ℕ
content file mem ph p =
    if ltb p (ph.p_paddr + ph.p_filesz) then mem (file.at + ph.p_offset + (p - ph.p_paddr)) else 0

-- A segment that can be loaded: not longer in the file than in memory, inside the file, and not
-- loaded over the file.
pub record IsLoadable (file : ElfFile) (ph : ProgramHeader) : Type 0 where
  pub shorter : ph.p_filesz ≤ ph.p_memsz
  pub in_file : ph.p_offset + ph.p_filesz ≤ file.len
  pub away : (p : ℕ) → p < file.len → covers ph (file.at + p) ≡ false

abbrev pub AreLoadable : ElfFile → List ProgramHeader → Type 0
AreLoadable file [] = Unit {0}
AreLoadable file (ph ∷ phs) = IsLoadable file ph × AreLoadable file phs

-- The byte at an address: what the last segment that covers it leaves, and `otherwise` if none does.
unfoldable pub byte_at : ElfFile → Memory → List ProgramHeader → ℕ → ℕ → ℕ
byte_at file mem [] otherwise p = otherwise
byte_at file mem (ph ∷ phs) otherwise p =
    byte_at file mem phs (if covers ph p then content file mem ph p else otherwise) p

module _ (file : ElfFile) (mem : Memory) where
  -- The file is where it was.
  abbrev KeepsFile : Memory → Type 0
  KeepsFile m = (p : ℕ) → p < file.len → m (file.at + p) ≡ mem (file.at + p)

  place : ProgramHeader → Memory → Memory
  place ph m p = if covers ph p then content file mem ph p else m p

  abbrev image : List ProgramHeader → Memory → Memory
  image [] m = m
  image (ph ∷ phs) m = image phs (place ph m)

  -- Where a byte comes from the file, the segment does not cover its source.
  loaded_byte :
      (ph : ProgramHeader) (m : Memory) (p : ℕ)
      → IsLoadable file ph
      → KeepsFile m
      → (ph.p_paddr == 0) ≡ false
      → copy_from (file.at + ph.p_offset) ph.p_paddr ph.p_filesz (clear ph.p_paddr ph.p_memsz m) p
        ≡ place ph m p
  unfolding place covers content clear copy_from
  loaded_byte ph m p v keeps used = elim (Bool-cases (within ph.p_paddr ph.p_filesz p)) [
    | inl inside ↦
        let index = ph.p_offset + (p - ph.p_paddr) in
        let small : index < file.len = ground (arith, v.in_file) in
        let source : file.at + ph.p_offset + (p - ph.p_paddr) ≡ file.at + index = omega arith in
        let apart : within ph.p_paddr ph.p_memsz (file.at + index) ≡ false =
          rw used at (v.away index small) in
        rw (inside, source, apart, used) (ground (arith, keeps index small, v.shorter))
    | inr outside ↦ rw (outside, used) (ground arith)
  ]

  skipped :
      (ph : ProgramHeader) (m : Memory) (p : ℕ) → (ph.p_paddr == 0) ≡ true → m p ≡ place ph m p
  unfolding place covers
  skipped ph m p unused = rw (unused) refl

  load_segment-place :
      (ph : ProgramHeader) (m : Memory)
      → file.len < 2 ^ 64
      → IsLoadable file ph
      → KeepsFile m
      → load_segment file ph m ≡ ok (place ph m)
  unfolding load_segment
  load_segment-place ph m few v keeps = elim (Bool-cases (ph.p_paddr == 0)) [
    | inl unused ↦ rw (unused) (ap ok (fun_ext λ p. skipped ph m p unused))
    | inr used ↦
        let longer : leb ph.p_filesz ph.p_memsz ≡ true = ground (arith, v.shorter) in
        let in_word = lt→ltb (ph.p_offset + ph.p_filesz) (2 ^ 64) (omega (arith, v.in_file)) in
        let in_file : leb (ph.p_offset + ph.p_filesz) file.len ≡ true = ground (arith, v.in_file) in
        rw (used, longer, in_word, in_file) (ap ok (fun_ext λ p. loaded_byte ph m p v keeps used))
  ]

  place-KeepsFile :
      (ph : ProgramHeader) (m : Memory) → IsLoadable file ph → KeepsFile m → KeepsFile (place ph m)
  unfolding place
  place-KeepsFile ph m v keeps p h = rw (v.away p h) (keeps p h)

  number_at-KeepsFile :
      (n at : ℕ) (m : Memory)
      → KeepsFile m
      → file.at ≤ at
      → at + n ≤ file.at + file.len
      → number_at m n at ≡ number_at mem n at
  unfolding number_at
  number_at-KeepsFile zero at m keeps low high = refl
  number_at-KeepsFile (suc n) at m keeps low high =
      let here : file.at + (at - file.at) ≡ at = omega (arith, low) in
      let first : m at ≡ mem at =
        sym (ap m here) ∙ keeps (at - file.at) (omega (arith, low, high)) ∙ ap mem here in
      ap₂ (λ a b. a + b * 256) first
        (number_at-KeepsFile n (at + 1) m keeps (omega (arith, low)) (omega (arith, high)))

  image-byte_at :
      (phs : List ProgramHeader) (m : Memory) (p : ℕ) → image phs m p ≡ byte_at file mem phs (m p) p
  unfolding place byte_at
  image-byte_at [] m p = refl
  image-byte_at (ph ∷ phs) m p = image-byte_at phs (place ph m) p

  program_header_at-KeepsFile :
      (at : ℕ) (m : Memory)
      → KeepsFile m
      → file.at ≤ at
      → at + program_header_size ≤ file.at + file.len
      → program_header_at m at ≡ program_header_at mem at
  unfolding program_header_at
  program_header_at-KeepsFile at m keeps low high =
      let field = λ (n offset : ℕ) (fits : offset + n ≤ 56).
        number_at-KeepsFile n (at + offset) m keeps (omega (arith, low)) (omega (arith, high)) in
      λ i. record {
        p_type = number_at-KeepsFile 4 at m keeps low (omega (arith, high)) i;
        p_flags = field 4 4 (omega arith) i;
        p_offset = field 8 8 (omega arith) i;
        p_vaddr = field 8 16 (omega arith) i;
        p_paddr = field 8 24 (omega arith) i;
        p_filesz = field 8 32 (omega arith) i;
        p_memsz = field 8 40 (omega arith) i;
        p_aligh = field 8 48 (omega arith) i;
      }

  -- Every round puts one segment in its place.
  load_segments-image :
      (left at : ℕ) (m : Memory)
      → file.len < 2 ^ 64
      → KeepsFile m
      → file.at ≤ at
      → at + left * program_header_size ≤ file.at + file.len
      → AreLoadable file (program_headers mem left at)
      → load_segments file left at m ≡ ok (image (program_headers mem left at) m)
  unfolding load_segments program_headers
  load_segments-image zero at m few keeps low high v = refl
  load_segments-image (suc left) at m few keeps low high (v, vs) =
      rw
        (
          program_header_at-KeepsFile at m keeps low (omega (arith, high)),
          load_segment-place (program_header_at mem at) m few v keeps,
        )
        (load_segments-image left (at + program_header_size) (place (program_header_at mem at) m)
          few (place-KeepsFile (program_header_at mem at) m v keeps) (omega (arith, low))
          (omega (arith, high)) vs)

-- A file that can be loaded: 64-bit program headers that lie inside it, behind the magic number.
pub record IsElf (file : ElfFile) (mem : Memory) : Type 0 where
  pub small : file.len < 2 ^ 64
  pub magic : take 3 (drop 1 (elf_header_at mem file.at).e_ident) ≡ elf_magic
  pub entry_size : (elf_header_at mem file.at).e_phentsize ≡ program_header_size
  pub first : (elf_header_at mem file.at).e_phoff < file.len
  pub headers_fit :
      (elf_header_at mem file.at).e_phoff
        + (elf_header_at mem file.at).e_phnum * program_header_size
      ≤ file.len

abbrev pub segments_of : ElfFile → Memory → List ProgramHeader
segments_of file mem =
    program_headers mem (elf_header_at mem file.at).e_phnum
      (file.at + (elf_header_at mem file.at).e_phoff)

-- For an ELF file whose segments can be loaded, loading returns the entry point that the file states, and
-- leaves at every address what the last segment that covers it says: a byte of the file, or a zero
-- behind the bytes of the file; memory that no segment covers is as it was.
pub load_elf-byte_at :
    (is_utf8 : Bytes → Bool) (file : ElfFile) (mem : Memory)
    → is_utf8 elf_magic ≡ true
    → IsElf file mem
    → AreLoadable file (segments_of file mem)
    → (out : Memory) × (load_elf is_utf8 file mem
        ≡ ok (some ((elf_header_at mem file.at).e_entry, out)))
      × ((p : ℕ) → out p ≡ byte_at file mem (segments_of file mem) (mem p) p)
unfolding load_elf same_bytes
load_elf-byte_at is_utf8 file mem text elf vs =
    let header = elf_header_at mem file.at in
    let segments = segments_of file mem in
    let filled = lt→ltb 0 file.len (omega (arith, elf.first)) in
    let starts = lt→ltb header.e_phoff file.len elf.first in
    let loaded =
      load_segments-image file mem header.e_phnum (file.at + header.e_phoff) mem elf.small
        (λ p h. refl) (omega arith) (omega (arith, elf.headers_fit)) vs in
    (
      image file mem segments mem,
      rw (filled, elf.magic, text, starts, elf.entry_size, loaded) refl,
      image-byte_at file mem segments mem,
    )
