-- ===== src/Examples/Elf.antt =====
-- A small file of two segments and one section: instances of the theorems on ELF files.
use mboot_core.Prelude.{
  ℕ, ◌≤◌, ◌≡◌, ◌≢◌, refl, arith, Bool, true, ◌&&◌, ltb, ltb→lt, [], ◌∷◌, ◌++◌, length, All,
  and-eq_true,
}
use mboot_core.Domain.{ok, stuck, undefined_behaviour, ByteBuffer}
use mboot_core.Bytes.{IsByte, le16, le32, get16, get32, get64}
use mboot_core.Elf.Models.{empty_header, ProgramHeader, ElfFile, is_loadable}
use mboot_core.Elf.Reader.{
  read_u16, read_u32, read_u64, has_valid_magic, read_header, read_program_header,
}
use mboot_core.Elf.Segments.{validate_program_headers}
use mboot_core.Elf.Segments.Apart.{Occupies}
use mboot_core.Elf.Parser.{
  validate_header, read_table, read_program_headers, read_section_headers, resolve_names,
  parse_tables, parse,
}
use mboot_core.Elf.Parser.Bounded.{parse_bounded}
use mboot_core.Elf.Parser.Valid.{parse-in_file, parse_apart}

abbrev segment_bytes : (offset vaddr filesz memsz : ℕ) → ByteBuffer
unfolding le32
segment_bytes offset vaddr filesz memsz =
    le32 1
    ++ le32 offset
    ++ le32 vaddr
    ++ le32 vaddr
    ++ le32 filesz
    ++ le32 memsz
    ++ le32 5
    ++ le32 4

-- A 32-bit file in little-endian order; the two tables follow the header, then four bytes.
unfoldable pub small_elf : ByteBuffer
unfolding le16 le32 segment_bytes
small_elf =
    127 ∷ 69 ∷ 76 ∷ 70 ∷ 1 ∷ 1 ∷ 1 ∷ 0 ∷ 0 ∷ 0 ∷ 0 ∷ 0 ∷ 0 ∷ 0 ∷ 0 ∷ 0 ∷ []
    ++ le16 2
    ++ le16 40
    ++ le32 1
    ++ le32 4096
    ++ le32 52
    ++ le32 0
    ++ le32 0
    ++ le16 52
    ++ le16 32
    ++ le16 2
    ++ le16 0
    ++ le16 0
    ++ le16 0
    ++ segment_bytes 116 4096 4 8
    ++ segment_bytes 116 8192 2 2
    ++ 1 ∷ 2 ∷ 3 ∷ 4 ∷ []

abbrev are_bytes : ByteBuffer → Bool
are_bytes [] = true
are_bytes (b ∷ bs) = ltb b 256 && are_bytes bs

are_bytes_lem : (bs : ByteBuffer) → are_bytes bs ≡ true → All IsByte bs
are_bytes_lem [] h = tt
are_bytes_lem (b ∷ bs) h =
    let both = and-eq_true (ltb b 256) (are_bytes bs) h in
    (ltb→lt b 256 both.0, are_bytes_lem bs both.1)

parse_bounded_example : parse small_elf ≢ stuck undefined_behaviour
unfolding small_elf
parse_bounded_example =
    parse_bounded small_elf undefined_behaviour (are_bytes_lem small_elf refl) (omega arith)

abbrev pub first_segment : ProgramHeader
first_segment = record {
  type = 1;
  flags = 5;
  offset = 116;
  vaddr = 4096;
  paddr = 4096;
  filesz = 4;
  memsz = 8;
  align = 4;
}

abbrev pub second_segment : ProgramHeader
second_segment = record first_segment { vaddr = 8192; paddr = 8192; filesz = 2; memsz = 2 }

abbrev pub small_file : ElfFile
small_file = record {
  header = record empty_header {
    elf_class = 1;
    endian = 1;
    version = 1;
    type = 2;
    machine = 40;
    elf_version = 1;
    entry = 4096;
    phoff = 52;
    ehsize = 52;
    phentsize = 32;
    phnum = 2;
  };
  program_headers = first_segment ∷ second_segment ∷ [];
  section_headers = [];
  raw_data = small_elf;
  valid = true;
}

small_elf_parsed : parse small_elf ≡ ok small_file
unfolding parse small_elf has_valid_magic read_header validate_header parse_tables
    read_program_headers read_section_headers read_table read_program_header resolve_names
    validate_program_headers read_u16 read_u32 read_u64 get16 get32 get64
small_elf_parsed = refl

parse-in_file_example : 120 ≤ length small_elf
parse-in_file_example =
    parse-in_file small_elf small_file small_elf_parsed refl [] (second_segment ∷ []) first_segment
      refl (λ h. absurd (omega (arith, h)))

first_segment-Occupies : Occupies 4100 first_segment
unfolding is_loadable
first_segment-Occupies = record { loaded = refl; above = omega arith; below = omega arith }

parse_apart_example : ¬ Occupies 4100 second_segment
parse_apart_example =
    parse_apart small_elf small_file small_elf_parsed refl first_segment second_segment [] [] []
      4100 refl (omega arith) (omega arith) first_segment-Occupies
