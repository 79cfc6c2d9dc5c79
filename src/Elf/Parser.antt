-- ===== src/Elf/Parser.antt =====
-- lib/src/elf/ElfParser.cpp: the validation of the header, the tables, and `parse`.
pub mod Bounded
pub mod Valid
use mboot_core.Prelude.{
  ℕ, zero, suc, ◌+◌, ◌-◌, ◌*◌, ◌%◌, ◌^◌, min, Bool, true, false, ◌&&◌, ◌||◌, not, ltb, leb, ◌==◌,
  if◌then◌else◌, List, [], ◌∷◌, ◌++◌, length, take, drop, get_or, map,
}
use mboot_core.Domain.{Result, ok, err, ◌>>=◌, ◌>>◌, invalid_elf, ByteBuffer}
use mboot_core.Elf.Models.{ElfHeader, ProgramHeader, SectionHeader, ElfFile, elf64, sht_strtab}
use mboot_core.Elf.Reader.{has_valid_magic, read_header, read_program_header, read_section_header}
use mboot_core.Elf.Segments.{validate_program_headers}

abbrev pub is_elf64 : ElfHeader → Bool
is_elf64 h = h.elf_class == elf64

-- `kElf64ProgramHeaderSize` and its like.
abbrev pub program_header_size : Bool → ℕ
program_header_size b = if b then 56 else 32

abbrev pub section_header_size : Bool → ℕ
section_header_size b = if b then 64 else 40

-- `off + n * size > dataSize`, as the source computes it.
abbrev pub table_exceeds : ℕ → ℕ → ℕ → ℕ → Bool
table_exceeds off n size total = ltb total ((off + n * size) % 2 ^ 64)

-- The checks that add an error; what only adds a warning changes nothing.
unfoldable pub validate_header : ElfHeader → ℕ → Bool
validate_header h size =
    if h.elf_class == 0
    then false
    else if h.endian == 0
    then false
    else if not (h.elf_version == 1)
    then false
    else if h.machine == 0
    then false
    else if ltb 0 h.phnum && ltb h.phentsize (program_header_size (is_elf64 h))
    then false
    else if ltb 0 h.shnum && ltb h.shentsize (section_header_size (is_elf64 h))
    then false
    else if ltb 0 h.phoff && ltb h.phoff (if ltb 0 h.ehsize then h.ehsize else 52)
    then false
    else if ltb 0 h.phoff && table_exceeds h.phoff h.phnum h.phentsize size
    then false
    else not (ltb 0 h.shoff && table_exceeds h.shoff h.shnum h.shentsize size)

-- The loops over the tables, from the entry `i` on, with `n` rounds left; the source leaves the loop
-- at an entry that exceeds the buffer.
module _ {A : Type 0} (read_entry : ℕ → Result A) (off entry_size min_size total : ℕ) where
  unfoldable pub read_table : ℕ → ℕ → List A → Result (List A)
  read_table zero i found = ok found
  read_table (suc n) i found =
      let p = (off + i * entry_size) % 2 ^ 64 in
      elim (ltb total ((p + min_size) % 2 ^ 64)) [
        | true ↦ ok found
        | false ↦ read_entry p >>= λ entry. read_table n (suc i) (found ++ entry ∷ [])
      ]

-- Whether there is a table to read.
abbrev pub table_stands : ℕ → ℕ → ℕ → ℕ → Bool
table_stands n size off total = ltb 0 n && (ltb 0 size && (ltb 0 off && ltb off total))

unfoldable pub read_program_headers : ByteBuffer → ElfHeader → Result (List ProgramHeader)
unfolding read_table read_program_header
read_program_headers d h =
    if table_stands h.phnum h.phentsize h.phoff (length d)
    then read_table (read_program_header (is_elf64 h) d h.endian) h.phoff h.phentsize
        (program_header_size (is_elf64 h)) (length d) h.phnum 0 []
    else ok []

unfoldable pub read_section_headers : ByteBuffer → ElfHeader → Result (List SectionHeader)
unfolding read_table read_section_header
read_section_headers d h =
    if table_stands h.shnum h.shentsize h.shoff (length d)
    then read_table (read_section_header (is_elf64 h) d h.endian) h.shoff h.shentsize
        (section_header_size (is_elf64 h)) (length d) h.shnum 0 []
    else ok []

-- `readStringTable`.
unfoldable pub read_string_table : ByteBuffer → ℕ → ℕ → ByteBuffer
read_string_table d offset size =
    if leb (length d) offset || size == 0
    then []
    else take (min size (length d - offset)) (drop offset d)

unfoldable pub until_nul : ByteBuffer → ByteBuffer
until_nul [] = []
until_nul (b ∷ bs) = if b == 0 then [] else b ∷ until_nul bs

unfoldable pub name_section : ByteBuffer → SectionHeader → SectionHeader
unfolding until_nul
name_section strings sh =
    if ltb sh.name_idx (length strings)
    then record sh { name = until_nul (drop sh.name_idx strings) }
    else sh

abbrev no_section : SectionHeader
no_section = record {
  name = [];
  name_idx = 0;
  type = 0;
  flags = 0;
  addr = 0;
  offset = 0;
  size = 0;
  link = 0;
  info = 0;
  addralign = 0;
  entsize = 0;
}

unfoldable pub resolve_names : ByteBuffer → ℕ → List SectionHeader → List SectionHeader
unfolding read_string_table name_section
resolve_names d index shs =
    let table = get_or shs index no_section in
    if ltb index (length shs) && (table.type == sht_strtab && ltb table.offset (length d))
    then map
        (name_section (read_string_table d table.offset (min table.size (length d - table.offset))))
        shs
    else shs

-- What follows the validation of the header. The segments of an empty table pass the checks.
unfoldable pub parse_tables : ByteBuffer → ElfHeader → Result ElfFile
unfolding read_program_headers read_section_headers resolve_names
parse_tables d h = read_program_headers d h >>= λ phs. read_section_headers d h >>= λ shs.
    ok (record {
      header = h;
      program_headers = phs;
      section_headers = resolve_names d h.shstrndx shs;
      raw_data = d;
      valid = validate_program_headers phs (length d);
    })

unfoldable pub parse : ByteBuffer → Result ElfFile
unfolding read_header validate_header
parse d =
    if not (has_valid_magic d)
    then err invalid_elf
    else read_header d >>= λ h.
        if validate_header h (length d) then parse_tables d h else err invalid_elf
