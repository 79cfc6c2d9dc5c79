-- ===== src/Elf/Reader.antt =====
-- lib/src/elf/ElfParser.cpp: the reads. `p + i` is the offset `i` of the buffer; a read that leaves the buffer is
-- undefined behaviour.
pub mod Fields
use mboot_core.Prelude.{
  ℕ, zero, suc, ◌+◌, ◌-◌, ◌*◌, ◌%◌, ◌^◌, min, Bool, true, false, ◌&&◌, ◌||◌, not, ltb, leb, ◌==◌,
  if◌then◌else◌, List, [], ◌∷◌, ◌++◌, length, take, drop, get_or, map,
}
use mboot_core.Domain.{
  Result, ok, err, stuck, ◌>>=◌, ◌>>◌, invalid_elf, undefined_behaviour, ByteBuffer,
}
use mboot_core.Bytes.{byte, get16, get32, get64}
use mboot_core.Elf.Models.{
  ElfHeader, empty_header, ProgramHeader, SectionHeader, ElfFile, elf32, elf64, big_endian,
  sht_strtab, is_loadable, end_vaddr,
}

abbrev pub get16_big : ByteBuffer → ℕ → ℕ
get16_big d i = 256 * byte d i + byte d (i + 1)

abbrev pub get32_big : ByteBuffer → ℕ → ℕ
get32_big d i = 2 ^ 16 * get16_big d i + get16_big d (i + 2)

abbrev pub get64_big : ByteBuffer → ℕ → ℕ
get64_big d i = 2 ^ 32 * get32_big d i + get32_big d (i + 4)

unfoldable pub read_u16 : ByteBuffer → ℕ → ℕ → ℕ
read_u16 d endian i = if endian == big_endian then get16_big d i else get16 d i

unfoldable pub read_u32 : ByteBuffer → ℕ → ℕ → ℕ
read_u32 d endian i = if endian == big_endian then get32_big d i else get32 d i

unfoldable pub read_u64 : ByteBuffer → ℕ → ℕ → ℕ
read_u64 d endian i = if endian == big_endian then get64_big d i else get64 d i

-- The reads of `n` bytes at `p`.
unfoldable pub reads : ByteBuffer → ℕ → ℕ → Result (Unit {0})
reads d p n = if leb (p + n) (length d) then ok tt else stuck undefined_behaviour

unfoldable pub has_valid_magic : ByteBuffer → Bool
has_valid_magic d =
    not (ltb (length d) 4)
    && (byte d 0 == 127 && (byte d 1 == 69 && (byte d 2 == 76 && byte d 3 == 70)))

-- The fields that both classes have at the same place.
unfoldable pub read_ident : ByteBuffer → ElfHeader
read_ident d = record empty_header {
  elf_class = byte d 4;
  endian = byte d 5;
  version = byte d 6;
  os_abi = byte d 7;
  abi_version = byte d 8;
}

unfoldable pub read_header64 : ByteBuffer → ElfHeader
unfolding read_ident
read_header64 d =
    let e = byte d 5 in
    record (read_ident d) {
      type = read_u16 d e 16;
      machine = read_u16 d e 18;
      elf_version = read_u32 d e 20;
      entry = read_u64 d e 24;
      phoff = read_u64 d e 32;
      shoff = read_u64 d e 40;
      flags = read_u32 d e 48;
      ehsize = read_u16 d e 52;
      phentsize = read_u16 d e 54;
      phnum = read_u16 d e 56;
      shentsize = read_u16 d e 58;
      shnum = read_u16 d e 60;
      shstrndx = read_u16 d e 62;
    }

unfoldable pub read_header32 : ByteBuffer → ElfHeader
unfolding read_ident
read_header32 d =
    let e = byte d 5 in
    record (read_ident d) {
      type = read_u16 d e 16;
      machine = read_u16 d e 18;
      elf_version = read_u32 d e 20;
      entry = read_u32 d e 24;
      phoff = read_u32 d e 28;
      shoff = read_u32 d e 32;
      flags = read_u32 d e 36;
      ehsize = read_u16 d e 40;
      phentsize = read_u16 d e 42;
      phnum = read_u16 d e 44;
      shentsize = read_u16 d e 46;
      shnum = read_u16 d e 48;
      shstrndx = read_u16 d e 50;
    }

unfoldable pub read_header : ByteBuffer → Result ElfHeader
unfolding read_header64 read_header32 reads
read_header d =
    if ltb (length d) 52
    then ok empty_header
    else if byte d 4 == 0 || byte d 5 == 0
    then ok (record empty_header { elf_class = byte d 4; endian = byte d 5 })
    else if byte d 4 == elf64 && leb 64 (length d)
    then reads d 0 64 >> ok (read_header64 d)
    else if byte d 4 == elf32 && leb 52 (length d)
    then reads d 0 52 >> ok (read_header32 d)
    else ok (read_ident d)

unfoldable pub read_program_header : Bool → ByteBuffer → ℕ → ℕ → Result ProgramHeader
unfolding reads
read_program_header true d e p =
    reads d p 56
    >> ok (record {
      type = read_u32 d e p;
      flags = read_u32 d e (p + 4);
      offset = read_u64 d e (p + 8);
      vaddr = read_u64 d e (p + 16);
      paddr = read_u64 d e (p + 24);
      filesz = read_u64 d e (p + 32);
      memsz = read_u64 d e (p + 40);
      align = read_u64 d e (p + 48);
    })
read_program_header false d e p =
    reads d p 32
    >> ok (record {
      type = read_u32 d e p;
      offset = read_u32 d e (p + 4);
      vaddr = read_u32 d e (p + 8);
      paddr = read_u32 d e (p + 12);
      filesz = read_u32 d e (p + 16);
      memsz = read_u32 d e (p + 20);
      flags = read_u32 d e (p + 24);
      align = read_u32 d e (p + 28);
    })

unfoldable pub read_section_header : Bool → ByteBuffer → ℕ → ℕ → Result SectionHeader
unfolding reads
read_section_header true d e p =
    reads d p 64
    >> ok (record {
      name = [];
      name_idx = read_u32 d e p;
      type = read_u32 d e (p + 4);
      flags = read_u64 d e (p + 8);
      addr = read_u64 d e (p + 16);
      offset = read_u64 d e (p + 24);
      size = read_u64 d e (p + 32);
      link = read_u32 d e (p + 40);
      info = read_u32 d e (p + 44);
      addralign = read_u64 d e (p + 48);
      entsize = read_u64 d e (p + 56);
    })
read_section_header false d e p =
    reads d p 40
    >> ok (record {
      name = [];
      name_idx = read_u32 d e p;
      type = read_u32 d e (p + 4);
      flags = read_u32 d e (p + 8);
      addr = read_u32 d e (p + 12);
      offset = read_u32 d e (p + 16);
      size = read_u32 d e (p + 20);
      link = read_u32 d e (p + 24);
      info = read_u32 d e (p + 28);
      addralign = read_u32 d e (p + 32);
      entsize = read_u32 d e (p + 36);
    })
