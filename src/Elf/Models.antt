-- ===== src/Elf/Models.antt =====
-- lib/include/mbootcore/elf/ElfModels.hpp and ElfTypes.hpp. A value of an enum is its number, since
-- the parser casts any number of the file to it. Of a validation the flag is kept; its errors and
-- warnings are texts.
use mboot_core.Prelude.{ℕ, ◌+◌, ◌%◌, ◌^◌, Bool, ◌&&◌, ◌==◌, not, List}
use mboot_core.Domain.{ByteBuffer}

pub record ElfHeader : Type 0 where
  pub elf_class : ℕ
  pub endian : ℕ
  pub version : ℕ
  pub os_abi : ℕ
  pub abi_version : ℕ
  pub type : ℕ
  pub machine : ℕ
  pub elf_version : ℕ
  pub entry : ℕ
  pub phoff : ℕ
  pub shoff : ℕ
  pub flags : ℕ
  pub ehsize : ℕ
  pub phentsize : ℕ
  pub phnum : ℕ
  pub shentsize : ℕ
  pub shnum : ℕ
  pub shstrndx : ℕ

abbrev pub empty_header : ElfHeader
empty_header = record {
  elf_class = 0;
  endian = 0;
  version = 0;
  os_abi = 0;
  abi_version = 0;
  type = 0;
  machine = 0;
  elf_version = 0;
  entry = 0;
  phoff = 0;
  shoff = 0;
  flags = 0;
  ehsize = 0;
  phentsize = 0;
  phnum = 0;
  shentsize = 0;
  shnum = 0;
  shstrndx = 0;
}

pub record ProgramHeader : Type 0 where
  pub type : ℕ
  pub flags : ℕ
  pub offset : ℕ
  pub vaddr : ℕ
  pub paddr : ℕ
  pub filesz : ℕ
  pub memsz : ℕ
  pub align : ℕ

pub record SectionHeader : Type 0 where
  pub name : ByteBuffer
  pub name_idx : ℕ
  pub type : ℕ
  pub flags : ℕ
  pub addr : ℕ
  pub offset : ℕ
  pub size : ℕ
  pub link : ℕ
  pub info : ℕ
  pub addralign : ℕ
  pub entsize : ℕ

pub record ElfFile : Type 0 where
  pub header : ElfHeader
  pub program_headers : List ProgramHeader
  pub section_headers : List SectionHeader
  pub raw_data : ByteBuffer
  pub valid : Bool

-- `ElfClass::Elf32` and `Elf64`, `ElfEndian::Big`, `SegmentType::Load`, `SectionType::StrTab`.
abbrev pub elf32 : ℕ
elf32 = 1

abbrev pub elf64 : ℕ
elf64 = 2

abbrev pub big_endian : ℕ
big_endian = 2

abbrev pub pt_load : ℕ
pt_load = 1

abbrev pub sht_strtab : ℕ
sht_strtab = 3

unfoldable pub is_loadable : ProgramHeader → Bool
is_loadable ph = ph.type == pt_load

unfoldable pub end_vaddr : ProgramHeader → ℕ
end_vaddr ph = (ph.vaddr + ph.memsz) % 2 ^ 64

unfoldable pub is_valid : ElfFile → Bool
is_valid elf = elf.valid && (not (elf.header.elf_class == 0) && elf.header.elf_version == 1)
