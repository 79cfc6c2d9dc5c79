-- ===== src/Elf.antt =====
-- lib/src/elf: the parser of ELF files, the validation of their segments, and the image of their memory.
pub mod Models
pub mod Reader
pub mod Segments
pub mod Parser
pub mod Image
