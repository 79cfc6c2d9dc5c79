-- ===== src/Gpt/Parser/OnDisk.antt =====
-- What a disk holds that has a table, and reading its sectors.
use mboot_core.Prelude.{
  ℕ, ◌+◌, ◌-◌, ◌*◌, ◌/◌, ◌%◌, ◌^◌, ◌≤◌, ◌<◌, ◌≡◌, refl, arith, some, List, All, length,
}
use mboot_core.Domain.{ByteBuffer}
use mboot_core.Gpt.Arithmetic.{safe_mul}
use mboot_core.Gpt.Arithmetic.Bounds.{safe_mul_iff}
use mboot_core.Gpt.Header.{GptHeader, header_signature, serialize_header}
use mboot_core.Gpt.Header.RoundTrip.{IsHeader}
use mboot_core.Gpt.Entries.{PartitionEntry}
use mboot_core.Gpt.Entries.Reads.{IsEntry}
use mboot_core.Gpt.Parser.{FlashDevice, GptParser, read_sector, read_sectors, value_or_empty}

-- A table that the parser's limits allow: its entries fill whole sectors of 512 bytes, and start where
-- an address of 64 bits reaches.
pub record IsTable (h : GptHeader) (es : List PartitionEntry) : Type 0 where
  pub header_fits : IsHeader h
  pub signed : h.signature ≡ header_signature
  pub header_long : 92 ≤ h.header_size
  pub entries_fit : All IsEntry es
  pub counted : h.number_of_partition_entries ≡ length es
  pub some_entries : 0 < length es
  pub few_entries : length es ≤ 4096
  pub size_least : 128 ≤ h.size_of_partition_entry
  pub size_most : h.size_of_partition_entry ≤ 512
  pub whole_sectors : (length es * h.size_of_partition_entry) % 512 ≡ 0
  pub reachable : h.partition_entry_lba * 512 < 2 ^ 64

-- A device with sectors of 512 bytes that holds an MBR, the header and the entries.
pub record Holds (device : FlashDevice) (h : GptHeader) (entry_bytes : ByteBuffer) : Type 0 where
  pub sectors : ℕ
  pub sector_512 : device.storage_info ≡ some (512, sectors)
  pub mbr : ByteBuffer
  pub mbr_some : 0 < length mbr
  pub mbr_read : device.read_memory 0 512 ≡ some mbr
  pub header_read : device.read_memory 512 512 ≡ some (serialize_header h)
  pub entries_read :
      device.read_memory (h.partition_entry_lba * 512) (length entry_bytes) ≡ some entry_bytes

pub read_sector-512 :
    (device : FlashDevice) (g : GptParser) (lba : ℕ) {d : ByteBuffer}
    → g.sector_size ≡ 512
    → lba * 512 < 2 ^ 64
    → device.read_memory (lba * 512) 512 ≡ some d
    → read_sector device g lba ≡ d
unfolding read_sector value_or_empty
read_sector-512 device g lba e b r =
    let offset : safe_mul lba g.sector_size ≡ some (lba * 512) =
      rw e ((safe_mul_iff lba 512 (lba * 512)).1 (refl, b)) in
    rw (offset, read_sector, e, r) refl

pub read_sectors-512 :
    (device : FlashDevice) (g : GptParser) (lba total : ℕ) {d : ByteBuffer}
    → g.sector_size ≡ 512
    → lba * 512 < 2 ^ 64
    → total < 2 ^ 32
    → total % 512 ≡ 0
    → device.read_memory (lba * 512) total ≡ some d
    → read_sectors device g lba ((total + g.sector_size - 1) / g.sector_size) ≡ d
unfolding read_sectors value_or_empty
read_sectors-512 device g lba total e b t w r =
    let count : 512 * ((total + 512 - 1) / 512) ≡ total = omega arith in
    let size : safe_mul g.sector_size ((total + g.sector_size - 1) / g.sector_size) ≡ some total =
      rw e ((safe_mul_iff 512 ((total + 512 - 1) / 512) total).1 (count, omega arith)) in
    let offset : safe_mul lba g.sector_size ≡ some (lba * 512) =
      rw e ((safe_mul_iff lba 512 (lba * 512)).1 (refl, b)) in
    rw (size, offset, read_sectors, r) refl
