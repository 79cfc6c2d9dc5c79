-- ===== src/Gpt/Parser/Fallback.antt =====
-- Parsing a disk whose primary header is damaged.
use mboot_core.Prelude.{
  ℕ, ◌-◌, ◌*◌, ◌^◌, ◌≤◌, ◌<◌, ◌≡◌, refl, arith, Bool, true, false, ltb, ◌==◌, Option, some, List,
  [], ◌++◌, append-nil, length,
}
use mboot_core.Domain.{ErrorCode, Result, ok, gpt_primary_missing, gpt_backup_missing, ByteBuffer}
use mboot_core.Bytes.{IsU32}
use mboot_core.Gpt.Arithmetic.{safe_mul}
use mboot_core.Gpt.Arithmetic.Bounds.{safe_mul_iff}
use mboot_core.Gpt.Header.{GptHeader, serialize_header, update_header_crc, check_header}
use mboot_core.Gpt.Entries.{PartitionEntry, serialize_entries, compute_entry_crc}
use mboot_core.Gpt.Parser.{
  FlashDevice, GptParser, ParserResult, no_table, mbr_partition_type, read_sector, value_or_empty,
  parse_entries,
}
use mboot_core.Gpt.Parser.OnDisk.{IsTable, read_sector-512}
use mboot_core.Gpt.Parser.Fills.{
  filled, check_header-sealed, update_header_crc-is_sealed, table-filled,
}
use mboot_core.Gpt.Parser.Whole.{
  learn_storage, lay_out, invalidate_backup, parse_primary_header, parse_backup_header,
  choose_entries, parse_headers, parse_both,
}

-- A device with sectors of 512 bytes that holds an MBR, and in its last sector a header, with the
-- entries where that header says. `primary` is the answer to reading sector 1.
pub record HoldsBackup (device : FlashDevice) (h : GptHeader) (entry_bytes : ByteBuffer)
    (primary : Option ByteBuffer) : Type 0 where
  pub sectors : ℕ
  pub many : 1 < sectors
  pub in_reach : sectors * 512 ≤ 2 ^ 64
  pub sector_512 : device.storage_info ≡ some (512, sectors)
  pub mbr : ByteBuffer
  pub mbr_some : 0 < length mbr
  pub mbr_read : device.read_memory 0 512 ≡ some mbr
  pub primary_read : device.read_memory 512 512 ≡ primary
  pub header_read : device.read_memory ((sectors - 1) * 512) 512 ≡ some (serialize_header h)
  pub entries_read :
      device.read_memory (h.partition_entry_lba * 512) (length entry_bytes) ≡ some entry_bytes

-- A result that has the entries from the backup, and the warnings of the primary header.
abbrev pub FellBack :
    GptHeader → List PartitionEntry → List ErrorCode → Result ParserResult → Type 0
FellBack h es warnings result =
    (r : ParserResult) × (result ≡ ok r)
    × (r.table.backup_header ≡ h)
    × (r.table.backup_valid ≡ true)
    × (r.table.primary_valid ≡ false)
    × (r.table.entries ≡ es)
    × (r.table.entries_valid ≡ true)
    × (r.warnings ≡ warnings)
    × (r.errors ≡ [])

read_sector-one :
    (device : FlashDevice) (g : GptParser)
    → g.sector_size ≡ 512
    → read_sector device g 1 ≡ value_or_empty (device.read_memory 512 512)
unfolding read_sector
read_sector-one device g e =
    let offset : safe_mul 1 g.sector_size ≡ some 512 =
      rw e ((safe_mul_iff 1 512 512).1 (refl, omega arith)) in
    rw (offset, read_sector, e) refl

-- The result with what a header gives.
abbrev with_primary : GptHeader → List ErrorCode → Bool → ParserResult → ParserResult
with_primary h ws valid r = record r {
  table = record r.table { primary_header = h; primary_valid = valid };
  warnings = r.warnings ++ ws;
}

abbrev with_backup : GptHeader → List ErrorCode → Bool → ParserResult → ParserResult
with_backup h ws valid r = record r {
  table = record r.table { backup_header = h; backup_valid = valid };
  warnings = r.warnings ++ ws;
}

parse_primary_header-checked :
    (crc32 : ByteBuffer → ℕ) (device : FlashDevice) (g : GptParser) (r : ParserResult)
    (h : GptHeader) (ws : List ErrorCode) (valid : Bool)
    → check_header crc32 (read_sector device g 1) gpt_primary_missing ≡ ok (h, ws, valid)
    → parse_primary_header crc32 device g r ≡ ok (with_primary h ws valid r)
unfolding parse_primary_header
parse_primary_header-checked crc32 device g r h ws valid checked = rw checked refl

parse_backup_header-checked :
    (crc32 : ByteBuffer → ℕ) (device : FlashDevice) (g : GptParser) (r : ParserResult)
    (h : GptHeader) (ws : List ErrorCode) (valid : Bool)
    → ltb 0 g.backup_header_lba ≡ true
    → check_header crc32 (read_sector device g g.backup_header_lba) gpt_backup_missing
      ≡ ok (h, ws, valid)
    → parse_backup_header crc32 device g r ≡ ok (with_backup h ws valid r)
unfolding parse_backup_header
parse_backup_header-checked crc32 device g r h ws valid some_lba checked =
    rw (some_lba, checked) refl

choose_entries-backup :
    (crc32 : ByteBuffer → ℕ) (device : FlashDevice) (g : GptParser) (r : ParserResult)
    (h0 h : GptHeader) (ws : List ErrorCode)
    → choose_entries crc32 device g (with_backup h [] true (with_primary h0 ws false r))
      ≡ parse_entries crc32 device g h invalidate_backup
          (λ s. s)
          (with_backup h [] true (with_primary h0 ws false r))
unfolding choose_entries
choose_entries-backup crc32 device g r h0 h ws = refl

-- What the MBR and the storage tell, before the headers are read.
abbrev start : GptParser → Bool → ParserResult
start g protective = record {
  table = record no_table {
    has_valid_protective_mbr = protective;
    disk_size_in_sectors = g.total_sectors;
    sector_size = g.sector_size;
  };
  warnings = [];
  errors = [];
}

parse_both-mbr :
    (crc32 : ByteBuffer → ℕ) (device : FlashDevice) (g g' : GptParser) (mbr : ByteBuffer)
    → learn_storage device.storage_info (record g { has_valid_mbr = false }) ≡ g'
    → read_sector device g' 0 ≡ mbr
    → (length mbr == 0) ≡ false
    → (parse_both crc32 device g).1
      ≡ parse_headers crc32 device
          (lay_out (record g' { has_valid_mbr = mbr_partition_type mbr == 0xee }))
          (start g' (mbr_partition_type mbr == 0xee))
unfolding parse_both
parse_both-mbr crc32 device g g' mbr storage sector more = rw (storage, sector, more) refl

-- Whatever stands in sector 1, if the check refuses it with the warnings `ws`, parsing a device with
-- sectors of 512 bytes whose last sector holds the header of a table within the parser's limits, of
-- whole sectors, with the checksums that the writer computes, falls back to it: the backup header and
-- the entries are the ones written, the backup and the entries are marked valid and the primary header
-- is not, the warnings are `ws` and there is no error. The checksum function is any whose results fit
-- 32 bits; the disk has two sectors or more and its addresses fit 64 bits.
-- Nothing is asked of the revision, the ranges of the partitions or their overlaps, at which the parser
-- does not look.
pub parse_both-FellBack :
    (crc32 : ByteBuffer → ℕ) (device : FlashDevice) (g : GptParser) (h h' h0 : GptHeader)
    (es : List PartitionEntry) (buf : ByteBuffer) (primary : Option ByteBuffer)
    (ws : List ErrorCode)
    → ((d : ByteBuffer) → IsU32 (crc32 d))
    → IsTable h es
    → serialize_entries es (length es) h.size_of_partition_entry ≡ ok buf
    → compute_entry_crc crc32 es (length es) h.size_of_partition_entry
      ≡ ok h.partition_entries_crc32
    → update_header_crc crc32 h ≡ ok h'
    → HoldsBackup device h' buf primary
    → check_header crc32 (value_or_empty primary) gpt_primary_missing ≡ ok (h0, ws, false)
    → FellBack h' es ws (parse_both crc32 device g).1
unfolding lay_out parse_headers learn_storage
parse_both-FellBack crc32 device g h h' h0 es buf primary ws bounded t written crc updated o
      damaged =
    let g' : GptParser = record g {
      sector_size = 512;
      total_sectors = o.sectors;
      has_valid_mbr = false;
    } in
    let storage : learn_storage device.storage_info (record g { has_valid_mbr = false }) ≡ g' =
      rw o.sector_512 refl in
    let protective = mbr_partition_type o.mbr == 0xee in
    let laid = lay_out (record g' { has_valid_mbr = protective }) in
    let r = start g' protective in
    let mbr : read_sector device g' 0 ≡ o.mbr =
      read_sector-512 device g' 0 refl (omega arith) o.mbr_read in
    let some_mbr : (length o.mbr == 0) ≡ false = ground (arith, o.mbr_some) in
    let last : laid.backup_header_lba ≡ o.sectors - 1 = ground (arith, o.many) in
    let some_lba : ltb 0 laid.backup_header_lba ≡ true = rw last (ground (arith, o.many)) in
    let first : read_sector device laid 1 ≡ value_or_empty primary =
      rw (← o.primary_read) (read_sector-one device laid refl) in
    let sector : read_sector device laid laid.backup_header_lba ≡ serialize_header h' =
      read_sector-512 device laid laid.backup_header_lba refl
        (rw last (omega (arith, o.many, o.in_reach))) (rw last o.header_read) in
    let done = with_backup h' [] true (with_primary h0 ws false r) in
    rw
      (
        parse_both-mbr crc32 device g g' o.mbr storage mbr some_mbr,
        parse_primary_header-checked crc32 device laid r h0 ws false (rw first damaged),
        parse_backup_header-checked crc32 device laid (with_primary h0 ws false r) h' [] true
            some_lba
            (rw sector (check_header-sealed crc32 h h' es gpt_backup_missing bounded t updated)),
        choose_entries-backup crc32 device laid r h0 h' ws,
      )
      (
        filled h' es done,
        table-filled crc32 device laid h h' es buf invalidate_backup (λ s. s) done bounded t refl
            (update_header_crc-is_sealed crc32 h h' t.header_long updated) written crc
            o.entries_read,
        refl,
        refl,
        refl,
        refl,
        refl,
        append-nil ws,
        refl,
      )
