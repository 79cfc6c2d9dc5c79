-- ===== src/Gpt/Parser/Primary.antt =====
-- Parsing the primary table that a disk holds.
use mboot_core.Prelude.{ℕ, ◌≡◌, refl, arith, Bool, true, false, ◌==◌, List, [], length}
use mboot_core.Domain.{Result, ok, gpt_primary_missing, gpt_invalid_entry, ByteBuffer}
use mboot_core.Bytes.{IsU32}
use mboot_core.Gpt.Header.{GptHeader, serialize_header, update_header_crc, check_header}
use mboot_core.Gpt.Entries.{PartitionEntry, serialize_entries, compute_entry_crc}
use mboot_core.Gpt.Parser.{
  FlashDevice, GptParser, ParserResult, no_table, mbr_partition_type, read_sector, parse_entries,
  parse_header, parse_primary, set_storage, invalidate, warn,
}
use mboot_core.Gpt.Parser.OnDisk.{IsTable, Holds, read_sector-512}
use mboot_core.Gpt.Parser.Fills.{
  filled, check_header-sealed, update_header_crc-is_sealed, table-filled,
}

-- The result of a parse that found nothing wrong.
abbrev pub Loaded : GptHeader → List PartitionEntry → Result ParserResult → Type 0
Loaded h es result =
    (r : ParserResult) × (result ≡ ok r)
    × (r.table.primary_header ≡ h)
    × (r.table.primary_valid ≡ true)
    × (r.table.entries ≡ es)
    × (r.table.entries_valid ≡ true)
    × (r.warnings ≡ [])
    × (r.errors ≡ [])

-- The result so far: a valid header.
abbrev found : GptHeader → Bool → ParserResult
found h protective = record {
  table = record no_table {
    primary_header = h;
    primary_valid = true;
    has_valid_protective_mbr = protective;
  };
  warnings = [];
  errors = [];
}

abbrev start : Bool → ParserResult
start protective = record {
  table = record no_table { has_valid_protective_mbr = protective };
  warnings = [];
  errors = [];
}

parse_header-valid :
    (crc32 : ByteBuffer → ℕ) (device : FlashDevice) (g : GptParser) (h : GptHeader)
    (protective : Bool)
    → check_header crc32 (read_sector device g 1) gpt_primary_missing ≡ ok (h, [], true)
    → parse_header crc32 device g (start protective)
      ≡ parse_entries crc32 device g h invalidate (warn gpt_invalid_entry) (found h protective)
unfolding parse_header
parse_header-valid crc32 device g h protective checked = rw checked refl

parse_primary-mbr :
    (crc32 : ByteBuffer → ℕ) (device : FlashDevice) (g g' : GptParser) (mbr : ByteBuffer)
    → set_storage device.storage_info (record g { has_valid_mbr = false }) ≡ g'
    → read_sector device g' 0 ≡ mbr
    → (length mbr == 0) ≡ false
    → (parse_primary crc32 device g).1
      ≡ parse_header crc32 device g' (start (mbr_partition_type mbr == 0xee))
unfolding parse_primary
parse_primary-mbr crc32 device g g' mbr storage sector more = rw (storage, sector, more) refl

-- Parsing a device with sectors of 512 bytes that holds a table within the parser's limits, of whole
-- sectors, with the checksums that the writer computes for its entries and its header, finds both
-- checksums right, whatever the checksum function is, if its results fit 32 bits: the header and the
-- entries are the ones written, both are marked valid, and there is no warning and no error.
-- Nothing is asked of the revision, the ranges of the partitions or their overlaps, at which the parser
-- does not look, nor of the type in the protective MBR, which it only records.
pub parse_primary-Holds :
    (crc32 : ByteBuffer → ℕ) (device : FlashDevice) (g : GptParser) (h h' : GptHeader)
    (es : List PartitionEntry) (buf : ByteBuffer)
    → ((d : ByteBuffer) → IsU32 (crc32 d))
    → IsTable h es
    → serialize_entries es (length es) h.size_of_partition_entry ≡ ok buf
    → compute_entry_crc crc32 es (length es) h.size_of_partition_entry
      ≡ ok h.partition_entries_crc32
    → update_header_crc crc32 h ≡ ok h'
    → Holds device h' buf
    → Loaded h' es (parse_primary crc32 device g).1
unfolding set_storage
parse_primary-Holds crc32 device g h h' es buf bounded t written crc updated o =
    let g' : GptParser = record g {
      sector_size = 512;
      total_sectors = o.sectors;
      has_valid_mbr = false;
    } in
    let mbr : read_sector device g' 0 ≡ o.mbr =
      read_sector-512 device g' 0 refl (omega arith) o.mbr_read in
    let some_mbr : (length o.mbr == 0) ≡ false = ground arith in
    let sector : read_sector device g' 1 ≡ serialize_header h' =
      read_sector-512 device g' 1 refl (omega arith) o.header_read in
    let checked = check_header-sealed crc32 h h' es gpt_primary_missing bounded t updated in
    let storage : set_storage device.storage_info (record g { has_valid_mbr = false }) ≡ g' =
      rw o.sector_512 refl in
    rw
      (
        parse_primary-mbr crc32 device g g' o.mbr storage mbr some_mbr,
        parse_header-valid crc32 device g' h' (mbr_partition_type o.mbr == 0xee)
            (rw sector checked),
      )
      (
        filled h' es (found h' (mbr_partition_type o.mbr == 0xee)),
        table-filled crc32 device g' h h' es buf invalidate (warn gpt_invalid_entry)
            (found h' (mbr_partition_type o.mbr == 0xee)) bounded t refl
            (update_header_crc-is_sealed crc32 h h' t.header_long updated) written crc
            o.entries_read,
        refl,
        refl,
        refl,
        refl,
        refl,
        refl,
      )
