-- ===== src/Examples/Disk.antt =====
-- A disk of 2^20 sectors with a table of four entries: an instance of the theorem on its parse.
use mboot_core.Prelude.{
  ◌*◌, ◌≡◌, refl, arith, true, false, ◌==◌, if◌then◌else◌, none, some, List, [], ◌∷◌, All, length,
  replicate,
}
use mboot_core.Domain.{ok, gpt_primary_missing, ByteBuffer}
use mboot_core.Gpt.Header.{GptHeader, no_header, serialize_header, check_header}
use mboot_core.Gpt.Header.RoundTrip.{IsHeader}
use mboot_core.Gpt.Header.Checksum.{sealed, update_header_crc-sealed}
use mboot_core.Gpt.Entries.{PartitionEntry, serialize_entries, compute_entry_crc}
use mboot_core.Gpt.Entries.Reads.{IsEntry}
use mboot_core.Gpt.Entries.RoundTrip.{read_entries-serialize_entries}
use mboot_core.Gpt.Parser.{FlashDevice, GptParser, parse_primary, value_or_empty}
use mboot_core.Gpt.Parser.Whole.{parse_both}
use mboot_core.Gpt.Parser.Fallback.{FellBack, HoldsBackup, parse_both-FellBack}
use mboot_core.Gpt.Parser.Primary.{Loaded, parse_primary-Holds}
use mboot_core.Gpt.Parser.OnDisk.{IsTable, Holds}
use mboot_core.Gpt.Parser.{GptTable, no_table}
use mboot_core.Gpt.Writer.{new_writer}
use mboot_core.Gpt.Manager.{ManagedDevice}
use mboot_core.Gpt.Manager.Recover.{primary_from_backup}
use mboot_core.Gpt.Manager.Recover.Restored.{primary_from_backup-valid}
use mboot_core.Examples.Gpt.{
  disk_header, disk_header-IsHeader, boot_entry, boot_entry-IsEntry, byte_sum, byte_sum-IsU32,
}

abbrev table_entries : List PartitionEntry
table_entries = boot_entry ∷ boot_entry ∷ boot_entry ∷ boot_entry ∷ []

table_entries-IsEntry : All IsEntry table_entries
table_entries-IsEntry = let u = boot_entry-IsEntry in (u, (u, (u, (u, tt))))

table_written :
    (buf : ByteBuffer) × (serialize_entries table_entries 4 128 ≡ ok buf) × (length buf ≡ 4 * 128)
table_written =
    let w =
      read_entries-serialize_entries table_entries 128 table_entries-IsEntry (omega arith)
        (omega arith) in
    (w.0, w.1, w.2)

abbrev table_bytes : ByteBuffer
table_bytes = table_written.0

abbrev table_header : GptHeader
table_header = record disk_header {
  number_of_partition_entries = 4;
  partition_entries_crc32 = byte_sum table_bytes;
}

table_header-IsHeader : IsHeader table_header
table_header-IsHeader =
    let v = disk_header-IsHeader in
    record {
      signature = v.signature;
      revision = v.revision;
      header_size = v.header_size;
      header_crc32 = v.header_crc32;
      reserved = v.reserved;
      my_lba = v.my_lba;
      alternate_lba = v.alternate_lba;
      first_usable_lba = v.first_usable_lba;
      last_usable_lba = v.last_usable_lba;
      data1 = v.data1;
      data2 = v.data2;
      data3 = v.data3;
      data4 = v.data4;
      partition_entry_lba = v.partition_entry_lba;
      number_of_partition_entries = omega arith;
      size_of_partition_entry = v.size_of_partition_entry;
      partition_entries_crc32 = byte_sum-IsU32 table_bytes;
    }

table_header-IsTable : IsTable table_header table_entries
table_header-IsTable = record {
  header_fits = table_header-IsHeader;
  signed = refl;
  header_long = omega arith;
  entries_fit = table_entries-IsEntry;
  counted = refl;
  some_entries = omega arith;
  few_entries = omega arith;
  size_least = omega arith;
  size_most = omega arith;
  whole_sectors = refl;
  reachable = omega arith;
}

table_crc : compute_entry_crc byte_sum table_entries 4 128 ≡ ok (byte_sum table_bytes)
unfolding compute_entry_crc
table_crc =
    let some_bytes : (length table_bytes == 0) ≡ false = ground (arith, table_written.2) in
    rw (table_written.1, some_bytes) refl

abbrev disk : FlashDevice
disk = record {
  storage_info = some (512, 1048576);
  read_memory = λ address size.
      if address == 0
      then some (replicate 512 0)
      else if address == 512
      then some (serialize_header (sealed byte_sum table_header))
      else some table_bytes;
}

abbrev new_parser : GptParser
new_parser = record {
  sector_size = 512;
  total_sectors = 0;
  first_usable_lba = 34;
  last_usable_lba = 0;
  backup_entries_lba = 0;
  backup_header_lba = 0;
  has_valid_mbr = false;
}

disk-Holds : Holds disk (sealed byte_sum table_header) table_bytes
disk-Holds = record {
  sectors = 1048576;
  sector_512 = refl;
  mbr = replicate 512 0;
  mbr_some = omega arith;
  mbr_read = refl;
  header_read = refl;
  entries_read = refl;
}

parse_primary-Holds_example :
    Loaded (sealed byte_sum table_header) table_entries (parse_primary byte_sum disk new_parser).1
parse_primary-Holds_example =
    parse_primary-Holds byte_sum disk new_parser table_header (sealed byte_sum table_header)
      table_entries table_bytes byte_sum-IsU32 table_header-IsTable table_written.1 table_crc
      (update_header_crc-sealed byte_sum table_header (omega arith)) disk-Holds

-- The same table as a backup in the last sector, on a disk whose sector 1 cannot be read.
abbrev damaged_disk : FlashDevice
damaged_disk = record {
  storage_info = some (512, 1048576);
  read_memory = λ address size.
      if address == 0
      then some (replicate 512 0)
      else if address == 512
      then none
      else if address == 1048575 * 512
      then some (serialize_header (sealed byte_sum table_header))
      else some table_bytes;
}

damaged_disk-HoldsBackup : HoldsBackup damaged_disk (sealed byte_sum table_header) table_bytes none
damaged_disk-HoldsBackup = record {
  sectors = 1048576;
  many = omega arith;
  in_reach = omega arith;
  sector_512 = refl;
  mbr = replicate 512 0;
  mbr_some = omega arith;
  mbr_read = refl;
  primary_read = refl;
  header_read = refl;
  entries_read = refl;
}

unreadable :
    check_header byte_sum [] gpt_primary_missing ≡ ok (no_header, gpt_primary_missing ∷ [], false)
unfolding check_header
unreadable = refl

parse_both-FellBack_example :
    FellBack
      (sealed byte_sum table_header)
      table_entries
      (gpt_primary_missing ∷ [])
      (parse_both byte_sum damaged_disk new_parser).1
unfolding value_or_empty
parse_both-FellBack_example =
    parse_both-FellBack byte_sum damaged_disk new_parser table_header (sealed byte_sum table_header)
      no_header table_entries table_bytes none (gpt_primary_missing ∷ []) byte_sum-IsU32
      table_header-IsTable table_written.1 table_crc
      (update_header_crc-sealed byte_sum table_header (omega arith)) damaged_disk-HoldsBackup
      unreadable

-- The table as the parser finds it when only the backup is good.
abbrev backup_table : GptTable
backup_table = record no_table {
  backup_header = table_header;
  backup_valid = true;
  entries = table_entries;
}

abbrev silent : ManagedDevice (Unit {0})
silent = record {
  open_device = λ w. (w, ok tt);
  view = λ w. disk;
  write_memory = λ a bytes w. (w, ok tt);
  erase_memory = λ a n w. (w, ok tt);
}

primary_from_backup-valid_example :
    (h : GptHeader) × (primary_from_backup byte_sum silent
        (new_writer disk.storage_info)
        new_parser
        backup_table
      ≡ ok h)
    × (check_header byte_sum (serialize_header h) gpt_primary_missing ≡ ok (h, [], true))
primary_from_backup-valid_example =
    primary_from_backup-valid byte_sum silent (new_writer disk.storage_info) new_parser backup_table
      byte_sum-IsU32 table_header-IsHeader (omega arith) refl (omega arith) table_crc
