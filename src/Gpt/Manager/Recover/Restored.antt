-- ===== src/Gpt/Manager/Recover/Restored.antt =====
-- The primary header that is made of a backup.
use mboot_core.Prelude.{ℕ, ◌≡◌, ◌≤◌, refl, true, [], append-nil, arith}
use mboot_core.Domain.{ok, ByteBuffer, gpt_primary_missing}
use mboot_core.Bytes.{IsU32, IsU64}
use mboot_core.Gpt.Header.{GptHeader, header_signature, serialize_header, check_header}
use mboot_core.Gpt.Header.RoundTrip.{IsHeader}
use mboot_core.Gpt.Header.Checksum.{
  sealed, compute_header_crc-covered, update_header_crc-sealed, check_header-update_header_crc,
}
use mboot_core.Gpt.Entries.{compute_entry_crc}
use mboot_core.Gpt.Parser.{GptParser, GptTable}
use mboot_core.Gpt.Writer.{GptWriter}
use mboot_core.Gpt.Manager.{ManagedDevice}
use mboot_core.Gpt.Manager.Recover.{new_primary, primary_from_backup}

module _ {W : Type 0} (crc32 : ByteBuffer → ℕ) (device : ManagedDevice W) (wr : GptWriter) where
  new_primary-IsHeader :
      (layout : GptParser) (h : GptHeader)
      → IsU64 layout.backup_header_lba
      → IsHeader h
      → IsHeader (new_primary crc32 device wr layout h)
  new_primary-IsHeader layout h b v = record {
    signature = v.signature;
    revision = v.revision;
    header_size = v.header_size;
    header_crc32 = v.header_crc32;
    reserved = v.reserved;
    my_lba = omega arith;
    alternate_lba = b;
    first_usable_lba = v.first_usable_lba;
    last_usable_lba = v.last_usable_lba;
    data1 = v.data1;
    data2 = v.data2;
    data3 = v.data3;
    data4 = v.data4;
    partition_entry_lba = omega arith;
    number_of_partition_entries = v.number_of_partition_entries;
    size_of_partition_entry = v.size_of_partition_entry;
    partition_entries_crc32 = v.partition_entries_crc32;
  }

  primary_from_backup-sealed :
      (layout : GptParser) (table : GptTable)
      → 92 ≤ table.backup_header.header_size
      → compute_entry_crc crc32 table.entries table.backup_header.number_of_partition_entries
          table.backup_header.size_of_partition_entry
        ≡ ok table.backup_header.partition_entries_crc32
      → primary_from_backup crc32 device wr layout table
        ≡ ok (sealed crc32 (new_primary crc32 device wr layout table.backup_header))
  unfolding primary_from_backup
  primary_from_backup-sealed layout table b crc =
      rw
        (
          compute_header_crc-covered crc32 (new_primary crc32 device wr layout table.backup_header)
              b,
          primary_from_backup,
          crc,
        )
        refl

  -- If the entries have the checksum that the backup header records, the primary header that is made of
  -- the backup exists, and the parser, reading it from its sector, finds it valid and the same: whatever
  -- the checksum function is, if its results fit 32 bits, for a backup header with the signature and a
  -- size of at least 92 whose fields fit their types, at a sector whose address fits 64 bits. The parser
  -- does not look at the revision, nor ask for a size of exactly 92.
  pub primary_from_backup-valid :
      (layout : GptParser) (table : GptTable)
      → ((d : ByteBuffer) → IsU32 (crc32 d))
      → IsHeader table.backup_header
      → IsU64 layout.backup_header_lba
      → table.backup_header.signature ≡ header_signature
      → 92 ≤ table.backup_header.header_size
      → compute_entry_crc crc32 table.entries table.backup_header.number_of_partition_entries
          table.backup_header.size_of_partition_entry
        ≡ ok table.backup_header.partition_entries_crc32
      → (h : GptHeader) × (primary_from_backup crc32 device wr layout table ≡ ok h)
        × (check_header crc32 (serialize_header h) gpt_primary_missing ≡ ok (h, [], true))
  primary_from_backup-valid layout table bounded v lba signed b crc =
      let h = new_primary crc32 device wr layout table.backup_header in
      let (k, made, checked) =
        check_header-update_header_crc crc32 h [] gpt_primary_missing bounded
          (new_primary-IsHeader layout table.backup_header lba v) signed b in
      let found = update_header_crc-sealed crc32 h b in
      let same : k ≡ sealed crc32 h = cc in
      (
        k,
        rw same (primary_from_backup-sealed layout table b crc),
        rw (← append-nil (serialize_header k)) checked,
      )
