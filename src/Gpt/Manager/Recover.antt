-- ===== src/Gpt/Manager/Recover.antt =====
-- `recoverFromBackup` of lib/src/gpt/PartitionManager.cpp.
pub mod Restored
use mboot_core.Prelude.{ℕ, ◌≡◌, refl, Bool, true, false, if◌then◌else◌, List}
use mboot_core.Domain.{Result, ok, err, stuck, ByteBuffer, gpt_corrupted}
use mboot_core.Gpt.Header.{GptHeader, compute_header_crc, update_header_crc}
use mboot_core.Gpt.Entries.{PartitionEntry, compute_entry_crc}
use mboot_core.Gpt.Parser.{GptParser, GptTable}
use mboot_core.Gpt.Parser.Whole.{parse_both}
use mboot_core.Gpt.Writer.{
  GptWriter, write_primary_header, write_backup_header, write_partition_entries, then_write,
}
use mboot_core.Gpt.Manager.{ManagedDevice, PartitionManager, refresh_table}

module _ {W : Type 0} (crc32 : ByteBuffer → ℕ) (device : ManagedDevice W) (wr : GptWriter) where
  abbrev pub new_primary : GptParser → GptHeader → GptHeader
  new_primary layout backup = record backup {
    my_lba = 1;
    alternate_lba = layout.backup_header_lba;
    partition_entry_lba = 2;
  }

  -- The checksum of the entries is set after that of the header is computed.
  unfoldable pub primary_from_backup : GptParser → GptTable → Result GptHeader
  unfolding compute_header_crc compute_entry_crc
  primary_from_backup layout table =
      let h = new_primary layout table.backup_header in
      elim (compute_header_crc crc32 h) [
        | ok crc ↦
            let sealed = record h { header_crc32 = crc } in
            elim (compute_entry_crc crc32 table.entries h.number_of_partition_entries
              h.size_of_partition_entry) [
                | ok entry_crc ↦ ok (record sealed { partition_entries_crc32 = entry_crc })
                | err e ↦ ok sealed
                | stuck f ↦ stuck f
              ]
        | err e ↦ err e
        | stuck f ↦ stuck f
      ]

  unfoldable pub restore_primary : GptParser → GptTable → W → W × Result (Unit {0})
  unfolding primary_from_backup write_partition_entries write_primary_header
  restore_primary layout table w = elim (primary_from_backup layout table) [
    | ok h ↦
        then_write (write_partition_entries device.write_memory wr h table.entries)
          (write_primary_header device.write_memory wr h) w
    | err e ↦ (w, err e)
    | stuck f ↦ (w, stuck f)
  ]

  unfoldable pub restore_backup : GptParser → GptTable → W → W × Result (Unit {0})
  unfolding write_backup_header write_partition_entries update_header_crc write_primary_header
  restore_backup layout table w =
      let h = table.primary_header in
      let backup = record h {
        my_lba = layout.backup_header_lba;
        partition_entry_lba = layout.backup_entries_lba;
      } in
      then_write (write_backup_header device.write_memory wr crc32 h)
        (then_write (write_partition_entries device.write_memory wr backup table.entries) (λ v.
          elim (update_header_crc crc32 (record h { alternate_lba = layout.backup_header_lba })) [
            | ok updated ↦ write_primary_header device.write_memory wr updated v
            | err e ↦ (v, err e)
            | stuck f ↦ (v, stuck f)
          ]))
        w

  -- The table is read again after a repair that succeeds.
  abbrev pub repaired :
      PartitionManager W → W × Result (Unit {0}) → PartitionManager W × Result (Unit {0})
  repaired m (w, ok _) = refresh_table crc32 device (record m { world = w })
  repaired m (w, err e) = (record m { world = w }, err e)
  repaired m (w, stuck f) = (record m { world = w }, stuck f)

  -- By the table just parsed. The layout is not taken from the parser.
  unfoldable pub repair : PartitionManager W → GptTable → PartitionManager W × Result (Unit {0})
  unfolding restore_primary restore_backup
  repair m table =
      if table.primary_valid
      then if table.backup_valid
        then (m, ok tt)
        else repaired m (restore_backup m.layout table m.world)
      else if table.backup_valid
      then repaired m (restore_primary m.layout table m.world)
      else (m, err gpt_corrupted)

  unfoldable pub recover_from_backup : PartitionManager W → PartitionManager W × Result (Unit {0})
  recover_from_backup m =
      let (g, r) = parse_both crc32 (device.view m.world) m.parser in
      elim r [
        | ok p ↦ repair (record m { parser = g; table = p.table }) p.table
        | err e ↦ (record m { parser = g }, err e)
        | stuck f ↦ (record m { parser = g }, stuck f)
      ]
