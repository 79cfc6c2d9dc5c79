-- ===== src/Gpt/Writer.antt =====
-- The operations of lib/src/gpt/GPTWriter.cpp that write to the device; the bytes are those of
-- Gpt.Header and Gpt.Entries. The device is given by what writing does to a world.
use mboot_core.Prelude.{ℕ, ◌-◌, ltb, ◌==◌, if◌then◌else◌, Option, none, some, List, length}
use mboot_core.Domain.{Result, ok, err, stuck, ByteBuffer, invalid_argument}
use mboot_core.Gpt.Arithmetic.{safe_mul}
use mboot_core.Gpt.Header.{GptHeader, serialize_header, update_header_crc}
use mboot_core.Gpt.Entries.{PartitionEntry, serialize_entries}

-- The fields of `m_layout` that the writer uses.
pub record GptWriter : Type 0 where
  pub sector_size : ℕ
  pub total_sectors : ℕ
  pub backup_entries_lba : ℕ
  pub backup_header_lba : ℕ

-- From the sector size and the number of sectors, if the device tells.
unfoldable pub new_writer : Option (ℕ × ℕ) → GptWriter
new_writer none = record {
  sector_size = 512;
  total_sectors = 0;
  backup_entries_lba = 0;
  backup_header_lba = 0;
}
new_writer (some (size, n)) = record {
  sector_size = if size == 0 then 512 else size;
  total_sectors = n;
  backup_entries_lba = if ltb 33 n then n - 33 else 0;
  backup_header_lba = if ltb 0 n then n - 1 else 0;
}

module _ {W : Type 0} (write_memory : ℕ → ByteBuffer → W → W × Result (Unit {0}))
    (wr : GptWriter) where
  -- `writeSector` and `writeSectors`.
  unfoldable pub write_sector : ℕ → ByteBuffer → W → W × Result (Unit {0})
  unfolding safe_mul
  write_sector lba bytes w = elim (safe_mul lba wr.sector_size) [
    | none ↦ (w, err invalid_argument)
    | some byte_offset ↦ write_memory byte_offset bytes w
  ]

  unfoldable pub write_primary_header : GptHeader → W → W × Result (Unit {0})
  unfolding write_sector serialize_header
  write_primary_header h = write_sector 1 (serialize_header h)

  abbrev pub backup_of : GptHeader → GptHeader
  backup_of h = record h {
    my_lba = wr.backup_header_lba;
    alternate_lba = 1;
    partition_entry_lba = wr.backup_entries_lba;
  }

  unfoldable pub write_backup_header : (ByteBuffer → ℕ) → GptHeader → W → W × Result (Unit {0})
  unfolding update_header_crc write_sector serialize_header
  write_backup_header crc32 h w = elim (update_header_crc crc32 (backup_of h)) [
    | ok b ↦ write_sector wr.backup_header_lba (serialize_header b) w
    | err e ↦ (w, err e)
    | stuck f ↦ (w, stuck f)
  ]

  unfoldable pub write_partition_entries :
      GptHeader → List PartitionEntry → W → W × Result (Unit {0})
  unfolding serialize_entries write_sector
  write_partition_entries h es w =
      elim (serialize_entries es h.number_of_partition_entries h.size_of_partition_entry) [
        | ok bytes ↦
            if length bytes == 0
            then (w, err invalid_argument)
            else write_sector h.partition_entry_lba bytes w
        | err e ↦ (w, err e)
        | stuck f ↦ (w, stuck f)
      ]

-- One action after another, as `MBOOT_TRY` does.
abbrev pub then_write :
    {W : Type 0}
    → (W → W × Result (Unit {0}))
    → (W → W × Result (Unit {0}))
    → W
    → W × Result (Unit {0})
then_write first next w =
    let (v, r) = first w in elim r [ ok _ ↦ next v | err e ↦ (v, err e) | stuck f ↦ (v, stuck f) ]

-- `writePrimaryAndBackup`.
unfoldable pub write_primary_and_backup :
    {W : Type 0}
    → (ℕ → ByteBuffer → W → W × Result (Unit {0}))
    → GptWriter
    → (ByteBuffer → ℕ)
    → GptHeader
    → List PartitionEntry
    → W
    → W × Result (Unit {0})
unfolding write_partition_entries write_primary_header write_backup_header
write_primary_and_backup write_memory wr crc32 h es =
    then_write (write_partition_entries write_memory wr h es) (
      then_write (write_primary_header write_memory wr h) (
        then_write (write_backup_header write_memory wr crc32 h) (λ w.
          elim (serialize_entries es h.number_of_partition_entries h.size_of_partition_entry) [
            | ok bytes ↦
                if length bytes == 0
                then (w, ok tt)
                else write_sector write_memory wr wr.backup_entries_lba bytes w
            | err e ↦ (w, err e)
            | stuck f ↦ (w, stuck f)
          ])))
