-- ===== src/Gpt/Parser/Whole.antt =====
-- `parse` of lib/src/gpt/GPTParser.cpp: both headers, and the entries by the one that is valid, the
-- primary one first.
use mboot_core.Prelude.{
  ℕ, ◌-◌, false, ltb, ◌==◌, if◌then◌else◌, Option, none, some, [], ◌∷◌, ◌++◌, length,
}
use mboot_core.Domain.{
  gpt_primary_missing, gpt_backup_missing, gpt_invalid_entry, transport_read_failed, Result, ok,
  ◌>>=◌, ByteBuffer,
}
use mboot_core.Gpt.Header.{check_header}
use mboot_core.Gpt.Parser.{
  FlashDevice, GptParser, ParserResult, no_table, mbr_partition_type, read_sector, warn, invalidate,
  parse_entries, set_storage,
}

-- The sectors are taken to be of 512 bytes when the device does not tell.
unfoldable pub learn_storage : Option (ℕ × ℕ) → GptParser → GptParser
learn_storage (some (size, sectors)) g = record g {
  sector_size = if size == 0 then 512 else size;
  total_sectors = sectors;
}
learn_storage none g = record g { sector_size = 512 }

-- Where the backup stands.
unfoldable pub lay_out : GptParser → GptParser
lay_out g =
    let n = g.total_sectors in
    record g {
      last_usable_lba = if ltb 34 n then n - 34 - 1 else 0;
      backup_entries_lba = if ltb 34 n then n - 33 else 0;
      backup_header_lba = if ltb 0 n then n - 1 else 0;
    }

unfoldable pub invalidate_backup : ParserResult → ParserResult
invalidate_backup r = record r { table = record r.table { backup_valid = false } }

unfoldable pub parse_primary_header :
    (ByteBuffer → ℕ) → FlashDevice → GptParser → ParserResult → Result ParserResult
unfolding check_header read_sector
parse_primary_header crc32 device g r =
    check_header crc32 (read_sector device g 1) gpt_primary_missing >>= λ checked.
    let (header, warnings, valid) = checked in
    ok (record r {
      table = record r.table { primary_header = header; primary_valid = valid };
      warnings = r.warnings ++ warnings;
    })

unfoldable pub parse_backup_header :
    (ByteBuffer → ℕ) → FlashDevice → GptParser → ParserResult → Result ParserResult
unfolding check_header read_sector
parse_backup_header crc32 device g r =
    if ltb 0 g.backup_header_lba
    then (check_header crc32 (read_sector device g g.backup_header_lba) gpt_backup_missing
        >>= λ checked.
            let (header, warnings, valid) = checked in
            ok (record r {
              table = record r.table { backup_header = header; backup_valid = valid };
              warnings = r.warnings ++ warnings;
            }))
    else ok r

-- Too few bytes for the entries of the backup are passed over in silence.
unfoldable pub choose_entries :
    (ByteBuffer → ℕ) → FlashDevice → GptParser → ParserResult → Result ParserResult
unfolding parse_entries warn invalidate invalidate_backup
choose_entries crc32 device g r =
    if r.table.primary_valid
    then parse_entries crc32 device g r.table.primary_header invalidate (warn gpt_invalid_entry) r
    else if r.table.backup_valid
    then parse_entries crc32 device g r.table.backup_header invalidate_backup (λ s. s) r
    else ok r

unfoldable pub update_layout : Result ParserResult → GptParser → GptParser
update_layout (ok r) g =
    if r.table.primary_valid
    then record g {
      first_usable_lba = r.table.primary_header.first_usable_lba;
      last_usable_lba = r.table.primary_header.last_usable_lba;
    }
    else g
update_layout _ g = g

-- The result of `parse` once the MBR is read.
unfoldable pub parse_headers :
    (ByteBuffer → ℕ) → FlashDevice → GptParser → ParserResult → Result ParserResult
parse_headers crc32 device g r = parse_primary_header crc32 device g r >>= λ p.
    parse_backup_header crc32 device g p >>= λ q. choose_entries crc32 device g q

unfoldable pub parse_both :
    (ByteBuffer → ℕ) → FlashDevice → GptParser → GptParser × Result ParserResult
parse_both crc32 device g =
    let g' = learn_storage device.storage_info (record g { has_valid_mbr = false }) in
    let mbr = read_sector device g' 0 in
    let protective = mbr_partition_type mbr == 0xee in
    let empty : ParserResult = record { table = no_table; warnings = []; errors = [] } in
    if length mbr == 0
    then (g', ok (record empty { errors = transport_read_failed ∷ [] }))
    else (let laid = lay_out (record g' { has_valid_mbr = protective }) in
        let r = parse_headers crc32 device laid (record empty {
          table = record no_table {
            has_valid_protective_mbr = protective;
            disk_size_in_sectors = g'.total_sectors;
            sector_size = g'.sector_size;
          };
        }) in
        (update_layout r laid, r))

-- `parseBackup`.
unfoldable pub parse_backup :
    (ByteBuffer → ℕ) → FlashDevice → GptParser → GptParser × Result ParserResult
unfolding set_storage parse_backup_header parse_entries invalidate_backup
parse_backup crc32 device g =
    let g' = set_storage device.storage_info g in
    let n = g'.total_sectors in
    let laid = record g' {
      backup_header_lba = if ltb 0 n then n - 1 else 0;
      backup_entries_lba = if ltb 33 n then n - 33 else 0;
    } in
    let empty : ParserResult = record { table = no_table; warnings = []; errors = [] } in
    if laid.backup_header_lba == 0
    then (laid, ok (record empty { errors = gpt_backup_missing ∷ [] }))
    else (
      laid,
      (parse_backup_header crc32 device laid empty >>= λ q.
          if q.table.backup_valid
          then parse_entries crc32 device laid q.table.backup_header invalidate_backup (λ s. s) q
          else ok q),
    )
