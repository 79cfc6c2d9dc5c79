-- ===== src/Gpt/Parser.antt =====
-- lib/include/mbootcore/gpt/GPTParser.hpp and `parsePrimary` of lib/src/gpt/GPTParser.cpp, over a flash
-- device of which only `getStorageInfo` and `readMemory` are called. zlib's `crc32` is the argument
-- `crc32`.
pub mod OnDisk
pub mod Fills
pub mod Primary
pub mod Whole
pub mod Fallback
use mboot_core.Prelude.{
  ℕ, ◌+◌, ◌-◌, ◌/◌, ◌%◌, ◌^◌, Bool, true, false, ltb, leb, ◌==◌, not, ◌||◌, if◌then◌else◌, Option,
  none, some, List, [], ◌∷◌, ◌++◌, length,
}
use mboot_core.Domain.{
  ErrorCode, gpt_invalid_header, gpt_crc_mismatch, gpt_primary_missing, gpt_invalid_entry,
  transport_read_failed, Result, ok, err, stuck, ◌>>=◌, ByteBuffer,
}
use mboot_core.Bytes.{byte, get16}
use mboot_core.Gpt.Arithmetic.{safe_mul, validate_entry_fields}
use mboot_core.Gpt.Header.{GptHeader, no_header, check_header}
use mboot_core.Gpt.Entries.{PartitionEntry, read_entries, compute_entry_crc32}

-- `getStorageInfo` gives the sector size and the number of sectors. `none` is an error, whose code
-- nothing reads.
pub record FlashDevice : Type 0 where
  pub storage_info : Option (ℕ × ℕ)
  pub read_memory : (address size : ℕ) → Option ByteBuffer

-- The fields of `m_layout` that the parser sets, and the flag. The primary header stands at sector 1.
pub record GptParser : Type 0 where
  pub sector_size : ℕ
  pub total_sectors : ℕ
  pub first_usable_lba : ℕ
  pub last_usable_lba : ℕ
  pub backup_entries_lba : ℕ
  pub backup_header_lba : ℕ
  pub has_valid_mbr : Bool

pub record GptTable : Type 0 where
  pub primary_header : GptHeader
  pub backup_header : GptHeader
  pub entries : List PartitionEntry
  pub entry_count : ℕ
  pub entry_size : ℕ
  pub primary_valid : Bool
  pub backup_valid : Bool
  pub entries_valid : Bool
  pub has_valid_protective_mbr : Bool
  pub disk_size_in_sectors : ℕ
  pub sector_size : ℕ

abbrev pub no_table : GptTable
no_table = record {
  primary_header = no_header;
  backup_header = no_header;
  entries = [];
  entry_count = 0;
  entry_size = 0;
  primary_valid = false;
  backup_valid = false;
  entries_valid = false;
  has_valid_protective_mbr = false;
  disk_size_in_sectors = 0;
  sector_size = 512;
}

pub record ParserResult : Type 0 where
  pub table : GptTable
  pub warnings : List ErrorCode
  pub errors : List ErrorCode

-- The partition type of the first entry of the protective MBR; 0 if there is no signature.
unfoldable pub mbr_partition_type : ByteBuffer → ℕ
unfolding get16
mbr_partition_type sector =
    if ltb (length sector) 512 || not (get16 sector 510 == 0xaa55) then 0 else byte sector 450

-- An empty buffer stands for a failure.
unfoldable pub value_or_empty : Option ByteBuffer → ByteBuffer
value_or_empty (some d) = d
value_or_empty none = []

unfoldable pub read_sector : FlashDevice → GptParser → ℕ → ByteBuffer
unfolding safe_mul value_or_empty
read_sector device g lba = elim (safe_mul lba g.sector_size) [
  | none ↦ []
  | some byte_offset ↦ value_or_empty (device.read_memory byte_offset g.sector_size)
]

unfoldable pub read_sectors : FlashDevice → GptParser → (lba count : ℕ) → ByteBuffer
unfolding safe_mul value_or_empty
read_sectors device g lba count = elim (safe_mul g.sector_size count) [
  | none ↦ []
  | some bytes ↦ elim (safe_mul lba g.sector_size) [
    | none ↦ []
    | some byte_offset ↦ value_or_empty (device.read_memory byte_offset bytes)
  ]
]

unfoldable pub set_storage : Option (ℕ × ℕ) → GptParser → GptParser
set_storage (some (size, sectors)) g = record g {
  sector_size = if size == 0 then 512 else size;
  total_sectors = sectors;
}
set_storage none g = record g { sector_size = if g.sector_size == 0 then 512 else g.sector_size }

unfoldable pub warn : ErrorCode → ParserResult → ParserResult
warn code r = record r { warnings = r.warnings ++ code ∷ [] }

unfoldable pub invalidate : ParserResult → ParserResult
invalidate r = record r { table = record r.table { primary_valid = false } }

-- The entries that `hdr` announces, from the bytes that were read for them; `short` is what too few
-- bytes do to the result.
unfoldable pub load_entries :
    (ByteBuffer → ℕ)
    → GptHeader
    → (short : ParserResult → ParserResult) → ByteBuffer
    → (total_entry_bytes : ℕ) → ParserResult
    → Result ParserResult
unfolding warn read_entries compute_entry_crc32
load_entries crc32 hdr short entry_data total_entry_bytes r =
    let count = hdr.number_of_partition_entries in
    let size = hdr.size_of_partition_entry in
    if leb total_entry_bytes (length entry_data)
    then (read_entries entry_data count size >>= λ es.
        compute_entry_crc32 crc32 es count size >>= λ computed.
        let loaded = record r {
          table = record r.table { entries = es; entry_count = count; entry_size = size };
        } in
        if computed == hdr.partition_entries_crc32
        then ok (record loaded { table = record loaded.table { entries_valid = true } })
        else ok (warn gpt_crc_mismatch loaded))
    else ok (short r)

-- The block behind a header that is valid; `refuse` is what the result becomes when the numbers of the
-- header are not.
unfoldable pub parse_entries :
    (ByteBuffer → ℕ)
    → FlashDevice
    → GptParser
    → GptHeader
    → (refuse short : ParserResult → ParserResult) → ParserResult
    → Result ParserResult
unfolding validate_entry_fields safe_mul read_sectors load_entries warn
parse_entries crc32 device g hdr refuse short r =
    let count = hdr.number_of_partition_entries in
    let size = hdr.size_of_partition_entry in
    let (warnings, valid) = validate_entry_fields count size r.warnings in
    if valid
    then elim (safe_mul count size) [
      | none ↦ ok (refuse (warn gpt_invalid_header r))
      | some total ↦
          let sectors = (total + g.sector_size - 1) / g.sector_size in
          load_entries crc32 hdr short (read_sectors device g hdr.partition_entry_lba sectors) total
            r
    ]
    else ok (refuse (record r { warnings = warnings }))

-- The header of sector 1, and the entries if it is valid.
unfoldable pub parse_header :
    (ByteBuffer → ℕ) → FlashDevice → GptParser → ParserResult → Result ParserResult
unfolding check_header read_sector parse_entries warn invalidate
parse_header crc32 device g r =
    check_header crc32 (read_sector device g 1) gpt_primary_missing >>= λ checked.
    let (header, warnings, valid) = checked in
    let r' = record r {
      table = record r.table { primary_header = header; primary_valid = valid };
      warnings = r.warnings ++ warnings;
    } in
    if valid
    then parse_entries crc32 device g header invalidate (warn gpt_invalid_entry) r'
    else ok r'

unfoldable pub parse_primary :
    (ByteBuffer → ℕ) → FlashDevice → GptParser → GptParser × Result ParserResult
parse_primary crc32 device g =
    let g' = set_storage device.storage_info (record g { has_valid_mbr = false }) in
    let mbr = read_sector device g' 0 in
    let protective = mbr_partition_type mbr == 0xee in
    let empty : ParserResult = record { table = no_table; warnings = []; errors = [] } in
    if length mbr == 0 then (g', ok (record empty { errors = transport_read_failed ∷ [] })) else (
      record g' { has_valid_mbr = protective },
      parse_header crc32 device g'
          (record empty { table = record no_table { has_valid_protective_mbr = protective } }),
    )
