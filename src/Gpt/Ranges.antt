-- ===== src/Gpt/Ranges.antt =====
-- Sector ranges: `PartitionRange` of lib/include/mbootcore/gpt/GPTModels.hpp and its methods in
-- lib/src/gpt/GPTParser.cpp.
pub mod Overlap
use mboot_core.Prelude.{
  ℕ, ◌+◌, ◌-◌, ◌*◌, ◌/◌, ◌%◌, ◌^◌, Bool, ◌&&◌, not, ltb, leb, ◌==◌, if◌then◌else◌,
}

pub record PartitionRange : Type 0 where
  pub first_lba : ℕ
  pub last_lba : ℕ

-- `lastLBA - firstLBA + 1` in 64 bits: it wraps to 0 for the range of all 2^64 sectors.
unfoldable pub sector_count : PartitionRange → ℕ
sector_count r = if leb r.last_lba r.first_lba then 0 else (r.last_lba - r.first_lba + 1) % 2 ^ 64

unfoldable pub byte_count : PartitionRange → (sector_size : ℕ) → ℕ
unfolding sector_count
byte_count r sector_size =
    let sectors = sector_count r in
    if not (sector_size == 0) && ltb ((2 ^ 64 - 1) / sector_size) sectors
    then 0
    else (sectors * sector_size) % 2 ^ 64

unfoldable pub contains : PartitionRange → ℕ → Bool
contains r lba = leb r.first_lba lba && leb lba r.last_lba

unfoldable pub overlaps : PartitionRange → PartitionRange → Bool
overlaps r other = leb r.first_lba other.last_lba && leb other.first_lba r.last_lba
