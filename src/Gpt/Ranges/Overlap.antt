-- ===== src/Gpt/Ranges/Overlap.antt =====
-- What the predicates on sector ranges mean.
use mboot_core.Prelude.{ℕ, ◌+◌, ◌-◌, ◌^◌, ◌≤◌, ◌<◌, ◌≡◌, ◌↔◌, arith, max, true}
use mboot_core.Gpt.Ranges.{PartitionRange, sector_count, contains, overlaps}

-- Two ranges that are not empty overlap exactly if some sector is in both.
pub overlaps-contains :
    (r s : PartitionRange)
    → r.first_lba ≤ r.last_lba
    → s.first_lba ≤ s.last_lba
    → (overlaps r s ≡ true) ↔ ((lba : ℕ) × (contains r lba ≡ true) × (contains s lba ≡ true))
unfolding overlaps contains
overlaps-contains r s a b = (
  λ o. let lba = max r.first_lba s.first_lba in (lba, ground arith, ground arith),
  λ w. ground (arith, w),
)

-- For a range that contains a sector and is not all of 2^64 sectors, `sectorCount` is 0 exactly if
-- the range is that one sector, which it should count as 1; else it is the number of sectors.
pub sector_count-contains :
    (r : PartitionRange) (lba : ℕ)
    → contains r lba ≡ true
    → r.last_lba < 2 ^ 64 - 1
    → ((sector_count r ≡ 0) ↔ (r.first_lba ≡ r.last_lba))
      × (r.first_lba < r.last_lba → r.first_lba + sector_count r ≡ r.last_lba + 1)
unfolding sector_count contains
sector_count-contains r lba c b = ((λ z. ground arith, λ e. ground arith), λ l. ground arith)
