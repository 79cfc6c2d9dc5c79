-- ===== src/Elf/Image/Placed/Whole.antt =====
-- The image holds the bytes of every segment at its address.
use mboot_core.Prelude.{
  ℕ, ◌+◌, ◌-◌, ◌%◌, ◌^◌, ◌≤◌, ◌<◌, ◌≡◌, refl, arith, max, true, List, [], ◌∷◌, length, replicate,
  All, length-replicate, take-length,
}
use mboot_core.Elf.Models.{ElfFile, is_valid}
use mboot_core.Elf.Image.{
  SegmentData, MemoryImage, MemoryImageBuilder, collect, highest_end, diff64, merge_all, contiguous,
  layout, build,
}
use mboot_core.Domain.{Gives, bind-Gives, Gives-map}
use mboot_core.Elf.Image.Placed.{All-map, All-both, StandsAt, InOrder, Lies, Merged, merge-Merged}

-- A segment whose bytes are its memory, which ends in the address space.
pub record IsExact (s : SegmentData) : Type 0 where
  pub filled : length s.content ≡ s.memsz
  pub ends : s.vaddr + s.memsz < 2 ^ 64

highest_end_above :
    (ss : List SegmentData) (highest : ℕ)
    → All IsExact ss
    → highest < 2 ^ 64
    → (highest ≤ highest_end ss highest) × (highest_end ss highest < 2 ^ 64)
unfolding highest_end
highest_end_above [] highest exact h = (omega arith, h)
highest_end_above (s ∷ ss) highest exact h =
    let ends = exact.0.ends in
    let rest =
      highest_end_above ss (max highest ((s.vaddr + s.memsz) % 2 ^ 64)) exact.1
        (omega (arith, ends)) in
    (omega (arith, rest.0), rest.1)

highest_end_covers :
    (ss : List SegmentData) (highest : ℕ)
    → All IsExact ss
    → highest < 2 ^ 64
    → All (λ s. s.vaddr + length s.content ≤ highest_end ss highest) ss
unfolding highest_end
highest_end_covers [] highest exact h = tt
highest_end_covers (s ∷ ss) highest exact h =
    let ends = exact.0.ends in
    let filled = exact.0.filled in
    let next = max highest ((s.vaddr + s.memsz) % 2 ^ 64) in
    let above = highest_end_above ss next exact.1 (omega (arith, ends)) in
    (omega (arith, above.0, ends, filled), highest_end_covers ss next exact.1 (omega (arith, ends)))

-- The image holds the bytes of each of its segments at the segment's address.
abbrev pub IsPlaced : List SegmentData → MemoryImage → Type 0
IsPlaced ss m =
    (m.segments ≡ ss) × All (λ s. StandsAt m.image (s.vaddr - m.lowest_addr) s.content) ss

contiguous-Gives :
    (s : SegmentData) (ss : List SegmentData)
    → All IsExact (s ∷ ss)
    → InOrder (s ∷ ss)
    → Gives
        (λ image. All (λ t. StandsAt image (t.vaddr - s.vaddr) t.content) (s ∷ ss))
        (contiguous s ss (highest_end (s ∷ ss) 0))
unfolding contiguous merge_all
contiguous-Gives s [] exact order =
    let here : s.vaddr - s.vaddr ≡ 0 = omega arith in (rw here (take-length s.content), tt)
contiguous-Gives s (t ∷ ss) exact order =
    let all = s ∷ t ∷ ss in
    let highest = highest_end all 0 in
    let total = diff64 highest s.vaddr in
    let top = (highest_end_above all 0 exact (omega arith)).1 in
    let covered = highest_end_covers all 0 exact (omega arith) in
    let first = covered.0 in
    let span : s.vaddr + total ≡ highest = omega (arith, top, first) in
    let above : All (λ u. s.vaddr ≤ u.vaddr) all =
      (omega arith, All-map _ _ (t ∷ ss) (λ u h. omega (arith, h)) order.0) in
    let lies : All (Lies s.vaddr total) all =
      All-both _ _ _ all (λ u low high. (low, omega (arith, high, span))) above covered in
    Gives-map (Merged s.vaddr total all (replicate total 0)) _ _ (λ image merged. merged.in_place)
      (merge-Merged s.vaddr total all (replicate total 0) (omega (arith, span, top)) lies order
        (length-replicate total 0))

-- Segments in order, each of which is exactly its memory, are laid out, and the image of their memory
-- holds the bytes of each at its address.
layout-IsPlaced :
    (entry : ℕ) (s : SegmentData) (ss : List SegmentData)
    → All IsExact (s ∷ ss)
    → InOrder (s ∷ ss)
    → Gives (IsPlaced (s ∷ ss)) (layout entry (s ∷ ss))
unfolding layout
layout-IsPlaced entry s ss exact order =
    bind-Gives _ (IsPlaced (s ∷ ss)) (contiguous s ss (highest_end (s ∷ ss) 0)) _
      (contiguous-Gives s ss exact order) (λ image placed. (refl, placed))

module _ (sort : List SegmentData → List SegmentData) where
  -- If the required segments of a valid file, as the builder sorts them, are in the order of their
  -- addresses and do not overlap, and the bytes of each are its memory, which ends in the address
  -- space, then the image is built, and it holds the bytes of each at its address.
  pub build-IsPlaced :
      (b : MemoryImageBuilder) (elf : ElfFile) (s : SegmentData) (ss : List SegmentData)
      → is_valid elf ≡ true
      → b.sort_by_vaddr ≡ true
      → sort (collect b elf.raw_data elf.program_headers) ≡ s ∷ ss
      → All IsExact (s ∷ ss)
      → InOrder (s ∷ ss)
      → Gives (IsPlaced (s ∷ ss)) (build sort b elf)
  unfolding build
  build-IsPlaced b elf s ss valid sorts sorted exact order =
      rw (valid, sorts, sorted) (layout-IsPlaced elf.header.entry s ss exact order)
