-- ===== src/Elf/Image.antt =====
-- lib/src/elf/MemoryImageBuilder.cpp. `std::sort` is a parameter. The alignment, which `build` does not
-- read, is left out, and an allocation is taken to succeed.
pub mod Bounded
pub mod Placed
use Prim.Native.Nat.{bit_and}
use mboot_core.Prelude.{
  ℕ, ◌+◌, ◌-◌, ◌%◌, ◌^◌, max, Bool, true, false, ◌&&◌, not, ltb, leb, ◌==◌, if◌then◌else◌, List, [],
  ◌∷◌, ◌++◌, length, take, drop, replicate,
}
use mboot_core.Domain.{Result, ok, err, stuck, ◌>>=◌, invalid_elf, undefined_behaviour, ByteBuffer}
use mboot_core.Elf.Models.{ProgramHeader, ElfFile, is_loadable, is_valid}

pub record SegmentData : Type 0 where
  pub vaddr : ℕ
  pub paddr : ℕ
  pub filesz : ℕ
  pub memsz : ℕ
  pub flags : ℕ
  pub content : ByteBuffer

pub record MemoryImage : Type 0 where
  pub lowest_addr : ℕ
  pub highest_addr : ℕ
  pub total_file_size : ℕ
  pub total_mem_size : ℕ
  pub entry_point : ℕ
  pub image : ByteBuffer
  pub segments : List SegmentData

pub record MemoryImageBuilder : Type 0 where
  pub required_flags : ℕ
  pub sort_by_vaddr : Bool

unfoldable pub is_segment_required : MemoryImageBuilder → ProgramHeader → Bool
is_segment_required b ph =
    is_loadable ph
    && not
        (not (b.required_flags == 0) && not (bit_and ph.flags b.required_flags == b.required_flags))

-- The bytes of the file that a segment has, if they lie in it.
unfoldable pub file_data : ByteBuffer → ProgramHeader → ByteBuffer
file_data raw ph =
    if ltb 0 ph.filesz && (leb ph.filesz (length raw) && leb ph.offset (length raw - ph.filesz))
    then take ph.filesz (drop ph.offset raw)
    else []

-- `resize(memsz, 0)`, if that is longer.
unfoldable pub pad_to : ℕ → ByteBuffer → ByteBuffer
pad_to n bytes = if ltb (length bytes) n then bytes ++ replicate (n - length bytes) 0 else bytes

unfoldable pub segment_data : ByteBuffer → ProgramHeader → SegmentData
unfolding file_data pad_to
segment_data raw ph = record {
  vaddr = ph.vaddr;
  paddr = ph.paddr;
  filesz = ph.filesz;
  memsz = ph.memsz;
  flags = ph.flags;
  content = pad_to ph.memsz (file_data raw ph);
}

unfoldable pub collect : MemoryImageBuilder → ByteBuffer → List ProgramHeader → List SegmentData
unfolding is_segment_required segment_data
collect b raw [] = []
collect b raw (ph ∷ phs) =
    if is_segment_required b ph then segment_data raw ph ∷ collect b raw phs else collect b raw phs

-- The loop over the segments that finds the ranges.
unfoldable pub highest_end : List SegmentData → ℕ → ℕ
highest_end [] highest = highest
highest_end (s ∷ ss) highest = highest_end ss (max highest ((s.vaddr + s.memsz) % 2 ^ 64))

unfoldable pub sum64 : (SegmentData → ℕ) → List SegmentData → ℕ → ℕ
sum64 f [] total = total
sum64 f (s ∷ ss) total = sum64 f ss ((total + f s) % 2 ^ 64)

-- `a - b` on `uint64_t`.
abbrev pub diff64 : ℕ → ℕ → ℕ
diff64 a b = (a + 2 ^ 64 - b) % 2 ^ 64

-- `memcpy` of the bytes to an offset of the image.
unfoldable pub copy_in : ByteBuffer → ℕ → ByteBuffer → Result ByteBuffer
copy_in image offset bytes =
    if leb (offset + length bytes) (length image)
    then ok (take offset image ++ bytes ++ drop (offset + length bytes) image)
    else stuck undefined_behaviour

-- The merge of the segments.
unfoldable pub merge : (lowest total : ℕ) → List SegmentData → ByteBuffer → Result ByteBuffer
unfolding copy_in
merge lowest total [] image = ok image
merge lowest total (s ∷ ss) image =
    let offset = diff64 s.vaddr lowest in
    elim (leb ((offset + length s.content) % 2 ^ 64) total) [
      | true ↦ copy_in image offset s.content >>= merge lowest total ss
      | false ↦ merge lowest total ss image
    ]

unfoldable pub merge_all : (lowest total : ℕ) → List SegmentData → Result ByteBuffer
unfolding merge
merge_all lowest total ss = merge lowest total ss (replicate total 0)

unfoldable pub contiguous : SegmentData → List SegmentData → (highest : ℕ) → Result ByteBuffer
unfolding merge_all
contiguous s [] highest = ok s.content
contiguous s (t ∷ ss) highest = merge_all s.vaddr (diff64 highest s.vaddr) (s ∷ t ∷ ss)

-- From the sorted segments to the image.
unfoldable pub layout : ℕ → List SegmentData → Result MemoryImage
unfolding contiguous highest_end sum64
layout entry [] = err invalid_elf
layout entry (s ∷ ss) = contiguous s ss (highest_end (s ∷ ss) 0) >>= λ image. ok (record {
  lowest_addr = s.vaddr;
  highest_addr = highest_end (s ∷ ss) 0;
  total_file_size = sum64 (λ x. x.filesz) (s ∷ ss) 0;
  total_mem_size = sum64 (λ x. x.memsz) (s ∷ ss) 0;
  entry_point = entry;
  image = image;
  segments = s ∷ ss;
})

module _ (sort : List SegmentData → List SegmentData) where
  unfoldable pub build : MemoryImageBuilder → ElfFile → Result MemoryImage
  unfolding collect layout
  build b elf =
      let segments = collect b elf.raw_data elf.program_headers in
      if not (is_valid elf)
      then err invalid_elf
      else layout elf.header.entry (if b.sort_by_vaddr then sort segments else segments)
