-- ===== src/Elf/Image/Bounded.antt =====
-- The builder writes nothing outside the image.
use mboot_core.Prelude.{
  ℕ, ◌+◌, ◌-◌, ◌%◌, ◌^◌, ◌≤◌, ◌<◌, ◌≡◌, ◌≢◌, refl, inl, inr, arith, min, max, true, not, ◌&&◌, ltb,
  leb, List, [], ◌∷◌, ◌++◌, length, take, drop, replicate, All, Bool-cases, length-append,
  length-take, length-drop, length-replicate,
}
use mboot_core.Domain.{Result, ok, err, stuck, Fault, ◌>>=◌, ByteBuffer}
use mboot_core.Elf.Models.{ProgramHeader, ElfFile, is_valid}
use mboot_core.Elf.Image.{
  SegmentData, MemoryImageBuilder, is_segment_required, file_data, pad_to, segment_data, collect,
  highest_end, diff64, copy_in, merge, merge_all, contiguous, layout, build,
}

-- A segment at or above an address whose bytes end in the address space.
abbrev Fits : ℕ → SegmentData → Type 0
Fits lowest s = (lowest ≤ s.vaddr) × (s.vaddr + length s.content < 2 ^ 64)

-- A result of a given length.
abbrev HasLength : ℕ → Result ByteBuffer → Type 0
HasLength n (ok bytes) = length bytes ≡ n
HasLength n (err e) = Unit
HasLength n (stuck x) = ⊥

copy_in-HasLength :
    (image bytes : ByteBuffer) (offset : ℕ)
    → offset + length bytes ≤ length image
    → HasLength (length image) (copy_in image offset bytes)
unfolding copy_in
copy_in-HasLength image bytes offset h =
    elim (Bool-cases (leb (offset + length bytes) (length image))) [
      | inr out ↦ absurd (ground arith)
      | inl within ↦
          let rest = drop (offset + length bytes) image in
          let kept = take offset image ++ bytes in
          let first : length (kept ++ rest) ≡ length kept + length rest = length-append kept rest in
          let second : length kept ≡ length (take offset image) + length bytes =
            length-append (take offset image) bytes in
          let front : length (take offset image) ≡ min offset (length image) =
            length-take offset image in
          let back : length rest ≡ length image - (offset + length bytes) =
            length-drop (offset + length bytes) image in
          let sum : length (kept ++ rest) ≡ length image =
            omega (arith, first, second, front, back) in
          rw (HasLength, within) sum
    ]

bind-HasLength :
    (n : ℕ) (r : Result ByteBuffer) (f : ByteBuffer → Result ByteBuffer)
    → HasLength n r
    → ((bytes : ByteBuffer) → length bytes ≡ n → HasLength n (f bytes))
    → HasLength n (r >>= f)
bind-HasLength n (ok bytes) f h g = g bytes h
bind-HasLength n (err e) f h g = tt
bind-HasLength n (stuck x) f h g = absurd h

merge-HasLength :
    (lowest total : ℕ) (ss : List SegmentData) (image : ByteBuffer)
    → All (Fits lowest) ss
    → length image ≡ total
    → HasLength total (merge lowest total ss image)
unfolding merge
merge-HasLength lowest total [] image fits h = h
merge-HasLength lowest total (s ∷ ss) image fits h =
    let offset = diff64 s.vaddr lowest in
    elim (Bool-cases (leb ((offset + length s.content) % 2 ^ 64) total)) [
      | inr skip ↦ rw (HasLength, skip) (merge-HasLength lowest total ss image fits.1 h)
      | inl go ↦
          let (low, top) = fits.0 in
          let place : offset + length s.content ≤ length image = ground arith in
          rw (HasLength, go)
            (bind-HasLength total (copy_in image offset s.content) _
              (rw (← h) (copy_in-HasLength image s.content offset place))
              (λ next same. merge-HasLength lowest total ss next fits.1 same))
    ]

contiguous-HasLength :
    (s : SegmentData) (ss : List SegmentData) (highest : ℕ)
    → All (Fits s.vaddr) (s ∷ ss)
    → (n : ℕ) × HasLength n (contiguous s ss highest)
unfolding contiguous merge_all
contiguous-HasLength s [] highest fits = (length s.content, refl)
contiguous-HasLength s (t ∷ ss) highest fits =
    let total = diff64 highest s.vaddr in
    (
      total,
      merge-HasLength s.vaddr total (s ∷ t ∷ ss) (replicate total 0) fits
          (length-replicate total 0),
    )

bind-stuck :
    {B : Type 0} (n : ℕ) (r : Result ByteBuffer) (f : ByteBuffer → B) (x : Fault)
    → HasLength n r
    → (r >>= λ bytes. ok (f bytes)) ≢ stuck x
bind-stuck n (ok bytes) f x h e = cc
bind-stuck n (err c) f x h e = cc
bind-stuck n (stuck y) f x h e = absurd h

-- Segments of which the first is the lowest are laid out without a write outside the image.
layout-stuck :
    (entry : ℕ) (s : SegmentData) (ss : List SegmentData) (x : Fault)
    → All (Fits s.vaddr) (s ∷ ss)
    → layout entry (s ∷ ss) ≢ stuck x
unfolding layout
layout-stuck entry s ss x fits =
    let (n, long) = contiguous-HasLength s ss (highest_end (s ∷ ss) 0) fits in
    bind-stuck n (contiguous s ss (highest_end (s ∷ ss) 0)) _ x long

-- The bytes of a segment end in the address space.
abbrev Ends : SegmentData → Type 0
Ends s = s.vaddr + length s.content < 2 ^ 64

-- A segment of which neither the file size nor the memory size exceeds the address space.
pub record EndsInSpace (ph : ProgramHeader) : Type 0 where
  pub file_ends : ph.vaddr + ph.filesz < 2 ^ 64
  pub memory_ends : ph.vaddr + ph.memsz < 2 ^ 64

length-file_data : (raw : ByteBuffer) (ph : ProgramHeader) → length (file_data raw ph) ≤ ph.filesz
unfolding file_data
length-file_data raw ph =
    elim (Bool-cases
      (ltb 0 ph.filesz && (leb ph.filesz (length raw) && leb ph.offset (length raw - ph.filesz)))) [
        | inl some ↦ rw some (omega (arith, length-take ph.filesz (drop ph.offset raw)))
        | inr none ↦ rw none (omega arith)
      ]

length-pad_to : (n : ℕ) (bytes : ByteBuffer) → length (pad_to n bytes) ≤ max n (length bytes)
unfolding pad_to
length-pad_to n bytes = elim (Bool-cases (ltb (length bytes) n)) [
  | inl short ↦
      let grown = length-append bytes (replicate (n - length bytes) 0) in
      rw short (ground (arith, grown, length-replicate {A = ℕ} (n - length bytes) 0))
  | inr long ↦ rw long (omega arith)
]

segment_data-Ends :
    (raw : ByteBuffer) (ph : ProgramHeader) → EndsInSpace ph → Ends (segment_data raw ph)
unfolding segment_data
segment_data-Ends raw ph e = omega (
  arith,
  e.file_ends,
  e.memory_ends,
  length-file_data raw ph,
  length-pad_to ph.memsz (file_data raw ph),
)

collect-Ends :
    (b : MemoryImageBuilder) (raw : ByteBuffer) (phs : List ProgramHeader)
    → All EndsInSpace phs
    → All Ends (collect b raw phs)
unfolding collect
collect-Ends b raw [] e = tt
collect-Ends b raw (ph ∷ phs) e = elim (Bool-cases (is_segment_required b ph)) [
  | inl r ↦ rw (All, r) (segment_data-Ends raw ph e.0, collect-Ends b raw phs e.1)
  | inr r ↦ rw (All, r) (collect-Ends b raw phs e.1)
]

-- What is used of `std::sort`: it keeps the elements, and puts a least one first.
pub record IsSort (sort : List SegmentData → List SegmentData) : Type 1 where
  pub keeps : (P : SegmentData → Type 0) (ss : List SegmentData) → All P ss → All P (sort ss)
  pub least :
      (s : SegmentData) (ss rest : List SegmentData)
      → sort ss ≡ s ∷ rest
      → All (λ t. s.vaddr ≤ t.vaddr) (s ∷ rest)

All-Fits :
    (lowest : ℕ) (ss : List SegmentData)
    → All (λ t. lowest ≤ t.vaddr) ss
    → All Ends ss
    → All (Fits lowest) ss
All-Fits lowest [] l e = tt
All-Fits lowest (s ∷ ss) l e = ((l.0, e.0), All-Fits lowest ss l.1 e.1)

module _ (sort : List SegmentData → List SegmentData) (is_sort : IsSort sort) where
  layout_sorted-stuck :
      (entry : ℕ) (ss sorted : List SegmentData) (x : Fault)
      → sort ss ≡ sorted
      → All Ends sorted
      → layout entry sorted ≢ stuck x
  unfolding layout
  layout_sorted-stuck entry ss [] x e ends = λ h. cc
  layout_sorted-stuck entry ss (s ∷ rest) x e ends =
      layout-stuck entry s rest x (All-Fits s.vaddr (s ∷ rest) (is_sort.least s ss rest e) ends)

  -- If the builder sorts, and no segment of the file exceeds the address space, then building the
  -- image writes nothing outside it.
  pub build_bounded :
      (b : MemoryImageBuilder) (elf : ElfFile) (x : Fault)
      → b.sort_by_vaddr ≡ true
      → All EndsInSpace elf.program_headers
      → build sort b elf ≢ stuck x
  unfolding build
  build_bounded b elf x sorts ends =
      let segments = collect b elf.raw_data elf.program_headers in
      elim (Bool-cases (not (is_valid elf))) [
        | inl bad ↦ rw bad (λ h. cc)
        | inr good ↦
            rw (good, sorts)
              (layout_sorted-stuck elf.header.entry segments (sort segments) x refl (
                is_sort.keeps Ends segments (collect-Ends b elf.raw_data elf.program_headers ends)))
      ]
