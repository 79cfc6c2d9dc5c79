-- ===== src/Examples/Image.antt =====
-- The image of the small file: instances of the theorems on images.
use mboot_core.Prelude.{
  ◌≤◌, ◌≡◌, ◌≢◌, refl, inl, inr, arith, true, leb, leb→le, if◌then◌else◌, List, [], ◌∷◌, All,
  Bool-cases,
}
use mboot_core.Domain.{stuck, undefined_behaviour}
use mboot_core.Elf.Models.{is_loadable, is_valid}
use mboot_core.Elf.Image.{SegmentData, MemoryImageBuilder, build}
use mboot_core.Elf.Image.Bounded.{IsSort, build_bounded}
use mboot_core.Elf.Image.{is_segment_required, segment_data, file_data, pad_to, collect}
use mboot_core.Domain.{Gives}
use mboot_core.Elf.Image.Placed.Whole.{IsPlaced, build-IsPlaced}
use mboot_core.Examples.Elf.{small_elf, small_file}

-- Insertion sort, in the place of `std::sort`.
abbrev insert : SegmentData → List SegmentData → List SegmentData
insert s [] = s ∷ []
insert s (t ∷ ts) = if leb s.vaddr t.vaddr then s ∷ t ∷ ts else t ∷ insert s ts

abbrev insertion_sort : List SegmentData → List SegmentData
insertion_sort [] = []
insertion_sort (s ∷ ss) = insert s (insertion_sort ss)

insert_keeps :
    (P : SegmentData → Type 0) (s : SegmentData) (ss : List SegmentData)
    → P s
    → All P ss
    → All P (insert s ss)
insert_keeps P s [] p ps = (p, tt)
insert_keeps P s (t ∷ ts) p ps = elim (Bool-cases (leb s.vaddr t.vaddr)) [
  | inl b ↦ rw (All, b) (p, ps)
  | inr b ↦ rw (All, b) (ps.0, insert_keeps P s ts p ps.1)
]

insertion_sort_keeps :
    (P : SegmentData → Type 0) (ss : List SegmentData) → All P ss → All P (insertion_sort ss)
insertion_sort_keeps P [] p = tt
insertion_sort_keeps P (s ∷ ss) p =
    insert_keeps P s (insertion_sort ss) p.0 (insertion_sort_keeps P ss p.1)

abbrev IsLow : SegmentData → SegmentData → Type 0
IsLow s t = s.vaddr ≤ t.vaddr

abbrev IsAscending : List SegmentData → Type 0
IsAscending [] = Unit
IsAscending (s ∷ ss) = All (IsLow s) ss × IsAscending ss

All-IsLow :
    (s t : SegmentData) (ss : List SegmentData) → IsLow s t → All (IsLow t) ss → All (IsLow s) ss
All-IsLow s t [] l a = tt
All-IsLow s t (u ∷ us) l a = let here = a.0 in (omega (arith, l, here), All-IsLow s t us l a.1)

insert-IsAscending :
    (s : SegmentData) (ss : List SegmentData) → IsAscending ss → IsAscending (insert s ss)
insert-IsAscending s [] a = (tt, tt)
insert-IsAscending s (t ∷ ts) a = elim (Bool-cases (leb s.vaddr t.vaddr)) [
  | inl b ↦
      let low : IsLow s t = leb→le s.vaddr t.vaddr b in
      rw (IsAscending, b) ((low, All-IsLow s t ts low a.0), a)
  | inr b ↦
      rw (IsAscending, b)
        (insert_keeps (IsLow t) s ts (ground arith) a.0, insert-IsAscending s ts a.1)
]

insertion_sort-IsAscending : (ss : List SegmentData) → IsAscending (insertion_sort ss)
insertion_sort-IsAscending [] = tt
insertion_sort-IsAscending (s ∷ ss) =
    insert-IsAscending s (insertion_sort ss) (insertion_sort-IsAscending ss)

insertion_sort-IsSort : IsSort insertion_sort
insertion_sort-IsSort = record {
  keeps = insertion_sort_keeps;
  least = λ s ss rest e.
      let ascending : IsAscending (s ∷ rest) = rw e at (insertion_sort-IsAscending ss) in
      (omega arith, ascending.0);
}

abbrev sorting_builder : MemoryImageBuilder
sorting_builder = record { required_flags = 4; sort_by_vaddr = true }

build_bounded_example : build insertion_sort sorting_builder small_file ≢ stuck undefined_behaviour
build_bounded_example =
    build_bounded insertion_sort insertion_sort-IsSort sorting_builder small_file
      undefined_behaviour refl
      (
        record { file_ends = omega arith; memory_ends = omega arith },
        (record { file_ends = omega arith; memory_ends = omega arith }, tt),
      )

abbrev first_data : SegmentData
first_data = record {
  vaddr = 4096;
  paddr = 4096;
  filesz = 4;
  memsz = 8;
  flags = 5;
  content = 1 ∷ 2 ∷ 3 ∷ 4 ∷ 0 ∷ 0 ∷ 0 ∷ 0 ∷ [];
}

abbrev second_data : SegmentData
second_data = record {
  vaddr = 8192;
  paddr = 8192;
  filesz = 2;
  memsz = 2;
  flags = 5;
  content = 1 ∷ 2 ∷ [];
}

small_file_sorted :
    insertion_sort (collect sorting_builder small_file.raw_data small_file.program_headers)
    ≡ first_data ∷ second_data ∷ []
unfolding collect is_segment_required segment_data file_data pad_to is_loadable small_elf
small_file_sorted = refl

build-IsPlaced_example :
    Gives
      (IsPlaced (first_data ∷ second_data ∷ []))
      (build insertion_sort sorting_builder small_file)
unfolding is_valid
build-IsPlaced_example =
    build-IsPlaced insertion_sort sorting_builder small_file first_data (second_data ∷ []) refl refl
      small_file_sorted
      (
        record { filled = refl; ends = omega arith },
        (record { filled = refl; ends = omega arith }, tt),
      )
      ((omega arith, tt), (tt, tt))
