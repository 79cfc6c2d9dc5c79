-- ===== src/Elf/Segments.antt =====
-- The checks of the segments: `validateProgramHeaders` of lib/src/elf/ElfParser.cpp, as far as it adds
-- errors, and `checkOverlappingSegments` of lib/src/elf/ElfValidator.cpp.
pub mod Apart
use mboot_core.Prelude.{
  ℕ, ◌-◌, Bool, true, false, ◌&&◌, ◌||◌, not, ltb, ◌==◌, if◌then◌else◌, List, [], ◌∷◌,
}
use mboot_core.Elf.Models.{ProgramHeader, is_loadable, end_vaddr}

-- The first loop of `validateProgramHeaders`: whether no error is added.
unfoldable pub segment_in_file : ProgramHeader → ℕ → Bool
segment_in_file ph size =
    if ph.type == 0 then true else not (ltb size ph.filesz || ltb (size - ph.filesz) ph.offset)

unfoldable pub segments_in_file : List ProgramHeader → ℕ → Bool
unfolding segment_in_file
segments_in_file [] size = true
segments_in_file (ph ∷ phs) size = segment_in_file ph size && segments_in_file phs size

-- The second loop, over the pairs.
unfoldable pub overlaps_none : ProgramHeader → List ProgramHeader → Bool
unfolding is_loadable end_vaddr
overlaps_none a [] = true
overlaps_none a (b ∷ bs) =
    if not (is_loadable b)
    then overlaps_none a bs
    else not (ltb a.vaddr (end_vaddr b) && ltb b.vaddr (end_vaddr a)) && overlaps_none a bs

unfoldable pub no_overlaps : List ProgramHeader → Bool
unfolding overlaps_none
no_overlaps [] = true
no_overlaps (a ∷ rest) =
    if not (is_loadable a) then no_overlaps rest else overlaps_none a rest && no_overlaps rest

unfoldable pub validate_program_headers : List ProgramHeader → ℕ → Bool
unfolding segments_in_file no_overlaps
validate_program_headers phs size = segments_in_file phs size && no_overlaps phs

-- `areSegmentsOverlapping`, and the loops that return at the first pair.
unfoldable pub are_segments_overlapping : ProgramHeader → ProgramHeader → Bool
unfolding is_loadable end_vaddr
are_segments_overlapping a b =
    if not (is_loadable a) || not (is_loadable b)
    then false
    else ltb a.vaddr (end_vaddr b) && ltb b.vaddr (end_vaddr a)

unfoldable pub overlaps_a_later : ProgramHeader → List ProgramHeader → Bool
unfolding are_segments_overlapping
overlaps_a_later a [] = false
overlaps_a_later a (b ∷ bs) =
    if not (is_loadable b)
    then overlaps_a_later a bs
    else if are_segments_overlapping a b
    then true
    else overlaps_a_later a bs

unfoldable pub check_overlapping_segments : List ProgramHeader → Bool
unfolding overlaps_a_later
check_overlapping_segments [] = true
check_overlapping_segments (a ∷ rest) =
    if not (is_loadable a)
    then check_overlapping_segments rest
    else if overlaps_a_later a rest
    then false
    else check_overlapping_segments rest
