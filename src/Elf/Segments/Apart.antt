-- ===== src/Elf/Segments/Apart.antt =====
-- What the checks of the segments mean.
use mboot_core.Prelude.{
  ℕ, ◌+◌, ◌^◌, ◌≤◌, ◌<◌, ◌≡◌, ◌≢◌, refl, inl, inr, arith, true, false, ◌&&◌, not, ltb, ◌==◌, List,
  [], ◌∷◌, ◌++◌, Bool-cases, and-eq_true,
}
use mboot_core.Elf.Models.{ProgramHeader, is_loadable, end_vaddr}
use mboot_core.Elf.Segments.{
  segment_in_file, segments_in_file, overlaps_none, no_overlaps, validate_program_headers,
  are_segments_overlapping, overlaps_a_later, check_overlapping_segments,
}

segments_in_file-append :
    (before after : List ProgramHeader) (ph : ProgramHeader) (size : ℕ)
    → segments_in_file (before ++ ph ∷ after) size ≡ true
    → segment_in_file ph size ≡ true
unfolding segments_in_file
segments_in_file-append [] after ph size h =
    (and-eq_true (segment_in_file ph size) (segments_in_file after size) h).0
segments_in_file-append (x ∷ before) after ph size h =
    segments_in_file-append before after ph size (and-eq_true (segment_in_file x size) _ h).1

segment_in_file_lem :
    (ph : ProgramHeader) (size : ℕ)
    → segment_in_file ph size ≡ true
    → ph.type ≢ 0
    → ph.offset + ph.filesz ≤ size
unfolding segment_in_file
segment_in_file_lem ph size h t =
    let other : ph.type == 0 ≡ false = ground arith in let test = rw other at h in ground arith

-- A segment that is not null lies in the file if the validation passes.
pub validate-in_file :
    (before after : List ProgramHeader) (ph : ProgramHeader) (size : ℕ)
    → validate_program_headers (before ++ ph ∷ after) size ≡ true
    → ph.type ≢ 0
    → ph.offset + ph.filesz ≤ size
unfolding validate_program_headers
validate-in_file before after ph size h t =
    segment_in_file_lem ph size
      (segments_in_file-append before after ph size
        (and-eq_true (segments_in_file (before ++ ph ∷ after) size) _ h).0)
      t

-- An address in the memory of a segment that is loaded.
pub record Occupies (v : ℕ) (ph : ProgramHeader) : Type 0 where
  pub loaded : is_loadable ph ≡ true
  pub above : ph.vaddr ≤ v
  pub below : v < ph.vaddr + ph.memsz

abbrev pub EndsInSpace : ProgramHeader → Type 0
EndsInSpace ph = ph.vaddr + ph.memsz < 2 ^ 64

overlaps_none-append :
    (a b : ProgramHeader) (mid after : List ProgramHeader) (v : ℕ)
    → overlaps_none a (mid ++ b ∷ after) ≡ true
    → EndsInSpace a
    → EndsInSpace b
    → Occupies v a
    → Occupies v b
    → ⊥
unfolding overlaps_none end_vaddr
overlaps_none-append a b [] after v h ea eb oa ob =
    let test = rw ob.loaded at h in
    let above_a = oa.above in
    let below_a = oa.below in let above_b = ob.above in let below_b = ob.below in ground arith
overlaps_none-append a b (c ∷ mid) after v h ea eb oa ob = elim (Bool-cases (is_loadable c)) [
  | inl l ↦
      overlaps_none-append a b mid after v
        (and-eq_true _ (overlaps_none a (mid ++ b ∷ after)) (rw l at h)).1 ea eb oa ob
  | inr l ↦ overlaps_none-append a b mid after v (rw l at h) ea eb oa ob
]

no_overlaps-append :
    (a b : ProgramHeader) (before mid after : List ProgramHeader) (v : ℕ)
    → no_overlaps (before ++ a ∷ mid ++ b ∷ after) ≡ true
    → EndsInSpace a
    → EndsInSpace b
    → Occupies v a
    → Occupies v b
    → ⊥
unfolding no_overlaps
no_overlaps-append a b [] mid after v h ea eb oa ob =
    overlaps_none-append a b mid after v
      (and-eq_true (overlaps_none a (mid ++ b ∷ after)) _ (rw oa.loaded at h)).0 ea eb oa ob
no_overlaps-append a b (c ∷ before) mid after v h ea eb oa ob = elim (Bool-cases (is_loadable c)) [
  | inl l ↦
      no_overlaps-append a b before mid after v
        (and-eq_true (overlaps_none c (before ++ a ∷ mid ++ b ∷ after)) _ (rw l at h)).1 ea eb oa ob
  | inr l ↦ no_overlaps-append a b before mid after v (rw l at h) ea eb oa ob
]

-- If the validation passes, then no address is in the memory of two of the segments that are loaded,
-- as long as their ends do not exceed 64 bits.
pub validate_apart :
    (a b : ProgramHeader) (before mid after : List ProgramHeader) (size v : ℕ)
    → validate_program_headers (before ++ a ∷ mid ++ b ∷ after) size ≡ true
    → EndsInSpace a
    → EndsInSpace b
    → Occupies v a
    → Occupies v b
    → ⊥
unfolding validate_program_headers
validate_apart a b before mid after size v h =
    no_overlaps-append a b before mid after v
      (and-eq_true (segments_in_file (before ++ a ∷ mid ++ b ∷ after) size) _ h).1

overlaps_a_later-overlaps_none :
    (a : ProgramHeader) (bs : List ProgramHeader)
    → is_loadable a ≡ true
    → overlaps_a_later a bs ≡ not (overlaps_none a bs)
unfolding overlaps_a_later overlaps_none are_segments_overlapping
overlaps_a_later-overlaps_none a [] l = refl
overlaps_a_later-overlaps_none a (b ∷ bs) l =
    let rest = overlaps_a_later-overlaps_none a bs l in
    elim (Bool-cases (is_loadable b)) [
      | inr k ↦ rw k rest
      | inl k ↦ elim (Bool-cases (ltb a.vaddr (end_vaddr b) && ltb b.vaddr (end_vaddr a))) [
        | inl o ↦ rw (k, l, o) refl
        | inr o ↦ rw (k, l, o) rest
      ]
    ]

-- The parser and the validator, which have loops of their own, agree on overlaps.
pub check_overlapping_segments-no_overlaps :
    (phs : List ProgramHeader) → check_overlapping_segments phs ≡ no_overlaps phs
unfolding check_overlapping_segments no_overlaps
check_overlapping_segments-no_overlaps [] = refl
check_overlapping_segments-no_overlaps (a ∷ rest) =
    let same = check_overlapping_segments-no_overlaps rest in
    elim (Bool-cases (is_loadable a)) [
      | inr k ↦ rw k same
      | inl k ↦ elim (Bool-cases (overlaps_none a rest)) [
        | inl o ↦ rw (k, overlaps_a_later-overlaps_none a rest k, o) same
        | inr o ↦ rw (k, overlaps_a_later-overlaps_none a rest k, o) refl
      ]
    ]
