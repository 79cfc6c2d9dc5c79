-- ===== src/Elf/Image/Placed.antt =====
-- The merge of the segments puts each in its place.
pub mod Whole
use mboot_core.Prelude.{
  ℕ, zero, suc, ◌+◌, ◌-◌, ◌%◌, ◌^◌, ◌≤◌, ◌<◌, ◌≡◌, ◌≢◌, refl, sym, ap, ◌∙◌, inl, inr, arith, min,
  max, Bool, true, false, not, ltb, leb, List, [], ◌∷◌, ◌++◌, append_assoc, length, take, drop,
  replicate, All, Bool-cases, length-append, length-take, length-drop, length-replicate,
  take-append, drop-append, take-append_before, take-length,
}
use mboot_core.Domain.{
  Result, Gives, bind-Gives, Gives-map, ok, err, stuck, ◌>>=◌, invalid_elf, ByteBuffer,
}
use mboot_core.Elf.Models.{ElfFile, is_valid}
use mboot_core.Elf.Image.{
  SegmentData, MemoryImage, MemoryImageBuilder, collect, highest_end, sum64, diff64, copy_in, merge,
  merge_all, contiguous, layout, build,
}

pub All-map :
    {A : Type 0} (P Q : A → Type 0) (xs : List A) → ((a : A) → P a → Q a) → All P xs → All Q xs
All-map P Q [] f h = tt
All-map P Q (x ∷ xs) f h = (f x h.0, All-map P Q xs f h.1)

pub All-both :
    {A : Type 0} (P Q R : A → Type 0) (xs : List A)
    → ((a : A) → P a → Q a → R a)
    → All P xs
    → All Q xs
    → All R xs
All-both P Q R [] f p q = tt
All-both P Q R (x ∷ xs) f p q = (f x p.0 q.0, All-both P Q R xs f p.1 q.1)

-- The bytes stand at an offset of the image.
abbrev pub StandsAt : ByteBuffer → ℕ → ByteBuffer → Type 0
StandsAt image offset bytes = take (length bytes) (drop offset image) ≡ bytes

take-take : (n k : ℕ) (xs : ByteBuffer) → n ≤ k → take n (take k xs) ≡ take n xs
take-take zero k xs h = refl
take-take (suc n) zero xs h = absurd (omega arith)
take-take (suc n) (suc k) [] h = refl
take-take (suc n) (suc k) (x ∷ xs) h = ap (◌∷◌ x) (take-take n k xs (omega arith))

-- A window before an offset does not see what stands after it.
take-drop_before :
    (n m k : ℕ) (xs ys : ByteBuffer)
    → m + n ≤ k
    → k ≤ length xs
    → take n (drop m (take k xs ++ ys)) ≡ take n (drop m xs)
take-drop_before n zero k xs ys h l =
    take-append_before n (take k xs) ys (omega (arith, length-take k xs))
    ∙ take-take n k xs (omega arith)
take-drop_before n (suc m) zero xs ys h l = absurd (omega arith)
take-drop_before n (suc m) (suc k) [] ys h l = absurd (omega arith)
take-drop_before n (suc m) (suc k) (x ∷ xs) ys h l =
    take-drop_before n m k xs ys (omega arith) (omega arith)

drop-take_append : (n : ℕ) (xs ys : ByteBuffer) → n ≤ length xs → drop n (take n xs ++ ys) ≡ ys
drop-take_append zero xs ys h = refl
drop-take_append (suc n) [] ys h = absurd (omega arith)
drop-take_append (suc n) (x ∷ xs) ys h = drop-take_append n xs ys (omega arith)

-- What a copy to an offset leaves: as long an image, the bytes there, and all that stood before.
record Copied (image : ByteBuffer) (offset : ℕ) (bytes next : ByteBuffer) : Type 0 where
  pub same_length : length next ≡ length image
  pub placed : StandsAt next offset bytes
  pub kept :
      (m : ℕ) (old : ByteBuffer)
      → m + length old ≤ offset
      → StandsAt image m old
      → StandsAt next m old

copy_in-Copied :
    (image : ByteBuffer) (offset : ℕ) (bytes : ByteBuffer)
    → offset + length bytes ≤ length image
    → Gives (Copied image offset bytes) (copy_in image offset bytes)
unfolding copy_in
copy_in-Copied image offset bytes h =
    let rest = drop (offset + length bytes) image in
    let within : leb (offset + length bytes) (length image) ≡ true = ground arith in
    let kept = take offset image ++ bytes in
    let first : length (kept ++ rest) ≡ length kept + length rest = length-append kept rest in
    let second : length kept ≡ length (take offset image) + length bytes =
      length-append (take offset image) bytes in
    let front : length (take offset image) ≡ min offset (length image) = length-take offset image in
    let back : length rest ≡ length image - (offset + length bytes) =
      length-drop (offset + length bytes) image in
    let split : kept ++ rest ≡ take offset image ++ (bytes ++ rest) =
      append_assoc (take offset image) bytes rest in
    rw (Gives, within)
      (record {
        same_length = omega (arith, first, second, front, back);
        placed =
            rw (split, drop-take_append offset image (bytes ++ rest) (omega (arith, h)))
              (take-append bytes rest);
        kept = λ m old b s.
            rw split (
              take-drop_before (length old) m offset image (bytes ++ rest) b (omega (arith, h))
              ∙ s);
      })

-- Segments in the order of their addresses that do not overlap.
abbrev pub InOrder : List SegmentData → Type 0
InOrder [] = Unit
InOrder (s ∷ ss) = All (λ t. s.vaddr + length s.content ≤ t.vaddr) ss × InOrder ss

-- A segment that lies between the lowest address and the end of the image.
abbrev pub Lies : ℕ → ℕ → SegmentData → Type 0
Lies lowest total s = (lowest ≤ s.vaddr) × (s.vaddr + length s.content ≤ lowest + total)

-- What the merge leaves: every segment in its place, and all that stood before them.
pub record Merged (lowest total : ℕ) (ss : List SegmentData) (image final : ByteBuffer)
    : Type 0 where
  pub in_place : All (λ s. StandsAt final (s.vaddr - lowest) s.content) ss
  pub kept :
      (m : ℕ) (old : ByteBuffer)
      → All (λ s. lowest + (m + length old) ≤ s.vaddr) ss
      → StandsAt image m old
      → StandsAt final m old

pub merge-Merged :
    (lowest total : ℕ) (ss : List SegmentData) (image : ByteBuffer)
    → lowest + total < 2 ^ 64
    → All (Lies lowest total) ss
    → InOrder ss
    → length image ≡ total
    → Gives (Merged lowest total ss image) (merge lowest total ss image)
unfolding merge
merge-Merged lowest total [] image top lies order l = record {
  in_place = tt;
  kept = λ m old b s. s;
}
merge-Merged lowest total (s ∷ ss) image top lies order l =
    let offset = diff64 s.vaddr lowest in
    let (low, high) = lies.0 in
    let place : offset ≡ s.vaddr - lowest = omega arith in
    let within : leb ((offset + length s.content) % 2 ^ 64) total ≡ true = ground arith in
    rw (Gives, within)
      (bind-Gives (Copied image offset s.content) (Merged lowest total (s ∷ ss) image)
        (copy_in image offset s.content) _
        (copy_in-Copied image offset s.content (omega (arith, l)))
        (λ next copied.
          Gives-map (Merged lowest total ss next) (Merged lowest total (s ∷ ss) image)
            (merge lowest total ss next)
            (λ final merged. record {
              in_place = (
                rw (← place) (
                    merged.kept offset s.content
                      (All-map (λ t. s.vaddr + length s.content ≤ t.vaddr) _ ss
                        (λ t after. omega (arith, after, place, low)) order.0)
                      copied.placed),
                merged.in_place,
              );
              kept = λ m old before stands. merged.kept m old before.1 (
                  copied.kept m old (let here = before.0 in omega (arith, here, place, low))
                    stands);
            })
            (merge-Merged lowest total ss next top lies.1 order.1 (copied.same_length ∙ l))))
