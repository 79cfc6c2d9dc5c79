-- ===== src/Gpt/Entries/RoundTrip.antt =====
-- Reading a table of entries that was written gives it back, and the two checksums agree.
use native.Mathlib.Nat.{suc-mul, zero-mul, zero-add, suc-add}
use mboot_core.Prelude.{
  ℕ, zero, suc, ◌+◌, ◌-◌, ◌*◌, ◌%◌, ◌^◌, ◌≤◌, ◌<◌, ◌≡◌, refl, sym, arith, false, ltb, le→ltb, ◌==◌,
  some, List, [], ◌∷◌, ◌++◌, All, append_assoc, length, length-append, length-replicate, drop,
  drop-drop, take-append, drop-append, replicate,
}
use mboot_core.Domain.{ok, ByteBuffer}
use mboot_core.Gpt.Arithmetic.{safe_mul}
use mboot_core.Gpt.Arithmetic.Bounds.{safe_mul_iff}
use mboot_core.Gpt.Header.{put}
use mboot_core.Gpt.Entries.{
  PartitionEntry, entry_bytes, write_entries, serialize_entries, read_entry, read_rounds,
  read_entries, compute_entry_crc32, compute_entry_crc,
}
use mboot_core.Gpt.Entries.Reads.{IsEntry, entry_bytes-length, read_entry-entry_bytes}

-- Bytes put over zeros behind a prefix.
put-append :
    (xs bs ys : ByteBuffer) → put (length xs) bs (xs ++ ys) ≡ xs ++ (bs ++ drop (length bs) ys)
unfolding put
put-append xs bs ys =
    rw (take-append xs ys, ← drop-drop (length xs) (length bs) (xs ++ ys), drop-append xs ys) refl

abbrev zeros : ℕ → ByteBuffer
zeros n = replicate n 0

zeros-add : (k m : ℕ) → zeros (k + m) ≡ zeros k ++ zeros m
zeros-add zero m = rw zero-add
zeros-add (suc k) m = rw (suc-add, zeros-add k m)

drop-zeros : (k m : ℕ) → drop k (zeros (k + m)) ≡ zeros m
drop-zeros zero m = rw zero-add
drop-zeros (suc k) m = rw (suc-add, drop-zeros k m)

-- The image of a table: each entry, and zeros up to its size.
abbrev chunk : PartitionEntry → ℕ → ByteBuffer
chunk e s = entry_bytes e ++ zeros (s - 128)

abbrev image : List PartitionEntry → ℕ → ByteBuffer
image [] s = []
image (e ∷ es) s = chunk e s ++ image es s

chunk-length : (e : PartitionEntry) (s : ℕ) → IsEntry e → 128 ≤ s → length (chunk e s) ≡ s
chunk-length e s v b = omega (
  arith,
  length-append (entry_bytes e) (zeros (s - 128)),
  entry_bytes-length e v,
  length-replicate {A = ℕ} (s - 128) 0,
)

image-length :
    (es : List PartitionEntry) (s : ℕ)
    → All IsEntry es
    → 128 ≤ s
    → length (image es s) ≡ length es * s
image-length [] s v b = omega (arith, zero-mul s)
image-length (e ∷ es) s v b = omega (
  arith,
  length-append (chunk e s) (image es s),
  chunk-length e s v.0 b,
  image-length es s v.1 b,
  suc-mul (length es) s,
)

-- One entry put over the zeros that follow what is done.
put-chunk :
    (done : ByteBuffer) (e : PartitionEntry) (s m : ℕ)
    → IsEntry e
    → 128 ≤ s
    → put (length done) (entry_bytes e) (done ++ zeros (m + s)) ≡ (done ++ chunk e s) ++ zeros m
put-chunk done e s m v b =
    let split : m + s ≡ length (entry_bytes e) + ((s - 128) + m) =
      omega (arith, entry_bytes-length e v) in
    rw
      (
        split,
        put-append done (entry_bytes e) (zeros (length (entry_bytes e) + ((s - 128) + m))),
        drop-zeros (length (entry_bytes e)) ((s - 128) + m),
        zeros-add (s - 128) m,
        append_assoc done (chunk e s) (zeros m),
        append_assoc (entry_bytes e) (zeros (s - 128)) (zeros m),
      )
      refl

write_entries-image :
    (es : List PartitionEntry) (i s : ℕ) (done : ByteBuffer)
    → All IsEntry es
    → 128 ≤ s
    → length done ≡ i * s
    → i * s + length es * s < 2 ^ 64
    → write_entries (length es) es i s (done ++ zeros (length es * s)) ≡ ok (done ++ image es s)
unfolding write_entries
write_entries-image [] i s done v b d f = rw (zero-mul s)
write_entries-image (e ∷ es) i s done v b d f =
    let n = length es * s in
    let offset : (i * s) % 2 ^ 64 ≡ length done = omega (arith, d, f) in
    let buf = done ++ zeros (length (e ∷ es) * s) in
    let inside : ltb (length buf) ((i * s) % 2 ^ 64 + 128) ≡ false = le→ltb _ _ (
      omega (
        arith,
        length-append done (zeros (length (e ∷ es) * s)),
        length-replicate {A = ℕ} (length (e ∷ es) * s) 0,
        suc-mul (length es) s,
        offset,
      )) in
    let step : put ((i * s) % 2 ^ 64) (entry_bytes e) buf ≡ (done ++ chunk e s) ++ zeros n =
      rw (suc-mul (length es) s, offset) (put-chunk done e s n v.0 b) in
    rw (inside, write_entries, step, ← append_assoc done (chunk e s) (image es s))
      (write_entries-image es (suc i) s (done ++ chunk e s) v.1 b
        (omega (arith, length-append done (chunk e s), chunk-length e s v.0 b, suc-mul i s, d))
        (omega (arith, suc-mul i s, suc-mul (length es) s, f)))

read_rounds-image :
    (es : List PartitionEntry) (i s : ℕ) (done : ByteBuffer)
    → All IsEntry es
    → 128 ≤ s
    → length done ≡ i * s
    → i * s + length es * s < 2 ^ 64
    → read_rounds (length es) (done ++ image es s) i s ≡ ok es
unfolding read_rounds
read_rounds-image [] i s done v b d f = refl
read_rounds-image (e ∷ es) i s done v b d f =
    let more = suc-mul (length es) s in
    let buf = done ++ image (e ∷ es) s in
    let n : length buf ≡ length done + (length es * s + s) =
      omega (arith, length-append done (image (e ∷ es) s), image-length (e ∷ es) s v b, more) in
    let offset : safe_mul i s ≡ some (length done) =
      (safe_mul_iff i s (length done)).1 (sym d, omega (arith, f)) in
    let first : ltb (length buf) ((length done + s) % 2 ^ 64) ≡ false =
      le→ltb _ _ (omega (arith, n, d, f, more)) in
    let second : ltb (length buf) (length done + 32) ≡ false = le→ltb _ _ (omega (arith, n)) in
    let entry : read_entry buf (length done) ≡ e =
      rw (append_assoc (entry_bytes e) (zeros (s - 128)) (image es s))
        (read_entry-entry_bytes done e (zeros (s - 128) ++ image es s) v.0) in
    let tail : read_rounds (length es) buf (suc i) s ≡ ok es =
      rw (← append_assoc done (chunk e s) (image es s)) (
        read_rounds-image es (suc i) s (done ++ chunk e s) v.1 b
          (omega (arith, length-append done (chunk e s), chunk-length e s v.0 b, suc-mul i s, d))
          (omega (arith, suc-mul i s, more, f))) in
    rw (offset, first, second, tail, entry, read_rounds) refl

pub serialize_entries-image :
    (es : List PartitionEntry) (s : ℕ)
    → All IsEntry es
    → 128 ≤ s
    → length es * s < 2 ^ 64
    → serialize_entries es (length es) s ≡ ok (image es s)
unfolding serialize_entries
serialize_entries-image [] s v b f = rw (zero-mul s) refl
serialize_entries-image (e ∷ es) s v b f =
    let total : (length (e ∷ es) * s) % 2 ^ 64 ≡ length (e ∷ es) * s = omega (arith, f) in
    let positive : (length (e ∷ es) * s == 0) ≡ false = ground (arith, suc-mul (length es) s) in
    rw (total, positive)
      (write_entries-image (e ∷ es) 0 s [] v b (sym (zero-mul s)) (omega (arith, zero-mul s, f)))

-- A table whose entries fit their types, with entries of at least 128 bytes and a size that fits 64
-- bits, is written without an access out of bounds, into as many bytes as the table has, and
-- `readEntries` reads the same entries back.
pub read_entries-serialize_entries :
    (es : List PartitionEntry) (s : ℕ)
    → All IsEntry es
    → 128 ≤ s
    → length es * s < 2 ^ 64
    → (buf : ByteBuffer) × (serialize_entries es (length es) s ≡ ok buf)
      × (length buf ≡ length es * s)
      × (read_entries buf (length es) s ≡ ok es)
unfolding read_entries
read_entries-serialize_entries es s v b f = (
  image es s,
  serialize_entries-image es s v b f,
  image-length es s v b,
  read_rounds-image es 0 s [] v b (sym (zero-mul s)) (omega (arith, zero-mul s, f)),
)

-- For such a table that is not empty, the parser's and the writer's checksum of the entries are the
-- same, whatever the checksum function is.
pub compute_entry_crc32-compute_entry_crc :
    (crc32 : ByteBuffer → ℕ) (es : List PartitionEntry) (s : ℕ)
    → 0 < length es
    → All IsEntry es
    → 128 ≤ s
    → length es * s < 2 ^ 64
    → compute_entry_crc32 crc32 es (length es) s ≡ compute_entry_crc crc32 es (length es) s
unfolding compute_entry_crc32 compute_entry_crc
compute_entry_crc32-compute_entry_crc crc32 [] s p v b f = absurd (omega arith)
compute_entry_crc32-compute_entry_crc crc32 (e ∷ es) s p v b f =
    let l = e ∷ es in
    let product = (safe_mul_iff (length l) s (length l * s)).1 (refl, f) in
    let raw = write_entries-image l 0 s [] v b (sym (zero-mul s)) (omega (arith, zero-mul s, f)) in
    let some_bytes : (length (image l s) == 0) ≡ false =
      ground (arith, image-length l s v b, suc-mul (length es) s) in
    rw
      (
        product,
        raw,
        compute_entry_crc32,
        serialize_entries-image l s v b f,
        some_bytes,
        compute_entry_crc,
      )
      refl
