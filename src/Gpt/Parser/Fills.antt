-- ===== src/Gpt/Parser/Fills.antt =====
-- The entries that a valid header announces, as the parser takes them into its result.
use mboot_core.Prelude.{
  ℕ, ◌+◌, ◌-◌, ◌*◌, ◌/◌, ◌^◌, ◌≤◌, ◌<◌, ◌≡◌, refl, ap, ◌∙◌, arith, Bool, true, leb, le→leb, ==_iff,
  some, List, [], append-nil, length,
}
use mboot_core.Domain.{ErrorCode, ok, ByteBuffer}
use mboot_core.Bytes.{IsU32}
use mboot_core.Gpt.Arithmetic.{validate_entry_fields}
use mboot_core.Gpt.Arithmetic.Bounds.{validate_entry_fields-accepts, validate_entry_fields-safe_mul}
use mboot_core.Gpt.Header.{GptHeader, serialize_header, update_header_crc, check_header}
use mboot_core.Gpt.Header.Checksum.{
  sealed, sealed-IsHeader, update_header_crc-sealed, check_header-update_header_crc,
}
use mboot_core.Gpt.Entries.{
  PartitionEntry, serialize_entries, read_entries, compute_entry_crc32, compute_entry_crc,
}
use mboot_core.Gpt.Entries.RoundTrip.{
  read_entries-serialize_entries, compute_entry_crc32-compute_entry_crc,
}
use mboot_core.Gpt.Parser.{
  FlashDevice, GptParser, ParserResult, read_sectors, load_entries, parse_entries,
}
use mboot_core.Gpt.Parser.OnDisk.{IsTable, read_sectors-512}

-- What entries that are right add to a result.
abbrev pub filled : GptHeader → List PartitionEntry → ParserResult → ParserResult
filled h es r = record r {
  table = record r.table {
    entries = es;
    entry_count = h.number_of_partition_entries;
    entry_size = h.size_of_partition_entry;
    entries_valid = true;
  };
}

load_entries-filled :
    (crc32 : ByteBuffer → ℕ) (h : GptHeader) (es : List PartitionEntry) (buf : ByteBuffer)
    (short : ParserResult → ParserResult) (r : ParserResult)
    → length buf ≡ h.number_of_partition_entries * h.size_of_partition_entry
    → read_entries buf h.number_of_partition_entries h.size_of_partition_entry ≡ ok es
    → compute_entry_crc32 crc32 es h.number_of_partition_entries h.size_of_partition_entry
      ≡ ok h.partition_entries_crc32
    → load_entries crc32 h short buf (h.number_of_partition_entries * h.size_of_partition_entry) r
      ≡ ok (filled h es r)
unfolding load_entries
load_entries-filled crc32 h es buf short r n reads crc =
    let enough : leb (h.number_of_partition_entries * h.size_of_partition_entry) (length buf)
        ≡ true =
      le→leb _ _ (omega arith) in
    rw (enough, reads, crc, (==_iff h.partition_entries_crc32 h.partition_entries_crc32).1 refl)
      refl

parse_entries-filled :
    (crc32 : ByteBuffer → ℕ) (device : FlashDevice) (g : GptParser) (h : GptHeader)
    (es : List PartitionEntry) (buf : ByteBuffer) (refuse short : ParserResult → ParserResult)
    (r : ParserResult)
    → IsTable h es
    → g.sector_size ≡ 512
    → length buf ≡ h.number_of_partition_entries * h.size_of_partition_entry
    → device.read_memory (h.partition_entry_lba * 512) (length buf) ≡ some buf
    → read_entries buf h.number_of_partition_entries h.size_of_partition_entry ≡ ok es
    → compute_entry_crc32 crc32 es h.number_of_partition_entries h.size_of_partition_entry
      ≡ ok h.partition_entries_crc32
    → parse_entries crc32 device g h refuse short r ≡ ok (filled h es r)
unfolding parse_entries
parse_entries-filled crc32 device g h es buf refuse short r t s n d reads crc =
    let count = h.number_of_partition_entries in
    let size = h.size_of_partition_entry in
    let valid : validate_entry_fields count size r.warnings ≡ (r.warnings, true) =
      validate_entry_fields-accepts count size r.warnings (rw t.counted t.some_entries)
        (rw t.counted t.few_entries) t.size_least t.size_most in
    let product =
      validate_entry_fields-safe_mul count size r.warnings
        (ap (λ (x : List ErrorCode × Bool). x.1) valid) in
    let sectors = (count * size + g.sector_size - 1) / g.sector_size in
    let bytes : read_sectors device g h.partition_entry_lba sectors ≡ buf =
      read_sectors-512 device g h.partition_entry_lba (count * size) s t.reachable
        (omega (arith, product.2)) (rw t.counted t.whole_sectors) (rw (← n) d) in
    rw (valid, product.0, parse_entries, bytes)
      (load_entries-filled crc32 h es buf short r n reads crc)

-- The checksum of a header does not bear on what its table asks.
sealed-IsTable :
    (crc32 : ByteBuffer → ℕ) (h : GptHeader) (es : List PartitionEntry)
    → ((d : ByteBuffer) → IsU32 (crc32 d))
    → IsTable h es
    → IsTable (sealed crc32 h) es
sealed-IsTable crc32 h es bounded t = record {
  header_fits = sealed-IsHeader crc32 h bounded t.header_fits;
  signed = t.signed;
  header_long = t.header_long;
  entries_fit = t.entries_fit;
  counted = t.counted;
  some_entries = t.some_entries;
  few_entries = t.few_entries;
  size_least = t.size_least;
  size_most = t.size_most;
  whole_sectors = t.whole_sectors;
  reachable = t.reachable;
}

-- A header that was given its checksum, in a sector of its own.
pub check_header-sealed :
    (crc32 : ByteBuffer → ℕ) (h h' : GptHeader) (es : List PartitionEntry) (missing : ErrorCode)
    → ((d : ByteBuffer) → IsU32 (crc32 d))
    → IsTable h es
    → update_header_crc crc32 h ≡ ok h'
    → check_header crc32 (serialize_header h') missing ≡ ok (h', [], true)
check_header-sealed crc32 h h' es missing bounded t updated =
    let (k, made, checked) =
      check_header-update_header_crc crc32 h [] missing bounded t.header_fits t.signed
        t.header_long in
    let same : k ≡ h' = cc in rw (← same, ← append-nil (serialize_header k)) checked

pub update_header_crc-is_sealed :
    (crc32 : ByteBuffer → ℕ) (h h' : GptHeader)
    → 92 ≤ h.header_size
    → update_header_crc crc32 h ≡ ok h'
    → h' ≡ sealed crc32 h
update_header_crc-is_sealed crc32 h h' b updated =
    let made = update_header_crc-sealed crc32 h b in cc

-- The entries of a table, behind a header with its checksum.
pub table-filled :
    (crc32 : ByteBuffer → ℕ) (device : FlashDevice) (g : GptParser) (h h' : GptHeader)
    (es : List PartitionEntry) (buf : ByteBuffer) (refuse short : ParserResult → ParserResult)
    (r : ParserResult)
    → ((d : ByteBuffer) → IsU32 (crc32 d))
    → IsTable h es
    → g.sector_size ≡ 512
    → h' ≡ sealed crc32 h
    → serialize_entries es (length es) h.size_of_partition_entry ≡ ok buf
    → compute_entry_crc crc32 es (length es) h.size_of_partition_entry
      ≡ ok h.partition_entries_crc32
    → device.read_memory (h'.partition_entry_lba * 512) (length buf) ≡ some buf
    → parse_entries crc32 device g h' refuse short r ≡ ok (filled h' es r)
table-filled crc32 device g h h' es buf refuse short r bounded t s e written crc d =
    let size = h.size_of_partition_entry in
    let valid =
      validate_entry_fields-accepts (length es) size [] t.some_entries t.few_entries t.size_least
        t.size_most in
    let bounds =
      validate_entry_fields-safe_mul (length es) size []
        (ap (λ (x : List ErrorCode × Bool). x.1) valid) in
    let fits : length es * size < 2 ^ 64 = omega (arith, bounds.2) in
    let (image, wrote, long, reads) =
      read_entries-serialize_entries es size t.entries_fit t.size_least fits in
    let same : image ≡ buf = cc in
    let agree =
      compute_entry_crc32-compute_entry_crc crc32 es size t.some_entries t.entries_fit t.size_least
        fits in
    rw e (
      parse_entries-filled crc32 device g (sealed crc32 h) es buf refuse short r
        (sealed-IsTable crc32 h es bounded t) s (rw (t.counted, ← same) long)
        (rw (← ap (λ (k : GptHeader). k.partition_entry_lba) e) d) (rw (t.counted, ← same) reads)
        (rw t.counted (agree ∙ crc)))
