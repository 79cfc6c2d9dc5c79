-- ===== src/Gpt/Header/Checksum.antt =====
-- The checksum that the writer stores is the one that the parser computes.
use mboot_core.Prelude.{
  ℕ, ◌≤◌, ◌≡◌, refl, ap, arith, min, true, le→ltb, le→leb, ==_iff, length-append,
  take-append_before, [], ◌++◌, length, take,
}
use mboot_core.Domain.{ErrorCode, ok, ByteBuffer}
use mboot_core.Bytes.{IsU32}
use mboot_core.Gpt.Header.{
  GptHeader, header_signature, has_valid_signature, serialize_header, read_header, zero_crc,
  compute_header_crc, update_header_crc, check_header,
}
use mboot_core.Gpt.Header.RoundTrip.{
  IsHeader, serialize_header-length, read_header-serialize_header,
}

-- What the checksum covers.
abbrev covered : GptHeader → ByteBuffer
covered h = take (min h.header_size 512) (zero_crc (serialize_header h))

-- The header with its checksum.
abbrev pub sealed : (ByteBuffer → ℕ) → GptHeader → GptHeader
sealed crc32 h = record h { header_crc32 = crc32 (covered h) }

pub compute_header_crc-covered :
    (crc32 : ByteBuffer → ℕ) (h : GptHeader)
    → 92 ≤ h.header_size
    → compute_header_crc crc32 h ≡ ok (crc32 (covered h))
unfolding compute_header_crc
compute_header_crc-covered crc32 h b =
    rw
      (
        le→ltb h.header_size 92 b,
        serialize_header-length h,
        le→ltb 512 (min h.header_size 512) (omega arith),
      )
      refl

pub update_header_crc-sealed :
    (crc32 : ByteBuffer → ℕ) (h : GptHeader)
    → 92 ≤ h.header_size
    → update_header_crc crc32 h ≡ ok (sealed crc32 h)
unfolding update_header_crc
update_header_crc-sealed crc32 h b =
    rw (compute_header_crc-covered crc32 h b, update_header_crc) refl

zero_crc-sector :
    (c : ℕ) (h : GptHeader) (rest : ByteBuffer)
    → zero_crc (serialize_header (record h { header_crc32 = c }) ++ rest)
      ≡ zero_crc (serialize_header h) ++ rest
unfolding zero_crc serialize_header
zero_crc-sector c h rest = refl

zero_crc-length : (h : GptHeader) → length (zero_crc (serialize_header h)) ≡ 512
unfolding zero_crc serialize_header
zero_crc-length h = refl

covered-sector :
    (c : ℕ) (h : GptHeader) (rest : ByteBuffer)
    → take
        (min h.header_size 512)
        (zero_crc (serialize_header (record h { header_crc32 = c }) ++ rest))
      ≡ covered h
covered-sector c h rest = rw (zero_crc-sector c h rest) (
    take-append_before (min h.header_size 512) (zero_crc (serialize_header h)) rest
      (omega (arith, zero_crc-length h)))

pub sealed-IsHeader :
    (crc32 : ByteBuffer → ℕ) (h : GptHeader)
    → ((d : ByteBuffer) → IsU32 (crc32 d))
    → IsHeader h
    → IsHeader (sealed crc32 h)
sealed-IsHeader crc32 h bounded v = record {
  signature = v.signature;
  revision = v.revision;
  header_size = v.header_size;
  header_crc32 = bounded (covered h);
  reserved = v.reserved;
  my_lba = v.my_lba;
  alternate_lba = v.alternate_lba;
  first_usable_lba = v.first_usable_lba;
  last_usable_lba = v.last_usable_lba;
  data1 = v.data1;
  data2 = v.data2;
  data3 = v.data3;
  data4 = v.data4;
  partition_entry_lba = v.partition_entry_lba;
  number_of_partition_entries = v.number_of_partition_entries;
  size_of_partition_entry = v.size_of_partition_entry;
  partition_entries_crc32 = v.partition_entries_crc32;
}

-- A sector that starts with a header whose checksum is right.
pub check_header-valid :
    (crc32 : ByteBuffer → ℕ) (buf : ByteBuffer) (h : GptHeader) (missing : ErrorCode)
    → read_header buf ≡ h
    → 512 ≤ length buf
    → h.signature ≡ header_signature
    → 92 ≤ h.header_size
    → crc32 (take (min h.header_size 512) (zero_crc buf)) ≡ h.header_crc32
    → check_header crc32 buf missing ≡ ok (h, [], true)
unfolding check_header has_valid_signature
check_header-valid crc32 buf h missing e n s b c =
    rw
      (
        e,
        le→leb 92 (length buf) (omega arith),
        (==_iff h.signature header_signature).1 s,
        le→leb 92 h.header_size b,
        le→ltb (length buf) (min h.header_size 512) (omega arith),
        c,
        (==_iff h.header_crc32 h.header_crc32).1 refl,
      )
      refl

-- The header that `updateHeaderCRC` gives a checksum is valid for the parser, which reads the same
-- header back from the sector: whatever the checksum function is, if its results fit 32 bits, for
-- a header with the signature and a size of at least 92 whose fields fit their types. The
-- parser takes any revision, and any such size.
pub check_header-update_header_crc :
    (crc32 : ByteBuffer → ℕ) (h : GptHeader) (rest : ByteBuffer) (missing : ErrorCode)
    → ((d : ByteBuffer) → IsU32 (crc32 d))
    → IsHeader h
    → h.signature ≡ header_signature
    → 92 ≤ h.header_size
    → (h' : GptHeader) × (update_header_crc crc32 h ≡ ok h')
      × (check_header crc32 (serialize_header h' ++ rest) missing ≡ ok (h', [], true))
check_header-update_header_crc crc32 h rest missing bounded v s b =
    let h' = sealed crc32 h in
    let buf = serialize_header h' ++ rest in
    (
      h',
      update_header_crc-sealed crc32 h b,
      check_header-valid crc32 buf h' missing
          (read_header-serialize_header h' rest (sealed-IsHeader crc32 h bounded v))
          (omega (arith, length-append (serialize_header h') rest, serialize_header-length h')) s b
          (ap crc32 (covered-sector (crc32 (covered h)) h rest)),
    )
