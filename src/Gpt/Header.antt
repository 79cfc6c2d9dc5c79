-- ===== src/Gpt/Header.antt =====
-- The header of a partition table: `GPTHeader` of lib/include/mbootcore/gpt/GPTModels.hpp and `Guid`
-- of lib/include/mbootcore/gpt/Guid.hpp, as lib/src/gpt/GPTWriter.cpp writes them and
-- lib/src/gpt/GPTParser.cpp reads and checks them. zlib's `crc32` is the argument `crc32`.
pub mod RoundTrip
pub mod Checksum
use mboot_core.Prelude.{
  ℕ, ◌+◌, ◌-◌, ◌^◌, min, Bool, true, false, ◌&&◌, ltb, leb, ◌==◌, if◌then◌else◌, List, [], ◌∷◌,
  ◌++◌, length, take, drop, replicate,
}
use mboot_core.Domain.{
  ErrorCode, invalid_argument, gpt_invalid_header, gpt_crc_mismatch, undefined_behaviour, Result,
  ok, err, stuck, ByteBuffer,
}
use mboot_core.Bytes.{le16, le32, le64, byte, get16, get32, get64}

-- `data4` is an array of 8 bytes.
pub record Guid : Type 0 where
  pub data1 : ℕ
  pub data2 : ℕ
  pub data3 : ℕ
  pub data4 : ByteBuffer

abbrev pub null_guid : Guid
null_guid = record { data1 = 0; data2 = 0; data3 = 0; data4 = replicate 8 0 }

pub record GptHeader : Type 0 where
  pub signature : ℕ
  pub revision : ℕ
  pub header_size : ℕ
  pub header_crc32 : ℕ
  pub reserved : ℕ
  pub my_lba : ℕ
  pub alternate_lba : ℕ
  pub first_usable_lba : ℕ
  pub last_usable_lba : ℕ
  pub disk_guid : Guid
  pub partition_entry_lba : ℕ
  pub number_of_partition_entries : ℕ
  pub size_of_partition_entry : ℕ
  pub partition_entries_crc32 : ℕ

-- `GPTHeader{}`.
abbrev pub no_header : GptHeader
no_header = record {
  signature = 0;
  revision = 0;
  header_size = 0;
  header_crc32 = 0;
  reserved = 0;
  my_lba = 0;
  alternate_lba = 0;
  first_usable_lba = 0;
  last_usable_lba = 0;
  disk_guid = null_guid;
  partition_entry_lba = 0;
  number_of_partition_entries = 0;
  size_of_partition_entry = 0;
  partition_entries_crc32 = 0;
}

-- `GPTHeader::Signature`, "EFI PART".
abbrev pub header_signature : ℕ
header_signature = 6075990659671082565

abbrev pub min_header_size : ℕ
min_header_size = 92

unfoldable pub has_valid_signature : GptHeader → Bool
has_valid_signature h = h.signature == header_signature

-- Bytes written over those at an offset.
unfoldable pub put : ℕ → ByteBuffer → ByteBuffer → ByteBuffer
put off bytes buf = take off buf ++ (bytes ++ drop (off + length bytes) buf)

-- The loop that writes the eight bytes of `diskGUID.data4`.
unfoldable pub put_bytes : ByteBuffer → ByteBuffer → ByteBuffer
unfolding put
put_bytes d4 buf = put 71 (byte d4 7 ∷ []) (
    put 70 (byte d4 6 ∷ []) (
      put 69 (byte d4 5 ∷ []) (
        put 68 (byte d4 4 ∷ []) (
          put 67 (byte d4 3 ∷ [])
            (put 66 (byte d4 2 ∷ []) (put 65 (byte d4 1 ∷ []) (put 64 (byte d4 0 ∷ []) buf)))))))

-- `serializeHeader`: each statement writes over the buffer that the one before it left.
unfoldable pub serialize_header : GptHeader → ByteBuffer
unfolding put put_bytes le16 le32 le64
serialize_header h =
    let d0 = replicate 512 0 in
    let d1 = put 0 (le64 h.signature) d0 in
    let d2 = put 8 (le32 h.revision) d1 in
    let d3 = put 12 (le32 h.header_size) d2 in
    let d4 = put 16 (le32 h.header_crc32) d3 in
    let d5 = put 20 (le32 h.reserved) d4 in
    let d6 = put 24 (le64 h.my_lba) d5 in
    let d7 = put 32 (le64 h.alternate_lba) d6 in
    let d8 = put 40 (le64 h.first_usable_lba) d7 in
    let d9 = put 48 (le64 h.last_usable_lba) d8 in
    let d10 = put 56 (le32 h.disk_guid.data1) d9 in
    let d11 = put 60 (le16 h.disk_guid.data2) d10 in
    let d12 = put 62 (le16 h.disk_guid.data3) d11 in
    let d13 = put_bytes h.disk_guid.data4 d12 in
    let d14 = put 72 (le64 h.partition_entry_lba) d13 in
    let d15 = put 80 (le32 h.number_of_partition_entries) d14 in
    let d16 = put 84 (le32 h.size_of_partition_entry) d15 in
    put 88 (le32 h.partition_entries_crc32) d16

unfoldable pub read_header : ByteBuffer → GptHeader
unfolding get16 get32 get64
read_header d = if ltb (length d) 92 then no_header else record {
  signature = get64 d 0;
  revision = get32 d 8;
  header_size = get32 d 12;
  header_crc32 = get32 d 16;
  reserved = get32 d 20;
  my_lba = get64 d 24;
  alternate_lba = get64 d 32;
  first_usable_lba = get64 d 40;
  last_usable_lba = get64 d 48;
  disk_guid = record {
    data1 = get32 d 56;
    data2 = get16 d 60;
    data3 = get16 d 62;
    data4 =
        byte d 64
        ∷ byte d 65
        ∷ byte d 66
        ∷ byte d 67
        ∷ byte d 68
        ∷ byte d 69
        ∷ byte d 70
        ∷ byte d 71
        ∷ [];
  };
  partition_entry_lba = get64 d 72;
  number_of_partition_entries = get32 d 80;
  size_of_partition_entry = get32 d 84;
  partition_entries_crc32 = get32 d 88;
}

-- The checksum's field set to 0.
unfoldable pub zero_crc : ByteBuffer → ByteBuffer
unfolding put
zero_crc buf = put 16 (0 ∷ 0 ∷ 0 ∷ 0 ∷ []) buf

-- `computeHeaderCRC`; the serialized header is never shorter than `hdrSize`, which is at most 512.
unfoldable pub compute_header_crc : (ByteBuffer → ℕ) → GptHeader → Result ℕ
unfolding serialize_header zero_crc
compute_header_crc crc32 h =
    let buf = serialize_header h in
    let hdr_size = min h.header_size 512 in
    if ltb h.header_size min_header_size
    then err invalid_argument
    else if ltb (length buf) hdr_size
    then err invalid_argument
    else ok (crc32 (take hdr_size (zero_crc buf)))

-- `updateHeaderCRC`, with the header that it changes.
unfoldable pub update_header_crc : (ByteBuffer → ℕ) → GptHeader → Result GptHeader
unfolding compute_header_crc
update_header_crc crc32 h = elim (compute_header_crc crc32 h) [
  | ok crc_val ↦ ok (record h { header_crc32 = crc_val })
  | err e ↦ err e
  | stuck x ↦ stuck x
]

-- The block of `parse` that checks a header just read: the warnings, and whether it is valid. The
-- bytes up to `headerSize` are copied without a look at the length of what was read.
unfoldable pub check_header :
    (ByteBuffer → ℕ)
    → ByteBuffer
    → (missing : ErrorCode) → Result (GptHeader × List ErrorCode × Bool)
unfolding read_header zero_crc has_valid_signature
check_header crc32 buf missing =
    let h = read_header buf in
    let hdr_size = min h.header_size 512 in
    if leb 92 (length buf)
    then if has_valid_signature h && leb min_header_size h.header_size
      then if ltb (length buf) hdr_size
        then stuck undefined_behaviour
        else if crc32 (take hdr_size (zero_crc buf)) == h.header_crc32
        then ok (h, [], true)
        else ok (h, gpt_crc_mismatch ∷ [], false)
      else ok (h, gpt_invalid_header ∷ [], false)
    else ok (no_header, missing ∷ [], false)
