-- ===== src/Gpt/Entries.antt =====
-- The entries of a partition table: `PartitionEntry` of lib/include/mbootcore/gpt/GPTModels.hpp, as
-- lib/src/gpt/GPTWriter.cpp writes them and lib/src/gpt/GPTParser.cpp reads them. zlib's `crc32` is
-- the argument `crc32`.
pub mod Reads
pub mod RoundTrip
use mboot_core.Prelude.{
  ℕ, zero, suc, ◌+◌, ◌*◌, ◌%◌, ◌^◌, Bool, true, false, ltb, leb, ◌==◌, ◌&&◌, if◌then◌else◌, Option,
  none, some, List, [], ◌∷◌, ◌++◌, length, replicate,
}
use mboot_core.Domain.{Result, ok, stuck, err, undefined_behaviour, ◌>>=◌, ByteBuffer}
use mboot_core.Bytes.{le16, le32, le64, byte, get16, get32, get64}
use mboot_core.Gpt.Arithmetic.{safe_mul}
use mboot_core.Gpt.Header.{Guid, put}

-- `name` is an array of 36 UTF-16 units.
pub record PartitionEntry : Type 0 where
  pub partition_type_guid : Guid
  pub unique_partition_guid : Guid
  pub first_lba : ℕ
  pub last_lba : ℕ
  pub attributes : ℕ
  pub name : List ℕ

-- The 8 bytes of `data4`.
abbrev pub array8 : ByteBuffer → ByteBuffer
array8 d =
    byte d 0 ∷ byte d 1 ∷ byte d 2 ∷ byte d 3 ∷ byte d 4 ∷ byte d 5 ∷ byte d 6 ∷ byte d 7 ∷ []

abbrev pub name_bytes : List ℕ → ByteBuffer
name_bytes [] = []
name_bytes (c ∷ cs) = le16 c ++ name_bytes cs

-- The fields before the name.
abbrev pub fixed_bytes : PartitionEntry → ByteBuffer
fixed_bytes e =
    le32 e.partition_type_guid.data1
    ++ (le16 e.partition_type_guid.data2
        ++ (le16 e.partition_type_guid.data3
            ++ (array8 e.partition_type_guid.data4
                ++ (le32 e.unique_partition_guid.data1
                    ++ (le16 e.unique_partition_guid.data2
                        ++ (le16 e.unique_partition_guid.data3
                            ++ (array8 e.unique_partition_guid.data4
                                ++ (le64 e.first_lba
                                    ++ (le64 e.last_lba ++ le64 e.attributes)))))))))

-- The bytes that the body of the loop writes, from `offset` on and without a gap.
unfoldable pub entry_bytes : PartitionEntry → ByteBuffer
unfolding le16 le32 le64
entry_bytes e = fixed_bytes e ++ name_bytes e.name

-- The loop, `i < count && i < entries.size()`. A write behind the end of the buffer is undefined.
unfoldable pub write_entries :
    (count : ℕ) → List PartitionEntry → (i entry_size : ℕ) → ByteBuffer → Result ByteBuffer
unfolding entry_bytes put
write_entries zero es i entry_size buf = ok buf
write_entries (suc n) [] i entry_size buf = ok buf
write_entries (suc n) (e ∷ es) i entry_size buf =
    let offset = (i * entry_size) % 2 ^ 64 in
    elim (ltb (length buf) (offset + 128)) [
      | true ↦ stuck undefined_behaviour
      | false ↦ write_entries n es (suc i) entry_size (put offset (entry_bytes e) buf)
    ]

unfoldable pub serialize_entries : List PartitionEntry → (count entry_size : ℕ) → Result ByteBuffer
unfolding write_entries
serialize_entries es count entry_size =
    let total_size = (count * entry_size) % 2 ^ 64 in
    if total_size == 0 then ok [] else write_entries count es 0 entry_size (replicate total_size 0)

-- `readLE16`, `readLE32` and `readLE64` of `readEntries`, which give 0 behind the end.
unfoldable pub get16_or : ByteBuffer → ℕ → ℕ
unfolding get16
get16_or buf off = if leb (length buf) (off + 1) then 0 else get16 buf off

unfoldable pub get32_or : ByteBuffer → ℕ → ℕ
unfolding get32
get32_or buf off = if leb (length buf) (off + 3) then 0 else get32 buf off

unfoldable pub get64_or : ByteBuffer → ℕ → ℕ
unfolding get64
get64_or buf off = if leb (length buf) (off + 7) then 0 else get64 buf off

-- The 8 bytes of `data4`, from an offset on.
abbrev pub read_array8 : ByteBuffer → ℕ → ByteBuffer
read_array8 buf off =
    byte buf off
    ∷ byte buf (off + 1)
    ∷ byte buf (off + 2)
    ∷ byte buf (off + 3)
    ∷ byte buf (off + 4)
    ∷ byte buf (off + 5)
    ∷ byte buf (off + 6)
    ∷ byte buf (off + 7)
    ∷ []

-- The units of the name: two bytes for each.
unfoldable pub read_name : (units : ℕ) → ByteBuffer → ℕ → List ℕ
unfolding get16_or
read_name zero buf off = []
read_name (suc n) buf off = get16_or buf off ∷ read_name n buf (off + 2)

-- The body of the loop of `readEntries`.
unfoldable pub read_entry : ByteBuffer → (offset : ℕ) → PartitionEntry
unfolding get16_or get32_or get64_or read_name
read_entry buf offset = record {
  partition_type_guid = record {
    data1 = get32_or buf offset;
    data2 = get16_or buf (offset + 4);
    data3 = get16_or buf (offset + 6);
    data4 = read_array8 buf (offset + 8);
  };
  unique_partition_guid = record {
    data1 = get32_or buf (offset + 16);
    data2 = get16_or buf (offset + 20);
    data3 = get16_or buf (offset + 22);
    data4 = read_array8 buf (offset + 24);
  };
  first_lba = get64_or buf (offset + 32);
  last_lba = get64_or buf (offset + 40);
  attributes = get64_or buf (offset + 48);
  name = read_name 36 buf (offset + 56);
}

-- The rounds that are left, the first of them with the counter `i`. The bytes of the two `data4` are
-- read without a test of their index.
unfoldable pub read_rounds :
    (rounds : ℕ) → ByteBuffer → (i entry_size : ℕ) → Result (List PartitionEntry)
unfolding read_entry safe_mul
read_rounds zero buf i entry_size = ok []
read_rounds (suc n) buf i entry_size = elim (safe_mul i entry_size) [
  | none ↦ ok []
  | some offset ↦ elim (ltb (length buf) ((offset + entry_size) % 2 ^ 64)) [
    | true ↦ ok []
    | false ↦ elim (ltb (length buf) (offset + 32)) [
      | true ↦ stuck undefined_behaviour
      | false ↦ read_rounds n buf (suc i) entry_size >>= λ es. ok (read_entry buf offset ∷ es)
    ]
  ]
]

unfoldable pub read_entries : ByteBuffer → (count entry_size : ℕ) → Result (List PartitionEntry)
unfolding read_rounds
read_entries buf count entry_size = read_rounds count buf 0 entry_size

-- `GPTParser::computeEntryCRC32`, which fills its own buffer: no offset wraps where the product of
-- `count` and `entrySize` does not.
unfoldable pub compute_entry_crc32 :
    (ByteBuffer → ℕ) → List PartitionEntry → (count entry_size : ℕ) → Result ℕ
unfolding write_entries safe_mul
compute_entry_crc32 crc32 es count entry_size = elim (safe_mul count entry_size) [
  | none ↦ ok 0
  | some total_bytes ↦
      write_entries count es 0 entry_size (replicate total_bytes 0) >>= λ raw. ok (crc32 raw)
]

-- `GPTWriter::computeEntryCRC`.
unfoldable pub compute_entry_crc :
    (ByteBuffer → ℕ) → List PartitionEntry → (count entry_size : ℕ) → Result ℕ
compute_entry_crc crc32 es count entry_size = serialize_entries es count entry_size >>= λ buf.
    if length buf == 0 then ok 0 else ok (crc32 buf)
