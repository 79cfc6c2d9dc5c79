-- ===== src/Gpt/Header/RoundTrip.antt =====
-- Reading a header that was written gives it back.
use mboot_core.Prelude.{◌≡◌, refl, arith, false, ltb, le→ltb, length-append, [], ◌∷◌, ◌++◌, length}
use mboot_core.Domain.{ByteBuffer}
use mboot_core.Bytes.{IsU16, IsU32, IsU64, le16, le32, le64, byte}
use mboot_core.Bytes.Laws.{get16-le16, get32-le32, get64-le64}
use mboot_core.Gpt.Header.{GptHeader, serialize_header, read_header}

-- Every field fits its type.
pub record IsHeader (h : GptHeader) : Type 0 where
  pub signature : IsU64 h.signature
  pub revision : IsU32 h.revision
  pub header_size : IsU32 h.header_size
  pub header_crc32 : IsU32 h.header_crc32
  pub reserved : IsU32 h.reserved
  pub my_lba : IsU64 h.my_lba
  pub alternate_lba : IsU64 h.alternate_lba
  pub first_usable_lba : IsU64 h.first_usable_lba
  pub last_usable_lba : IsU64 h.last_usable_lba
  pub data1 : IsU32 h.disk_guid.data1
  pub data2 : IsU16 h.disk_guid.data2
  pub data3 : IsU16 h.disk_guid.data3
  pub data4 : length h.disk_guid.data4 ≡ 8
  pub partition_entry_lba : IsU64 h.partition_entry_lba
  pub number_of_partition_entries : IsU32 h.number_of_partition_entries
  pub size_of_partition_entry : IsU32 h.size_of_partition_entry
  pub partition_entries_crc32 : IsU32 h.partition_entries_crc32

pub serialize_header-length : (h : GptHeader) → length (serialize_header h) ≡ 512
unfolding serialize_header
serialize_header-length h = refl

sector_long :
    (h : GptHeader) (rest : ByteBuffer) → ltb (length (serialize_header h ++ rest)) 92 ≡ false
sector_long h rest =
    le→ltb (length (serialize_header h ++ rest)) 92
      (omega (arith, length-append (serialize_header h) rest, serialize_header-length h))

pub array_of_eight :
    (d : ByteBuffer)
    → length d ≡ 8
    → byte d 0 ∷ byte d 1 ∷ byte d 2 ∷ byte d 3 ∷ byte d 4 ∷ byte d 5 ∷ byte d 6 ∷ byte d 7 ∷ [] ≡ d
array_of_eight (a ∷ b ∷ c ∷ d ∷ e ∷ f ∷ g ∷ h ∷ []) n = refl
array_of_eight (a ∷ b ∷ c ∷ d ∷ e ∷ f ∷ g ∷ h ∷ _ ∷ _) n = absurd (omega arith)
array_of_eight [] n = absurd (omega arith)
array_of_eight (_ ∷ []) n = absurd (omega arith)
array_of_eight (_ ∷ _ ∷ []) n = absurd (omega arith)
array_of_eight (_ ∷ _ ∷ _ ∷ []) n = absurd (omega arith)
array_of_eight (_ ∷ _ ∷ _ ∷ _ ∷ []) n = absurd (omega arith)
array_of_eight (_ ∷ _ ∷ _ ∷ _ ∷ _ ∷ []) n = absurd (omega arith)
array_of_eight (_ ∷ _ ∷ _ ∷ _ ∷ _ ∷ _ ∷ []) n = absurd (omega arith)
array_of_eight (_ ∷ _ ∷ _ ∷ _ ∷ _ ∷ _ ∷ _ ∷ []) n = absurd (omega arith)

-- A header whose fields fit their types is read back from what `serializeHeader` writes, whatever
-- follows it in the sector.
pub read_header-serialize_header :
    (h : GptHeader) (rest : ByteBuffer) → IsHeader h → read_header (serialize_header h ++ rest) ≡ h
unfolding read_header serialize_header le16 le32 le64
read_header-serialize_header h rest v =
    let long : ltb (length (serialize_header h ++ rest)) 92 ≡ false = sector_long h rest in
    rw long (λ i. record {
      signature = get64-le64 h.signature rest v.signature i;
      revision = get32-le32 h.revision rest v.revision i;
      header_size = get32-le32 h.header_size rest v.header_size i;
      header_crc32 = get32-le32 h.header_crc32 rest v.header_crc32 i;
      reserved = get32-le32 h.reserved rest v.reserved i;
      my_lba = get64-le64 h.my_lba rest v.my_lba i;
      alternate_lba = get64-le64 h.alternate_lba rest v.alternate_lba i;
      first_usable_lba = get64-le64 h.first_usable_lba rest v.first_usable_lba i;
      last_usable_lba = get64-le64 h.last_usable_lba rest v.last_usable_lba i;
      disk_guid = record {
        data1 = get32-le32 h.disk_guid.data1 rest v.data1 i;
        data2 = get16-le16 h.disk_guid.data2 rest v.data2 i;
        data3 = get16-le16 h.disk_guid.data3 rest v.data3 i;
        data4 = array_of_eight h.disk_guid.data4 v.data4 i;
      };
      partition_entry_lba = get64-le64 h.partition_entry_lba rest v.partition_entry_lba i;
      number_of_partition_entries =
          get32-le32 h.number_of_partition_entries rest v.number_of_partition_entries i;
      size_of_partition_entry =
          get32-le32 h.size_of_partition_entry rest v.size_of_partition_entry i;
      partition_entries_crc32 =
          get32-le32 h.partition_entries_crc32 rest v.partition_entries_crc32 i;
    })
