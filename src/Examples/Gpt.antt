-- ===== src/Examples/Gpt.antt =====
-- The header of a disk of 2^20 sectors: instances of the theorems on partition tables.
use mboot_core.Prelude.{
  ◌+◌, ◌*◌, ◌^◌, ◌%◌, ◌≡◌, refl, arith, true, ℕ, List, All, [], ◌∷◌, ◌++◌, length, replicate,
}
use mboot_core.Domain.{ok, gpt_primary_missing, ByteBuffer}
use mboot_core.Bytes.{IsU32}
use mboot_core.Gpt.Ranges.{PartitionRange}
use mboot_core.Gpt.Header.{
  GptHeader, header_signature, null_guid, serialize_header, update_header_crc, check_header,
}
use mboot_core.Gpt.Entries.{PartitionEntry, serialize_entries, read_entries}
use mboot_core.Gpt.Entries.Reads.{IsEntry}
use mboot_core.Gpt.Entries.RoundTrip.{read_entries-serialize_entries}
use mboot_core.Gpt.Header.RoundTrip.{IsHeader}
use mboot_core.Gpt.Header.Checksum.{check_header-update_header_crc}

abbrev pub disk_header : GptHeader
disk_header = record {
  signature = header_signature;
  revision = 65536;
  header_size = 92;
  header_crc32 = 0;
  reserved = 0;
  my_lba = 1;
  alternate_lba = 1048575;
  first_usable_lba = 34;
  last_usable_lba = 1048541;
  disk_guid = record null_guid { data1 = 4660; data2 = 22136; data3 = 7 };
  partition_entry_lba = 2;
  number_of_partition_entries = 128;
  size_of_partition_entry = 128;
  partition_entries_crc32 = 305419896;
}

pub disk_header-IsHeader : IsHeader disk_header
disk_header-IsHeader = record {
  signature = omega arith;
  revision = omega arith;
  header_size = omega arith;
  header_crc32 = omega arith;
  reserved = omega arith;
  my_lba = omega arith;
  alternate_lba = omega arith;
  first_usable_lba = omega arith;
  last_usable_lba = omega arith;
  data1 = omega arith;
  data2 = omega arith;
  data3 = omega arith;
  data4 = refl;
  partition_entry_lba = omega arith;
  number_of_partition_entries = omega arith;
  size_of_partition_entry = omega arith;
  partition_entries_crc32 = omega arith;
}

-- A checksum function: the sum of the bytes, in 32 bits.
abbrev pub byte_sum : ByteBuffer → ℕ
byte_sum [] = 0
byte_sum (b ∷ bs) = (b + byte_sum bs) % 2 ^ 32

pub byte_sum-IsU32 : (d : ByteBuffer) → IsU32 (byte_sum d)
byte_sum-IsU32 [] = omega arith
byte_sum-IsU32 (b ∷ bs) = omega arith

check_header-update_header_crc_example :
    (h' : GptHeader) × (update_header_crc byte_sum disk_header ≡ ok h')
    × (check_header byte_sum (serialize_header h' ++ []) gpt_primary_missing ≡ ok (h', [], true))
check_header-update_header_crc_example =
    check_header-update_header_crc byte_sum disk_header [] gpt_primary_missing byte_sum-IsU32
      disk_header-IsHeader refl (omega arith)

abbrev boot : PartitionRange
boot = record { first_lba = 34; last_lba = 100 }

abbrev root : PartitionRange
root = record { first_lba = 100; last_lba = 200 }

abbrev pub boot_entry : PartitionEntry
boot_entry = record {
  partition_type_guid = record null_guid { data1 = 1235865983; data2 = 37795 };
  unique_partition_guid = record null_guid { data1 = 77 };
  first_lba = 34;
  last_lba = 100;
  attributes = 1;
  name = 98 ∷ 111 ∷ 111 ∷ 116 ∷ replicate 32 0;
}

pub boot_entry-IsEntry : IsEntry boot_entry
boot_entry-IsEntry = record {
  partition_type_guid = record {
    data1 = omega arith;
    data2 = omega arith;
    data3 = omega arith;
    data4 = refl;
  };
  unique_partition_guid = record {
    data1 = omega arith;
    data2 = omega arith;
    data3 = omega arith;
    data4 = refl;
  };
  first_lba = omega arith;
  last_lba = omega arith;
  attributes = omega arith;
  name_length = refl;
  name_units = omega arith;
}

abbrev two_entries : List PartitionEntry
two_entries = boot_entry ∷ record boot_entry { first_lba = 101; last_lba = 200 } ∷ []

two_entries-IsEntry : All IsEntry two_entries
two_entries-IsEntry =
    let u = boot_entry-IsEntry in
    (
      u,
      (
        record {
          partition_type_guid = u.partition_type_guid;
          unique_partition_guid = u.unique_partition_guid;
          first_lba = omega arith;
          last_lba = omega arith;
          attributes = omega arith;
          name_length = refl;
          name_units = u.name_units;
        },
        tt,
      ),
    )

read_entries-serialize_entries_example :
    (buf : ByteBuffer) × (serialize_entries two_entries 2 128 ≡ ok buf)
    × (length buf ≡ 2 * 128)
    × (read_entries buf 2 128 ≡ ok two_entries)
read_entries-serialize_entries_example =
    read_entries-serialize_entries two_entries 128 two_entries-IsEntry (omega arith) (omega arith)
