-- ===== src/Gpt/Entries/Reads.antt =====
-- Reading one entry where it was written.
use native.Mathlib.Nat.{add_assoc}
use mboot_core.Prelude.{
  ℕ, zero, suc, ◌+◌, ◌≤◌, ◌≡◌, refl, ap, ◌∙◌, arith, false, leb, List, [], ◌∷◌, ◌++◌, All, length,
  length-append, append_assoc,
}
use mboot_core.Domain.{ByteBuffer}
use mboot_core.Bytes.{IsU16, IsU32, IsU64, le16, le32, le64, get16, get32, get64}
use mboot_core.Bytes.Laws.{
  byte-append, get16-append, get32-append, get64-append, get16-le16, get32-le32, get64-le64,
}
use mboot_core.Gpt.Header.{Guid}
use mboot_core.Gpt.Header.RoundTrip.{array_of_eight}
use mboot_core.Gpt.Entries.{
  PartitionEntry, name_bytes, fixed_bytes, entry_bytes, get16_or, get32_or, get64_or, read_array8,
  read_name, read_entry,
}

pub record IsGuid (g : Guid) : Type 0 where
  pub data1 : IsU32 g.data1
  pub data2 : IsU16 g.data2
  pub data3 : IsU16 g.data3
  pub data4 : length g.data4 ≡ 8

-- Every field fits its type.
pub record IsEntry (e : PartitionEntry) : Type 0 where
  pub partition_type_guid : IsGuid e.partition_type_guid
  pub unique_partition_guid : IsGuid e.unique_partition_guid
  pub first_lba : IsU64 e.first_lba
  pub last_lba : IsU64 e.last_lba
  pub attributes : IsU64 e.attributes
  pub name_length : length e.name ≡ 36
  pub name_units : All IsU16 e.name

-- Within the buffer, the tests of the index do not matter.
get16_or-inside :
    (buf : ByteBuffer) (off : ℕ) → off + 2 ≤ length buf → get16_or buf off ≡ get16 buf off
unfolding get16_or
get16_or-inside buf off b = let t : leb (length buf) (off + 1) ≡ false = ground arith in rw t refl

get32_or-inside :
    (buf : ByteBuffer) (off : ℕ) → off + 4 ≤ length buf → get32_or buf off ≡ get32 buf off
unfolding get32_or
get32_or-inside buf off b = let t : leb (length buf) (off + 3) ≡ false = ground arith in rw t refl

get64_or-inside :
    (buf : ByteBuffer) (off : ℕ) → off + 8 ≤ length buf → get64_or buf off ≡ get64 buf off
unfolding get64_or
get64_or-inside buf off b = let t : leb (length buf) (off + 7) ≡ false = ground arith in rw t refl

name_bytes-length : (cs : List ℕ) → length (name_bytes cs) ≡ length cs + length cs
unfolding le16
name_bytes-length [] = omega arith
name_bytes-length (c ∷ cs) = omega (arith, name_bytes-length cs)

pub entry_bytes-length : (e : PartitionEntry) → IsEntry e → length (entry_bytes e) ≡ 128
unfolding entry_bytes
entry_bytes-length e v = omega (arith, name_bytes-length e.name, v.name_length)

-- A field that stands at an offset of what follows.
get16_or-at :
    (before ys : ByteBuffer) (k : ℕ) {v : ℕ}
    → k + 2 ≤ length ys
    → get16 ys k ≡ v
    → get16_or (before ++ ys) (length before + k) ≡ v
get16_or-at before ys k b e =
    get16_or-inside (before ++ ys) (length before + k) (omega (arith, length-append before ys))
    ∙ get16-append before ys k
    ∙ e

get32_or-at :
    (before ys : ByteBuffer) (k : ℕ) {v : ℕ}
    → k + 4 ≤ length ys
    → get32 ys k ≡ v
    → get32_or (before ++ ys) (length before + k) ≡ v
get32_or-at before ys k b e =
    get32_or-inside (before ++ ys) (length before + k) (omega (arith, length-append before ys))
    ∙ get32-append before ys k
    ∙ e

get64_or-at :
    (before ys : ByteBuffer) (k : ℕ) {v : ℕ}
    → k + 8 ≤ length ys
    → get64 ys k ≡ v
    → get64_or (before ++ ys) (length before + k) ≡ v
get64_or-at before ys k b e =
    get64_or-inside (before ++ ys) (length before + k) (omega (arith, length-append before ys))
    ∙ get64-append before ys k
    ∙ e

read_array8-at :
    (before ys : ByteBuffer) (k : ℕ)
    → read_array8 (before ++ ys) (length before + k) ≡ read_array8 ys k
read_array8-at before ys k = simp (add_assoc, byte-append before ys)

read_name-name_bytes :
    (n : ℕ) (cs : List ℕ) (before rest : ByteBuffer) (off : ℕ)
    → length cs ≡ n
    → off ≡ length before
    → All IsU16 cs
    → read_name n (before ++ (name_bytes cs ++ rest)) off ≡ cs
unfolding read_name le16
read_name-name_bytes zero [] before rest off m e a = refl
read_name-name_bytes (suc n) [] before rest off m e a = absurd (omega arith)
read_name-name_bytes zero (c ∷ cs) before rest off m e a = absurd (omega arith)
read_name-name_bytes (suc n) (c ∷ cs) before rest off m e a =
    let buf = before ++ (name_bytes (c ∷ cs) ++ rest) in
    let here : get16_or buf off ≡ c =
      ap (get16_or buf) (omega arith)
      ∙ get16_or-at before (name_bytes (c ∷ cs) ++ rest) 0 (unfold le16 in omega arith)
          (unfold le16 in get16-le16 c (name_bytes cs ++ rest) a.0) in
    let there : read_name n buf (off + 2) ≡ cs =
      rw (← append_assoc before (le16 c) (name_bytes cs ++ rest)) (
        read_name-name_bytes n cs (before ++ le16 c) rest (off + 2) (omega arith)
          (unfold le16 in omega (arith, length-append before (le16 c))) a.1) in
    λ i. here i ∷ there i

-- The fields of an entry, in what follows its offset.
record StandsIn (e : PartitionEntry) (ys : ByteBuffer) : Type 0 where
  long : 128 ≤ length ys
  data1 : get32 ys 0 ≡ e.partition_type_guid.data1
  data2 : get16 ys 4 ≡ e.partition_type_guid.data2
  data3 : get16 ys 6 ≡ e.partition_type_guid.data3
  data4 : read_array8 ys 8 ≡ e.partition_type_guid.data4
  unique1 : get32 ys 16 ≡ e.unique_partition_guid.data1
  unique2 : get16 ys 20 ≡ e.unique_partition_guid.data2
  unique3 : get16 ys 22 ≡ e.unique_partition_guid.data3
  unique4 : read_array8 ys 24 ≡ e.unique_partition_guid.data4
  first_lba : get64 ys 32 ≡ e.first_lba
  last_lba : get64 ys 40 ≡ e.last_lba
  attributes : get64 ys 48 ≡ e.attributes

entry_bytes-StandsIn :
    (e : PartitionEntry) (rest : ByteBuffer) → IsEntry e → StandsIn e (entry_bytes e ++ rest)
unfolding entry_bytes le16 le32 le64 get16 get32 get64
entry_bytes-StandsIn e rest v =
    let t = v.partition_type_guid in
    let u = v.unique_partition_guid in
    record {
      long = omega (arith, length-append (entry_bytes e) rest, entry_bytes-length e v);
      data1 = get32-le32 e.partition_type_guid.data1 rest t.data1;
      data2 = get16-le16 e.partition_type_guid.data2 rest t.data2;
      data3 = get16-le16 e.partition_type_guid.data3 rest t.data3;
      data4 = array_of_eight e.partition_type_guid.data4 t.data4;
      unique1 = get32-le32 e.unique_partition_guid.data1 rest u.data1;
      unique2 = get16-le16 e.unique_partition_guid.data2 rest u.data2;
      unique3 = get16-le16 e.unique_partition_guid.data3 rest u.data3;
      unique4 = array_of_eight e.unique_partition_guid.data4 u.data4;
      first_lba = get64-le64 e.first_lba rest v.first_lba;
      last_lba = get64-le64 e.last_lba rest v.last_lba;
      attributes = get64-le64 e.attributes rest v.attributes;
    }

read_name-entry_bytes :
    (before : ByteBuffer) (e : PartitionEntry) (rest : ByteBuffer)
    → IsEntry e
    → read_name 36 (before ++ (entry_bytes e ++ rest)) (length before + 56) ≡ e.name
unfolding entry_bytes
read_name-entry_bytes before e rest v =
    rw
      (
        append_assoc (fixed_bytes e) (name_bytes e.name) rest,
        ← append_assoc before (fixed_bytes e) (name_bytes e.name ++ rest),
      )
      (read_name-name_bytes 36 e.name (before ++ fixed_bytes e) rest (length before + 56)
        v.name_length (unfold le16 le32 le64 in omega (arith, length-append before (fixed_bytes e)))
        v.name_units)

-- An entry that stands in a buffer is read back.
pub read_entry-entry_bytes :
    (before : ByteBuffer) (e : PartitionEntry) (rest : ByteBuffer)
    → IsEntry e
    → read_entry (before ++ (entry_bytes e ++ rest)) (length before) ≡ e
unfolding read_entry
read_entry-entry_bytes before e rest v =
    let ys = entry_bytes e ++ rest in
    let f = entry_bytes-StandsIn e rest v in
    let n : 128 ≤ length ys = f.long in
    let start : length before ≡ length before + 0 = omega arith in
    λ i. record {
      partition_type_guid = record {
        data1 =
            (ap (get32_or (before ++ ys)) start ∙ get32_or-at before ys 0 (omega arith) f.data1) i;
        data2 = get16_or-at before ys 4 (omega arith) f.data2 i;
        data3 = get16_or-at before ys 6 (omega arith) f.data3 i;
        data4 = (read_array8-at before ys 8 ∙ f.data4) i;
      };
      unique_partition_guid = record {
        data1 = get32_or-at before ys 16 (omega arith) f.unique1 i;
        data2 = get16_or-at before ys 20 (omega arith) f.unique2 i;
        data3 = get16_or-at before ys 22 (omega arith) f.unique3 i;
        data4 = (read_array8-at before ys 24 ∙ f.unique4) i;
      };
      first_lba = get64_or-at before ys 32 (omega arith) f.first_lba i;
      last_lba = get64_or-at before ys 40 (omega arith) f.last_lba i;
      attributes = get64_or-at before ys 48 (omega arith) f.attributes i;
      name = read_name-entry_bytes before e rest v i;
    }
