-- ===== src/Gpt/Manager.antt =====
-- lib/src/gpt/PartitionManager.cpp over a device whose reads leave it as it is: `view` is what can be
-- read of it. `layout` is `m_layout`, a copy of the parser's. A name is the list of its bytes.
pub mod Confined
pub mod Queries
pub mod Recover
use mboot_core.Prelude.{
  ℕ, ◌+◌, ◌-◌, ◌*◌, ◌/◌, ◌%◌, ◌^◌, Bool, true, false, ◌&&◌, not, ltb, leb, ◌==◌, if◌then◌else◌,
  Option, none, some, List, [], ◌∷◌, length,
}
use mboot_core.Domain.{Result, ok, err, stuck, ByteBuffer, partition_not_found, image_too_large}
use mboot_core.Bytes.{byte}
use mboot_core.Gpt.Arithmetic.{safe_mul}
use mboot_core.Gpt.Header.{Guid}
use mboot_core.Gpt.Entries.{PartitionEntry}
use mboot_core.Gpt.Names.{name_to_string}
use mboot_core.Gpt.Parser.{FlashDevice, GptParser, GptTable}
use mboot_core.Gpt.Parser.Whole.{parse_both}

pub record ManagedDevice (W : Type 0) : Type 0 where
  pub open_device : W → W × Result (Unit {0})
  pub view : W → FlashDevice
  pub write_memory : ℕ → ByteBuffer → W → W × Result (Unit {0})
  pub erase_memory : ℕ → ℕ → W → W × Result (Unit {0})

pub record PartitionManager (W : Type 0) : Type 0 where
  pub world : W
  pub parser : GptParser
  pub layout : GptParser
  pub table : GptTable
  pub is_open : Bool

pub record PartitionInfo : Type 0 where
  pub name : ByteBuffer
  pub first_lba : ℕ
  pub last_lba : ℕ
  pub byte_offset : ℕ
  pub byte_length : ℕ
  pub attributes : ℕ
  pub used : Bool

unfoldable pub is_null : Guid → Bool
is_null g =
    g.data1 == 0
    && g.data2 == 0
    && g.data3 == 0
    && byte g.data4 0 == 0
    && byte g.data4 1 == 0
    && byte g.data4 2 == 0
    && byte g.data4 3 == 0
    && byte g.data4 4 == 0
    && byte g.data4 5 == 0
    && byte g.data4 6 == 0
    && byte g.data4 7 == 0

unfoldable pub is_used : PartitionEntry → Bool
unfolding is_null
is_used e = not (is_null e.partition_type_guid)

-- 0 also for a partition of one sector.
unfoldable pub size_in_lbas : PartitionEntry → ℕ
size_in_lbas e = if leb e.last_lba e.first_lba then 0 else (e.last_lba - e.first_lba + 1) % 2 ^ 64

-- The sectors are taken to be of 512 bytes.
unfoldable pub size_in_bytes : PartitionEntry → ℕ
unfolding size_in_lbas
size_in_bytes e = if ltb ((2 ^ 64 - 1) / 512) (size_in_lbas e) then 0 else size_in_lbas e * 512

unfoldable pub byte_offset_of : GptParser → PartitionEntry → ℕ
unfolding safe_mul
byte_offset_of g e = elim (safe_mul e.first_lba g.sector_size) [ none ↦ 0 | some o ↦ o ]

unfoldable pub entry_to_info : GptParser → PartitionEntry → PartitionInfo
unfolding byte_offset_of size_in_bytes is_used
entry_to_info g e = record {
  name = name_to_string e;
  first_lba = e.first_lba;
  last_lba = e.last_lba;
  byte_offset = byte_offset_of g e;
  byte_length = size_in_bytes e;
  attributes = e.attributes;
  used = is_used e;
}

-- The comparison of two texts.
unfoldable pub same : ByteBuffer → ByteBuffer → Bool
same [] [] = true
same [] (y ∷ ys) = false
same (x ∷ xs) [] = false
same (x ∷ xs) (y ∷ ys) = (x == y) && same xs ys

unfoldable pub search_name : GptParser → ByteBuffer → List PartitionEntry → Result PartitionInfo
unfolding is_used same
search_name g name [] = err partition_not_found
search_name g name (e ∷ es) =
    let rest = search_name g name es in
    if is_used e && same (name_to_string e) name then ok (entry_to_info g e) else rest

module _ {W : Type 0} (crc32 : ByteBuffer → ℕ) (device : ManagedDevice W) where
  -- `refreshTable` once the device is open.
  unfoldable pub reload : PartitionManager W → PartitionManager W × Result (Unit {0})
  reload m =
      let (g, r) = parse_both crc32 (device.view m.world) m.parser in
      elim r [
        | ok p ↦ (
          record m { parser = g; layout = g; table = p.table },
          elim p.errors [ [] ↦ ok tt | e ∷ es ↦ err e ],
        )
        | err e ↦ (record m { parser = g }, err e)
        | stuck f ↦ (record m { parser = g }, stuck f)
      ]

  unfoldable pub refresh_table : PartitionManager W → PartitionManager W × Result (Unit {0})
  unfolding reload
  refresh_table m =
      if m.is_open
      then reload m
      else (let (w, r) = device.open_device m.world in
          elim r [
            | ok _ ↦ reload (record m { world = w; is_open = true })
            | err e ↦ (record m { world = w }, err e)
            | stuck f ↦ (record m { world = w }, stuck f)
          ])

  -- The search, once there is a table.
  abbrev pub searched :
      ByteBuffer
      → PartitionManager W × Result (Unit {0})
      → PartitionManager W × Result PartitionInfo
  searched name (q, ok _) = (q, search_name q.layout name q.table.entries)
  searched name (q, err e) = (q, err e)
  searched name (q, stuck f) = (q, stuck f)

  -- The table is read when there are no entries.
  unfoldable pub look_up :
      ByteBuffer
      → PartitionManager W
      → List PartitionEntry
      → PartitionManager W × Result PartitionInfo
  unfolding refresh_table search_name
  look_up name m [] = searched name (refresh_table m)
  look_up name m (e ∷ es) = searched name (m, ok tt)

  unfoldable pub find_by_name :
      ByteBuffer → PartitionManager W → PartitionManager W × Result PartitionInfo
  unfolding look_up
  find_by_name name m = look_up name m m.table.entries

  -- A call of the device with what was found.
  abbrev pub on_partition :
      {A : Type 0}
      → (PartitionInfo → W → W × Result A)
      → PartitionManager W × Result PartitionInfo
      → PartitionManager W × Result A
  on_partition call (m, ok info) = let (w, r) = call info m.world in (record m { world = w }, r)
  on_partition call (m, err e) = (m, err e)
  on_partition call (m, stuck f) = (m, stuck f)

  -- `none` is an error of the device, whose code the view does not keep.
  unfoldable pub read_partition :
      ByteBuffer → PartitionManager W → PartitionManager W × Result (Option ByteBuffer)
  unfolding find_by_name
  read_partition name m =
      on_partition
        (λ info w. (w, ok ((device.view w).read_memory info.byte_offset info.byte_length)))
        (find_by_name name m)

  unfoldable pub write_partition :
      ByteBuffer → ByteBuffer → PartitionManager W → PartitionManager W × Result (Unit {0})
  unfolding find_by_name
  write_partition name bytes m =
      on_partition
        (λ info w.
          if ltb info.byte_length (length bytes)
          then (w, err image_too_large)
          else device.write_memory info.byte_offset bytes w)
        (find_by_name name m)

  unfoldable pub erase_partition :
      ByteBuffer → PartitionManager W → PartitionManager W × Result (Unit {0})
  unfolding find_by_name
  erase_partition name m =
      on_partition (λ info w. device.erase_memory info.byte_offset info.byte_length w)
        (find_by_name name m)
