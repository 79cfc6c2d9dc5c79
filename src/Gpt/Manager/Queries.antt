-- ===== src/Gpt/Manager/Queries.antt =====
-- The other operations of lib/src/gpt/PartitionManager.cpp that do not repair a table.
use mboot_core.Prelude.{
  ℕ, suc, Bool, true, false, ◌&&◌, ◌==◌, if◌then◌else◌, Option, none, some, List, [], ◌∷◌,
}
use mboot_core.Domain.{Result, ok, err, stuck, ByteBuffer, partition_not_found}
use mboot_core.Bytes.{byte}
use mboot_core.Gpt.Header.{Guid}
use mboot_core.Gpt.Entries.{PartitionEntry}
use mboot_core.Gpt.Parser.{GptParser}
use mboot_core.Gpt.Manager.{
  ManagedDevice, PartitionManager, PartitionInfo, is_used, same, entry_to_info, reload,
  refresh_table, find_by_name, read_partition, write_partition, erase_partition,
}

unfoldable pub same_guid : Guid → Guid → Bool
same_guid g h =
    g.data1 == h.data1
    && g.data2 == h.data2
    && g.data3 == h.data3
    && byte g.data4 0 == byte h.data4 0
    && byte g.data4 1 == byte h.data4 1
    && byte g.data4 2 == byte h.data4 2
    && byte g.data4 3 == byte h.data4 3
    && byte g.data4 4 == byte h.data4 4
    && byte g.data4 5 == byte h.data4 5
    && byte g.data4 6 == byte h.data4 6
    && byte g.data4 7 == byte h.data4 7

unfoldable pub list_used : GptParser → List PartitionEntry → List PartitionInfo
unfolding is_used
list_used g [] = []
list_used g (e ∷ es) =
    let rest = list_used g es in if is_used e then entry_to_info g e ∷ rest else rest

unfoldable pub used_entry_count : List PartitionEntry → ℕ
unfolding is_used
used_entry_count [] = 0
used_entry_count (e ∷ es) = let rest = used_entry_count es in if is_used e then suc rest else rest

unfoldable pub search_guid : GptParser → Guid → List PartitionEntry → Result PartitionInfo
unfolding is_used same_guid
search_guid g guid [] = err partition_not_found
search_guid g guid (e ∷ es) =
    let rest = search_guid g guid es in
    if is_used e && same_guid e.unique_partition_guid guid then ok (entry_to_info g e) else rest

-- Entries that are not used are not passed over.
unfoldable pub matches_of : GptParser → Guid → List PartitionEntry → List PartitionInfo
unfolding same_guid
matches_of g guid [] = []
matches_of g guid (e ∷ es) =
    let rest = matches_of g guid es in
    if same_guid e.partition_type_guid guid then entry_to_info g e ∷ rest else rest

module _ {W : Type 0} (crc32 : ByteBuffer → ℕ) (device : ManagedDevice W) where
  unfoldable pub open_manager : PartitionManager W → PartitionManager W × Result (Unit {0})
  open_manager m =
      let (w, r) = device.open_device m.world in
      elim r [
        | ok _ ↦ reload crc32 device (record m { world = w; is_open = true })
        | err e ↦ (record m { world = w }, err e)
        | stuck f ↦ (record m { world = w }, stuck f)
      ]

  -- A question to the entries, read when there are none.
  abbrev pub answered :
      {A : Type 0}
      → (PartitionManager W → Result A)
      → PartitionManager W × Result (Unit {0})
      → PartitionManager W × Result A
  answered ask (q, ok _) = (q, ask q)
  answered ask (q, err e) = (q, err e)
  answered ask (q, stuck f) = (q, stuck f)

  abbrev pub loaded :
      PartitionManager W → List PartitionEntry → PartitionManager W × Result (Unit {0})
  loaded m [] = refresh_table crc32 device m
  loaded m (e ∷ es) = (m, ok tt)

  unfoldable pub list_partitions :
      PartitionManager W → PartitionManager W × Result (List PartitionInfo)
  unfolding list_used
  list_partitions m =
      answered (λ q. ok (list_used q.layout q.table.entries)) (loaded m m.table.entries)

  unfoldable pub find_by_guid :
      Guid → PartitionManager W → PartitionManager W × Result PartitionInfo
  unfolding search_guid
  find_by_guid guid m =
      answered (λ q. search_guid q.layout guid q.table.entries) (loaded m m.table.entries)

  unfoldable pub find_by_type :
      Guid → PartitionManager W → PartitionManager W × Result (List PartitionInfo)
  unfolding matches_of
  find_by_type guid m =
      answered (λ q. ok (matches_of q.layout guid q.table.entries)) (loaded m m.table.entries)

  unfoldable pub exists : ByteBuffer → PartitionManager W → PartitionManager W × Result Bool
  exists name m =
      let (q, r) = find_by_name crc32 device name m in
      (q, elim r [ ok _ ↦ ok true | err e ↦ ok false | stuck f ↦ stuck f ])

  unfoldable pub partition_count : PartitionManager W → ℕ
  unfolding used_entry_count
  partition_count m = used_entry_count m.table.entries

  unfoldable pub trim_partition :
      ByteBuffer → PartitionManager W → PartitionManager W × Result (Unit {0})
  unfolding erase_partition
  trim_partition name m = erase_partition crc32 device name m

  unfoldable pub restore_partition :
      ByteBuffer → ByteBuffer → PartitionManager W → PartitionManager W × Result (Unit {0})
  unfolding write_partition
  restore_partition name bytes m = write_partition crc32 device name bytes m

  -- `none` is an error of the device when the partition is read.
  unfoldable pub verify_partition :
      ByteBuffer → ByteBuffer → PartitionManager W → PartitionManager W × Result (Option Bool)
  unfolding read_partition same
  verify_partition name expected m =
      let (q, r) = read_partition crc32 device name m in
      elim r [
        | ok d ↦ (q, ok (elim d [ none ↦ none | some actual ↦ some (same actual expected) ]))
        | err e ↦ (q, err e)
        | stuck f ↦ (q, stuck f)
      ]
