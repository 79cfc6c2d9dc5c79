-- ===== src/Examples/Partitions.antt =====
-- A manager whose table has one partition, over a device that notes where it is written.
use mboot_core.Prelude.{ℕ, ◌*◌, ◌≡◌, refl, ap, arith, true, none, List, [], ◌∷◌, ◌++◌}
use mboot_core.Domain.{ok, ByteBuffer}
use mboot_core.Gpt.Entries.{PartitionEntry}
use mboot_core.Gpt.Names.{name_to_string, utf16_to_utf8}
use mboot_core.Gpt.Parser.{GptParser, no_table}
use mboot_core.Gpt.Manager.{
  ManagedDevice, PartitionManager, size_in_bytes, entry_to_info, find_by_name, write_partition,
}
use mboot_core.Gpt.Manager.Confined.{Confined, write_partition-Confined}
use mboot_core.Examples.Gpt.{boot_entry, byte_sum}

abbrev noting : ManagedDevice (List ℕ)
noting = record {
  open_device = λ w. (w, ok tt);
  view = λ w. record { storage_info = none; read_memory = λ a n. none };
  write_memory = λ a bytes w. (a ∷ w, ok tt);
  erase_memory = λ a n w. (w, ok tt);
}

abbrev layout : GptParser
layout = record {
  sector_size = 512;
  total_sectors = 1000;
  first_usable_lba = 34;
  last_usable_lba = 0;
  backup_entries_lba = 0;
  backup_header_lba = 0;
  has_valid_mbr = true;
}

abbrev manager : PartitionManager (List ℕ)
manager = record {
  world = [];
  parser = layout;
  layout = layout;
  table = record no_table { entries = boot_entry ∷ [] };
  is_open = true;
}

-- "boot".
abbrev boot : ByteBuffer
boot = 98 ∷ 111 ∷ 111 ∷ 116 ∷ []

only_entry :
    (earlier later : List PartitionEntry) (e : PartitionEntry)
    → boot_entry ∷ [] ≡ earlier ++ e ∷ later
    → e ≡ boot_entry
only_entry [] later e h = cc
only_entry (x ∷ []) later e h = absurd (cc)
only_entry (x ∷ y ∷ earlier) later e h = absurd (cc)

write_partition-Confined_example :
    Confined byte_sum noting boot
      (1 ∷ 2 ∷ 3 ∷ [])
      manager
      (write_partition byte_sum noting boot (1 ∷ 2 ∷ 3 ∷ []) manager).0.world
unfolding find_by_name
write_partition-Confined_example =
    write_partition-Confined byte_sum noting boot (1 ∷ 2 ∷ 3 ∷ []) manager (omega arith) (λ e n.
      let same = only_entry n.earlier n.later e n.listed in
      let first : e.first_lba ≡ 34 = ap (λ (x : PartitionEntry). x.first_lba) same in
      omega (arith, first))

-- The bytes go to sector 34.
written_at : (write_partition byte_sum noting boot (1 ∷ 2 ∷ 3 ∷ []) manager).0.world ≡ 34 * 512 ∷ []
unfolding write_partition name_to_string entry_to_info
written_at = refl

-- A partition of one sector has no bytes.
one_sector : size_in_bytes (record boot_entry { last_lba = 34 }) ≡ 0
unfolding size_in_bytes
one_sector = refl

-- "é" and a surrogate pair.
texts : utf16_to_utf8 (233 ∷ 55357 ∷ 56832 ∷ []) ≡ 195 ∷ 169 ∷ 240 ∷ 159 ∷ 152 ∷ 128 ∷ []
unfolding utf16_to_utf8
texts = refl
