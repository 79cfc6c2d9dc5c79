-- ===== src/Gpt/Manager/Confined.antt =====
-- What writing to a partition does to the device.
use native.Mathlib.Nat.{mul-le-mul, add-mul}
use mboot_core.Prelude.{
  ℕ, ◌+◌, ◌-◌, ◌*◌, ◌^◌, ◌≤◌, ◌<◌, ◌≡◌, refl, ap, sym, ◌∙◌, ◌⊎◌, inl, inr, arith, true, ◌&&◌, ltb,
  ◌==◌, ==_iff, List, [], ◌∷◌, ◌++◌, length, if◌then◌else◌, Bool-cases, and-eq_true, first_branch,
  second_branch, ltb→lt, Option, none, some,
}
use mboot_core.Domain.{Result, ok, err, stuck, image_too_large, ByteBuffer}
use mboot_core.Gpt.Arithmetic.{safe_mul}
use mboot_core.Gpt.Arithmetic.Bounds.{safe_mul_iff}
use mboot_core.Gpt.Entries.{PartitionEntry}
use mboot_core.Gpt.Names.{name_to_string}
use mboot_core.Gpt.Parser.{GptParser}
use mboot_core.Gpt.Manager.{
  ManagedDevice, PartitionManager, PartitionInfo, is_used, size_in_lbas, size_in_bytes,
  byte_offset_of, entry_to_info, same, search_name, searched, on_partition, look_up, refresh_table,
  find_by_name, write_partition,
}

-- A partition that is used and has the name.
pub record IsNamed (name : ByteBuffer) (es : List PartitionEntry) (e : PartitionEntry)
    : Type 0 where
  pub earlier : List PartitionEntry
  pub later : List PartitionEntry
  pub listed : es ≡ earlier ++ e ∷ later
  pub used : is_used e ≡ true
  pub named : name_to_string e ≡ name

same-eq : (xs ys : ByteBuffer) → same xs ys ≡ true → xs ≡ ys
unfolding same
same-eq [] [] h = refl
same-eq [] (y ∷ ys) h = absurd (cc)
same-eq (x ∷ xs) [] h = absurd (cc)
same-eq (x ∷ xs) (y ∷ ys) h =
    let (a, b) = and-eq_true (x == y) (same xs ys) h in
    let first : x ≡ y = (==_iff x y).0 a in let others = same-eq xs ys b in cc

ok-injective : {A : Type 0} {x y : A} → ok x ≡ ok y → x ≡ y
ok-injective {A} {x} {y} h = cc

search_name-IsNamed :
    (g : GptParser) (name : ByteBuffer) (es : List PartitionEntry) {info : PartitionInfo}
    → search_name g name es ≡ ok info
    → (e : PartitionEntry) × IsNamed name es e × (info ≡ entry_to_info g e)
unfolding search_name
search_name-IsNamed g name [] h = absurd (cc)
search_name-IsNamed g name (e ∷ es) {info} h =
    elim (Bool-cases (is_used e && same (name_to_string e) name)) [
      | inl hit ↦
          let (u, n) = and-eq_true (is_used e) (same (name_to_string e) name) hit in
          let eq : ok (entry_to_info g e) ≡ ok info =
            sym (ap (λ b. if b then ok (entry_to_info g e) else search_name g name es) hit) ∙ h in
          (
            e,
            record {
              earlier = [];
              later = es;
              listed = refl;
              used = u;
              named = same-eq (name_to_string e) name n;
            },
            sym (ok-injective eq),
          )
      | inr miss ↦
          let eq : search_name g name es ≡ ok info =
            sym (ap (λ b. if b then ok (entry_to_info g e) else search_name g name es) miss) ∙ h in
          let (f, n, i) = search_name-IsNamed g name es eq in
          (
            f,
            record {
              earlier = e ∷ n.earlier;
              later = n.later;
              listed = ap (λ fs. e ∷ fs) n.listed;
              used = n.used;
              named = n.named;
            },
            i,
          )
    ]

size_in_lbas-between :
    (e : PartitionEntry)
    → 0 < size_in_lbas e
    → (e.first_lba ≤ e.last_lba) × (size_in_lbas e ≤ e.last_lba - e.first_lba + 1)
unfolding size_in_lbas
size_in_lbas-between e h = ground arith

size_in_bytes-sectors :
    (e : PartitionEntry)
    → 0 < size_in_bytes e
    → (0 < size_in_lbas e) × (size_in_bytes e ≤ size_in_lbas e * 512)
unfolding size_in_bytes
size_in_bytes-sectors e h = ground arith

-- The bytes of a partition end where its last sector does, or before.
size_in_bytes-inside :
    (e : PartitionEntry) (sector n : ℕ)
    → 512 ≤ sector
    → 0 < n
    → n ≤ size_in_bytes e
    → e.first_lba * sector + n ≤ (e.last_lba + 1) * sector
size_in_bytes-inside e sector n large some_bytes fits =
    let (used, bytes) = size_in_bytes-sectors e (omega (arith, some_bytes, fits)) in
    let (ordered, sectors) = size_in_lbas-between e used in
    let count = e.last_lba - e.first_lba + 1 in
    let most : size_in_lbas e * 512 ≤ count * sector =
      mul-le-mul {n₁ = size_in_lbas e} {m₁ = 512} {n₂ = count} {m₂ = sector} sectors large in
    let whole : e.first_lba + count ≡ e.last_lba + 1 = omega (arith, ordered) in
    let split = add-mul e.first_lba count sector in
    let end : (e.last_lba + 1) * sector ≡ e.first_lba * sector + count * sector =
      ap (λ x. x * sector) (sym whole) ∙ split in
    omega (arith, end, most, bytes, fits)

module _ {W : Type 0} (crc32 : ByteBuffer → ℕ) (device : ManagedDevice W)
    (name bytes : ByteBuffer) where
  -- What writing does to the world of the manager `q`, whose table was searched: nothing, or one call
  -- of the device that writes the bytes at the first sector of a used partition of that name, and not
  -- beyond its last sector.
  abbrev pub Confined : PartitionManager W → W → Type 0
  Confined q w =
      (w ≡ q.world)
      ⊎ ((e : PartitionEntry) × IsNamed name q.table.entries e
          × (w ≡ (device.write_memory (e.first_lba * q.layout.sector_size) bytes q.world).0)
          × ((length bytes ≡ 0)
              ⊎ (e.first_lba * q.layout.sector_size + length bytes
                  ≤ (e.last_lba + 1) * q.layout.sector_size)))

  -- The first sectors of the partitions of that name have addresses of 64 bits.
  abbrev pub Addressed : PartitionManager W → Type 0
  Addressed q =
      (e : PartitionEntry)
      → IsNamed name q.table.entries e
      → e.first_lba * q.layout.sector_size < 2 ^ 64

  searched-search :
      (p : PartitionManager W × Result (Unit {0})) {info : PartitionInfo}
      → (searched crc32 device name p).1 ≡ ok info
      → search_name
          (searched crc32 device name p).0.layout
          name
          (searched crc32 device name p).0.table.entries
        ≡ ok info
  searched-search (q, ok _) h = h
  searched-search (q, err e) h = absurd (cc)
  searched-search (q, stuck f) h = absurd (cc)

  look_up-search :
      (m : PartitionManager W) (es : List PartitionEntry) {info : PartitionInfo}
      → (look_up crc32 device name m es).1 ≡ ok info
      → search_name
          (look_up crc32 device name m es).0.layout
          name
          (look_up crc32 device name m es).0.table.entries
        ≡ ok info
  unfolding look_up
  look_up-search m [] h = searched-search (refresh_table crc32 device m) h
  look_up-search m (e ∷ es) h = h

  write_found :
      (q : PartitionManager W) (info : PartitionInfo)
      → 512 ≤ q.layout.sector_size
      → Addressed q
      → search_name q.layout name q.table.entries ≡ ok info
      → Confined q
          (if ltb info.byte_length (length bytes)
            then (q.world, err image_too_large)
            else device.write_memory info.byte_offset bytes q.world).0
  unfolding entry_to_info byte_offset_of
  write_found q info large reach h =
      let (e, n, i) = search_name-IsNamed q.layout name q.table.entries h in
      let sector = q.layout.sector_size in
      let product : safe_mul e.first_lba sector ≡ some (e.first_lba * sector) =
        (safe_mul_iff e.first_lba sector (e.first_lba * sector)).1 (refl, reach e n) in
      let offset : info.byte_offset ≡ e.first_lba * sector =
        ap (λ (x : PartitionInfo). x.byte_offset) i
        ∙ ap (λ (o : Option ℕ). elim o as (λ _. ℕ) [ none ↦ 0 | some x ↦ x ]) product in
      let size : info.byte_length ≡ size_in_bytes e = ap (λ (x : PartitionInfo). x.byte_length) i in
      let P = λ (o : W × Result (Unit {0})). Confined q o.0 in
      elim (Bool-cases (ltb info.byte_length (length bytes))) [
        | inl beyond ↦ first_branch P _ _ _ beyond (inl refl)
        | inr small ↦
            let fits : length bytes ≤ info.byte_length = ground (arith, small) in
            let inside : (length bytes ≡ 0)
                ⊎ (e.first_lba * sector + length bytes ≤ (e.last_lba + 1) * sector) =
              elim (Bool-cases (ltb 0 (length bytes))) [
                | inl more ↦ inr (
                    size_in_bytes-inside e sector (length bytes) large (ltb→lt _ _ more)
                      (omega (arith, fits, size)))
                | inr nothing ↦ inl (ground (arith, nothing))
              ] in
            second_branch P _ _ _ small
              (inr (e, n, ap (λ x. (device.write_memory x bytes q.world).0) offset, inside))
      ]

  written :
      (p : PartitionManager W × Result PartitionInfo)
      → ((info : PartitionInfo)
          → p.1 ≡ ok info
          → search_name p.0.layout name p.0.table.entries ≡ ok info)
      → 512 ≤ p.0.layout.sector_size
      → Addressed p.0
      → Confined p.0
          (on_partition crc32 device
            (λ info w.
              if ltb info.byte_length (length bytes)
              then (w, err image_too_large)
              else device.write_memory info.byte_offset bytes w)
            p).0.world
  written (q, ok info) known large reach = write_found q info large reach (known info refl)
  written (q, err e) known large reach = inl refl
  written (q, stuck f) known large reach = inl refl

  -- Let `q` be the manager after the search for the name: its table read anew if it held no entries. If
  -- its sectors have 512 bytes or more, and the used partitions of that name begin at addresses of 64
  -- bits, then writing to the partition leaves the device as the search left it, or does one thing: it
  -- writes the bytes at the first sector of a used partition of that name, and not beyond its last.
  pub write_partition-Confined :
      (m : PartitionManager W)
      → 512 ≤ (find_by_name crc32 device name m).0.layout.sector_size
      → Addressed (find_by_name crc32 device name m).0
      → Confined
          (find_by_name crc32 device name m).0
          (write_partition crc32 device name bytes m).0.world
  unfolding write_partition find_by_name
  write_partition-Confined m large reach =
      written (look_up crc32 device name m m.table.entries)
        (λ info h. look_up-search m m.table.entries h) large reach
