-- ===== src/Elf/Parser/Bounded.antt =====
-- The parser reads nothing outside its buffer.
use native.Mathlib.Nat.{mul-le-mul}
use mboot_core.Prelude.{
  ℕ, zero, suc, ◌+◌, ◌*◌, ◌%◌, ◌^◌, ◌≤◌, ◌<◌, ◌≡◌, ◌≢◌, inl, inr, arith, Bool, true, false, not,
  ltb, List, [], ◌∷◌, ◌++◌, length, All, Bool-cases,
}
use mboot_core.Domain.{Result, ok, err, stuck, Fault, ByteBuffer}
use mboot_core.Bytes.{IsByte, IsU16}
use mboot_core.Elf.Models.{ElfHeader}
use mboot_core.Elf.Reader.{has_valid_magic, read_header, read_program_header, read_section_header}
use mboot_core.Elf.Reader.Fields.{
  Returns, bind-Returns, HasShortTables, read_header-Returns, read_program_header-Returns,
  read_section_header-Returns,
}
use mboot_core.Elf.Parser.{
  is_elf64, program_header_size, section_header_size, table_stands, validate_header, read_table,
  read_program_headers, read_section_headers, parse_tables, parse,
}

abbrev Any : {A : Type 0} → A → Type 0
Any a = Unit

-- An entry that does not exceed the buffer lies in it: the offset does not wrap.
entry-in_buffer :
    (off entry_size min_size total i : ℕ)
    → off < total
    → total < 2 ^ 63
    → IsU16 entry_size
    → IsU16 i
    → min_size ≤ 64
    → ltb total (((off + i * entry_size) % 2 ^ 64 + min_size) % 2 ^ 64) ≡ false
    → (off + i * entry_size) % 2 ^ 64 + min_size ≤ total
entry-in_buffer off entry_size min_size total i o t e k m h =
    let small : i * entry_size ≤ 2 ^ 16 * 2 ^ 16 =
      mul-le-mul {n₂ = 2 ^ 16} {m₂ = 2 ^ 16} (omega (arith, k)) (omega (arith, e)) in
    ground arith

module _ {A : Type 0} (read_entry : ℕ → Result A) (off entry_size min_size total : ℕ)
    (reads_in : (p : ℕ) → p + min_size ≤ total → Returns Any (read_entry p)) (o : off < total)
    (t : total < 2 ^ 63) (e : IsU16 entry_size) (m : min_size ≤ 64) where
  read_table-Returns :
      (n i : ℕ) (found : List A)
      → n + i < 2 ^ 16
      → Returns Any (read_table read_entry off entry_size min_size total n i found)
  unfolding read_table
  read_table-Returns zero i found b = tt
  read_table-Returns (suc n) i found b =
      let p = (off + i * entry_size) % 2 ^ 64 in
      elim (Bool-cases (ltb total ((p + min_size) % 2 ^ 64))) [
        | inl over ↦ rw (Returns, over) tt
        | inr fits ↦
            let here =
              entry-in_buffer off entry_size min_size total i o t e (omega (arith, b)) m fits in
            rw (Returns, fits)
              (bind-Returns Any Any (read_entry p) _ (reads_in p here)
                (λ a _. read_table-Returns n (suc i) (found ++ a ∷ []) (omega (arith, b))))
      ]

size_bound : (b : Bool) → (program_header_size b ≤ 64) × (section_header_size b ≤ 64)
size_bound true = (omega arith, omega arith)
size_bound false = (omega arith, omega arith)

module _ (d : ByteBuffer) (b : length d < 2 ^ 63) (h : ElfHeader) (short : HasShortTables h) where
  read_program_headers-Returns : Returns Any (read_program_headers d h)
  unfolding read_program_headers
  read_program_headers-Returns =
      elim (Bool-cases (table_stands h.phnum h.phentsize h.phoff (length d))) [
        | inr missing ↦ rw missing tt
        | inl stands ↦ rw stands (
            read_table-Returns (read_program_header (is_elf64 h) d h.endian) h.phoff h.phentsize
              (program_header_size (is_elf64 h)) (length d)
              (λ p q. read_program_header-Returns (is_elf64 h) d h.endian p q) (ground arith) b
              short.phentsize_short (size_bound (is_elf64 h)).0 h.phnum 0 []
              (omega (arith, short.phnum_short)))
      ]

  read_section_headers-Returns : Returns Any (read_section_headers d h)
  unfolding read_section_headers
  read_section_headers-Returns =
      elim (Bool-cases (table_stands h.shnum h.shentsize h.shoff (length d))) [
        | inr missing ↦ rw missing tt
        | inl stands ↦ rw stands (
            read_table-Returns (read_section_header (is_elf64 h) d h.endian) h.shoff h.shentsize
              (section_header_size (is_elf64 h)) (length d)
              (λ p q. read_section_header-Returns (is_elf64 h) d h.endian p q) (ground arith) b
              short.shentsize_short (size_bound (is_elf64 h)).1 h.shnum 0 []
              (omega (arith, short.shnum_short)))
      ]

  parse_tables-Returns : Returns Any (parse_tables d h)
  unfolding parse_tables
  parse_tables-Returns =
      bind-Returns Any Any (read_program_headers d h) _ read_program_headers-Returns (λ phs _.
        bind-Returns Any Any (read_section_headers d h) _ read_section_headers-Returns
          (λ shs _. tt))

Returns-stuck : {A : Type 0} (r : Result A) (x : Fault) → Returns Any r → r ≢ stuck x
Returns-stuck (ok a) x h e = cc
Returns-stuck (err c) x h e = cc
Returns-stuck (stuck y) x h e = absurd h

parse-Returns : (d : ByteBuffer) → All IsByte d → length d < 2 ^ 63 → Returns Any (parse d)
unfolding parse
parse-Returns d bytes b = elim (Bool-cases (not (has_valid_magic d))) [
  | inl bad ↦ rw bad tt
  | inr good ↦ rw good (
      bind-Returns HasShortTables Any (read_header d) _ (read_header-Returns d bytes) (λ h short.
        elim (Bool-cases (validate_header h (length d))) [
          | inl valid ↦ rw valid (parse_tables-Returns d b h short)
          | inr invalid ↦ rw invalid tt
        ]))
]

-- Whatever bytes a buffer of less than 2^63 of them holds, the parser reads none outside it, and
-- returns a file or an error.
pub parse_bounded :
    (d : ByteBuffer) (x : Fault) → All IsByte d → length d < 2 ^ 63 → parse d ≢ stuck x
parse_bounded d x bytes b = Returns-stuck (parse d) x (parse-Returns d bytes b)
