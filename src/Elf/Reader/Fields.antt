-- ===== src/Elf/Reader/Fields.antt =====
-- The widths of what is read, and reads that stay in the buffer.
use mboot_core.Prelude.{
  ℕ, zero, suc, ◌+◌, ◌≤◌, ◌≡◌, inl, inr, arith, Bool, true, false, ◌&&◌, ◌||◌, ltb, leb, ◌==◌,
  if◌then◌else◌, [], ◌∷◌, length, All, Bool-cases,
}
use mboot_core.Domain.{Result, ok, err, stuck, ◌>>=◌, ByteBuffer}
use mboot_core.Bytes.{IsByte, IsU16, byte, get16}
use mboot_core.Elf.Models.{ElfHeader, elf32, elf64, big_endian}
use mboot_core.Elf.Reader.{
  read_u16, reads, read_ident, read_header64, read_header32, read_header, read_program_header,
  read_section_header,
}

-- A call that returns, with an error or with a value for which a predicate holds.
abbrev pub Returns {ℓ} : {A : Type ℓ} → (A → Type 0) → Result A → Type 0
Returns P (ok a) = P a
Returns P (err e) = Unit
Returns P (stuck x) = ⊥

pub bind-Returns {ℓ κ} :
    {A : Type ℓ} {B : Type κ} (P : A → Type 0) (Q : B → Type 0) (r : Result A) (f : A → Result B)
    → Returns P r
    → ((a : A) → P a → Returns Q (f a))
    → Returns Q (r >>= f)
bind-Returns P Q (ok a) f h g = g a h
bind-Returns P Q (err e) f h g = tt
bind-Returns P Q (stuck x) f h g = absurd h

byte-IsByte : (d : ByteBuffer) (i : ℕ) → All IsByte d → IsByte (byte d i)
byte-IsByte [] i h = omega arith
byte-IsByte (b ∷ d) zero h = h.0
byte-IsByte (b ∷ d) (suc i) h = byte-IsByte d i h.1

read_u16-IsU16 : (d : ByteBuffer) (e i : ℕ) → All IsByte d → IsU16 (read_u16 d e i)
unfolding read_u16 get16
read_u16-IsU16 d e i h =
    let first = byte-IsByte d i h in
    let second = byte-IsByte d (i + 1) h in
    elim (Bool-cases (e == big_endian)) [
      | inl b ↦ rw b (omega (arith, first, second))
      | inr b ↦ rw b (omega (arith, first, second))
    ]

-- The numbers of entries and their sizes are of 16 bits.
pub record HasShortTables (h : ElfHeader) : Type 0 where
  pub phnum_short : IsU16 h.phnum
  pub phentsize_short : IsU16 h.phentsize
  pub shnum_short : IsU16 h.shnum
  pub shentsize_short : IsU16 h.shentsize

read_header64-HasShortTables : (d : ByteBuffer) → All IsByte d → HasShortTables (read_header64 d)
unfolding read_header64
read_header64-HasShortTables d h = record {
  phnum_short = read_u16-IsU16 d (byte d 5) 56 h;
  phentsize_short = read_u16-IsU16 d (byte d 5) 54 h;
  shnum_short = read_u16-IsU16 d (byte d 5) 60 h;
  shentsize_short = read_u16-IsU16 d (byte d 5) 58 h;
}

read_header32-HasShortTables : (d : ByteBuffer) → All IsByte d → HasShortTables (read_header32 d)
unfolding read_header32
read_header32-HasShortTables d h = record {
  phnum_short = read_u16-IsU16 d (byte d 5) 44 h;
  phentsize_short = read_u16-IsU16 d (byte d 5) 42 h;
  shnum_short = read_u16-IsU16 d (byte d 5) 48 h;
  shentsize_short = read_u16-IsU16 d (byte d 5) 46 h;
}

pub reads-ok : (d : ByteBuffer) (p n : ℕ) → p + n ≤ length d → reads d p n ≡ ok tt
unfolding reads
reads-ok d p n h = ground arith

pub read_header-Returns : (d : ByteBuffer) → All IsByte d → Returns HasShortTables (read_header d)
unfolding read_header read_ident
read_header-Returns d h = elim (Bool-cases (ltb (length d) 52)) [
  | inl a ↦ rw a (record {
    phnum_short = omega arith;
    phentsize_short = omega arith;
    shnum_short = omega arith;
    shentsize_short = omega arith;
  })
  | inr a ↦ elim (Bool-cases (byte d 4 == 0 || byte d 5 == 0)) [
    | inl b ↦
        rw (a, b)
          (record {
            phnum_short = omega arith;
            phentsize_short = omega arith;
            shnum_short = omega arith;
            shentsize_short = omega arith;
          })
    | inr b ↦ elim (Bool-cases (byte d 4 == elf64 && leb 64 (length d))) [
      | inl c ↦ rw (a, b, c, reads-ok d 0 64 (ground arith)) (read_header64-HasShortTables d h)
      | inr c ↦ elim (Bool-cases (byte d 4 == elf32 && leb 52 (length d))) [
        | inl s ↦ rw (a, b, c, s, reads-ok d 0 52 (ground arith)) (read_header32-HasShortTables d h)
        | inr s ↦
            rw (a, b, c, s)
              (record {
                phnum_short = omega arith;
                phentsize_short = omega arith;
                shnum_short = omega arith;
                shentsize_short = omega arith;
              })
      ]
    ]
  ]
]

-- An entry of a table that lies in the buffer is read.
pub read_program_header-Returns :
    (b : Bool) (d : ByteBuffer) (e p : ℕ)
    → p + (if b then 56 else 32) ≤ length d
    → Returns (λ _. Unit {0}) (read_program_header b d e p)
unfolding read_program_header
read_program_header-Returns true d e p h = rw (reads-ok d p 56 h) tt
read_program_header-Returns false d e p h = rw (reads-ok d p 32 h) tt

pub read_section_header-Returns :
    (b : Bool) (d : ByteBuffer) (e p : ℕ)
    → p + (if b then 64 else 40) ≤ length d
    → Returns (λ _. Unit {0}) (read_section_header b d e p)
unfolding read_section_header
read_section_header-Returns true d e p h = rw (reads-ok d p 64 h) tt
read_section_header-Returns false d e p h = rw (reads-ok d p 40 h) tt
