-- ===== src/Elf/Parser/Valid.antt =====
-- What `parse` promises of a file that it finds valid.
use mboot_core.Prelude.{
  ℕ, ◌+◌, ◌≤◌, ◌≡◌, ◌≢◌, refl, sym, ◌∙◌, inl, inr, true, not, List, ◌∷◌, ◌++◌, length, Bool-cases,
}
use mboot_core.Domain.{Result, ok, err, stuck, ◌>>=◌, ByteBuffer}
use mboot_core.Elf.Models.{ProgramHeader, ElfFile}
use mboot_core.Elf.Reader.{has_valid_magic, read_header}
use mboot_core.Elf.Segments.{validate_program_headers}
use mboot_core.Elf.Segments.Apart.{validate-in_file, validate_apart, Occupies, EndsInSpace}
use mboot_core.Elf.Parser.{
  validate_header, read_program_headers, read_section_headers, parse_tables, parse,
}

abbrev IfOk : {A : Type 0} → (A → Type 0) → Result A → Type 0
IfOk P (ok a) = P a
IfOk P (err e) = Unit
IfOk P (stuck x) = Unit

bind-IfOk :
    {A B : Type 0} (Q : B → Type 0) (r : Result A) (f : A → Result B)
    → ((a : A) → IfOk Q (f a))
    → IfOk Q (r >>= f)
bind-IfOk Q (ok a) f g = g a
bind-IfOk Q (err e) f g = tt
bind-IfOk Q (stuck x) f g = tt

-- The flag is what the checks of the segments say, and the file is the one that was read.
abbrev IsChecked : ByteBuffer → ElfFile → Type 0
IsChecked d elf =
    (elf.valid ≡ validate_program_headers elf.program_headers (length d)) × (elf.raw_data ≡ d)

parse-IsChecked : (d : ByteBuffer) → IfOk (IsChecked d) (parse d)
unfolding parse parse_tables
parse-IsChecked d = elim (Bool-cases (not (has_valid_magic d))) [
  | inl bad ↦ rw bad tt
  | inr good ↦ rw good (
      bind-IfOk (IsChecked d) (read_header d) _ (λ h.
        elim (Bool-cases (validate_header h (length d))) [
          | inr invalid ↦ rw invalid tt
          | inl valid ↦ rw valid (
              bind-IfOk (IsChecked d) (read_program_headers d h) _
                (λ phs. bind-IfOk (IsChecked d) (read_section_headers d h) _ (λ shs. (refl, refl))))
        ]))
]

parse-ok-IsChecked : (d : ByteBuffer) (elf : ElfFile) → parse d ≡ ok elf → IsChecked d elf
parse-ok-IsChecked d elf h = rw h at (parse-IsChecked d)

module _ (d : ByteBuffer) (elf : ElfFile) (parsed : parse d ≡ ok elf)
    (valid : elf.valid ≡ true) where
  checked :
      {phs : List ProgramHeader}
      → elf.program_headers ≡ phs
      → validate_program_headers phs (length d) ≡ true
  checked e = rw (← e) (sym (parse-ok-IsChecked d elf parsed).0 ∙ valid)

  -- In a file that the parser finds valid, the data of every segment that is not null lie in it.
  pub parse-in_file :
      (before after : List ProgramHeader) (ph : ProgramHeader)
      → elf.program_headers ≡ before ++ ph ∷ after
      → ph.type ≢ 0
      → ph.offset + ph.filesz ≤ length d
  parse-in_file before after ph e = validate-in_file before after ph (length d) (checked e)

  -- No address is in the memory of two of its segments that are loaded, as long as their ends do not
  -- exceed 64 bits.
  pub parse_apart :
      (a b : ProgramHeader) (before mid after : List ProgramHeader) (v : ℕ)
      → elf.program_headers ≡ before ++ a ∷ mid ++ b ∷ after
      → EndsInSpace a
      → EndsInSpace b
      → Occupies v a
      → ¬ Occupies v b
  parse_apart a b before mid after v e =
      validate_apart a b before mid after (length d) v (checked e)
