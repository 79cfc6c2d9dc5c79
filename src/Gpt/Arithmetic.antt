-- ===== src/Gpt/Arithmetic.antt =====
-- The checks on numbers from a header that lib/src/gpt/GPTParser.cpp makes before it allocates.
pub mod Bounds
use mboot_core.Prelude.{
  ℕ, ◌-◌, ◌*◌, ◌/◌, ◌^◌, Bool, true, false, ◌||◌, ltb, ◌==◌, if◌then◌else◌, Option, none, some,
  List, [], ◌∷◌, ◌++◌,
}
use mboot_core.Domain.{ErrorCode, gpt_invalid_header}

unfoldable pub mul_overflows : ℕ → ℕ → Bool
mul_overflows a b = if (a == 0) || (b == 0) then false else ltb ((2 ^ 64 - 1) / b) a

-- `none` for the `false` of `safeMul`.
unfoldable pub safe_mul : ℕ → ℕ → Option ℕ
unfolding mul_overflows
safe_mul a b = if mul_overflows a b then none else some (a * b)

abbrev pub max_partition_entries : ℕ
max_partition_entries = 4096

abbrev pub min_entry_size : ℕ
min_entry_size = 128

abbrev pub max_entry_size : ℕ
max_entry_size = 512

-- The warnings are passed on explicitly.
unfoldable pub validate_entry_fields :
    (num_entries entry_size : ℕ) → List ErrorCode → List ErrorCode × Bool
validate_entry_fields num_entries entry_size warnings =
    if (num_entries == 0) || ltb max_partition_entries num_entries
    then (warnings ++ gpt_invalid_header ∷ [], false)
    else if ltb entry_size min_entry_size || ltb max_entry_size entry_size
    then (warnings ++ gpt_invalid_header ∷ [], false)
    else (warnings, true)
