-- ===== src/Bytes.antt =====
-- Little-endian integers in byte buffers, as the packet and partition-table code reads and writes
-- them. `b0 | b1 << 8 | ...` of bytes has disjoint bits, and is written as a sum.
pub mod Laws
use mboot_core.Prelude.{
  ℕ, ◌+◌, ◌*◌, ◌/◌, ◌%◌, ◌^◌, ◌<◌, List, [], ◌∷◌, ◌++◌, length, get_or, if◌then◌else◌, leb,
}
use mboot_core.Domain.{ByteBuffer}

abbrev pub IsByte : ℕ → Type 0
IsByte b = b < 256

abbrev pub IsU16 : ℕ → Type 0
IsU16 v = v < 2 ^ 16

abbrev pub IsU32 : ℕ → Type 0
IsU32 v = v < 2 ^ 32

abbrev pub IsU64 : ℕ → Type 0
IsU64 v = v < 2 ^ 64

-- The bytes of an integer, least significant first: `static_cast<uint8_t>(val >> 8 * i)`.
unfoldable pub le16 : ℕ → ByteBuffer
le16 v = v % 256 ∷ v / 2 ^ 8 % 256 ∷ []

unfoldable pub le32 : ℕ → ByteBuffer
le32 v = v % 256 ∷ v / 2 ^ 8 % 256 ∷ v / 2 ^ 16 % 256 ∷ v / 2 ^ 24 % 256 ∷ []

unfoldable pub le64 : ℕ → ByteBuffer
le64 v =
    v % 256
    ∷ v / 2 ^ 8 % 256
    ∷ v / 2 ^ 16 % 256
    ∷ v / 2 ^ 24 % 256
    ∷ v / 2 ^ 32 % 256
    ∷ v / 2 ^ 40 % 256
    ∷ v / 2 ^ 48 % 256
    ∷ v / 2 ^ 56 % 256
    ∷ []

-- `data[i]`, where `i` is in range.
abbrev pub byte : ByteBuffer → ℕ → ℕ
byte d i = get_or d i 0

unfoldable pub get16 : ByteBuffer → ℕ → ℕ
get16 d i = byte d i + 256 * byte d (i + 1)

unfoldable pub get32 : ByteBuffer → ℕ → ℕ
get32 d i = byte d i + 2 ^ 8 * byte d (i + 1) + 2 ^ 16 * byte d (i + 2) + 2 ^ 24 * byte d (i + 3)

unfoldable pub get64 : ByteBuffer → ℕ → ℕ
unfolding get32
get64 d i = get32 d i + 2 ^ 32 * get32 d (i + 4)
