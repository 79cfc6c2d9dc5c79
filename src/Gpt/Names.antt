-- ===== src/Gpt/Names.antt =====
-- The names of partitions: `nameToString` and `utf16ToUtf8` of lib/src/gpt/GPTParser.cpp. A text is the
-- list of its bytes.
use mboot_core.Prelude.{
  ℕ, ◌+◌, ◌-◌, ◌*◌, ◌/◌, ◌%◌, Bool, ◌&&◌, ltb, leb, ◌==◌, if◌then◌else◌, List, [], ◌∷◌, ◌++◌, take,
}
use mboot_core.Domain.{ByteBuffer}
use mboot_core.Gpt.Entries.{PartitionEntry}

-- The bytes of one code point.
unfoldable pub utf8_bytes : ℕ → ByteBuffer
utf8_bytes cp =
    if ltb cp 0x80
    then cp ∷ []
    else if ltb cp 0x800
    then (0xc0 + cp / 64) ∷ (0x80 + cp % 64) ∷ []
    else if ltb cp 0x10000
    then (0xe0 + cp / 4096) ∷ (0x80 + (cp / 64) % 64) ∷ (0x80 + cp % 64) ∷ []
    else (0xf0 + cp / 262144)
      ∷ (0x80 + (cp / 4096) % 64)
      ∷ (0x80 + (cp / 64) % 64)
      ∷ (0x80 + cp % 64)
      ∷ []

abbrev is_high : ℕ → Bool
is_high c = leb 0xd800 c && leb c 0xdbff

abbrev is_low : ℕ → Bool
is_low c = leb 0xdc00 c && leb c 0xdfff

-- The code point of a surrogate pair.
abbrev paired : ℕ → ℕ → ℕ
paired c low = 0x10000 + (c - 0xd800) * 1024 + (low - 0xdc00)

unfoldable pub utf16_to_utf8 : List ℕ → ByteBuffer
unfolding utf8_bytes
utf16_to_utf8 [] = []
utf16_to_utf8 (c ∷ []) = utf8_bytes c
utf16_to_utf8 (c ∷ low ∷ cs) =
    let after = utf16_to_utf8 cs in
    let next = utf16_to_utf8 (low ∷ cs) in
    if is_high c && is_low low then utf8_bytes (paired c low) ++ after else utf8_bytes c ++ next

-- The units before the first 0.
unfoldable pub before_zero : List ℕ → List ℕ
before_zero [] = []
before_zero (c ∷ cs) = let rest = before_zero cs in if c == 0 then [] else c ∷ rest

unfoldable pub name_to_string : PartitionEntry → ByteBuffer
unfolding utf16_to_utf8 before_zero
name_to_string e = utf16_to_utf8 (before_zero (take 36 e.name))
