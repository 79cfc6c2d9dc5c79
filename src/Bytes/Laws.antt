-- ===== src/Bytes/Laws.antt =====
-- A written integer is read back, wherever it stands in a buffer.
use native.Mathlib.Nat.{zero-add, suc-add, add_assoc}
use mboot_core.Prelude.{ℕ, ◌+◌, ◌≡◌, arith, [], ◌∷◌, ◌++◌, length}
use mboot_core.Domain.{ByteBuffer}
use mboot_core.Bytes.{IsU16, IsU32, IsU64, le16, le32, le64, byte, get16, get32, get64}

pub byte-append : (xs ys : ByteBuffer) (i : ℕ) → byte (xs ++ ys) (length xs + i) ≡ byte ys i
byte-append [] ys i = rw zero-add
byte-append (x ∷ xs) ys i = rw suc-add (byte-append xs ys i)

pub get32-le32 : (v : ℕ) (rest : ByteBuffer) → IsU32 v → get32 (le32 v ++ rest) 0 ≡ v
unfolding get32 le32
get32-le32 v rest h = omega arith

pub get16-le16 : (v : ℕ) (rest : ByteBuffer) → IsU16 v → get16 (le16 v ++ rest) 0 ≡ v
unfolding get16 le16
get16-le16 v rest h = omega arith

pub get64-le64 : (v : ℕ) (rest : ByteBuffer) → IsU64 v → get64 (le64 v ++ rest) 0 ≡ v
unfolding get64 le64
get64-le64 v rest h = omega arith

pub get16-append : (xs ys : ByteBuffer) (i : ℕ) → get16 (xs ++ ys) (length xs + i) ≡ get16 ys i
unfolding get16
get16-append xs ys i = simp (add_assoc, byte-append xs ys)

pub get32-append : (xs ys : ByteBuffer) (i : ℕ) → get32 (xs ++ ys) (length xs + i) ≡ get32 ys i
unfolding get32
get32-append xs ys i = simp (add_assoc, byte-append xs ys)

pub get64-append : (xs ys : ByteBuffer) (i : ℕ) → get64 (xs ++ ys) (length xs + i) ≡ get64 ys i
unfolding get64
get64-append xs ys i = simp (add_assoc, byte-append xs ys)
