-- ===== src/Sahara/Parser/Words.antt =====
-- Reading back a sequence of words.
use mboot_core.Prelude.{
  ℕ, zero, suc, ◌+◌, ◌*◌, ◌<◌, ◌≡◌, ◌∙◌, refl, arith, List, [], ◌∷◌, ◌++◌, append_assoc, length,
  get_or, All, length-append,
}
use mboot_core.Domain.{ByteBuffer}
use mboot_core.Bytes.{IsU32, le32, get32}
use mboot_core.Bytes.Laws.{get32-le32, get32-append}
use mboot_core.Sahara.Parser.{read_u32}

unfoldable pub words : List ℕ → ByteBuffer
words [] = []
words (w ∷ ws) = le32 w ++ words ws

length-le32 : (v : ℕ) → length (le32 v) ≡ 4
unfolding le32
length-le32 v = refl

pub length-words :
    (ws : List ℕ) (rest : ByteBuffer) → length (words ws ++ rest) ≡ 4 * length ws + length rest
unfolding words le32
length-words [] rest = omega arith
length-words (w ∷ ws) rest = omega (arith, length-words ws rest)

read_u32-le32 : (v : ℕ) (rest : ByteBuffer) → IsU32 v → read_u32 (le32 v ++ rest) 0 ≡ v
unfolding read_u32
read_u32-le32 v rest h =
    ground (arith, get32-le32 v rest h, length-le32 v, length-append (le32 v) rest)

read_u32-skip :
    (v : ℕ) (rest : ByteBuffer) (k : ℕ) → read_u32 (le32 v ++ rest) (4 + k) ≡ read_u32 rest k
unfolding read_u32
read_u32-skip v rest k =
    let e : get32 (le32 v ++ rest) (4 + k) ≡ get32 rest k =
      rw (length-le32 v) at (get32-append (le32 v) rest k) in
    ground (arith, e, length-le32 v, length-append (le32 v) rest)

-- Word `i` of a sequence is read back at offset `4 * i`.
pub read_u32-words :
    (ws : List ℕ) (rest : ByteBuffer) (i : ℕ)
    → All IsU32 ws
    → i < length ws
    → read_u32 (words ws ++ rest) (4 * i) ≡ get_or ws i 0
unfolding words
read_u32-words [] rest i h p = elim p [ ]
read_u32-words (w ∷ ws) rest zero h p = rw append_assoc (read_u32-le32 w _ h.0)
read_u32-words (w ∷ ws) rest (suc i) h p =
    let e : 4 * suc i ≡ 4 + 4 * i = omega arith in
    rw (append_assoc, e) (read_u32-skip w _ (4 * i) ∙ read_u32-words ws rest i h.1 (omega arith))
