-- ===== src/Sahara/Parser/Frames.antt =====
-- Which buffers the parser accepts, and what it makes of them.
use mboot_core.Bytes.{get32}
use mboot_core.Prelude.{
  ℕ, ◌+◌, refl, sym, le→ltb, ap, ◌≤◌, ◌≡◌, ◌≢◌, ◌∙◌, ◌↔◌, ◌⊎◌, inl, inr, arith, length, true,
}
use mboot_core.Domain.{ByteBuffer, ErrorCode, invalid_packet, Fault, ok, err, stuck, Result-cases}
use mboot_core.Sahara.Packets.{Packet, command, packet_length}
use mboot_core.Sahara.Parser.{read_u32, required_packet_length, parse_command, parse, is_complete}

-- A buffer holds a frame: its header is there, its second word, the declared length, lies in the
-- buffer and is at least the `length()` of some packet whose `command()` is the first word.
pub record IsFrame (d : ByteBuffer) : Type 0 where
  pub has_header : 8 ≤ length d
  pub has_body : get32 d 4 ≤ length d
  pub packet : Packet
  pub known : command packet ≡ get32 d 0
  pub long_enough : packet_length packet ≤ get32 d 4

-- What the parser tests.
record Passes (d : ByteBuffer) : Type 0 where
  has_header : 8 ≤ length d
  has_body : read_u32 d 4 ≤ length d
  known : (0x01 ≤ read_u32 d 0) × (read_u32 d 0 ≤ 0x13)
  long_enough : required_packet_length (read_u32 d 0) ≤ read_u32 d 4

read_u32-get32 : (d : ByteBuffer) (i : ℕ) → i + 4 ≤ length d → read_u32 d i ≡ get32 d i
unfolding read_u32
read_u32-get32 d i b = rw (le→ltb (length d) (i + 4) b) refl

-- No packet is shorter than the parser asks of its command.
required_packet_length-le :
    (p : Packet)
    → (required_packet_length (command p) ≤ packet_length p)
      × (0x01 ≤ command p)
      × (command p ≤ 0x13)
unfolding required_packet_length command packet_length
required_packet_length-le p = ground arith

Passes-of_IsFrame : (d : ByteBuffer) → IsFrame d → Passes d
Passes-of_IsFrame d f =
    let first = read_u32-get32 d 0 (omega (arith, f.has_header)) in
    let second = read_u32-get32 d 4 (omega (arith, f.has_header)) in
    let (least, low, high) = required_packet_length-le f.packet in
    let same : command f.packet ≡ read_u32 d 0 = f.known ∙ sym first in
    record {
      has_header = f.has_header;
      has_body = rw second f.has_body;
      known = (omega (arith, same, low), omega (arith, same, high));
      long_enough = rw (← same) (omega (arith, least, f.long_enough, second));
    }

parse_command-command :
    (d : ByteBuffer) (cmd : ℕ) {p : Packet}
    → parse_command d cmd ≡ ok p
    → (command p ≡ cmd) × (0x01 ≤ cmd) × (cmd ≤ 0x13)
unfolding parse_command command
parse_command-command d cmd h = ground arith

parse_command-err :
    (d : ByteBuffer) (cmd : ℕ) {e : ErrorCode}
    → parse_command d cmd ≡ err e
    → (e ≡ invalid_packet) × ((cmd ≡ 0) ⊎ (0x14 ≤ cmd))
unfolding parse_command
parse_command-err d cmd h = ground arith

parse_command-ne-stuck : (d : ByteBuffer) (cmd : ℕ) (x : Fault) → parse_command d cmd ≢ stuck x
unfolding parse_command
parse_command-ne-stuck d cmd x h = ground arith

parse-frame : (d : ByteBuffer) → Passes d → parse d ≡ parse_command d (read_u32 d 0)
unfolding parse
parse-frame d f = ground arith

-- The parser accepts every frame.
parse-ok_of_IsFrame : (d : ByteBuffer) → IsFrame d → (p : Packet) × (parse d ≡ ok p)
parse-ok_of_IsFrame d h =
    let f = Passes-of_IsFrame d h in
    elim (Result-cases (parse_command d (read_u32 d 0))) [
      | inl (p, e) ↦ (p, parse-frame d f ∙ e)
      | inr (inl (e, h)) ↦ absurd (omega (arith, (parse_command-err d (read_u32 d 0) h).1))
      | inr (inr (x, h)) ↦ absurd (parse_command-ne-stuck d (read_u32 d 0) x h)
    ]

-- A packet that was parsed lies in its buffer: it has the command of the header word, its length
-- is at most the declared one, which is at most the size, and a loop over `isComplete` stops at it.
pub parse-InBuffer :
    (d : ByteBuffer) (p : Packet)
    → parse d ≡ ok p
    → (command p ≡ read_u32 d 0)
      × (packet_length p ≤ read_u32 d 4)
      × (read_u32 d 4 ≤ length d)
      × (is_complete d ≡ true)
unfolding parse parse_command required_packet_length command packet_length is_complete
parse-InBuffer d p h = ground arith

parse-ok_header : (d : ByteBuffer) (p : Packet) → parse d ≡ ok p → 8 ≤ length d
unfolding parse
parse-ok_header d p h = ground arith

IsFrame-of_parse-ok : (d : ByteBuffer) (p : Packet) → parse d ≡ ok p → IsFrame d
IsFrame-of_parse-ok d p h =
    let header = parse-ok_header d p h in
    let (first, least, body, _) = parse-InBuffer d p h in
    let one = read_u32-get32 d 0 (omega (arith, header)) in
    let two = read_u32-get32 d 4 (omega (arith, header)) in
    record {
      has_header = header;
      has_body = omega (arith, body, two);
      packet = p;
      known = first ∙ one;
      long_enough = omega (arith, least, two);
    }

-- The parser accepts a buffer exactly when the buffer holds a frame: a header, a declared length that
-- lies in the buffer, and a command that some packet has whose `length()` the declared one covers.
pub parse-ok_iff : (d : ByteBuffer) → ((p : Packet) × (parse d ≡ ok p)) ↔ IsFrame d
parse-ok_iff d = (λ h. IsFrame-of_parse-ok d h.0 h.1, parse-ok_of_IsFrame d)

parse-cases :
    (d : ByteBuffer) → (parse d ≡ parse_command d (read_u32 d 0)) ⊎ (parse d ≡ err invalid_packet)
unfolding parse
parse-cases d = ground arith

-- What the parser does not accept it refuses with `InvalidPacket`.
pub parse-refuses : (d : ByteBuffer) → ¬ IsFrame d → parse d ≡ err invalid_packet
parse-refuses d h = elim (parse-cases d) [
  | inr e ↦ e
  | inl s ↦ elim (Result-cases (parse_command d (read_u32 d 0))) [
    | inl (p, e) ↦ absurd (h (IsFrame-of_parse-ok d p (s ∙ e)))
    | inr (inl (e, k)) ↦ s ∙ k ∙ ap err (parse_command-err d (read_u32 d 0) k).0
    | inr (inr (x, k)) ↦ absurd (parse_command-ne-stuck d (read_u32 d 0) x k)
  ]
]
