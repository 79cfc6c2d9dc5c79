-- ===== src/Sahara/RoundTrip.antt =====
-- Parsing what the serializer wrote gives the packet back.
use mboot_core.Prelude.{
  ℕ, ◌≡◌, refl, arith, true, false, List, [], ◌∷◌, ◌++◌, length, replicate, All, append-nil,
}
use mboot_core.Domain.{ByteBuffer, ok, ◌>>=◌}
use mboot_core.Bytes.{IsU32, le32}
use mboot_core.Sahara.Packets.{
  Packet, hello, hello_response, read_data, end_image_transfer, done, done_response, reset,
  reset_response, memory_debug, read_chip_id, command_ready, command_switch_mode, command_exec,
  command_exec_response, execute_data, execute_data_response, rx_data, rx_data_response,
  reset_state_machine, command, packet_length,
}
use mboot_core.Sahara.Packets.Fields.{fields, FitsWire}
use mboot_core.Sahara.Serializer.{serialize}
use mboot_core.Sahara.Parser.{parse, parse_command, required_packet_length}
use mboot_core.Sahara.Parser.Words.{words, length-words, read_u32-words}

-- The reserved words at the end of a packet.
abbrev reserved : Packet → List ℕ
reserved (hello _ _ _ _) = replicate 6 0
reserved (hello_response _ _ _ _) = replicate 6 0
reserved (read_chip_id _ _ _ _ _ _ true) = replicate 2 0
reserved _ = []

-- The serializer writes the command, the length, the fields and the reserved words.
abbrev packet_words : Packet → List ℕ
packet_words p = command p ∷ packet_length p ∷ (fields p ++ reserved p)

serialize-words : (p : Packet) → serialize p ≡ ok (words (packet_words p))
unfolding serialize command packet_length words le32
serialize-words (hello _ _ _ _) = refl
serialize-words (hello_response _ _ _ _) = refl
serialize-words (read_data _ _ _) = refl
serialize-words (end_image_transfer _ _) = refl
serialize-words done = refl
serialize-words (done_response _) = refl
serialize-words reset = refl
serialize-words reset_response = refl
serialize-words (memory_debug _ _) = refl
serialize-words (read_chip_id _ _ _ _ _ _ true) = refl
serialize-words (read_chip_id _ _ _ _ _ _ false) = refl
serialize-words command_ready = refl
serialize-words (command_switch_mode _) = refl
serialize-words (command_exec _) = refl
serialize-words (command_exec_response _ _) = refl
serialize-words (execute_data _ _) = refl
serialize-words (execute_data_response _ _) = refl
serialize-words (rx_data _ _ _) = refl
serialize-words (rx_data_response _ _) = refl
serialize-words reset_state_machine = refl

-- The bytes of a packet.
pub packet_bytes : Packet → ByteBuffer
packet_bytes p = words (packet_words p)

pub serialize-bytes : (p : Packet) → serialize p ≡ ok (packet_bytes p)
unfolding packet_bytes
serialize-bytes p = serialize-words p

packet_words_fit : (p : Packet) → FitsWire p → All IsU32 (packet_words p)
unfolding command packet_length
packet_words_fit (read_chip_id _ _ _ _ _ _ true) v = omega arith
packet_words_fit (read_chip_id _ _ _ _ _ _ false) v = omega arith
packet_words_fit (hello _ _ _ _) v = omega arith
packet_words_fit _ v = omega arith

parse-words :
    (p : Packet) (rest : ByteBuffer)
    → FitsWire p
    → All IsU32 (packet_words p)
    → parse (words (packet_words p) ++ rest) ≡ ok p
unfolding parse parse_command required_packet_length command packet_length
parse-words (read_chip_id lo hi s m o d true) rest v fit =
    let p = read_chip_id lo hi s m o d true in
    let at = λ (i : ℕ). read_u32-words (packet_words p) rest i fit in
    ground
      (arith, length-words (packet_words p) rest, at 0, at 1, at 2, at 3, at 4, at 5, at 6, at 7)
parse-words (read_chip_id lo hi s m o d false) rest v fit =
    let p = read_chip_id lo hi s m o d false in
    let at = λ (i : ℕ). read_u32-words (packet_words p) rest i fit in
    ground (arith, length-words (packet_words p) rest, at 0, at 1, at 2, at 3)
parse-words p rest v fit =
    let at = λ (i : ℕ). read_u32-words (packet_words p) rest i fit in
    ground (arith, length-words (packet_words p) rest, at 0, at 1, at 2, at 3, at 4, at 5)

-- Every packet that fits the wire is serialized, and parsing its bytes, whatever follows them in
-- the buffer, gives the packet back.
pub parse-serialize :
    (p : Packet) (rest : ByteBuffer)
    → FitsWire p
    → (serialize p >>= λ buf. parse (buf ++ rest)) ≡ ok p
parse-serialize p rest v = rw (serialize-words p) (parse-words p rest v (packet_words_fit p v))

-- So too when nothing follows.
pub parse-serialize_self : (p : Packet) → FitsWire p → (serialize p >>= parse) ≡ ok p
parse-serialize_self p v =
    rw (serialize-words p) (rw append-nil at (parse-words p [] v (packet_words_fit p v)))

length-packet_words : (p : Packet) → length (words (packet_words p)) ≡ packet_length p
unfolding words le32 packet_length
length-packet_words (read_chip_id _ _ _ _ _ _ true) = refl
length-packet_words (read_chip_id _ _ _ _ _ _ false) = refl
length-packet_words _ = refl

-- Every packet is serialized without an error, into exactly `length()` bytes.
pub serialize-length :
    (p : Packet) → (buf : ByteBuffer) × (serialize p ≡ ok buf) × (length buf ≡ packet_length p)
serialize-length p = (words (packet_words p), serialize-words p, length-packet_words p)
