-- ===== src/Sahara/Parser.antt =====
-- lib/src/core/protocols/sahara/SaharaPacketParser.cpp.
pub mod Words
pub mod Frames
use mboot_core.Prelude.{ℕ, ◌+◌, Bool, false, ltb, leb, ◌==◌, if◌then◌else◌, length}
use mboot_core.Domain.{ByteBuffer, Result, ok, err, invalid_packet}
use mboot_core.Bytes.{get32}
use mboot_core.Sahara.Packets.{
  Packet, hello, hello_response, read_data, end_image_transfer, done, done_response, reset,
  reset_response, memory_debug, command_ready, command_switch_mode, command_exec,
  command_exec_response, execute_data, execute_data_response, rx_data, rx_data_response,
  reset_state_machine, make_read_chip_id, set_v3,
}

-- A word that does not lie in the buffer reads as 0.
unfoldable pub read_u32 : ByteBuffer → ℕ → ℕ
unfolding get32
read_u32 buf offset = if ltb (length buf) (offset + 4) then 0 else get32 buf offset

unfoldable pub required_packet_length : ℕ → ℕ
required_packet_length cmd =
    if cmd == 0x01
    then 48
    else if cmd == 0x02
    then 48
    else if cmd == 0x03
    then 20
    else if cmd == 0x04
    then 16
    else if cmd == 0x05
    then 8
    else if cmd == 0x06
    then 12
    else if cmd == 0x07
    then 8
    else if cmd == 0x08
    then 8
    else if cmd == 0x09
    then 16
    else if cmd == 0x0a
    then 16
    else if cmd == 0x0b
    then 8
    else if cmd == 0x0c
    then 12
    else if cmd == 0x0d
    then 12
    else if cmd == 0x0e
    then 16
    else if cmd == 0x0f
    then 16
    else if cmd == 0x10
    then 16
    else if cmd == 0x11
    then 20
    else if cmd == 0x12
    then 16
    else if cmd == 0x13
    then 8
    else 0

unfoldable pub is_complete : ByteBuffer → Bool
is_complete buf = if ltb (length buf) 8 then false else leb (read_u32 buf 4) (length buf)

-- The case 0x0A of the switch: the V3 words are read if the declared length has room for them.
unfoldable pub parse_chip_id : ByteBuffer → Packet
unfolding make_read_chip_id set_v3
parse_chip_id buf =
    let v3 = leb 40 (read_u32 buf 4) in
    set_v3
      (make_read_chip_id (read_u32 buf 8) (read_u32 buf 12) (if v3 then read_u32 buf 16 else 0)
        (if v3 then read_u32 buf 20 else 0) (if v3 then read_u32 buf 24 else 0)
        (if v3 then read_u32 buf 28 else 0))
      v3

unfoldable pub parse_command : ByteBuffer → ℕ → Result Packet
unfolding parse_chip_id
parse_command buf cmd =
    if cmd == 0x01
    then ok (hello (read_u32 buf 8) (read_u32 buf 12) (read_u32 buf 16) (read_u32 buf 20))
    else if cmd == 0x02
    then ok (hello_response (read_u32 buf 8) (read_u32 buf 12) (read_u32 buf 16) (read_u32 buf 20))
    else if cmd == 0x03
    then ok (read_data (read_u32 buf 8) (read_u32 buf 12) (read_u32 buf 16))
    else if cmd == 0x04
    then ok (end_image_transfer (read_u32 buf 8) (read_u32 buf 12))
    else if cmd == 0x05
    then ok done
    else if cmd == 0x06
    then ok (done_response (read_u32 buf 8))
    else if cmd == 0x07
    then ok reset
    else if cmd == 0x08
    then ok reset_response
    else if cmd == 0x09
    then ok (memory_debug (read_u32 buf 8) (read_u32 buf 12))
    else if cmd == 0x0a
    then ok (parse_chip_id buf)
    else if cmd == 0x0b
    then ok command_ready
    else if cmd == 0x0c
    then ok (command_switch_mode (read_u32 buf 8))
    else if cmd == 0x0d
    then ok (command_exec (read_u32 buf 8))
    else if cmd == 0x0e
    then ok (command_exec_response (read_u32 buf 8) (read_u32 buf 12))
    else if cmd == 0x0f
    then ok (execute_data (read_u32 buf 8) (read_u32 buf 12))
    else if cmd == 0x10
    then ok (execute_data_response (read_u32 buf 8) (read_u32 buf 12))
    else if cmd == 0x11
    then ok (rx_data (read_u32 buf 8) (read_u32 buf 12) (read_u32 buf 16))
    else if cmd == 0x12
    then ok (rx_data_response (read_u32 buf 8) (read_u32 buf 12))
    else if cmd == 0x13
    then ok reset_state_machine
    else err invalid_packet

unfoldable pub parse : ByteBuffer → Result Packet
parse buf =
    let cmd = read_u32 buf 0 in
    let len = read_u32 buf 4 in
    if ltb (length buf) 8
    then err invalid_packet
    else if ltb (length buf) len
    then err invalid_packet
    else if ltb len (required_packet_length cmd)
    then err invalid_packet
    else parse_command buf cmd
