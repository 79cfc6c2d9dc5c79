-- ===== src/Sahara/Serializer.antt =====
-- lib/src/core/protocols/sahara/SaharaPacketSerializer.cpp. The buffer is passed on explicitly.
use mboot_core.Prelude.{
  ℕ, ◌-◌, ◌/◌, ◌%◌, ◌^◌, Bool, ◌&&◌, leb, if◌then◌else◌, [], ◌++◌, length, take, replicate,
}
use mboot_core.Domain.{ByteBuffer, Result, ok, err, invalid_packet}
use mboot_core.Bytes.{le32}
use mboot_core.Sahara.Packets.{
  Packet, hello, hello_response, read_data, end_image_transfer, done, done_response, reset,
  reset_response, memory_debug, read_chip_id, command_ready, command_switch_mode, command_exec,
  command_exec_response, execute_data, execute_data_response, rx_data, rx_data_response,
  reset_state_machine, command, packet_length,
}

-- `push_back` of the four bytes of a `uint32_t`.
unfoldable pub write_u32 : ByteBuffer → ℕ → ByteBuffer
write_u32 buf value = buf ++ le32 value

-- The two halves of a `uint64_t`, low half first.
unfoldable pub write_u64 : ByteBuffer → ℕ → ByteBuffer
unfolding write_u32
write_u64 buf value = write_u32 (write_u32 buf (value % 2 ^ 32)) (value / 2 ^ 32 % 2 ^ 32)

-- `buf.resize(n)`: cut, or fill with zeros.
unfoldable pub resize : ByteBuffer → ℕ → ByteBuffer
resize buf n = take n buf ++ replicate (n - length buf) 0

unfoldable pub can_serialize : Packet → Bool
unfolding command
can_serialize p = leb 0x01 (command p) && leb (command p) 0x13

-- The body of `switch (packet.command())`, after the two header words; 48 and 40 are
-- `packet.length()` there.
unfoldable pub write_fields : Packet → ByteBuffer → ByteBuffer
unfolding write_u32 resize
write_fields (hello version version_supported cmd_packet_length mode) buf =
    resize
      (write_u32 (write_u32 (write_u32 (write_u32 buf version) version_supported) cmd_packet_length)
        mode)
      48
write_fields (hello_response version version_supported status mode) buf =
    resize (write_u32 (write_u32 (write_u32 (write_u32 buf version) version_supported) status) mode)
      48
write_fields (read_data image_id data_offset data_length) buf =
    write_u32 (write_u32 (write_u32 buf image_id) data_offset) data_length
write_fields (end_image_transfer image_id status) buf = write_u32 (write_u32 buf image_id) status
write_fields done buf = buf
write_fields (done_response image_tx_status) buf = write_u32 buf image_tx_status
write_fields reset buf = buf
write_fields reset_response buf = buf
write_fields (memory_debug mem_table_addr mem_table_len) buf =
    write_u32 (write_u32 buf mem_table_addr) mem_table_len
write_fields (read_chip_id lo hi serial msm oem model is_v3) buf =
    let buf' = write_u32 (write_u32 buf lo) hi in
    if is_v3
    then resize (write_u32 (write_u32 (write_u32 (write_u32 buf' serial) msm) oem) model) 40
    else buf'
write_fields command_ready buf = buf
write_fields (command_switch_mode mode) buf = write_u32 buf mode
write_fields (command_exec client_cmd) buf = write_u32 buf client_cmd
write_fields (command_exec_response client_cmd resp_length) buf =
    write_u32 (write_u32 buf client_cmd) resp_length
write_fields (execute_data client_cmd data_length) buf =
    write_u32 (write_u32 buf client_cmd) data_length
write_fields (execute_data_response client_cmd status) buf =
    write_u32 (write_u32 buf client_cmd) status
write_fields (rx_data image_id data_offset data_length) buf =
    write_u32 (write_u32 (write_u32 buf image_id) data_offset) data_length
write_fields (rx_data_response image_id status) buf = write_u32 (write_u32 buf image_id) status
write_fields reset_state_machine buf = buf

unfoldable pub serialize : Packet → Result ByteBuffer
unfolding can_serialize write_fields command packet_length write_u32
serialize p =
    if can_serialize p
    then ok (write_fields p (write_u32 (write_u32 [] (command p)) (packet_length p)))
    else err invalid_packet
