-- ===== src/Sahara/Packets.antt =====
-- lib/include/mbootcore/core/protocols/sahara/SaharaPackets.hpp and
-- lib/src/core/protocols/sahara/SaharaPackets.cpp: the packet classes, one constructor for each,
-- with `command()` and `length()`. The fields are `uint32_t`; see `FieldsFit` in Packets/Fields.
pub mod Fields
use mboot_core.Prelude.{ℕ, Bool, if◌then◌else◌, ◌==◌, ◌||◌, not}

pub data Packet : Type 0 where
  hello : (version version_supported cmd_packet_length mode : ℕ) → Packet
  hello_response : (version version_supported status mode : ℕ) → Packet
  read_data : (image_id data_offset data_length : ℕ) → Packet
  end_image_transfer : (image_id status : ℕ) → Packet
  done : Packet
  done_response : (image_tx_status : ℕ) → Packet
  reset : Packet
  reset_response : Packet
  memory_debug : (mem_table_addr mem_table_len : ℕ) → Packet
  read_chip_id :
      (chip_id_lo chip_id_hi serial_num msm_id oem_id model_id : ℕ) (is_v3 : Bool) → Packet
  command_ready : Packet
  command_switch_mode : (mode : ℕ) → Packet
  command_exec : (client_cmd : ℕ) → Packet
  command_exec_response : (client_cmd resp_length : ℕ) → Packet
  execute_data : (client_cmd data_length : ℕ) → Packet
  execute_data_response : (client_cmd status : ℕ) → Packet
  rx_data : (image_id data_offset data_length : ℕ) → Packet
  rx_data_response : (image_id status : ℕ) → Packet
  reset_state_machine : Packet

unfoldable pub command : Packet → ℕ
command (hello _ _ _ _) = 0x01
command (hello_response _ _ _ _) = 0x02
command (read_data _ _ _) = 0x03
command (end_image_transfer _ _) = 0x04
command done = 0x05
command (done_response _) = 0x06
command reset = 0x07
command reset_response = 0x08
command (memory_debug _ _) = 0x09
command (read_chip_id _ _ _ _ _ _ _) = 0x0a
command command_ready = 0x0b
command (command_switch_mode _) = 0x0c
command (command_exec _) = 0x0d
command (command_exec_response _ _) = 0x0e
command (execute_data _ _) = 0x0f
command (execute_data_response _ _) = 0x10
command (rx_data _ _ _) = 0x11
command (rx_data_response _ _) = 0x12
command reset_state_machine = 0x13

unfoldable pub packet_length : Packet → ℕ
packet_length (hello _ _ _ _) = 48
packet_length (hello_response _ _ _ _) = 48
packet_length (read_data _ _ _) = 20
packet_length (end_image_transfer _ _) = 16
packet_length done = 8
packet_length (done_response _) = 12
packet_length reset = 8
packet_length reset_response = 8
packet_length (memory_debug _ _) = 16
packet_length (read_chip_id _ _ _ _ _ _ is_v3) = if is_v3 then 40 else 16
packet_length command_ready = 8
packet_length (command_switch_mode _) = 12
packet_length (command_exec _) = 12
packet_length (command_exec_response _ _) = 16
packet_length (execute_data _ _) = 16
packet_length (execute_data_response _ _) = 16
packet_length (rx_data _ _ _) = 20
packet_length (rx_data_response _ _) = 16
packet_length reset_state_machine = 8

-- The constructor of `ReadChipIdPacket`, which takes a packet with any V3 field for a V3 packet.
unfoldable pub make_read_chip_id : (chip_id_lo chip_id_hi serial msm oem model : ℕ) → Packet
make_read_chip_id lo hi serial msm oem model =
    read_chip_id lo hi serial msm oem model
      (not (serial == 0) || not (msm == 0) || not (oem == 0) || not (model == 0))

-- `setV3` of a packet that is a `ReadChipIdPacket`.
unfoldable pub set_v3 : Packet → Bool → Packet
set_v3 (read_chip_id lo hi serial msm oem model _) v3 = read_chip_id lo hi serial msm oem model v3
set_v3 p v3 = p
