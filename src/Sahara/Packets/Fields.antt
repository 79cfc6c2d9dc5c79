-- ===== src/Sahara/Packets/Fields.antt =====
-- The words of a packet, and the packets that the wire format can carry.
use mboot_core.Prelude.{ℕ, ◌≡◌, ◌⊎◌, true, if◌then◌else◌, List, [], ◌∷◌, All}
use mboot_core.Bytes.{IsU32}
use mboot_core.Sahara.Packets.{
  Packet, hello, hello_response, read_data, end_image_transfer, done, done_response, reset,
  reset_response, memory_debug, read_chip_id, command_ready, command_switch_mode, command_exec,
  command_exec_response, execute_data, execute_data_response, rx_data, rx_data_response,
  reset_state_machine,
}

-- The fields in the order of the wire.
abbrev pub fields : Packet → List ℕ
fields (hello version version_supported cmd_packet_length mode) =
    version ∷ version_supported ∷ cmd_packet_length ∷ mode ∷ []
fields (hello_response version version_supported status mode) =
    version ∷ version_supported ∷ status ∷ mode ∷ []
fields (read_data image_id data_offset data_length) = image_id ∷ data_offset ∷ data_length ∷ []
fields (end_image_transfer image_id status) = image_id ∷ status ∷ []
fields done = []
fields (done_response image_tx_status) = image_tx_status ∷ []
fields reset = []
fields reset_response = []
fields (memory_debug mem_table_addr mem_table_len) = mem_table_addr ∷ mem_table_len ∷ []
fields (read_chip_id lo hi serial msm oem model v3) =
    lo ∷ hi ∷ (if v3 then serial ∷ msm ∷ oem ∷ model ∷ [] else [])
fields command_ready = []
fields (command_switch_mode mode) = mode ∷ []
fields (command_exec client_cmd) = client_cmd ∷ []
fields (command_exec_response client_cmd resp_length) = client_cmd ∷ resp_length ∷ []
fields (execute_data client_cmd data_length) = client_cmd ∷ data_length ∷ []
fields (execute_data_response client_cmd status) = client_cmd ∷ status ∷ []
fields (rx_data image_id data_offset data_length) = image_id ∷ data_offset ∷ data_length ∷ []
fields (rx_data_response image_id status) = image_id ∷ status ∷ []
fields reset_state_machine = []

-- A V2 chip identifier has no place for the V3 fields, which are then 0.
abbrev pub NoHiddenField : Packet → Type 0
NoHiddenField (read_chip_id _ _ serial msm oem model v3) =
    (v3 ≡ true) ⊎ ((serial ≡ 0) × (msm ≡ 0) × (oem ≡ 0) × (model ≡ 0))
NoHiddenField _ = Unit {0}

-- Every field is a `uint32_t`, and none is lost on the wire.
pub record FitsWire (p : Packet) : Type 0 where
  pub words_fit : All IsU32 (fields p)
  pub none_hidden : NoHiddenField p
