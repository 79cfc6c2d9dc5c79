-- ===== src/Sahara/Device.antt =====
-- lib/include/mbootcore/domain/Types.hpp: what the handshake learns of a device.
use mboot_core.Prelude.{ℕ, zero, suc, replicate}
use mboot_core.Domain.{ByteBuffer}

pub record ProtocolVersion : Type 0 where
  pub major : ℕ
  pub minor : ℕ

pub record DeviceId : Type 0 where
  pub msm_id : ℕ
  pub oem_id : ℕ
  pub model_id : ℕ
  pub pkhash : ByteBuffer

pub data SaharaMode : Type 0 where
  image_tx_pending command_mode streaming_mode : SaharaMode

-- A mode that the enum does not know is `ImageTxPending`.
unfoldable pub sahara_mode_from_raw : ℕ → SaharaMode
sahara_mode_from_raw zero = image_tx_pending
sahara_mode_from_raw (suc zero) = command_mode
sahara_mode_from_raw (suc (suc zero)) = streaming_mode
sahara_mode_from_raw (suc (suc (suc raw))) = image_tx_pending

-- `DeviceCapability::V3Supported`, a bit of the flags.
abbrev pub v3_supported : ℕ
v3_supported = 1

pub record DeviceInfo : Type 0 where
  pub version : ProtocolVersion
  pub mode : SaharaMode
  pub serial_number : ℕ
  pub chip_id_lo : ℕ
  pub chip_id_hi : ℕ
  pub id : DeviceId
  pub capabilities : ℕ

unfoldable pub no_device_info : DeviceInfo
no_device_info = record {
  version = record { major = 0; minor = 0 };
  mode = image_tx_pending;
  serial_number = 0;
  chip_id_lo = 0;
  chip_id_hi = 0;
  id = record { msm_id = 0; oem_id = 0; model_id = 0; pkhash = replicate 32 0 };
  capabilities = 0;
}
