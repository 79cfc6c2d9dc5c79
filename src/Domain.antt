-- ===== src/Domain.antt =====
-- lib/include/mbootcore/domain/Error.hpp: the error codes and the result of a fallible operation.
-- A `Result<T>` holds a value or an `ErrorInfo`; the modelled code sets only its code. A third
-- outcome, `stuck`, stands for a call that does not return a value of its type at all: undefined
-- behaviour of the C++ code, an exception, a wait for a device that never answers, or a loop that
-- has used up the rounds that the model gives it.
use mboot_core.Prelude.{◌≡◌, refl, ◌⊎◌, inl, inr, ℕ, List}

-- The members of the enum, in the order of the source.
pub data ErrorCode : Type 0 where
  success unknown not_supported invalid_argument transport_error transport_timeout : ErrorCode
  transport_disconnected transport_write_failed transport_read_failed protocol_error : ErrorCode
  protocol_mismatch invalid_packet unexpected_packet invalid_state unsupported_version : ErrorCode
  sahara_nak_success sahara_nak_invalid_cmd sahara_nak_protocol_mismatch : ErrorCode
  sahara_nak_invalid_target_proto sahara_nak_invalid_host_proto sahara_nak_invalid_pkt_size :
      ErrorCode
  sahara_nak_unexpected_pkt sahara_nak_invalid_transfer_mode sahara_nak_invalid_host_id : ErrorCode
  sahara_nak_timeout_rx sahara_nak_timeout_tx sahara_nak_invalid_mode : ErrorCode
  sahara_nak_invalid_host_req sahara_nak_read_data_error sahara_nak_write_data_error : ErrorCode
  sahara_nak_invalid_mem_table sahara_nak_invalid_mem_info sahara_nak_mem_debug_not_sup : ErrorCode
  sahara_nak_mem_read_failed sahara_nak_invalid_img_id sahara_nak_img_not_found : ErrorCode
  sahara_nak_img_auth_failed sahara_nak_img_too_large sahara_nak_auth_failed : ErrorCode
  sahara_nak_invalid_img_hdr sahara_nak_img_hdr_invalid_ver sahara_nak_invalid_signature : ErrorCode
  sahara_nak_invalid_hash sahara_nak_fatal sahara_nak_cmd_exec_failure : ErrorCode
  sahara_nak_img_enc_failed sahara_nak_img_hdr_auth_failed sahara_nak_img_hdr_ver_failed : ErrorCode
  sahara_nak_img_hdr_mac_failed sahara_nak_img_hdr_mac_not_found : ErrorCode
  sahara_nak_img_hdr_sign_failed sahara_nak_img_hdr_sign_not_found : ErrorCode
  sahara_nak_invalid_img_content sahara_nak_invalid_programmer sahara_nak_programmer_auth_fail :
      ErrorCode
  sahara_nak_programmer_mismatch loader_not_found loader_rejected loader_invalid_format : ErrorCode
  loader_version_mismatch invalid_elf cache_miss cancelled already_exists device_not_found :
      ErrorCode
  elf_segment_overlap elf_truncated elf_unsupported_machine device_disconnected : ErrorCode
  device_access_denied firehose_nak firehose_sector_out_of_range firehose_program_failed : ErrorCode
  firehose_erase_failed firehose_unsupported_memory firehose_invalid_param firehose_seq_error :
      ErrorCode
  firehose_timeout firehose_crc_mismatch firehose_partial_write gpt_corrupted : ErrorCode
  gpt_invalid_header gpt_invalid_entry gpt_primary_missing gpt_backup_missing gpt_crc_mismatch :
      ErrorCode
  partition_not_found partition_overlap invalid_image image_too_large device_not_identified :
      ErrorCode
  negotiation_failed no_matching_protocol enumeration_failed probe_failed detector_conflict :
      ErrorCode
  registry_empty session_not_connected session_already_connected session_busy session_timeout :
      ErrorCode
  session_terminal session_limit_exceeded plugin_load_failed plugin_init_failed : ErrorCode
  plugin_shutdown_failed plugin_not_found plugin_incompatible plugin_dependency_missing : ErrorCode
  plugin_circular_dependency plugin_duplicate plugin_already_loaded plugin_not_loaded : ErrorCode
  plugin_registration_failed plugin_unregistration_failed plugin_version_mismatch : ErrorCode
  plugin_config_invalid job_failed job_cancelled job_timeout job_invalid_state : ErrorCode
  job_dependency_failed job_not_found job_already_running job_queue_full job_recovery_failed :
      ErrorCode
  job_rollback_failed job_invalid_config job_device_not_ready job_data_mismatch : ErrorCode
  job_insufficient_space firmware_invalid_format firmware_image_not_found : ErrorCode
  firmware_hash_mismatch firmware_invalid_manifest firmware_dependency_conflict : ErrorCode
  firmware_unsupported_device firmware_unsupported_vendor firmware_unsupported_storage : ErrorCode
  firmware_duplicate_partition firmware_missing_programmer firmware_validation_failed : ErrorCode
  firmware_extraction_failed firmware_package_corrupted firmware_version_mismatch : ErrorCode
  firmware_package_not_found firmware_not_enough_images workflow_invalid_state : ErrorCode
  workflow_step_failed workflow_rollback_failed workflow_cancelled workflow_timeout : ErrorCode
  workflow_step_not_found workflow_execution_failed workflow_recovery_failed : ErrorCode
  transport_not_open transport_already_open transport_busy transport_invalid_endpoint : ErrorCode
  transport_buffer_full transport_partial_transfer transport_reconnect_failed : ErrorCode
  transport_hotplug_removed transport_hotplug_arrived transport_enumeration_failed : ErrorCode
  transport_backend_unavailable transport_async_cancelled transport_retry_exhausted : ErrorCode
  transport_buffer_too_small crypto_initialization_failed crypto_hash_failed : ErrorCode
  crypto_signature_verify_failed crypto_key_load_failed crypto_invalid_padding : ErrorCode
  crypto_verification_failed : ErrorCode

-- Why a call has no result.
pub data Fault : Type 0 where
  undefined_behaviour uncaught_exception no_answer out_of_fuel : Fault

pub data Result {ℓ} (A : Type ℓ) : Type ℓ where
  ok : A → Result A
  err : ErrorCode → Result A
  stuck : Fault → Result A

-- `MBOOT_TRY` and the returns of a callee's error.
infixl 5 ◌>>=◌ ◌>>◌
abbrev pub ◌>>=◌ {ℓ κ} : {A : Type ℓ} {B : Type κ} → Result A → (A → Result B) → Result B
ok a >>= f = f a
err e >>= f = err e
stuck x >>= f = stuck x

abbrev pub ◌>>◌ {ℓ} : {B : Type ℓ} → Result (Unit {0}) → Result B → Result B
m >> k = m >>= λ _. k

pub Result-cases {ℓ} :
    {A : Type ℓ} (r : Result A)
    → ((a : A) × (r ≡ ok a)) ⊎ ((e : ErrorCode) × (r ≡ err e)) ⊎ ((x : Fault) × (r ≡ stuck x))
Result-cases (ok a) = inl (a, refl)
Result-cases (err e) = inr (inl (e, refl))
Result-cases (stuck x) = inr (inr (x, refl))

-- A call that succeeds with a value for which a predicate holds.
abbrev pub Gives {ℓ} : {A : Type ℓ} → (A → Type 0) → Result A → Type 0
Gives P (ok a) = P a
Gives P (err e) = ⊥
Gives P (stuck x) = ⊥

pub bind-Gives {ℓ κ} :
    {A : Type ℓ} {B : Type κ} (P : A → Type 0) (Q : B → Type 0) (r : Result A) (f : A → Result B)
    → Gives P r
    → ((a : A) → P a → Gives Q (f a))
    → Gives Q (r >>= f)
bind-Gives P Q (ok a) f h g = g a h
bind-Gives P Q (err e) f h g = absurd h
bind-Gives P Q (stuck x) f h g = absurd h

pub Gives-map {ℓ} :
    {A : Type ℓ} (P Q : A → Type 0) (r : Result A) → ((a : A) → P a → Q a) → Gives P r → Gives Q r
Gives-map P Q (ok a) f h = f a h
Gives-map P Q (err e) f h = absurd h
Gives-map P Q (stuck x) f h = absurd h

-- `std::vector<uint8_t>`; that each element is below 256 is the predicate `IsByte` of Bytes.
abbrev pub ByteBuffer : Type 0
ByteBuffer = List ℕ
