-- ===== src/Sahara/Protocol/Handshake/Outcome.antt =====
-- How a handshake ends, for each way in which a device can open it.
use mboot_core.Prelude.{
  ℕ, ◌≡◌, refl, ap, ◌⊎◌, inl, inr, arith, true, false, Bool-cases, List, [], ◌∷◌, ◌++◌,
}
use mboot_core.Domain.{protocol_mismatch, undefined_behaviour, Result, ok, err, stuck, ByteBuffer}
use mboot_core.Bytes.{IsU32}
use mboot_core.Sahara.Packets.{
  Packet, command, hello, hello_response, read_chip_id, end_image_transfer,
}
use mboot_core.Sahara.Packets.Fields.{FitsWire}
use mboot_core.Sahara.Serializer.{serialize}
use mboot_core.Sahara.RoundTrip.{packet_bytes}
use mboot_core.Sahara.Machine.{hello_received, hello_response_sent, error_occurred, fire}
use mboot_core.Sahara.Protocol.{SaharaProtocol, idle, handshake, failed, set_phase, fire_event}
use mboot_core.Sahara.Protocol.Exchange.{receive_packet-ok, send_packet-ok}
use mboot_core.Sahara.Protocol.Handshake.{
  select_version, is_mismatch, accept_hello, after_response, accept_chip_id, hello_info, set_info,
  handshake_run,
}
use mboot_core.Sahara.Protocol.Handshake.Version.{IsCommon, select_version-greatest}

receive_hello :
    (packet : Packet) (p : SaharaProtocol) (rs : List (Result ByteBuffer))
    → FitsWire packet
    → (command packet ≡ 0x01) ⊎ (command packet ≡ 0x04)
    → p.link.reads ≡ serialize packet ∷ rs
    → handshake_run p
      ≡ accept_hello
          (record p { link = record p.link { reads = rs }; phase = handshake }, ok packet)
unfolding handshake_run set_phase
receive_hello packet p rs v c h =
    ap accept_hello (receive_packet-ok 0x01 packet (set_phase handshake p) rs v c h)

-- A device that has no version in common with the host and sends a `HELLO` whose fields fit the wire
-- is refused with `ProtocolMismatch`: nothing is sent to it, and the refusal is on record.
pub handshake-refuses :
    (version version_supported size mode : ℕ) (p : SaharaProtocol) (rs : List (Result ByteBuffer))
    → FitsWire (hello version version_supported size mode)
    → ((v : ℕ) → ¬ IsCommon version version_supported v)
    → p.link.reads ≡ serialize (hello version version_supported size mode) ∷ rs
    → let (q, result) = handshake_run p in
      (result ≡ err protocol_mismatch)
      × (q.phase ≡ failed)
      × (q.errors ≡ p.errors ++ protocol_mismatch ∷ [])
      × (q.link.sent ≡ p.link.sent)
      × (q.machine ≡ fire p.machine error_occurred)
unfolding accept_hello command
handshake-refuses version sup size mode p rs v none h =
    let received = receive_hello (hello version sup size mode) p rs v (inl refl) h in
    elim (Bool-cases (is_mismatch (select_version version sup) version sup)) [
      | inl e ↦ rw (received, e) (refl, refl, refl, refl, refl)
      | inr e ↦ absurd (none _ (select_version-greatest version sup e).0)
    ]

-- A device that shares version 3 with the host and sends its chip identifier, in packets whose fields
-- fit the wire, is identified by it if the transport takes the answer: the host answers the `HELLO`
-- with version 3 and the mode of the device, and the handshake succeeds.
pub handshake-v3 :
    (version version_supported size mode lo hi serial msm oem model n : ℕ) (p : SaharaProtocol)
    (rs : List (Result ByteBuffer)) (ws : List (Result ℕ))
    → FitsWire (hello version version_supported size mode)
    → FitsWire (read_chip_id lo hi serial msm oem model true)
    → IsCommon version version_supported 3
    → p.link.reads
      ≡ serialize (hello version version_supported size mode)
        ∷ serialize (read_chip_id lo hi serial msm oem model true)
        ∷ rs
    → p.link.writes ≡ ok n ∷ ws
    → let (q, result) = handshake_run p in
      (result ≡ ok tt)
      × (q.phase ≡ idle)
      × (q.negotiated_version ≡ 3)
      × (q.link.sent ≡ p.link.sent ++ packet_bytes (hello_response 3 2 0 mode) ∷ [])
      × (q.device_info.serial_number ≡ serial)
      × (q.device_info.chip_id_lo ≡ lo)
      × (q.device_info.chip_id_hi ≡ hi)
      × (q.device_info.id.msm_id ≡ msm)
      × (q.device_info.id.oem_id ≡ oem)
      × (q.device_info.id.model_id ≡ model)
      × (q.machine ≡ fire (fire p.machine hello_received) hello_response_sent)
unfolding accept_hello command select_version after_response accept_chip_id
handshake-v3 version sup size mode lo hi serial msm oem model n p rs ws v c common h w =
    let chip = read_chip_id lo hi serial msm oem model true in
    let chosen : select_version version sup ≡ 3 = ground arith in
    let agreed : is_mismatch 3 version sup ≡ false = unfold is_mismatch in ground arith in
    let p1 = record p {
      link = record p.link { reads = serialize chip ∷ rs };
      phase = handshake;
      negotiated_version = 3;
    } in
    let p2 = fire_event hello_received (set_info (hello_info 3 mode) p1) in
    let p3 = record p2 {
      link = record p2.link {
        writes = ws;
        sent = p2.link.sent ++ packet_bytes (hello_response 3 2 0 mode) ∷ [];
      };
    } in
    let p4 = fire_event hello_response_sent p3 in
    rw
      (
        receive_hello (hello version sup size mode) p (serialize chip ∷ rs) v (inl refl) h,
        chosen,
        agreed,
        send_packet-ok (hello_response 3 2 0 mode) p2 n ws w,
        receive_packet-ok 0x0A chip p4 rs c (inl refl) refl,
      )
      (refl, refl, refl, refl, refl, refl, refl, refl, refl, refl, refl)

-- An `EndImageTransfer` in place of the `HELLO` passes `receivePacket`, and the handshake then reads
-- it as a `HelloPacket`, which it is not.
pub handshake-confusion :
    (image_id status : ℕ) (p : SaharaProtocol) (rs : List (Result ByteBuffer))
    → IsU32 image_id
    → IsU32 status
    → p.link.reads ≡ serialize (end_image_transfer image_id status) ∷ rs
    → (handshake_run p).1 ≡ stuck undefined_behaviour
unfolding accept_hello command
handshake-confusion image_id status p rs i s h =
    rw (receive_hello (end_image_transfer image_id status) p rs (omega arith) (inr refl) h)
