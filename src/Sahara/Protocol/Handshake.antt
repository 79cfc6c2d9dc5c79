-- ===== src/Sahara/Protocol/Handshake.antt =====
-- `SaharaProtocol::handshake` and `performV2Discovery`.
pub mod Version
pub mod Outcome
use mboot_core.Prelude.{
  ℕ, ◌+◌, Bool, ◌&&◌, ◌||◌, ◌==◌, ltb, leb, not, if◌then◌else◌, List, [], ◌∷◌, length, take, drop,
  bit_or,
}
use mboot_core.Domain.{
  protocol_mismatch, unexpected_packet, undefined_behaviour, Result, ok, err, stuck, ByteBuffer,
}
use mboot_core.Bytes.{get32}
use mboot_core.Sahara.Packets.{
  Packet, command, hello, hello_response, read_chip_id, command_exec, command_exec_response,
}
use mboot_core.Sahara.Parser.{parse}
use mboot_core.Sahara.Machine.{error_occurred, hello_received, hello_response_sent}
use mboot_core.Sahara.Device.{DeviceInfo, sahara_mode_from_raw, v3_supported}
use mboot_core.Sahara.Protocol.{
  SaharaProtocol, M, idle, handshake, failed, default_version, default_version_supported,
  hello_response_success, after, return, fire_event, set_phase, push_error, read, receive_packet,
  send_packet,
}

-- `selectVersion`, on the two version words of a `HelloPacket`.
unfoldable pub select_version : ℕ → ℕ → ℕ
select_version version version_supported =
    if leb version_supported default_version && leb default_version version
    then default_version
    else if leb default_version_supported version && leb version default_version
    then version
    else version_supported

-- The test after it: the choice lies outside the versions of the host or of the device.
unfoldable pub is_mismatch : ℕ → ℕ → ℕ → Bool
is_mismatch negotiated version version_supported =
    ltb negotiated default_version_supported
    || ltb default_version negotiated
    || ltb negotiated version_supported
    || ltb version negotiated

unfoldable pub set_info : (DeviceInfo → DeviceInfo) → SaharaProtocol → SaharaProtocol
set_info f p = record p { device_info = f p.device_info }

-- The error branches of `handshake` before the session is agreed on.
unfoldable pub abort : SaharaProtocol → SaharaProtocol
unfolding fire_event set_phase
abort p = set_phase failed (fire_event error_occurred p)

-- One query of `performV2Discovery`: what the payload of its response says.
unfoldable pub read_payload : ℕ → ℕ → ByteBuffer → DeviceInfo → DeviceInfo
read_payload client_cmd size buf d =
    if not (ltb 0 size && leb (16 + size) (length buf))
    then d
    else if client_cmd == 1 && leb 4 size
    then record d { serial_number = get32 buf 16 }
    else if client_cmd == 2 && leb 12 size
    then record d {
      id = record d.id { msm_id = get32 buf 16; oem_id = get32 buf 20; model_id = get32 buf 24 };
    }
    else if client_cmd == 3 && leb 32 size
    then record d { id = record d.id { pkhash = take 32 (drop 16 buf) } }
    else d

-- The cast to `CommandExecResponsePacket` of a packet with command 0x0E.
unfoldable pub accept_response : ℕ → ByteBuffer → Packet → M (Unit {0})
unfolding set_info
accept_response client_cmd buf (command_exec_response cmd size) p =
    if not (cmd == client_cmd)
    then (p, err unexpected_packet)
    else (set_info (read_payload client_cmd size buf) p, ok tt)
accept_response client_cmd buf _ p = (p, stuck undefined_behaviour)

unfoldable pub query : ℕ → M (Unit {0})
query client_cmd p =
    after
      (λ _ q.
        after
          (λ buf r.
            after
              (λ packet s.
                if not (command packet == 0x0E)
                then (s, err unexpected_packet)
                else accept_response client_cmd buf packet s)
              (r, parse buf))
          (read q))
      (send_packet (command_exec client_cmd) p)

unfoldable pub discover : List ℕ → M (Unit {0})
discover [] p = (p, ok tt)
discover (c ∷ cs) p = after (λ _. discover cs) (query c p)

unfoldable pub perform_v2_discovery : M (Unit {0})
perform_v2_discovery = discover (1 ∷ 2 ∷ 3 ∷ [])

-- The last steps: a discovery that fails is ignored.
unfoldable pub finish_discovery :
    SaharaProtocol × Result (Unit {0}) → SaharaProtocol × Result (Unit {0})
unfolding set_phase
finish_discovery (p, ok _) = (set_phase idle p, ok tt)
finish_discovery (p, err e) = (set_phase idle p, ok tt)
finish_discovery (p, stuck x) = (p, stuck x)

-- The V3 branch, on what was received for the chip identifier: the cast is to `ReadChipIdPacket`.
unfoldable pub accept_chip_id : SaharaProtocol × Result Packet → SaharaProtocol × Result (Unit {0})
unfolding set_info set_phase finish_discovery
accept_chip_id (p, ok (read_chip_id lo hi serial msm oem model _)) = (
  set_phase idle (
      set_info
        (λ d. record d {
          chip_id_lo = lo;
          chip_id_hi = hi;
          serial_number = serial;
          id = record d.id { msm_id = msm; oem_id = oem; model_id = model };
        })
        p),
  ok tt,
)
accept_chip_id (p, ok _) = (p, stuck undefined_behaviour)
accept_chip_id (p, err e) = finish_discovery (perform_v2_discovery p)
accept_chip_id (p, stuck x) = (p, stuck x)

-- From the response that was sent on.
unfoldable pub after_response :
    SaharaProtocol × Result (Unit {0}) → SaharaProtocol × Result (Unit {0})
unfolding abort fire_event accept_chip_id
after_response (p, ok _) =
    let q = fire_event hello_response_sent p in
    if leb 3 q.negotiated_version
    then accept_chip_id (receive_packet 0x0A q)
    else finish_discovery (perform_v2_discovery q)
after_response (p, err e) = (abort p, err e)
after_response (p, stuck x) = (p, stuck x)

-- The device information that the `HELLO` packet gives.
unfoldable pub hello_info : ℕ → ℕ → DeviceInfo → DeviceInfo
hello_info negotiated mode d = record d {
  version = record d.version { major = negotiated };
  mode = sahara_mode_from_raw mode;
  capabilities = if leb 3 negotiated then bit_or d.capabilities v3_supported else d.capabilities;
}

-- On the packet that was received as `HELLO`: the cast is to `HelloPacket`.
unfoldable pub accept_hello : SaharaProtocol × Result Packet → SaharaProtocol × Result (Unit {0})
unfolding abort push_error fire_event set_info
accept_hello (p, ok (hello version version_supported _ mode)) =
    let negotiated = select_version version version_supported in
    let q = record p { negotiated_version = negotiated } in
    if is_mismatch negotiated version version_supported
    then (abort (push_error protocol_mismatch q), err protocol_mismatch)
    else after_response (
        send_packet
          (hello_response negotiated default_version_supported hello_response_success mode)
          (fire_event hello_received (set_info (hello_info negotiated mode) q)))
accept_hello (p, ok _) = (p, stuck undefined_behaviour)
accept_hello (p, err e) = (abort p, err e)
accept_hello (p, stuck x) = (p, stuck x)

unfoldable pub handshake_run : M (Unit {0})
unfolding set_phase
handshake_run p = accept_hello (receive_packet 0x01 (set_phase handshake p))
