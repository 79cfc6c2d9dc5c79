-- ===== src/Examples/Sahara.antt =====
-- Sahara packets and sessions: tests, and instances of the theorems.
use mboot_core.Prelude.{
  ℕ, ◌≡◌, ◌≢◌, refl, inl, arith, true, false, none, some, List, [], ◌∷◌, ◌++◌, map, flatten,
}
use mboot_core.Domain.{Result, ok, err, invalid_packet, protocol_mismatch, ByteBuffer, ◌>>=◌}
use mboot_core.Bytes.{le32, get32}
use mboot_core.Sahara.Packets.{Packet, hello, read_data, read_chip_id, command, packet_length}
use mboot_core.Sahara.Packets
use mboot_core.Sahara.Serializer.{serialize}
use mboot_core.Sahara.Parser.{read_u32, required_packet_length, parse_command, parse}
use mboot_core.Sahara.Parser.Frames.{IsFrame, parse-ok_iff}
use mboot_core.Sahara.RoundTrip.{parse-serialize}
use mboot_core.Sahara.Machine
use mboot_core.Sahara.Machine.{
  SaharaStateMachine, hello_received, reset_requested, end_image_received, cancel, fire, fire_all,
  state_id, ready, finished, error, sending_data, state_count,
}
use mboot_core.Sahara.Machine.Reach.{finished_unreachable}
use mboot_core.Sahara.Device.{no_device_info}
use mboot_core.Sahara.Protocol.{SaharaProtocol, Link, idle, failed, waiting_for_programmer}
use mboot_core.Sahara.Protocol
use mboot_core.Sahara.Protocol.Upload.{upload_programmer}
use mboot_core.Sahara.Protocol.Upload.Slices.{AddsSlices, upload-sends_slices}
use mboot_core.Sahara.Protocol.Upload.Served.{
  Request, request, image_end, upload-serves, upload-refuses,
}
use mboot_core.Sahara.Protocol.Upload.Assembled.{upload-assembles}
use mboot_core.Sahara.Protocol.Handshake.{handshake_run, select_version, is_mismatch}
use mboot_core.Sahara.Protocol.Handshake.Version.{IsCommon, select_version-greatest}
use mboot_core.Sahara.Protocol.Handshake.Outcome.{handshake-refuses, handshake-v3}
use mboot_core.Sahara.Protocol.Finish.{reset_run}
use mboot_core.Sahara.Protocol.Finish.Session.{reset-finishes}

abbrev greeting : Packet
greeting = hello 3 2 1024 0

abbrev ask : Packet
ask = read_data 13 0x40 0x1000

-- A read request: the two header words and three words, least significant byte first.
abbrev ask_bytes : ByteBuffer
ask_bytes =
    3 ∷ 0 ∷ 0 ∷ 0 ∷ 20 ∷ 0 ∷ 0 ∷ 0 ∷ 13 ∷ 0 ∷ 0 ∷ 0 ∷ 0x40 ∷ 0 ∷ 0 ∷ 0 ∷ 0 ∷ 0x10 ∷ 0 ∷ 0 ∷ []

serialize-ask : serialize ask ≡ ok ask_bytes
unfolding serialize le32
serialize-ask = refl

parse-ask : parse ask_bytes ≡ ok ask
unfolding parse parse_command read_u32 get32 required_packet_length
parse-ask = refl

parse_short : parse (1 ∷ 0 ∷ 0 ∷ 0 ∷ 48 ∷ 0 ∷ 0 ∷ 0 ∷ []) ≡ err invalid_packet
unfolding parse read_u32 get32
parse_short = refl

ask-IsFrame : IsFrame ask_bytes
unfolding get32 command packet_length
ask-IsFrame = record {
  has_header = omega arith;
  has_body = omega arith;
  packet = ask;
  known = refl;
  long_enough = omega arith;
}

parse-serialize_example : (serialize greeting >>= λ buf. parse (buf ++ 9 ∷ [])) ≡ ok greeting
parse-serialize_example = parse-serialize greeting (9 ∷ []) (omega arith)

parse-ok_iff_example : (p : Packet) × (parse ask_bytes ≡ ok p)
parse-ok_iff_example = (parse-ok_iff ask_bytes).1 ask-IsFrame

abbrev machine_in : ℕ → SaharaStateMachine
machine_in s = record { current_state = s; callback = some [] }

finished_unreachable_example :
    (fire_all Machine.new_machine (hello_received ∷ reset_requested ∷ [])).current_state
    ≢ state_id finished
finished_unreachable_example = (finished_unreachable (hello_received ∷ reset_requested ∷ [])).1

abbrev image : ByteBuffer
image = 1 ∷ 2 ∷ 3 ∷ 4 ∷ 5 ∷ 6 ∷ []

abbrev requests : List Request
requests =
    record { image_id = 13; offset = 0; size = 4 }
    ∷ record { image_id = 13; offset = 4; size = 2 }
    ∷ []

-- A protocol that is ready for an upload, with a script of the transport.
abbrev session : List (Result ByteBuffer) → List (Result ℕ) → ℕ → SaharaProtocol
session reads writes s = record {
  link = record { reads = reads; writes = writes; sent = []; cancelled = false };
  machine = machine_in s;
  phase = idle;
  errors = [];
  progress = none;
  cancelled = false;
  negotiated_version = 0;
  device_info = no_device_info;
}

abbrev uploading : SaharaProtocol
uploading = session (map request requests ++ image_end 13 0 ∷ []) (ok 4 ∷ ok 2 ∷ []) 3

upload-sends_slices_example : AddsSlices image [] (upload_programmer image uploading).0.link.sent
upload-sends_slices_example = upload-sends_slices image uploading

upload-serves_example :
    (upload_programmer image uploading).0.link.sent ≡ (1 ∷ 2 ∷ 3 ∷ 4 ∷ []) ∷ (5 ∷ 6 ∷ []) ∷ []
upload-serves_example =
    unfold Protocol.Upload.slice in
    (upload-serves image requests (4 ∷ 2 ∷ []) [] 13 [] uploading (omega arith) (omega arith) refl
      refl refl).2

abbrev beyond : Request
beyond = record { image_id = 13; offset = 4; size = 3 }

upload-refuses_example :
    (upload_programmer image (session (request beyond ∷ []) [] 3)).1 ≡ err invalid_packet
upload-refuses_example =
    (upload-refuses image [] beyond [] [] [] (session (request beyond ∷ []) [] 3) tt (omega arith)
      (omega arith) refl refl refl).0

upload-assembles_example : flatten (upload_programmer image uploading).0.link.sent ≡ image
upload-assembles_example =
    (upload-assembles image requests (4 ∷ 2 ∷ []) [] 13 [] uploading (omega arith) (omega arith)
      (refl, (refl, tt)) refl refl refl refl refl).1

select_version-greatest_example : IsCommon 3 2 (select_version 3 2)
select_version-greatest_example =
    (select_version-greatest 3 2 (unfold select_version is_mismatch in refl)).0

handshake-refuses_example :
    (handshake_run (session (serialize (hello 1 1 1024 0) ∷ []) [] 1)).1 ≡ err protocol_mismatch
handshake-refuses_example =
    (handshake-refuses 1 1 1024 0 (session (serialize (hello 1 1 1024 0) ∷ []) [] 1) []
      (omega arith) (λ v c. absurd (omega arith)) refl).0

abbrev greeted : SaharaProtocol
greeted =
    session (serialize greeting ∷ serialize (read_chip_id 7 8 1 2 3 4 true) ∷ []) (ok 48 ∷ []) 1

handshake-v3_example : (handshake_run greeted).0.negotiated_version ≡ 3
handshake-v3_example =
    (handshake-v3 3 2 1024 0 7 8 1 2 3 4 48 greeted [] [] (omega arith)
      (record { words_fit = omega arith; none_hidden = inl refl }) (omega arith) refl refl).2

abbrev finishing : SaharaProtocol
finishing =
    session (serialize (Packets.done_response 1) ∷ serialize Packets.reset_response ∷ [])
      (ok 8 ∷ ok 8 ∷ []) 5

reset-finishes_example : (reset_run finishing).0.phase ≡ Protocol.done
reset-finishes_example = (reset-finishes 1 8 8 finishing [] [] (omega arith) refl refl).1
