-- ===== src/Sahara/Protocol.antt =====
-- lib/include/mbootcore/core/protocols/sahara/SaharaProtocol.hpp and
-- lib/src/core/protocols/sahara/SaharaProtocol.cpp: the host's side of a session, its state, and
-- the exchange of single packets. Logging is left out. The transport is any device behind
-- `ITransport`: the list of the results that its reads will give, and of those of its writes. A
-- call for which it has no result left waits for ever.
pub mod Exchange
pub mod Handshake
pub mod Upload
pub mod Finish
use mboot_core.Prelude.{
  ℕ, Bool, true, false, not, ◌&&◌, ◌==◌, if◌then◌else◌, Option, none, List, [], ◌∷◌, ◌++◌,
}
use mboot_core.Domain.{
  ErrorCode, unexpected_packet, Fault, no_answer, Result, ok, err, stuck, ◌>>=◌, ByteBuffer,
}
use mboot_core.Sahara.Packets.{Packet, command}
use mboot_core.Sahara.Serializer.{serialize}
use mboot_core.Sahara.Parser.{parse}
use mboot_core.Sahara.Machine.{SaharaStateMachine, SaharaEvent, fire}
use mboot_core.Sahara.Machine
use mboot_core.Sahara.Device.{DeviceInfo, no_device_info}

-- `lib/include/mbootcore/domain/IProtocol.hpp`.
pub data ProtocolPhase : Type 0 where
  idle handshake transferring waiting_for_programmer firehose_ready failed done : ProtocolPhase

pub record Link : Type 0 where
  pub reads : List (Result ByteBuffer)
  pub writes : List (Result ℕ)
  pub sent : List ByteBuffer
  pub cancelled : Bool

-- `m_progressCallback` is `none` until one is set; then it holds the calls made so far.
pub record SaharaProtocol : Type 0 where
  pub link : Link
  pub machine : SaharaStateMachine
  pub phase : ProtocolPhase
  pub errors : List ErrorCode
  pub progress : Option (List (ℕ × ℕ))
  pub cancelled : Bool
  pub negotiated_version : ℕ
  pub device_info : DeviceInfo

abbrev pub default_version : ℕ
default_version = 3

abbrev pub default_version_supported : ℕ
default_version_supported = 2

abbrev pub hello_response_success : ℕ
hello_response_success = 0

-- A method: the new state of the protocol, and how it returned. What follows a failure is skipped.
abbrev pub M {ℓ} : Type ℓ → Type ℓ
M A = SaharaProtocol → SaharaProtocol × Result A

abbrev pub after {ℓ κ} :
    {A : Type ℓ} {B : Type κ} → (A → M B) → SaharaProtocol × Result A → SaharaProtocol × Result B
after f (p, ok a) = f a p
after f (p, err e) = (p, err e)
after f (p, stuck x) = (p, stuck x)

abbrev pub return {ℓ} : {A : Type ℓ} → Result A → M A
return r p = (p, r)

-- A change of the state.
abbrev pub modify : (SaharaProtocol → SaharaProtocol) → M (Unit {0})
modify f p = (f p, ok tt)

unfoldable pub fire_event : SaharaEvent → SaharaProtocol → SaharaProtocol
fire_event e p = record p { machine = fire p.machine e }

unfoldable pub set_phase : ProtocolPhase → SaharaProtocol → SaharaProtocol
set_phase f p = record p { phase = f }

unfoldable pub push_error : ErrorCode → SaharaProtocol → SaharaProtocol
push_error e p = record p { errors = p.errors ++ e ∷ [] }

-- `m_transport.read`.
unfoldable pub read_from : List (Result ByteBuffer) → M ByteBuffer
read_from [] p = (p, stuck no_answer)
read_from (r ∷ rs) p = (record p { link = record p.link { reads = rs } }, r)

unfoldable pub read : M ByteBuffer
unfolding read_from
read p = read_from p.link.reads p

-- `m_transport.write`, whose count of bytes the protocol ignores.
unfoldable pub write_to : List (Result ℕ) → ByteBuffer → M ℕ
write_to [] buf p = (p, stuck no_answer)
write_to (r ∷ rs) buf p =
    (record p { link = record p.link { writes = rs; sent = p.link.sent ++ buf ∷ [] } }, r)

unfoldable pub write : ByteBuffer → M ℕ
unfolding write_to
write buf p = write_to p.link.writes buf p

-- What `receivePacket` makes of the bytes: an `EndImageTransfer` passes whatever was expected.
unfoldable pub check_packet : ℕ → Result ByteBuffer → Result Packet
check_packet expected r = do
  buffer ← r
  packet ← parse buffer
  if not (command packet == expected) && not (command packet == 0x04)
      then err unexpected_packet
      else ok packet

unfoldable pub receive_packet : ℕ → M Packet
unfolding check_packet
receive_packet expected p = let (p', r) = read p in (p', check_packet expected r)

unfoldable pub send_packet : Packet → M (Unit {0})
send_packet packet p =
    after (λ buf. λ q. after (λ _. return (ok tt)) (write buf q)) (p, serialize packet)

unfoldable pub cancel : SaharaProtocol → SaharaProtocol
cancel p = record p { cancelled = true; link = record p.link { cancelled = true } }

unfoldable pub reset_state : SaharaProtocol → SaharaProtocol
reset_state p = record p {
  phase = idle;
  errors = [];
  cancelled = false;
  machine = Machine.reset p.machine;
  negotiated_version = 0;
  device_info = no_device_info;
}
