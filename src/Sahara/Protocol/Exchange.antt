-- ===== src/Sahara/Protocol/Exchange.antt =====
-- The exchange of one packet with a device that answers.
use mboot_core.Prelude.{ℕ, ◌≡◌, ◌⊎◌, arith, List, [], ◌∷◌, ◌++◌}
use mboot_core.Domain.{Result, ok, ByteBuffer}
use mboot_core.Sahara.Packets.{Packet, command}
use mboot_core.Sahara.Packets.Fields.{FitsWire}
use mboot_core.Sahara.Serializer.{serialize}
use mboot_core.Sahara.Parser.{parse}
use mboot_core.Sahara.RoundTrip.{
  parse-serialize_self, serialize-length, packet_bytes, serialize-bytes,
}
use mboot_core.Sahara.Protocol.{
  SaharaProtocol, check_packet, read, read_from, write, write_to, receive_packet, send_packet,
}

-- A packet on the wire passes if it is the expected one, or the end of an image.
pub check_packet-serialize :
    (expected : ℕ) (p : Packet)
    → FitsWire p
    → (command p ≡ expected) ⊎ (command p ≡ 0x04)
    → check_packet expected (serialize p) ≡ ok p
unfolding check_packet
check_packet-serialize expected p v h =
    let (buf, e, n) = serialize-length p in
    let parsed : parse buf ≡ ok p = rw e at (parse-serialize_self p v) in
    rw (e, parsed) (ground arith)

pub write-ok :
    (buf : ByteBuffer) (p : SaharaProtocol) (n : ℕ) (ws : List (Result ℕ))
    → p.link.writes ≡ ok n ∷ ws
    → write buf p
      ≡ (record p { link = record p.link { writes = ws; sent = p.link.sent ++ buf ∷ [] } }, ok n)
unfolding write write_to
write-ok buf p n ws h = rw (h, write_to)

pub send_packet-ok :
    (packet : Packet) (p : SaharaProtocol) (n : ℕ) (ws : List (Result ℕ))
    → p.link.writes ≡ ok n ∷ ws
    → send_packet packet p ≡ (
      record p {
        link = record p.link { writes = ws; sent = p.link.sent ++ packet_bytes packet ∷ [] };
      },
      ok tt,
    )
unfolding send_packet
send_packet-ok packet p n ws h =
    rw (serialize-bytes packet, write-ok (packet_bytes packet) p n ws h)

pub receive_packet-ok :
    (expected : ℕ) (packet : Packet) (p : SaharaProtocol) (rs : List (Result ByteBuffer))
    → FitsWire packet
    → (command packet ≡ expected) ⊎ (command packet ≡ 0x04)
    → p.link.reads ≡ serialize packet ∷ rs
    → receive_packet expected p ≡ (record p { link = record p.link { reads = rs } }, ok packet)
unfolding receive_packet read
receive_packet-ok expected packet p rs v c h =
    let received = check_packet-serialize expected packet v c in rw (h, read_from, received)
