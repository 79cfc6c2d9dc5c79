-- ===== src/Sahara/Protocol/Finish/Session.antt =====
-- A session from the upload to the reset, and the state machine beside it.
use mboot_core.Prelude.{ℕ, ◌≡◌, refl, ap, ◌∙◌, inl, arith, List, [], ◌∷◌, ◌++◌}
use mboot_core.Domain.{Result, ok, ByteBuffer}
use mboot_core.Bytes.{IsU32}
use mboot_core.Sahara.Packets.{command, done, done_response, reset, reset_response}
use mboot_core.Sahara.Serializer.{serialize}
use mboot_core.Sahara.RoundTrip.{packet_bytes}
use mboot_core.Sahara.Machine.{
  reset_requested, reset_response_recv, sending_data, state_id, fire, fire_all,
}
use mboot_core.Sahara.Machine.Reach.{sending_data_stays}
use mboot_core.Sahara.Protocol
use mboot_core.Sahara.Protocol.{
  SaharaProtocol, after, set_phase, fire_event, receive_packet, send_packet,
}
use mboot_core.Sahara.Protocol.Exchange.{receive_packet-ok, send_packet-ok}
use mboot_core.Sahara.Protocol.Finish.{reset_run}

-- A device that answers DONE and RESET is reset, whatever status the DONE response carries, if the
-- transport takes both packets: they are sent in this order, and the phase is `Finished`.
pub reset-finishes :
    (status n m : ℕ) (p : SaharaProtocol) (rs : List (Result ByteBuffer)) (ws : List (Result ℕ))
    → IsU32 status
    → p.link.reads ≡ serialize (done_response status) ∷ serialize reset_response ∷ rs
    → p.link.writes ≡ ok n ∷ ok m ∷ ws
    → let (q, result) = reset_run p in
      (result ≡ ok tt)
      × (q.phase ≡ Protocol.done)
      × (q.link.sent ≡ (p.link.sent ++ packet_bytes done ∷ []) ++ packet_bytes reset ∷ [])
      × (q.machine ≡ fire (fire p.machine reset_requested) reset_response_recv)
unfolding reset_run command fire_event set_phase
reset-finishes status n m p rs ws v h w =
    let p1 = record p {
      link = record p.link { writes = ok m ∷ ws; sent = p.link.sent ++ packet_bytes done ∷ [] };
    } in
    let p2 = record p1 { link = record p1.link { reads = serialize reset_response ∷ rs } } in
    let p3 = record p2 {
      link = record p2.link { writes = ws; sent = p2.link.sent ++ packet_bytes reset ∷ [] };
    } in
    let asked = fire_event reset_requested p3 in
    rw
      (
        send_packet-ok done p n (ok m ∷ ws) w,
        receive_packet-ok 0x06 (done_response status) p1 (serialize reset_response ∷ rs)
            (omega arith) (inl refl) h,
        send_packet-ok reset p2 m ws refl,
        receive_packet-ok 0x08 reset_response asked rs (omega arith) (inl refl)
            (unfold fire_event in refl),
      )
      (refl, refl, refl, refl)

-- The machine does not follow a session: if it was in `SendingData`, as it is once a block was
-- sent, it is in `SendingData` after the reset too, though the protocol's phase is `Finished`.
pub reset-SendingData :
    (status n m : ℕ) (p : SaharaProtocol) (rs : List (Result ByteBuffer)) (ws : List (Result ℕ))
    → IsU32 status
    → p.link.reads ≡ serialize (done_response status) ∷ serialize reset_response ∷ rs
    → p.link.writes ≡ ok n ∷ ok m ∷ ws
    → p.machine.current_state ≡ state_id sending_data
    → let q = (reset_run p).0 in
      (q.phase ≡ Protocol.done) × (q.machine.current_state ≡ state_id sending_data)
unfolding fire_all
reset-SendingData status n m p rs ws v h w s =
    let finished = reset-finishes status n m p rs ws v h w in
    let stays =
      sending_data_stays p.machine (reset_requested ∷ reset_response_recv ∷ []) s
        ((λ e. cc, λ e. cc), ((λ e. cc, λ e. cc), tt)) in
    (finished.1, ap (λ m. m.current_state) (finished.3 ∙ stays) ∙ s)
