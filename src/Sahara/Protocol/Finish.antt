-- ===== src/Sahara/Protocol/Finish.antt =====
-- `SaharaProtocol::reset`: DONE, its response, RESET and its response.
pub mod Session
use mboot_core.Domain.{Result, ok, err, stuck}
use mboot_core.Sahara.Packets.{done, reset}
use mboot_core.Sahara.Machine.{reset_requested, reset_response_recv}
use mboot_core.Sahara.Protocol
use mboot_core.Sahara.Protocol.{
  SaharaProtocol, M, after, fire_event, set_phase, receive_packet, send_packet,
}

unfoldable pub reset_run : M (Unit {0})
unfolding fire_event set_phase
reset_run p =
    after
      (λ _ q.
        after
          (λ _ r.
            after
              (λ _ s.
                after (λ _ t. (set_phase Protocol.done (fire_event reset_response_recv t), ok tt))
                  (receive_packet 0x08 (fire_event reset_requested s)))
              (send_packet reset r))
          (receive_packet 0x06 q))
      (send_packet done p)
