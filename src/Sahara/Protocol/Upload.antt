-- ===== src/Sahara/Protocol/Upload.antt =====
-- `SaharaProtocol::uploadProgrammer`: the device asks for blocks of the programmer image until it
-- declares the end of the image. The loop recurs on the reads that the link has left.
pub mod Slices
pub mod Served
pub mod Assembled
use mboot_core.Prelude.{
  ℕ, ◌+◌, ◌-◌, ◌||◌, ◌==◌, ltb, not, if◌then◌else◌, Option, none, some, List, [], ◌∷◌, length, take,
  drop,
}
use mboot_core.Domain.{
  invalid_packet, sahara_nak_read_data_error, undefined_behaviour, no_answer, Result, ok, err,
  stuck, ByteBuffer,
}
use mboot_core.Sahara.Packets.{Packet, command, end_image_transfer, read_data}
use mboot_core.Sahara.Machine.{read_data_received, data_sent, end_image_received}
use mboot_core.Sahara.Protocol.{
  SaharaProtocol, transferring, waiting_for_programmer, fire_event, set_phase, push_error,
  check_packet, write,
}

-- What one round of the loop ends with.
pub data Next : Type 0 where
  continue : Next
  break : Next
  leave : Result (Unit {0}) → Next

-- The bytes that a request names.
unfoldable pub slice : ByteBuffer → ℕ → ℕ → ByteBuffer
slice image offset size = take size (drop offset image)

unfoldable pub report_progress : ℕ → ℕ → Option (List (ℕ × ℕ)) → Option (List (ℕ × ℕ))
report_progress sent total none = none
report_progress sent total (some calls) = some ((sent, total) ∷ calls)

-- The answer to a read request.
unfoldable pub send_block : ByteBuffer → ℕ → ℕ → SaharaProtocol → SaharaProtocol × Next
unfolding fire_event slice report_progress
send_block image offset size p =
    if ltb (length image) size || ltb (length image - size) offset
    then (p, leave (err invalid_packet))
    else let (q, written) = write (slice image offset size) p in
      elim written [
        | ok _ ↦ (
          record (fire_event data_sent q) {
            progress = report_progress (offset + size) (length image) q.progress;
          },
          continue,
        )
        | err e ↦ (q, leave (err e))
        | stuck x ↦ (q, leave (stuck x))
      ]

-- The casts of the packet to the class that its command names.
unfoldable pub end_image : Packet → SaharaProtocol → SaharaProtocol × Next
unfolding push_error
end_image (end_image_transfer _ status) p =
    if not (status == 0)
    then (push_error sahara_nak_read_data_error p, leave (err sahara_nak_read_data_error))
    else (p, break)
end_image _ p = (p, leave (stuck undefined_behaviour))

unfoldable pub read_request : ByteBuffer → Packet → SaharaProtocol → SaharaProtocol × Next
unfolding fire_event
read_request image (read_data _ offset size) p =
    send_block image offset size (fire_event read_data_received p)
read_request image _ p = (p, leave (stuck undefined_behaviour))

-- The body of `while (true)`, on the packet that was received.
unfoldable pub upload_step : ByteBuffer → Result Packet → SaharaProtocol → SaharaProtocol × Next
unfolding end_image read_request
upload_step image (err e) p = (p, leave (err e))
upload_step image (stuck x) p = (p, leave (stuck x))
upload_step image (ok packet) p =
    if command packet == 0x04 then end_image packet p else read_request image packet p

-- What follows a round: the next one, or the end of the loop.
abbrev pub after_step :
    (SaharaProtocol → SaharaProtocol × Result (Unit {0}))
    → SaharaProtocol × Next
    → SaharaProtocol × Result (Unit {0})
after_step again (q, continue) = again q
after_step again (q, break) = (q, ok tt)
after_step again (q, leave result) = (q, result)

unfoldable pub upload_loop :
    ByteBuffer → List (Result ByteBuffer) → SaharaProtocol → SaharaProtocol × Result (Unit {0})
upload_loop image [] p = (p, stuck no_answer)
upload_loop image (r ∷ rs) p =
    after_step (upload_loop image rs)
      (upload_step image (check_packet 0x03 r) (record p { link = record p.link { reads = rs } }))

-- The end of the function, after the loop.
unfoldable pub end_upload : SaharaProtocol × Result (Unit {0}) → SaharaProtocol × Result (Unit {0})
unfolding fire_event set_phase
end_upload (q, ok _) = (set_phase waiting_for_programmer (fire_event end_image_received q), ok tt)
end_upload (q, err e) = (q, err e)
end_upload (q, stuck x) = (q, stuck x)

unfoldable pub upload_programmer : ByteBuffer → SaharaProtocol → SaharaProtocol × Result (Unit {0})
upload_programmer image p = end_upload (upload_loop image p.link.reads (set_phase transferring p))
