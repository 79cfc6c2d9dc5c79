-- ===== src/Sahara/Protocol/Upload/Slices.antt =====
-- What the upload sends, for any device: slices of the image, and nothing else.
use mboot_core.Prelude.{
  ℕ, ◌+◌, ◌≤◌, ◌≡◌, refl, sym, ◌∙◌, ap, ◌⊎◌, inl, inr, arith, ◌==◌, List, [], ◌∷◌, ◌++◌,
  append_assoc, append-nil, length, All, All-append, Bool-cases,
}
use mboot_core.Domain.{Result, ok, err, stuck, ByteBuffer}
use mboot_core.Sahara.Packets.{Packet, command, end_image_transfer, read_data}
use mboot_core.Sahara.Machine.{read_data_received}
use mboot_core.Sahara.Protocol.{
  SaharaProtocol, transferring, set_phase, fire_event, check_packet, write, write_to,
}
use mboot_core.Sahara.Protocol.Upload.{
  Next, continue, break, leave, slice, send_block, end_image, read_request, upload_step,
  upload_loop, upload_programmer, after_step, end_upload,
}

-- A run of bytes that the image holds.
pub record IsSlice (image : ByteBuffer) (bytes : ByteBuffer) : Type 0 where
  pub offset : ℕ
  pub size : ℕ
  pub in_image : offset + size ≤ length image
  pub is_slice : bytes ≡ slice image offset size

-- What was sent later is what was sent before, and then slices of the image.
abbrev pub AddsSlices : ByteBuffer → List ByteBuffer → List ByteBuffer → Type 0
AddsSlices image before later =
    (bs : List ByteBuffer) × (later ≡ before ++ bs) × All (IsSlice image) bs

AddsSlices-refl :
    (image : ByteBuffer) (before later : List ByteBuffer)
    → later ≡ before
    → AddsSlices image before later
AddsSlices-refl image before later e = ([], e ∙ sym (append-nil before), tt)

AddsSlices-trans :
    (image : ByteBuffer) (l m n : List ByteBuffer)
    → AddsSlices image l m
    → AddsSlices image m n
    → AddsSlices image l n
AddsSlices-trans image l m n (bs, e, h) (cs, f, k) = (
  bs ++ cs,
  f ∙ ap (λ (x : List ByteBuffer). x ++ cs) e ∙ append_assoc l bs cs,
  All-append (IsSlice image) bs cs h k,
)

write_to-sent :
    (ws : List (Result ℕ)) (buf : ByteBuffer) (p : SaharaProtocol)
    → ((write_to ws buf p).0.link.sent ≡ p.link.sent)
      ⊎ ((write_to ws buf p).0.link.sent ≡ p.link.sent ++ buf ∷ [])
unfolding write_to
write_to-sent [] buf p = inl refl
write_to-sent (r ∷ ws) buf p = inr refl

write-sends :
    (image : ByteBuffer) (o n : ℕ) (p : SaharaProtocol)
    → o + n ≤ length image
    → AddsSlices image p.link.sent (write (slice image o n) p).0.link.sent
unfolding write
write-sends image o n p h = elim (write_to-sent p.link.writes (slice image o n) p) [
  | inl e ↦ AddsSlices-refl image p.link.sent _ e
  | inr e ↦ (
    slice image o n ∷ [],
    e,
    (record { offset = o; size = n; in_image = h; is_slice = refl }, tt),
  )
]

send_block-sent :
    (image : ByteBuffer) (o n : ℕ) (p : SaharaProtocol)
    → ((send_block image o n p).0.link.sent ≡ p.link.sent)
      ⊎ ((o + n ≤ length image)
          × ((send_block image o n p).0.link.sent ≡ (write (slice image o n) p).0.link.sent))
unfolding send_block
send_block-sent image o n p = ground arith

send_block-sends :
    (image : ByteBuffer) (o n : ℕ) (p : SaharaProtocol)
    → AddsSlices image p.link.sent (send_block image o n p).0.link.sent
send_block-sends image o n p = elim (send_block-sent image o n p) [
  | inl e ↦ AddsSlices-refl image p.link.sent _ e
  | inr (h, e) ↦ let (bs, f, all) = write-sends image o n p h in (bs, e ∙ f, all)
]

end_image-sent :
    (packet : Packet) (p : SaharaProtocol) → (end_image packet p).0.link.sent ≡ p.link.sent
unfolding end_image
end_image-sent (end_image_transfer _ status) p = ground arith
end_image-sent _ p = refl

read_request-sends :
    (image : ByteBuffer) (packet : Packet) (p : SaharaProtocol)
    → AddsSlices image p.link.sent (read_request image packet p).0.link.sent
unfolding read_request
read_request-sends image (read_data _ o n) p =
    send_block-sends image o n (fire_event read_data_received p)
read_request-sends image _ p = AddsSlices-refl image p.link.sent _ refl

upload_step-sends :
    (image : ByteBuffer) (r : Result Packet) (p : SaharaProtocol)
    → AddsSlices image p.link.sent (upload_step image r p).0.link.sent
unfolding upload_step
upload_step-sends image (err e) p = AddsSlices-refl image p.link.sent _ refl
upload_step-sends image (stuck x) p = AddsSlices-refl image p.link.sent _ refl
upload_step-sends image (ok packet) p = elim (Bool-cases (command packet == 0x04)) [
  | inl e ↦ rw e (AddsSlices-refl image p.link.sent _ (end_image-sent packet p))
  | inr e ↦ rw e (read_request-sends image packet p)
]

after_step-sends :
    (image : ByteBuffer) (again : SaharaProtocol → SaharaProtocol × Result (Unit {0}))
    (before : List ByteBuffer) (q : SaharaProtocol) (next : Next)
    → ((p : SaharaProtocol) → AddsSlices image p.link.sent (again p).0.link.sent)
    → AddsSlices image before q.link.sent
    → AddsSlices image before (after_step again (q, next)).0.link.sent
after_step-sends image again before q continue ih h =
    AddsSlices-trans image before q.link.sent _ h (ih q)
after_step-sends image again before q break ih h = h
after_step-sends image again before q (leave result) ih h = h

upload_loop-sends :
    (image : ByteBuffer) (rs : List (Result ByteBuffer)) (p : SaharaProtocol)
    → AddsSlices image p.link.sent (upload_loop image rs p).0.link.sent
unfolding upload_loop
upload_loop-sends image [] p = AddsSlices-refl image p.link.sent _ refl
upload_loop-sends image (r ∷ rs) p =
    let p' = record p { link = record p.link { reads = rs } } in
    let step = upload_step image (check_packet 0x03 r) p' in
    after_step-sends image (upload_loop image rs) p.link.sent step.0 step.1
      (upload_loop-sends image rs) (upload_step-sends image (check_packet 0x03 r) p')

end_upload-sent :
    (r : SaharaProtocol × Result (Unit {0})) → (end_upload r).0.link.sent ≡ r.0.link.sent
unfolding end_upload
end_upload-sent (q, ok _) = refl
end_upload-sent (q, err e) = refl
end_upload-sent (q, stuck x) = refl

-- Whatever a device asks for and however the transport answers, all that an upload hands to the
-- transport are slices of the programmer image, in the bounds of the image.
pub upload-sends_slices :
    (image : ByteBuffer) (p : SaharaProtocol)
    → AddsSlices image p.link.sent (upload_programmer image p).0.link.sent
unfolding upload_programmer set_phase
upload-sends_slices image p =
    rw (end_upload-sent (upload_loop image p.link.reads (set_phase transferring p)))
      (upload_loop-sends image p.link.reads (set_phase transferring p))
