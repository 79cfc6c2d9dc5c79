-- ===== src/Sahara/Protocol/Upload/Served.antt =====
-- An upload to a device that asks for blocks of the image and then ends it.
use mboot_core.Prelude.{
  ℕ, ◌+◌, ◌≤◌, ◌≡◌, refl, sym, ◌∙◌, ap, inl, inr, arith, List, [], ◌∷◌, ◌++◌, append_assoc,
  append-nil, length, map, All, ◌<◌, ltb, le→ltb, ◌-◌, false, true, ◌||◌,
}
use mboot_core.Domain.{Result, ok, err, ByteBuffer, invalid_packet}
use mboot_core.Bytes.{IsU32}
use mboot_core.Sahara.Packets.{Packet, command, end_image_transfer, read_data}
use mboot_core.Sahara.Serializer.{serialize}
use mboot_core.Sahara.Machine.{
  SaharaEvent, read_data_received, data_sent, end_image_received, fire, fire_all,
}
use mboot_core.Sahara.Protocol.{
  SaharaProtocol, transferring, waiting_for_programmer, set_phase, fire_event, check_packet, write,
}
use mboot_core.Sahara.Protocol.Exchange.{check_packet-serialize, write-ok}
use mboot_core.Sahara.Protocol.Upload.{
  continue, slice, send_block, end_image, read_request, upload_step, upload_loop, end_upload,
  upload_programmer, report_progress,
}

-- A read request of a device.
pub record Request : Type 0 where
  pub image_id : ℕ
  pub offset : ℕ
  pub size : ℕ

abbrev pub request_packet : Request → Packet
request_packet r = read_data r.image_id r.offset r.size

-- The request on the wire.
abbrev pub request : Request → Result ByteBuffer
request r = serialize (request_packet r)

-- The end of an image, with a status, on the wire.
abbrev pub image_end : ℕ → ℕ → Result ByteBuffer
image_end image_id status = serialize (end_image_transfer image_id status)

abbrev pub block : ByteBuffer → Request → ByteBuffer
block image r = slice image r.offset r.size

-- A request that the wire can carry and the image can serve.
pub record IsServable (image : ByteBuffer) (r : Request) : Type 0 where
  pub id_fits : IsU32 r.image_id
  pub offset_fits : IsU32 r.offset
  pub size_fits : IsU32 r.size
  pub in_image : r.offset + r.size ≤ length image

-- The state after a request was served.
served : ByteBuffer → Request → List (Result ℕ) → SaharaProtocol → SaharaProtocol
served image r ws p = record p {
  link = record p.link { writes = ws; sent = p.link.sent ++ block image r ∷ [] };
  machine = fire (fire p.machine read_data_received) data_sent;
  progress = report_progress (r.offset + r.size) (length image) p.progress;
}

send_block-ok :
    (image : ByteBuffer) (o n : ℕ) (p q : SaharaProtocol) (m : ℕ)
    → o + n ≤ length image
    → write (slice image o n) p ≡ (q, ok m)
    → send_block image o n p ≡ (
      record (fire_event data_sent q) {
        progress = report_progress (o + n) (length image) q.progress;
      },
      continue,
    )
unfolding send_block
send_block-ok image o n p q m fits w =
    let small : ltb (length image) n ≡ false = le→ltb _ _ (omega arith) in
    let inside : ltb (length image - n) o ≡ false = le→ltb _ _ (omega arith) in
    rw (small, inside, w, w)

upload_step-served :
    (image : ByteBuffer) (r : Request) (n : ℕ) (ws : List (Result ℕ)) (p : SaharaProtocol)
    → IsServable image r
    → p.link.writes ≡ ok n ∷ ws
    → upload_step image (check_packet 0x03 (request r)) p ≡ (served image r ws p, continue)
unfolding upload_step read_request fire_event served command
upload_step-served image r n ws p v h =
    let received = check_packet-serialize 0x03 (request_packet r) (omega arith) (inl refl) in
    let asked = fire_event read_data_received p in
    rw received (
      send_block-ok image r.offset r.size asked _ n v.in_image
        (write-ok (block image r) asked n ws h))

-- The events that serving some requests fires.
abbrev pub block_events : List Request → List SaharaEvent
block_events [] = []
block_events (r ∷ rs) = read_data_received ∷ data_sent ∷ block_events rs

-- What a finished upload, or its loop, has done: all requests served in their order, and what else
-- has changed.
pub record Uploads (image : ByteBuffer) (rs : List Request) (ws : List (Result ℕ))
    (rest : List (Result ByteBuffer)) (p q : SaharaProtocol) : Type 0 where
  pub blocks_sent : q.link.sent ≡ p.link.sent ++ map (block image) rs
  pub writes_left : q.link.writes ≡ ws
  pub reads_left : q.link.reads ≡ rest
  pub no_error : q.errors ≡ p.errors
  pub events_fired : q.machine ≡ fire_all p.machine (block_events rs)

-- The rounds that serve some requests, whatever the device sends next.
upload_loop-append :
    (image : ByteBuffer) (rs : List Request) (ns : List ℕ) (ws : List (Result ℕ))
    (rest : List (Result ByteBuffer)) (p : SaharaProtocol)
    → All (IsServable image) rs
    → length ns ≡ length rs
    → p.link.reads ≡ map request rs ++ rest
    → p.link.writes ≡ map ok ns ++ ws
    → (q : SaharaProtocol) × (upload_loop image (map request rs ++ rest) p
        ≡ upload_loop image rest q)
      × Uploads image rs ws rest p q
unfolding upload_loop fire_all
upload_loop-append image [] [] ws rest p fits len r w = (
  p,
  refl,
  record {
    blocks_sent = sym (append-nil p.link.sent);
    writes_left = w;
    reads_left = r;
    no_error = refl;
    events_fired = refl;
  },
)
upload_loop-append image [] (n ∷ ns) ws rest p fits len r w = absurd (omega arith)
upload_loop-append image (r ∷ rs) [] ws rest p fits len e w = absurd (omega arith)
upload_loop-append image (r ∷ rs) (n ∷ ns) ws rest p fits len e w =
    let p' = record p { link = record p.link { reads = map request rs ++ rest } } in
    let next = served image r (map ok ns ++ ws) p' in
    let (q, same, u) =
      upload_loop-append image rs ns ws rest next fits.1 (omega arith) (unfold served in refl)
        (unfold served in refl) in
    (
      q,
      rw (upload_step-served image r n (map ok ns ++ ws) p' fits.0 w) same,
      record {
        blocks_sent =
            u.blocks_sent
            ∙ (unfold served in
                append_assoc p.link.sent (block image r ∷ []) (map (block image) rs));
        writes_left = u.writes_left;
        reads_left = u.reads_left;
        no_error = u.no_error ∙ (unfold served in refl);
        events_fired = u.events_fired ∙ (unfold served in refl);
      },
    )

upload_loop-end :
    (image : ByteBuffer) (image_id : ℕ) (rest : List (Result ByteBuffer)) (q : SaharaProtocol)
    → IsU32 image_id
    → upload_loop image (image_end image_id 0 ∷ rest) q
      ≡ (record q { link = record q.link { reads = rest } }, ok tt)
unfolding upload_loop upload_step end_image command
upload_loop-end image k rest q v =
    rw (check_packet-serialize 0x03 (end_image_transfer k 0) (omega arith) (inr refl))

upload_loop-refused :
    (image : ByteBuffer) (bad : Request) (rest : List (Result ByteBuffer)) (q : SaharaProtocol)
    → (IsU32 bad.image_id) × (IsU32 bad.offset) × (IsU32 bad.size)
    → length image < bad.offset + bad.size
    → upload_loop image (request bad ∷ rest) q ≡ (
      fire_event read_data_received (record q { link = record q.link { reads = rest } }),
      err invalid_packet,
    )
unfolding upload_loop upload_step read_request send_block command
upload_loop-refused image bad rest q v far =
    let received = check_packet-serialize 0x03 (request_packet bad) (omega arith) (inl refl) in
    let outside : (ltb (length image) bad.size || ltb (length image - bad.size) bad.offset) ≡ true =
      ground arith in
    rw (received, outside)

-- A device that asks for blocks of the image and then ends the image without an error gets exactly
-- the blocks that it asked for, in its order, if the transport takes them; the upload succeeds and
-- leaves the protocol waiting for the programmer.
pub upload-serves :
    (image : ByteBuffer) (rs : List Request) (ns : List ℕ) (ws : List (Result ℕ)) (image_id : ℕ)
    (rest : List (Result ByteBuffer)) (p : SaharaProtocol)
    → IsU32 image_id
    → All (IsServable image) rs
    → length ns ≡ length rs
    → p.link.reads ≡ map request rs ++ image_end image_id 0 ∷ rest
    → p.link.writes ≡ map ok ns ++ ws
    → let (q, result) = upload_programmer image p in
      (result ≡ ok tt)
      × (q.phase ≡ waiting_for_programmer)
      × (q.link.sent ≡ p.link.sent ++ map (block image) rs)
      × (q.machine ≡ fire (fire_all p.machine (block_events rs)) end_image_received)
unfolding upload_programmer end_upload set_phase
upload-serves image rs ns ws k rest p v fits len e w =
    let start = set_phase transferring p in
    let tail = image_end k 0 ∷ rest in
    let (q, same, u) = upload_loop-append image rs ns ws tail start fits len e w in
    let loop = ap (λ l. upload_loop image l start) e ∙ same ∙ upload_loop-end image k rest q v in
    rw loop (refl, refl, u.blocks_sent, ap (λ m. fire m end_image_received) u.events_fired)

-- A request past the end of the image, after requests in the image whose blocks the transport takes,
-- ends the upload with `InvalidPacket`: the blocks before it were sent, and nothing of it.
pub upload-refuses :
    (image : ByteBuffer) (rs : List Request) (bad : Request) (ns : List ℕ) (ws : List (Result ℕ))
    (rest : List (Result ByteBuffer)) (p : SaharaProtocol)
    → All (IsServable image) rs
    → (IsU32 bad.image_id) × (IsU32 bad.offset) × (IsU32 bad.size)
    → length image < bad.offset + bad.size
    → length ns ≡ length rs
    → p.link.reads ≡ map request rs ++ request bad ∷ rest
    → p.link.writes ≡ map ok ns ++ ws
    → let (q, result) = upload_programmer image p in
      (result ≡ err invalid_packet) × (q.link.sent ≡ p.link.sent ++ map (block image) rs)
unfolding upload_programmer end_upload set_phase fire_event
upload-refuses image rs bad ns ws rest p fits v far len e w =
    let start = set_phase transferring p in
    let tail = request bad ∷ rest in
    let (q, same, u) = upload_loop-append image rs ns ws tail start fits len e w in
    let loop =
      ap (λ l. upload_loop image l start) e ∙ same ∙ upload_loop-refused image bad rest q v far in
    rw loop (refl, u.blocks_sent)
