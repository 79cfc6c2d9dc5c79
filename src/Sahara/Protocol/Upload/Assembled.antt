-- ===== src/Sahara/Protocol/Upload/Assembled.antt =====
-- An upload whose requests follow one another sends the whole image; and where it leaves the
-- state machine.
use mboot_core.Prelude.{
  ℕ, ◌+◌, ◌≡◌, refl, ap, ◌∙◌, List, [], ◌∷◌, ◌++◌, flatten, length, map, take, drop, All, take-add,
  drop-drop, take-length,
}
use mboot_core.Domain.{Result, ok, ByteBuffer}
use mboot_core.Bytes.{IsU32}
use mboot_core.Sahara.Machine.{
  read_data_received, data_sent, end_image_received, ready, sending_data, state_id, fire, fire_all,
}
use mboot_core.Sahara.Machine.Reach.{IsQuiet, sending_data_stays, first_block-SendingData}
use mboot_core.Sahara.Protocol.{SaharaProtocol}
use mboot_core.Sahara.Protocol.Upload.{slice, upload_programmer}
use mboot_core.Sahara.Protocol.Upload.Served.{
  Request, request, image_end, block, IsServable, block_events, upload-serves,
}

-- Each request begins where the one before it ended.
abbrev pub Follows : ℕ → List Request → Type 0
Follows o [] = Unit {0}
Follows o (r ∷ rs) = (r.offset ≡ o) × Follows (o + r.size) rs

abbrev pub total_size : List Request → ℕ
total_size [] = 0
total_size (r ∷ rs) = r.size + total_size rs

flatten-blocks :
    (image : ByteBuffer) (o : ℕ) (rs : List Request)
    → Follows o rs
    → flatten (map (block image) rs) ≡ take (total_size rs) (drop o image)
unfolding slice flatten
flatten-blocks image o [] f = refl
flatten-blocks image o (r ∷ rs) f = rw (
  f.0,
  flatten-blocks image (o + r.size) rs f.1,
  take-add r.size (total_size rs) (drop o image),
  drop-drop,
)

-- If the requests follow one another from the start of the image to its end, the device then ends
-- the image without an error, the transport takes every block and nothing was sent before, the
-- upload succeeds and the blocks that are sent make up the image.
pub upload-assembles :
    (image : ByteBuffer) (rs : List Request) (ns : List ℕ) (ws : List (Result ℕ)) (image_id : ℕ)
    (rest : List (Result ByteBuffer)) (p : SaharaProtocol)
    → IsU32 image_id
    → All (IsServable image) rs
    → Follows 0 rs
    → total_size rs ≡ length image
    → length ns ≡ length rs
    → p.link.sent ≡ []
    → p.link.reads ≡ map request rs ++ image_end image_id 0 ∷ rest
    → p.link.writes ≡ map ok ns ++ ws
    → let (q, result) = upload_programmer image p in
      (result ≡ ok tt) × (flatten q.link.sent ≡ image)
upload-assembles image rs ns ws k rest p v fits f total len s e w =
    let served = upload-serves image rs ns ws k rest p v fits len e w in
    let all : flatten (map (block image) rs) ≡ image =
      flatten-blocks image 0 rs f ∙ ap (λ n. take n image) total ∙ take-length image in
    (served.0, rw (served.2, s) all)

block_events-IsQuiet : (rs : List Request) → All IsQuiet (block_events rs)
block_events-IsQuiet [] = tt
block_events-IsQuiet (r ∷ rs) = ((λ e. cc, λ e. cc), ((λ e. cc, λ e. cc), block_events-IsQuiet rs))

-- An upload of one block or more of the image, which the transport takes and the device ends without
-- an error, leaves the machine, if it was in `Ready`, in `SendingData`:
-- the later requests and the end of the image do not move it.
pub upload-SendingData :
    (image : ByteBuffer) (r : Request) (rs : List Request) (ns : List ℕ) (ws : List (Result ℕ))
    (image_id : ℕ) (rest : List (Result ByteBuffer)) (p : SaharaProtocol)
    → IsU32 image_id
    → All (IsServable image) (r ∷ rs)
    → length ns ≡ length (r ∷ rs)
    → p.machine.current_state ≡ state_id ready
    → p.link.reads ≡ map request (r ∷ rs) ++ image_end image_id 0 ∷ rest
    → p.link.writes ≡ map ok ns ++ ws
    → (upload_programmer image p).0.machine.current_state ≡ state_id sending_data
unfolding fire_all
upload-SendingData image r rs ns ws k rest p v fits len s e w =
    let served = upload-serves image (r ∷ rs) ns ws k rest p v fits len e w in
    let first = fire (fire p.machine read_data_received) data_sent in
    let sending = first_block-SendingData p.machine s in
    let later = sending_data_stays first (block_events rs) sending (block_events-IsQuiet rs) in
    let last =
      sending_data_stays first (end_image_received ∷ []) sending ((λ e. cc, λ e. cc), tt) in
    rw (served.3, later, last) sending
