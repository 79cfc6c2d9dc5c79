-- ===== src/Examples/Firehose.antt =====
-- A small engine: instances of the theorems on chunked transfers.
use mboot_core.Prelude.{◌≡◌, refl, arith, flatten, ℕ, none, some, [], ◌∷◌, length}
use mboot_core.Domain.{ok, err, stuck, out_of_fuel, transport_write_failed, ByteBuffer}
use mboot_core.Firehose.Chunk.{
  Engine, stream_to_target, stream_from_target, receive_loop, unless_cancelled, poll, end_receive,
  respond, report,
}
use mboot_core.Firehose.Chunk.ToTarget.{SendsPrefix, stream_to_target-SendsPrefix}
use mboot_core.Firehose.Chunk.Completes.{IsCalm, stream_to_target-ok, stream_to_target-spins}
use mboot_core.Firehose.Chunk.FromTarget.{stream_from_target-Fills}

-- Three writes that succeed, in chunks of two bytes.
abbrev calm_engine : Engine
calm_engine = record {
  config = record { chunk_size = 2; max_retries = 3 };
  writes = ok tt ∷ ok tt ∷ ok tt ∷ [];
  chunks = ok (1 ∷ 2 ∷ []) ∷ ok (3 ∷ []) ∷ [];
  responses = none;
  cancel_in = none;
  attempts = [];
  delivered = [];
  progress = [];
  resume_offset = 0;
}

-- The second write fails once, and the transfer is cancelled after three reads of the flag.
abbrev troubled_engine : Engine
troubled_engine = record calm_engine {
  writes = ok tt ∷ err transport_write_failed ∷ ok tt ∷ ok tt ∷ [];
  cancel_in = some 3;
}

abbrev spinning_engine : Engine
spinning_engine = record calm_engine { config = record { chunk_size = 0; max_retries = 3 } }

abbrev three_bytes : ByteBuffer
three_bytes = 7 ∷ 8 ∷ 9 ∷ []

calm_engine-IsCalm : IsCalm 3 calm_engine
calm_engine-IsCalm = record {
  uncancelled = refl;
  unanswered = refl;
  more = [];
  writes_succeed = refl;
}

spinning_engine-IsCalm : IsCalm 3 spinning_engine
spinning_engine-IsCalm = record {
  uncancelled = refl;
  unanswered = refl;
  more = [];
  writes_succeed = refl;
}

stream_to_target-SendsPrefix_example :
    SendsPrefix
      (flatten troubled_engine.delivered)
      three_bytes
      (stream_to_target 9 three_bytes troubled_engine)
stream_to_target-SendsPrefix_example = stream_to_target-SendsPrefix 9 three_bytes troubled_engine

stream_to_target-ok_example : (stream_to_target 4 three_bytes calm_engine).1 ≡ ok tt
stream_to_target-ok_example =
    stream_to_target-ok 4 three_bytes calm_engine (omega arith) (omega arith) calm_engine-IsCalm

stream_to_target-spins_example :
    (stream_to_target 3 three_bytes spinning_engine).1 ≡ stuck out_of_fuel
stream_to_target-spins_example =
    stream_to_target-spins 3 three_bytes spinning_engine (omega arith) refl spinning_engine-IsCalm

received_bytes : (stream_from_target 3 calm_engine).1 ≡ ok (1 ∷ 2 ∷ 3 ∷ [])
unfolding stream_from_target receive_loop end_receive respond report unless_cancelled poll
received_bytes = refl

stream_from_target-Fills_example : length {A = ℕ} (1 ∷ 2 ∷ 3 ∷ []) ≡ 3
stream_from_target-Fills_example =
    stream_from_target-Fills 3 calm_engine (1 ∷ 2 ∷ 3 ∷ []) (omega arith)
      (omega arith, (omega arith, tt)) received_bytes
