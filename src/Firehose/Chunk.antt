-- ===== src/Firehose/Chunk.antt =====
-- lib/include/mbootcore/core/protocols/firehose/ChunkEngine.hpp and
-- lib/src/core/protocols/firehose/ChunkEngine.cpp. The callbacks are the caller's: a list holds what
-- their calls will return, and one that has nothing left never returns. The buffer pool, which no
-- operation reads, and the timeouts are left out.
pub mod ToTarget
pub mod Completes
pub mod FromTarget
use mboot_core.Prelude.{
  ℕ, zero, suc, ◌+◌, ◌-◌, ◌%◌, ◌^◌, min, Bool, true, false, ltb, leb, ◌==◌, if◌then◌else◌, Option,
  none, some, List, [], ◌∷◌, ◌++◌, length, take, drop,
}
use mboot_core.Domain.{
  cancelled, invalid_argument, no_answer, out_of_fuel, Result, ok, err, stuck, ByteBuffer,
}

-- `maxRetries` is only compared with 0; a negative one counts as 0.
pub record Config : Type 0 where
  pub chunk_size : ℕ
  pub max_retries : ℕ

-- The engine, with the callbacks of one call. `cancel_in` says how often `m_cancelled` is still read
-- as false before it is read as true: another thread may set it. `responses` is `none` if no
-- response function is given. `delivered` holds the chunks that `writeFn` took, `attempts` all
-- that it was given.
pub record Engine : Type 0 where
  pub config : Config
  pub writes : List (Result (Unit {0}))
  pub chunks : List (Result ByteBuffer)
  pub responses : Option (List (Result (Unit {0})))
  pub cancel_in : Option ℕ
  pub attempts : List ByteBuffer
  pub delivered : List ByteBuffer
  pub progress : List (ℕ × ℕ)
  pub resume_offset : ℕ

abbrev pub M {ℓ} : Type ℓ → Type ℓ
M A = Engine → Engine × Result A

abbrev pub after {ℓ κ} :
    {A : Type ℓ} {B : Type κ} → (A → M B) → Engine × Result A → Engine × Result B
after f (g, ok a) = f a g
after f (g, err e) = (g, err e)
after f (g, stuck x) = (g, stuck x)

-- A read of `m_cancelled`.
unfoldable pub poll : Option ℕ → Option ℕ × Bool
poll none = (none, false)
poll (some zero) = (some zero, true)
poll (some (suc n)) = (some n, false)

-- A statement that runs if the flag is not set, and one that runs if it is.
unfoldable pub unless_cancelled {ℓ} :
    {B : Type ℓ} → (Engine → Engine × B) → (Engine → Engine × B) → Engine → Engine × B
unfolding poll
unless_cancelled run stop g =
    let (left, set) = poll g.cancel_in in
    let g' = record g { cancel_in = left } in elim set [ true ↦ stop g' | false ↦ run g' ]

-- A call of `writeFn`.
unfoldable pub write_to : List (Result (Unit {0})) → ByteBuffer → M (Unit {0})
write_to [] chunk g = (g, stuck no_answer)
write_to (ok _ ∷ rs) chunk g = (
  record g {
    writes = rs;
    attempts = g.attempts ++ chunk ∷ [];
    delivered = g.delivered ++ chunk ∷ [];
  },
  ok tt,
)
write_to (err e ∷ rs) chunk g =
    (record g { writes = rs; attempts = g.attempts ++ chunk ∷ [] }, err e)
write_to (stuck x ∷ rs) chunk g =
    (record g { writes = rs; attempts = g.attempts ++ chunk ∷ [] }, stuck x)

unfoldable pub write : ByteBuffer → M (Unit {0})
unfolding write_to
write chunk g = write_to g.writes chunk g

-- The second attempt, if retries are allowed.
unfoldable pub retry : ByteBuffer → Engine × Result (Unit {0}) → Engine × Result (Unit {0})
unfolding write
retry chunk (g, ok _) = (g, ok tt)
retry chunk (g, err e) = if ltb 0 g.config.max_retries then write chunk g else (g, err e)
retry chunk (g, stuck x) = (g, stuck x)

-- `if (responseFn)` and its call.
unfoldable pub respond : Option (List (Result (Unit {0}))) → M (Unit {0})
respond none g = (g, ok tt)
respond (some []) g = (g, stuck no_answer)
respond (some (r ∷ rs)) g = (record g { responses = some rs }, r)

unfoldable pub report : ℕ → ℕ → Engine → Engine
report done total g = record g { progress = (done, total) ∷ g.progress }

-- The body of the loop of `streamToTarget`: one chunk, its retry and its response.
unfoldable pub send_chunk : ByteBuffer → M (Unit {0})
unfolding retry write respond
send_chunk chunk g = after (λ _ h. respond h.responses h) (retry chunk (write chunk g))

-- What follows the loop.
unfoldable pub end_stream : ℕ → M (Unit {0})
end_stream sent =
    unless_cancelled (λ g. (record g { resume_offset = sent }, ok tt)) (λ g. (g, err cancelled))

-- The loop, with as many rounds as the first argument says. A loop that finds the flag set goes on
-- to `end_stream`, which finds it set too.
unfoldable pub stream_loop : ℕ → ByteBuffer → (sent remaining : ℕ) → M (Unit {0})
unfolding send_chunk report end_stream unless_cancelled
stream_loop zero bytes sent remaining g = (g, stuck out_of_fuel)
stream_loop (suc fuel) bytes sent remaining g =
    let size = min remaining g.config.chunk_size in
    elim (remaining == 0) [
      | true ↦ end_stream sent g
      | false ↦
          unless_cancelled
            (λ g'.
              after
                (λ _ h.
                  stream_loop fuel bytes (sent + size) (remaining - size)
                    (report (sent + size) (length bytes) h))
                (send_chunk (take size (drop sent bytes)) g'))
            (end_stream sent) g
    ]

-- `streamToTarget`; `bytes` are the `totalSize` bytes at `data`.
unfoldable pub stream_to_target : ℕ → ByteBuffer → M (Unit {0})
stream_to_target fuel bytes =
    unless_cancelled (stream_loop fuel bytes 0 (length bytes)) (λ g. (g, err cancelled))

-- `streamToTargetPartial`.
unfoldable pub stream_to_target_partial : ℕ → ByteBuffer → (offset size : ℕ) → M (Unit {0})
stream_to_target_partial fuel bytes offset size g =
    if leb (length bytes) offset
    then (g, err invalid_argument)
    else stream_to_target fuel (take (min size (length bytes - offset)) (drop offset bytes)) g

-- `remaining -= chunk.size()` on a `size_t`.
abbrev pub sub64 : ℕ → ℕ → ℕ
sub64 a b = (a + 2 ^ 64 - b) % 2 ^ 64

-- What follows the loop of `streamFromTarget`.
unfoldable pub end_receive : ByteBuffer → M ByteBuffer
end_receive received = unless_cancelled (λ g. (g, ok received)) (λ g. (g, err cancelled))

-- The loop of `streamFromTarget`, on the results that `readFn` will give.
unfoldable pub receive_loop :
    List (Result ByteBuffer) → ByteBuffer → (total remaining : ℕ) → M ByteBuffer
unfolding end_receive unless_cancelled report
receive_loop [] received total remaining g = elim (remaining == 0) [
  | true ↦ end_receive received g
  | false ↦ unless_cancelled (λ g'. (g', stuck no_answer)) (end_receive received) g
]
receive_loop (r ∷ rs) received total remaining g = elim (remaining == 0) [
  | true ↦ end_receive received g
  | false ↦
      unless_cancelled
        (λ g'.
          after
            (λ chunk h.
              receive_loop rs (received ++ chunk) total (sub64 remaining (length chunk))
                (report (length (received ++ chunk)) total h))
            (record g' { chunks = rs }, r))
        (end_receive received) g
]

unfoldable pub stream_from_target : ℕ → M ByteBuffer
unfolding respond
stream_from_target total =
    unless_cancelled
      (λ g. after (λ _ h. receive_loop h.chunks [] total total h) (respond g.responses g))
      (λ g. (g, err cancelled))

unfoldable pub cancel : Engine → Engine
cancel g = record g { cancel_in = some 0 }

unfoldable pub is_cancelled : Engine → Bool
unfolding poll
is_cancelled g = (poll g.cancel_in).1

unfoldable pub reset : Engine → Engine
reset g = record g { cancel_in = none; resume_offset = 0 }
