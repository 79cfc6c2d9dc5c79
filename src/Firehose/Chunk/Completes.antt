-- ===== src/Firehose/Chunk/Completes.antt =====
-- `streamToTarget` ends, and how many rounds it takes; without a chunk size it does not end.
use mboot_core.Prelude.{
  ℕ, zero, suc, ◌+◌, ◌-◌, ◌≤◌, ◌<◌, ◌≡◌, refl, ap, ◌∙◌, inl, inr, arith, min, true, false, ◌==◌,
  none, List, ◌++◌, length, take, drop, replicate, Bool-cases,
}
use mboot_core.Domain.{Result, ok, err, stuck, cancelled, out_of_fuel, ByteBuffer}
use mboot_core.Firehose.Chunk.{
  Engine, Config, after, poll, unless_cancelled, write, report, send_chunk, end_stream, stream_loop,
  stream_to_target,
}

-- Nothing goes wrong: no cancellation, no response function, and `n` writes or more that succeed.
pub record IsCalm (n : ℕ) (g : Engine) : Type 0 where
  pub uncancelled : g.cancel_in ≡ none
  pub unanswered : g.responses ≡ none
  pub more : List (Result (Unit {0}))
  pub writes_succeed : g.writes ≡ replicate n (ok tt) ++ more

unless_cancelled-run {ℓ} :
    {B : Type ℓ} (run stop : Engine → Engine × B) (g : Engine)
    → g.cancel_in ≡ none
    → unless_cancelled run stop g ≡ run g
unfolding unless_cancelled poll
unless_cancelled-run run stop g h = rw (h, unless_cancelled, h)

send_chunk-IsCalm :
    (chunk : ByteBuffer) (n : ℕ) (g : Engine)
    → IsCalm (suc n) g
    → ((send_chunk chunk g).1 ≡ ok tt)
      × IsCalm n (send_chunk chunk g).0
      × ((send_chunk chunk g).0.config ≡ g.config)
unfolding send_chunk write
send_chunk-IsCalm chunk n g c =
    rw (c.writes_succeed, c.unanswered)
      (
        refl,
        record {
          uncancelled = c.uncancelled;
          unanswered = refl;
          more = c.more;
          writes_succeed = refl;
        },
        refl,
      )

report-IsCalm : (done total n : ℕ) (g : Engine) → IsCalm n g → IsCalm n (report done total g)
unfolding report
report-IsCalm done total n g c = record {
  uncancelled = c.uncancelled;
  unanswered = c.unanswered;
  more = c.more;
  writes_succeed = c.writes_succeed;
}

-- One round: the chunk, and then the rounds that are left.
round :
    (again : Engine → Engine × Result (Unit {0})) (w : Engine × Result (Unit {0}))
    {r : Result (Unit {0})}
    → w.1 ≡ ok tt
    → (again w.0).1 ≡ r
    → (after (λ _. again) w).1 ≡ r
round again (h, ok _) e k = k
round again (h, err x) e k = absurd (cc)
round again (h, stuck x) e k = absurd (cc)

end_stream-ok : (sent : ℕ) (g : Engine) → g.cancel_in ≡ none → (end_stream sent g).1 ≡ ok tt
unfolding end_stream unless_cancelled poll
end_stream-ok sent g h = rw h

stream_loop-ok :
    (fuel : ℕ) (bytes : ByteBuffer) (sent remaining n : ℕ) (g : Engine)
    → remaining < fuel
    → remaining ≤ n
    → 0 < g.config.chunk_size
    → IsCalm n g
    → (stream_loop fuel bytes sent remaining g).1 ≡ ok tt
unfolding stream_loop report
stream_loop-ok zero bytes sent remaining n g f b p c = absurd (omega arith)
stream_loop-ok (suc fuel) bytes sent remaining zero g f b p c =
    let e : (remaining == 0) ≡ true = ground arith in
    rw (e, stream_loop) (end_stream-ok sent g c.uncancelled)
stream_loop-ok (suc fuel) bytes sent remaining (suc n) g f b p c =
    elim (Bool-cases (remaining == 0)) [
      | inl e ↦ rw (e, stream_loop) (end_stream-ok sent g c.uncancelled)
      | inr e ↦
          let size = min remaining g.config.chunk_size in
          let again = λ (k : Engine).
            stream_loop fuel bytes (sent + size) (remaining - size)
              (report (sent + size) (length bytes) k) in
          let run =
            λ (h : Engine). after (λ _. again) (send_chunk (take size (drop sent bytes)) h) in
          let w = send_chunk (take size (drop sent bytes)) g in
          let sends = send_chunk-IsCalm (take size (drop sent bytes)) n g c in
          rw (e, stream_loop)
            (rw (unless_cancelled-run run (end_stream sent) g c.uncancelled) (
              round again w sends.0 (
                stream_loop-ok fuel bytes (sent + size) (remaining - size) n
                  (report (sent + size) (length bytes) w.0) (ground arith) (ground arith)
                  (rw sends.2 p) (report-IsCalm (sent + size) (length bytes) n w.0 sends.1))))
    ]

-- With a chunk size, as many successful writes as there are bytes and nothing that stops it, the
-- call succeeds, and the loop takes at most one round for each byte and one to end.
pub stream_to_target-ok :
    (fuel : ℕ) (bytes : ByteBuffer) (g : Engine)
    → length bytes < fuel
    → 0 < g.config.chunk_size
    → IsCalm (length bytes) g
    → (stream_to_target fuel bytes g).1 ≡ ok tt
unfolding stream_to_target
stream_to_target-ok fuel bytes g f p c =
    let stop = λ (h : Engine). let r : Engine × Result (Unit {0}) = (h, err cancelled) in r in
    rw (unless_cancelled-run (stream_loop fuel bytes 0 (length bytes)) stop g c.uncancelled)
      (stream_loop-ok fuel bytes 0 (length bytes) (length bytes) g f (omega arith) p c)

stream_loop-spins :
    (fuel : ℕ) (bytes : ByteBuffer) (sent remaining n : ℕ) (g : Engine)
    → 0 < remaining
    → fuel ≤ n
    → g.config.chunk_size ≡ 0
    → IsCalm n g
    → (stream_loop fuel bytes sent remaining g).1 ≡ stuck out_of_fuel
unfolding stream_loop
stream_loop-spins zero bytes sent remaining n g r f z c = refl
stream_loop-spins (suc fuel) bytes sent remaining zero g r f z c = absurd (omega arith)
stream_loop-spins (suc fuel) bytes sent remaining (suc n) g r f z c =
    let e : (remaining == 0) ≡ false = ground arith in
    let size = min remaining g.config.chunk_size in
    let again = λ (k : Engine).
      stream_loop fuel bytes (sent + size) (remaining - size)
        (report (sent + size) (length bytes) k) in
    let run = λ (h : Engine). after (λ _. again) (send_chunk (take size (drop sent bytes)) h) in
    let w = send_chunk (take size (drop sent bytes)) g in
    let sends = send_chunk-IsCalm (take size (drop sent bytes)) n g c in
    rw (e, stream_loop)
      (rw (unless_cancelled-run run (end_stream sent) g c.uncancelled) (
        round again w sends.0 (
          stream_loop-spins fuel bytes (sent + size) (remaining - size) n
            (report (sent + size) (length bytes) w.0) (omega arith) (omega arith)
            (unfold report in ap (λ (k : Config). k.chunk_size) sends.2 ∙ z)
            (report-IsCalm (sent + size) (length bytes) n w.0 sends.1))))

-- A chunk size of 0 is accepted, and then the loop does not end: however many rounds it is given,
-- and however many writes succeed, bytes are left to send.
pub stream_to_target-spins :
    (fuel : ℕ) (bytes : ByteBuffer) (g : Engine)
    → 0 < length bytes
    → g.config.chunk_size ≡ 0
    → IsCalm fuel g
    → (stream_to_target fuel bytes g).1 ≡ stuck out_of_fuel
unfolding stream_to_target
stream_to_target-spins fuel bytes g r z c =
    let stop = λ (h : Engine). let r : Engine × Result (Unit {0}) = (h, err cancelled) in r in
    rw (unless_cancelled-run (stream_loop fuel bytes 0 (length bytes)) stop g c.uncancelled)
      (stream_loop-spins fuel bytes 0 (length bytes) fuel g r (omega arith) z c)
