-- ===== src/Firehose/Chunk/ToTarget.antt =====
-- What `streamToTarget` delivers: a prefix of the data, in order, each byte once.
use mboot_core.Prelude.{
  ℕ, zero, suc, ◌+◌, ◌-◌, ◌≤◌, ◌≡◌, ◌≢◌, refl, sym, ap, ◌∙◌, ◌⊎◌, inl, inr, arith, min, true, ltb,
  ◌==◌, Option, none, some, List, [], ◌∷◌, ◌++◌, append-nil, append_assoc, flatten, length, take,
  drop, take-add, Bool-cases,
}
use mboot_core.Domain.{Result, ok, err, stuck, cancelled, ByteBuffer}
use mboot_core.Firehose.Chunk.{
  Engine, after, poll, unless_cancelled, write, write_to, retry, respond, report, send_chunk,
  end_stream, stream_loop, stream_to_target,
}

-- A write takes the chunk exactly if it succeeds.
abbrev Writes : ByteBuffer → Engine → Engine × Result (Unit {0}) → Type 0
Writes chunk g (h, r) =
    ((r ≡ ok tt) × (h.delivered ≡ g.delivered ++ chunk ∷ []))
    ⊎ ((r ≢ ok tt) × (h.delivered ≡ g.delivered))

write_to-Writes :
    (rs : List (Result (Unit {0}))) (chunk : ByteBuffer) (g : Engine)
    → Writes chunk g (write_to rs chunk g)
unfolding write_to
write_to-Writes [] chunk g = inr (λ e. cc, refl)
write_to-Writes (ok _ ∷ rs) chunk g = inl (refl, refl)
write_to-Writes (err e ∷ rs) chunk g = inr (λ e. cc, refl)
write_to-Writes (stuck x ∷ rs) chunk g = inr (λ e. cc, refl)

write-Writes : (chunk : ByteBuffer) (g : Engine) → Writes chunk g (write chunk g)
unfolding write
write-Writes chunk g = write_to-Writes g.writes chunk g

-- So does a write with its retry: the chunk is never taken twice.
retry-Writes :
    (chunk : ByteBuffer) (g : Engine) (w : Engine × Result (Unit {0}))
    → Writes chunk g w
    → Writes chunk g (retry chunk w)
unfolding retry
retry-Writes chunk g (h, ok _) w = w
retry-Writes chunk g (h, stuck x) w = w
retry-Writes chunk g (h, err e) (inl w) = absurd (cc)
retry-Writes chunk g (h, err e) (inr w) = elim (Bool-cases (ltb 0 h.config.max_retries)) [
  | inl t ↦ rw (t, ← w.1) (write-Writes chunk h)
  | inr t ↦ rw t (inr w)
]

respond-delivered :
    (rs : Option (List (Result (Unit {0})))) (g : Engine) → (respond rs g).0.delivered ≡ g.delivered
unfolding respond
respond-delivered none g = refl
respond-delivered (some []) g = refl
respond-delivered (some (r ∷ rs)) g = refl

-- A step of the loop delivers the chunk at most once, and once if it succeeds.
abbrev Delivers : ByteBuffer → Engine → Engine × Result (Unit {0}) → Type 0
Delivers chunk g (h, r) =
    (h.delivered ≡ g.delivered ++ chunk ∷ []) ⊎ ((r ≢ ok tt) × (h.delivered ≡ g.delivered))

after_write-Delivers :
    (chunk : ByteBuffer) (g : Engine) (w : Engine × Result (Unit {0}))
    → Writes chunk g w
    → Delivers chunk g (after (λ _ h. respond h.responses h) w)
after_write-Delivers chunk g (h, ok _) (inl w) = inl (respond-delivered h.responses h ∙ w.1)
after_write-Delivers chunk g (h, ok _) (inr w) = absurd (w.0 refl)
after_write-Delivers chunk g (h, err e) (inl w) = absurd (cc)
after_write-Delivers chunk g (h, err e) (inr w) = inr w
after_write-Delivers chunk g (h, stuck x) (inl w) = absurd (cc)
after_write-Delivers chunk g (h, stuck x) (inr w) = inr w

send_chunk-Delivers : (chunk : ByteBuffer) (g : Engine) → Delivers chunk g (send_chunk chunk g)
unfolding send_chunk
send_chunk-Delivers chunk g =
    after_write-Delivers chunk g (retry chunk (write chunk g))
      (retry-Writes chunk g (write chunk g) (write-Writes chunk g))

flatten-snoc : (l : List ByteBuffer) (c : ByteBuffer) → flatten (l ++ c ∷ []) ≡ flatten l ++ c
unfolding flatten
flatten-snoc [] c = append-nil c
flatten-snoc (x ∷ l) c = rw (flatten-snoc l c) (sym (append_assoc x (flatten l) c))

-- What has been delivered in all is what was before, and the first `k` bytes of the data.
abbrev HasSent : ByteBuffer → ByteBuffer → ℕ → Engine → Type 0
HasSent before bytes k g = flatten g.delivered ≡ before ++ take k bytes

-- The end of a call: a prefix was delivered, and all of the data if it succeeded.
abbrev pub SendsPrefix : ByteBuffer → ByteBuffer → Engine × Result (Unit {0}) → Type 0
SendsPrefix before bytes (h, r) =
    (k : ℕ) × (k ≤ length bytes)
    × (flatten h.delivered ≡ before ++ take k bytes)
    × (r ≡ ok tt → k ≡ length bytes)

chunk-HasSent :
    (before bytes : ByteBuffer) (sent size : ℕ) (g h : Engine)
    → HasSent before bytes sent g
    → h.delivered ≡ g.delivered ++ take size (drop sent bytes) ∷ []
    → HasSent before bytes (sent + size) h
chunk-HasSent before bytes sent size g h s e =
    rw (e, flatten-snoc, s, take-add) (append_assoc before _ _)

-- A flag that was read as set stays set.
pub poll-stays : (c : Option ℕ) → (poll c).1 ≡ true → (poll (poll c).0).1 ≡ true
unfolding poll
poll-stays none h = absurd (cc)
poll-stays (some zero) h = refl
poll-stays (some (suc n)) h = absurd (cc)

unless_cancelled-SendsPrefix :
    (before bytes : ByteBuffer) (run stop : Engine → Engine × Result (Unit {0})) (g : Engine)
    → ((h : Engine) → h.delivered ≡ g.delivered → SendsPrefix before bytes (run h))
    → ((h : Engine)
        → h.delivered ≡ g.delivered
        → (poll h.cancel_in).1 ≡ true
        → SendsPrefix before bytes (stop h))
    → SendsPrefix before bytes (unless_cancelled run stop g)
unfolding unless_cancelled
unless_cancelled-SendsPrefix before bytes run stop g r s =
    let h = record g { cancel_in = (poll g.cancel_in).0 } in
    elim (Bool-cases (poll g.cancel_in).1) [
      | inl e ↦ rw (e, unless_cancelled) (s h refl (poll-stays g.cancel_in e))
      | inr e ↦ rw (e, unless_cancelled) (r h refl)
    ]

end_stream-SendsPrefix :
    (before bytes : ByteBuffer) (sent : ℕ) (g : Engine)
    → sent ≤ length bytes
    → HasSent before bytes sent g
    → (sent ≡ length bytes) ⊎ ((poll g.cancel_in).1 ≡ true)
    → SendsPrefix before bytes (end_stream sent g)
unfolding end_stream unless_cancelled
end_stream-SendsPrefix before bytes sent g b s (inr c) =
    rw (c, unless_cancelled) (sent, b, s, λ e. absurd (cc))
end_stream-SendsPrefix before bytes sent g b s (inl d) =
    let run = λ (h : Engine).
      let done : Engine × Result (Unit {0}) = (record h { resume_offset = sent }, ok tt) in done in
    let stop = λ (h : Engine). let r : Engine × Result (Unit {0}) = (h, err cancelled) in r in
    unless_cancelled-SendsPrefix before bytes run stop g
      (λ h e. (sent, b, ap flatten e ∙ s, λ _. d)) (λ h e _. (sent, b, ap flatten e ∙ s, λ _. d))

-- One round: the step, and then the rounds that are left.
round-SendsPrefix :
    (before bytes : ByteBuffer) (sent size : ℕ) (g : Engine)
    (again : Engine → Engine × Result (Unit {0})) (w : Engine × Result (Unit {0}))
    → sent + size ≤ length bytes
    → HasSent before bytes sent g
    → Delivers (take size (drop sent bytes)) g w
    → ((h : Engine) → HasSent before bytes (sent + size) h → SendsPrefix before bytes (again h))
    → SendsPrefix before bytes (after (λ _. again) w)
round-SendsPrefix before bytes sent size g again (h, ok _) b s (inl d) ih =
    ih h (chunk-HasSent before bytes sent size g h s d)
round-SendsPrefix before bytes sent size g again (h, ok _) b s (inr d) ih = absurd (d.0 refl)
round-SendsPrefix before bytes sent size g again (h, err e) b s (inl d) ih =
    (sent + size, b, chunk-HasSent before bytes sent size g h s d, λ x. absurd (cc))
round-SendsPrefix before bytes sent size g again (h, err e) b s (inr d) ih =
    (sent, omega arith, ap flatten d.1 ∙ s, λ x. absurd (cc))
round-SendsPrefix before bytes sent size g again (h, stuck x) b s (inl d) ih =
    (sent + size, b, chunk-HasSent before bytes sent size g h s d, λ y. absurd (cc))
round-SendsPrefix before bytes sent size g again (h, stuck x) b s (inr d) ih =
    (sent, omega arith, ap flatten d.1 ∙ s, λ y. absurd (cc))

stream_loop-SendsPrefix :
    (before bytes : ByteBuffer) (fuel sent remaining : ℕ) (g : Engine)
    → sent + remaining ≡ length bytes
    → HasSent before bytes sent g
    → SendsPrefix before bytes (stream_loop fuel bytes sent remaining g)
unfolding stream_loop report
stream_loop-SendsPrefix before bytes zero sent remaining g b s =
    (sent, omega arith, s, λ e. absurd (cc))
stream_loop-SendsPrefix before bytes (suc fuel) sent remaining g b s =
    elim (Bool-cases (remaining == 0)) [
      | inl e ↦
          rw (e, stream_loop)
            (end_stream-SendsPrefix before bytes sent g (omega arith) s (inl (ground arith)))
      | inr e ↦
          let size = min remaining g.config.chunk_size in
          let again = λ (k : Engine).
            stream_loop fuel bytes (sent + size) (remaining - size)
              (report (sent + size) (length bytes) k) in
          let run =
            λ (h : Engine). after (λ _. again) (send_chunk (take size (drop sent bytes)) h) in
          rw (e, stream_loop)
            (unless_cancelled-SendsPrefix before bytes run (end_stream sent) g
              (λ h d.
                round-SendsPrefix before bytes sent size h again
                  (send_chunk (take size (drop sent bytes)) h) (omega arith) (ap flatten d ∙ s)
                  (send_chunk-Delivers (take size (drop sent bytes)) h)
                  (λ k t.
                    stream_loop-SendsPrefix before bytes fuel (sent + size) (remaining - size)
                      (report (sent + size) (length bytes) k) (omega arith) t))
              (λ h d c.
                end_stream-SendsPrefix before bytes sent h (omega arith) (ap flatten d ∙ s)
                  (inr c)))
    ]

-- Whatever the callbacks answer, however often a chunk is retried and whenever the transfer is
-- cancelled, the chunks that the target took are a prefix of the data, in order and without a
-- repetition; if the call succeeds, they are all of the data.
pub stream_to_target-SendsPrefix :
    (fuel : ℕ) (bytes : ByteBuffer) (g : Engine)
    → SendsPrefix (flatten g.delivered) bytes (stream_to_target fuel bytes g)
unfolding stream_to_target
stream_to_target-SendsPrefix fuel bytes g =
    let before = flatten g.delivered in
    let stop = λ (h : Engine). let r : Engine × Result (Unit {0}) = (h, err cancelled) in r in
    unless_cancelled-SendsPrefix before bytes (stream_loop fuel bytes 0 (length bytes)) stop g
      (λ h d.
        stream_loop-SendsPrefix before bytes fuel 0 (length bytes) h (omega arith)
          (ap flatten d ∙ sym (append-nil before)))
      (λ h d c. (0, omega arith, ap flatten d ∙ sym (append-nil before), λ e. absurd (cc)))
