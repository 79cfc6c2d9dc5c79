-- ===== src/Firehose/Chunk/FromTarget.antt =====
-- What `streamFromTarget` returns: the chunks in order, as many bytes as were asked for.
use mboot_core.Prelude.{
  ℕ, ◌+◌, ◌-◌, ◌^◌, ◌≤◌, ◌<◌, ◌≡◌, sym, ◌∙◌, inl, inr, arith, true, ◌==◌, Option, none, some, List,
  [], ◌∷◌, ◌++◌, append_assoc, append-nil, length, length-append, Bool-cases,
}
use mboot_core.Domain.{Result, ok, err, stuck, cancelled, no_answer, ByteBuffer}
use mboot_core.Firehose.Chunk.ToTarget.{poll-stays}
use mboot_core.Firehose.Chunk.{
  Engine, after, poll, unless_cancelled, sub64, respond, report, end_receive, receive_loop,
  stream_from_target,
}

-- A chunk that is no larger than what was still missing, as `readFn` is asked for.
abbrev pub FitsIn : ℕ → List (Result ByteBuffer) → Type 0
FitsIn remaining [] = Unit {0}
FitsIn remaining (ok c ∷ rs) = (length c ≤ remaining) × FitsIn (remaining - length c) rs
FitsIn remaining (err e ∷ rs) = Unit {0}
FitsIn remaining (stuck x ∷ rs) = Unit {0}

-- If the call succeeds, it returns as many bytes as were asked for, beginning with those that were
-- there.
abbrev Fills : ℕ → ByteBuffer → Engine × Result ByteBuffer → Type 0
Fills total received (h, r) =
    (d : ByteBuffer)
    → r ≡ ok d
    → (length d ≡ total) × ((rest : ByteBuffer) × (d ≡ received ++ rest))

unless_cancelled-Fills :
    (total : ℕ) (received : ByteBuffer) (run stop : Engine → Engine × Result ByteBuffer)
    (g : Engine)
    → ((c : Option ℕ) → Fills total received (run (record g { cancel_in = c })))
    → ((h : Engine) → (poll h.cancel_in).1 ≡ true → Fills total received (stop h))
    → Fills total received (unless_cancelled run stop g)
unfolding unless_cancelled
unless_cancelled-Fills total received run stop g r s =
    let h = record g { cancel_in = (poll g.cancel_in).0 } in
    elim (Bool-cases (poll g.cancel_in).1) [
      | inl e ↦ rw (e, unless_cancelled) (s h (poll-stays g.cancel_in e))
      | inr e ↦ rw (e, unless_cancelled) (r (poll g.cancel_in).0)
    ]

end_receive-cancelled :
    (total : ℕ) (received : ByteBuffer) (g : Engine)
    → (poll g.cancel_in).1 ≡ true
    → Fills total received (end_receive received g)
unfolding end_receive unless_cancelled
end_receive-cancelled total received g c = rw (c, unless_cancelled) (λ d e. absurd (cc))

end_receive-Fills :
    (total : ℕ) (received : ByteBuffer) (g : Engine)
    → length received ≡ total
    → Fills total received (end_receive received g)
unfolding end_receive
end_receive-Fills total received g n =
    let run = λ (h : Engine). let r : Engine × Result ByteBuffer = (h, ok received) in r in
    let stop = λ (h : Engine). let r : Engine × Result ByteBuffer = (h, err cancelled) in r in
    unless_cancelled-Fills total received run stop g
      (λ h d e. let same : received ≡ d = cc in rw (← same) (n, ([], sym (append-nil received))))
      (λ h _ d e. absurd (cc))

round-Fills :
    (total : ℕ) (received : ByteBuffer) (remaining : ℕ) (rs : List (Result ByteBuffer))
    (again : ByteBuffer → Engine → Engine × Result ByteBuffer) (h : Engine) (r : Result ByteBuffer)
    → FitsIn remaining (r ∷ rs)
    → ((c : ByteBuffer)
        → length c ≤ remaining
        → FitsIn (remaining - length c) rs
        → (k : Engine) → Fills total (received ++ c) (again c k))
    → Fills total received (after again (h, r))
round-Fills total received remaining rs again h (ok c) f ih d e =
    let (n, tail) = ih c f.0 f.1 h d e in
    (n, (c ++ tail.0, tail.1 ∙ append_assoc received c tail.0))
round-Fills total received remaining rs again h (err x) f ih d e = absurd (cc)
round-Fills total received remaining rs again h (stuck x) f ih d e = absurd (cc)

receive_loop-Fills :
    (rs : List (Result ByteBuffer)) (received : ByteBuffer) (total remaining : ℕ) (g : Engine)
    → length received + remaining ≡ total
    → remaining < 2 ^ 64
    → FitsIn remaining rs
    → Fills total received (receive_loop rs received total remaining g)
unfolding receive_loop
receive_loop-Fills [] received total remaining g n b f = elim (Bool-cases (remaining == 0)) [
  | inl e ↦ rw (e, receive_loop) (end_receive-Fills total received g (ground arith))
  | inr e ↦
      let run = λ (h : Engine). let r : Engine × Result ByteBuffer = (h, stuck no_answer) in r in
      rw (e, receive_loop)
        (unless_cancelled-Fills total received run (end_receive received) g (λ h d e'. absurd (cc))
          (end_receive-cancelled total received))
]
receive_loop-Fills (r ∷ rs) received total remaining g n b f = elim (Bool-cases (remaining == 0)) [
  | inl e ↦ rw (e, receive_loop) (end_receive-Fills total received g (ground arith))
  | inr e ↦
      let again = λ (chunk : ByteBuffer) (h : Engine).
        receive_loop rs (received ++ chunk) total (sub64 remaining (length chunk))
          (report (length (received ++ chunk)) total h) in
      let run = λ (h : Engine).
        let w : Engine × Result ByteBuffer = (record h { chunks = rs }, r) in after again w in
      rw (e, receive_loop)
        (unless_cancelled-Fills total received run (end_receive received) g
          (λ left.
            round-Fills total received remaining rs again
              (record g { cancel_in = left; chunks = rs }) r f
              (λ c le fits k.
                let less : sub64 remaining (length c) ≡ remaining - length c = omega arith in
                receive_loop-Fills rs (received ++ c) total (sub64 remaining (length c))
                  (report (length (received ++ c)) total k)
                  (omega (arith, length-append received c)) (omega arith) (rw less fits)))
          (end_receive-cancelled total received))
]

asked-Fills :
    (rs : Option (List (Result (Unit {0})))) (total : ℕ) (g : Engine)
    → total < 2 ^ 64
    → FitsIn total g.chunks
    → Fills total [] (after (λ _ h. receive_loop h.chunks [] total total h) (respond rs g))
unfolding respond
asked-Fills none total g b f = receive_loop-Fills g.chunks [] total total g (omega arith) b f
asked-Fills (some []) total g b f = λ d e. absurd (cc)
asked-Fills (some (ok _ ∷ rs)) total g b f =
    receive_loop-Fills g.chunks [] total total (record g { responses = some rs }) (omega arith) b f
asked-Fills (some (err x ∷ rs)) total g b f = λ d e. absurd (cc)
asked-Fills (some (stuck x ∷ rs)) total g b f = λ d e. absurd (cc)

-- If no chunk is larger than what was still missing, a call that succeeds returns exactly
-- `totalSize` bytes: the subtraction from what is missing never wraps.
pub stream_from_target-Fills :
    (total : ℕ) (g : Engine) (d : ByteBuffer)
    → total < 2 ^ 64
    → FitsIn total g.chunks
    → (stream_from_target total g).1 ≡ ok d
    → length d ≡ total
unfolding stream_from_target
stream_from_target-Fills total g d b f h =
    let run = λ (k : Engine).
      after (λ _ m. receive_loop m.chunks [] total total m) (respond k.responses k) in
    let stop = λ (k : Engine). let r : Engine × Result ByteBuffer = (k, err cancelled) in r in
    (unless_cancelled-Fills total [] run stop g
      (λ left. asked-Fills g.responses total (record g { cancel_in = left }) b f)
      (λ k _ x e. absurd (cc)) d h).0
