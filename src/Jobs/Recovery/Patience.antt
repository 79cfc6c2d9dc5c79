-- ===== src/Jobs/Recovery/Patience.antt =====
-- How long the default policy goes on.
use mboot_core.Prelude.{
  ℕ, suc, ◌+◌, ◌-◌, ◌≤◌, ◌<◌, ◌≡◌, ◌≢◌, refl, inl, inr, arith, pos_part, as_unsigned, ltz, pos,
  negsuc, ℤ, ltb, leb, true, ◌&&◌, List, [], ◌∷◌, length, All, Bool-cases,
}
use mboot_core.Domain.{ErrorCode}
use mboot_core.Jobs.Types.{is_cancel}
use mboot_core.Jobs.Recovery.{RecoveryAction, abort, DefaultRecoveryPolicy, evaluate}

-- The answers to the failures of one operation: its attempts are counted from `k` on.
abbrev pub answers : DefaultRecoveryPolicy → ℕ → List ErrorCode → List RecoveryAction
answers p k [] = []
answers p k (e ∷ es) = (evaluate p e k).1 ∷ answers (evaluate p e k).0 (suc k) es

-- The retries and the rollbacks that are left at the attempt `k`.
abbrev pub patience : DefaultRecoveryPolicy → ℕ → ℕ
patience p k = as_unsigned 32 p.max_retries - k + (pos_part p.max_rollbacks - p.rollback_count)

ltz-pos_part : (n : ℕ) (z : ℤ) → ltz (pos n) z ≡ true → n < pos_part z
ltz-pos_part n (pos m) h = ground arith
ltz-pos_part n (negsuc m) h = absurd (ground arith)

-- Every answer but `Abort` uses one of them up.
evaluate-patience :
    (p : DefaultRecoveryPolicy) (e : ErrorCode) (k : ℕ)
    → (evaluate p e k).1 ≢ abort
    → suc (patience (evaluate p e k).0 (suc k)) ≤ patience p k
unfolding evaluate
evaluate-patience p e k go = elim (Bool-cases (is_cancel e)) [
  | inl c ↦ absurd (go (rw c refl))
  | inr c ↦ elim (Bool-cases (ltb k (as_unsigned 32 p.max_retries))) [
    | inl r ↦ rw (c, r) (ground arith)
    | inr r ↦ elim (Bool-cases (p.can_rollback && leb (as_unsigned 32 p.max_retries) k)) [
      | inl t ↦ elim (Bool-cases (ltz (pos p.rollback_count) p.max_rollbacks)) [
        | inl b ↦
            let room = ltz-pos_part p.rollback_count p.max_rollbacks b in
            rw (c, r, t, b) (ground arith)
        | inr b ↦ absurd (go (rw (c, r, t, b) refl))
      ]
      | inr t ↦ absurd (go (rw (c, r, t) refl))
    ]
  ]
]

-- An operation that the default policy never aborts has failed no more often than there are retries
-- and rollbacks left: the retries as an unsigned number of 32 bits, the rollbacks if positive.
pub answers-patience :
    (p : DefaultRecoveryPolicy) (k : ℕ) (es : List ErrorCode)
    → All (λ a. a ≢ abort) (answers p k es)
    → length es ≤ patience p k
answers-patience p k [] go = omega arith
answers-patience p k (e ∷ es) go =
    omega (arith, evaluate-patience p e k go.0, answers-patience (evaluate p e k).0 (suc k) es go.1)
