-- ===== src/Session/Accounts.antt =====
-- The counters of a session and its history.
use Prim.Native.String.{String}
use mathlib.Core.Path.{subst}
use text.Mathlib.Text.{starts_with}
use mboot_core.Prelude.{
  ◌∙◌, refl, sym, first_branch, second_branch, ℕ, ◌+◌, ◌%◌, ◌^◌, ◌≡◌, ap, inl, inr, arith, Bool,
  true, false, ◌&&◌, not, List, [], ◌∷◌, ◌++◌, if◌then◌else◌, Bool-cases,
}
use mboot_core.Session.Device.{
  SessionStatistics, SessionOperation, mentions, add64, count32, update_stats,
}
use mboot_core.Session.Kinds.{IsPlain}

-- How an entry of the history is to be counted: by what its name begins with.
abbrev pub is_read : SessionOperation → Bool
is_read o = o.success && starts_with o.name "read"

abbrev pub is_write : SessionOperation → Bool
is_write o = o.success && starts_with o.name "write"

abbrev pub is_erase : SessionOperation → Bool
is_erase o = o.success && starts_with o.name "erase"

abbrev pub is_failure : SessionOperation → Bool
is_failure o = not o.success

abbrev pub total : (SessionOperation → Bool) → List SessionOperation → ℕ
total p [] = 0
total p (o ∷ os) = (if p o then o.bytes_transferred else 0) + total p os

abbrev weight : Bool → ℕ
weight true = 1
weight false = 0

abbrev pub count : (SessionOperation → Bool) → List SessionOperation → ℕ
count p [] = 0
count p (o ∷ os) = weight (p o) + count p os

total-snoc :
    (p : SessionOperation → Bool) (os : List SessionOperation) (o : SessionOperation)
    → total p (os ++ o ∷ []) ≡ total p os + (if p o then o.bytes_transferred else 0)
total-snoc p [] o = omega arith
total-snoc p (x ∷ os) o = omega (arith, total-snoc p os o)

count-snoc :
    (p : SessionOperation → Bool) (os : List SessionOperation) (o : SessionOperation)
    → count p (os ++ o ∷ []) ≡ count p os + weight (p o)
count-snoc p [] o = omega arith
count-snoc p (x ∷ os) o = omega (arith, count-snoc p os o)

-- The counters say what the history says, up to the width of their types.
pub record Accounts (s : SessionStatistics) (h : List SessionOperation) : Type 0 where
  pub bytes_read_known : s.bytes_read ≡ total is_read h % 2 ^ 64
  pub read_ops_known : s.read_ops ≡ count is_read h % 2 ^ 32
  pub bytes_written_known : s.bytes_written ≡ total is_write h % 2 ^ 64
  pub write_ops_known : s.write_ops ≡ count is_write h % 2 ^ 32
  pub bytes_erased_known : s.bytes_erased ≡ total is_erase h % 2 ^ 64
  pub erase_ops_known : s.erase_ops ≡ count is_erase h % 2 ^ 32
  pub failures_known : s.failures ≡ count is_failure h % 2 ^ 32

module _ (p : SessionOperation → Bool) (h : List SessionOperation) (o : SessionOperation)
    (x : ℕ) where
  total_added :
      x ≡ total p h % 2 ^ 64
      → p o ≡ true
      → add64 x o.bytes_transferred ≡ total p (h ++ o ∷ []) % 2 ^ 64
  total_added k b =
      let more : (if p o then o.bytes_transferred else 0) ≡ o.bytes_transferred =
        ap (λ c. if c then o.bytes_transferred else 0) b in
      omega (arith, k, more, total-snoc p h o)

  total_kept : x ≡ total p h % 2 ^ 64 → p o ≡ false → x ≡ total p (h ++ o ∷ []) % 2 ^ 64
  total_kept k b =
      let more : (if p o then o.bytes_transferred else 0) ≡ 0 =
        ap (λ c. if c then o.bytes_transferred else 0) b in
      omega (arith, k, more, total-snoc p h o)

  count_added : x ≡ count p h % 2 ^ 32 → p o ≡ true → count32 x ≡ count p (h ++ o ∷ []) % 2 ^ 32
  count_added k b =
      let more : weight (p o) ≡ 1 = ap weight b in omega (arith, k, more, count-snoc p h o)

  count_kept : x ≡ count p h % 2 ^ 32 → p o ≡ false → x ≡ count p (h ++ o ∷ []) % 2 ^ 32
  count_kept k b =
      let more : weight (p o) ≡ 0 = ap weight b in omega (arith, k, more, count-snoc p h o)

  total_next :
      x ≡ total p h % 2 ^ 64
      → (if p o then add64 x o.bytes_transferred else x) ≡ total p (h ++ o ∷ []) % 2 ^ 64
  total_next k = elim (Bool-cases (p o)) [
    | inl b ↦ first_branch (λ y. y ≡ total p (h ++ o ∷ []) % 2 ^ 64) (p o) _ _ b (total_added k b)
    | inr b ↦ second_branch (λ y. y ≡ total p (h ++ o ∷ []) % 2 ^ 64) (p o) _ _ b (total_kept k b)
  ]

  count_next :
      x ≡ count p h % 2 ^ 32 → (if p o then count32 x else x) ≡ count p (h ++ o ∷ []) % 2 ^ 32
  count_next k = elim (Bool-cases (p o)) [
    | inl b ↦ first_branch (λ y. y ≡ count p (h ++ o ∷ []) % 2 ^ 32) (p o) _ _ b (count_added k b)
    | inr b ↦ second_branch (λ y. y ≡ count p (h ++ o ∷ []) % 2 ^ 32) (p o) _ _ b (count_kept k b)
  ]

-- The counters after an entry of so many bytes: whether it is to be counted as a read, a write, an
-- erasure and a failure.
abbrev after : Bool → Bool → Bool → Bool → ℕ → SessionStatistics → SessionStatistics
after read write erase failed n s = record s {
  bytes_read = if read then add64 s.bytes_read n else s.bytes_read;
  read_ops = if read then count32 s.read_ops else s.read_ops;
  bytes_written = if write then add64 s.bytes_written n else s.bytes_written;
  write_ops = if write then count32 s.write_ops else s.write_ops;
  bytes_erased = if erase then add64 s.bytes_erased n else s.bytes_erased;
  erase_ops = if erase then count32 s.erase_ops else s.erase_ops;
  failures = if failed then count32 s.failures else s.failures;
}

abbrev after_entry : SessionOperation → SessionStatistics → SessionStatistics
after_entry o s = after (is_read o) (is_write o) (is_erase o) (is_failure o) o.bytes_transferred s

after_entry-Accounts :
    (s : SessionStatistics) (h : List SessionOperation) (o : SessionOperation)
    → Accounts s h
    → Accounts (after_entry o s) (h ++ o ∷ [])
after_entry-Accounts s h o a = record {
  bytes_read_known = total_next is_read h o s.bytes_read a.bytes_read_known;
  read_ops_known = count_next is_read h o s.read_ops a.read_ops_known;
  bytes_written_known = total_next is_write h o s.bytes_written a.bytes_written_known;
  write_ops_known = count_next is_write h o s.write_ops a.write_ops_known;
  bytes_erased_known = total_next is_erase h o s.bytes_erased a.bytes_erased_known;
  erase_ops_known = count_next is_erase h o s.erase_ops a.erase_ops_known;
  failures_known = count_next is_failure h o s.failures a.failures_known;
}

-- What `updateStats` finds first in the name decides.
update_stats-after :
    (s : SessionStatistics) (name : String) (n : ℕ)
    → update_stats name n s
      ≡ after
          (mentions "read" name)
          (not (mentions "read" name) && mentions "write" name)
          (not (mentions "read" name) && not (mentions "write" name) && mentions "erase" name)
          false
          n
          s
unfolding update_stats
update_stats-after s name n = elim (Bool-cases (mentions "read" name)) [
  | inl r ↦ rw r refl
  | inr r ↦ elim (Bool-cases (mentions "write" name)) [
    | inl w ↦ rw (r, w) refl
    | inr w ↦ elim (Bool-cases (mentions "erase" name)) [
      | inl e ↦ rw (r, w, e) refl
      | inr e ↦ rw (r, w, e) refl
    ]
  ]
]

update_stats-after_entry :
    (s : SessionStatistics) (name : String) (n : ℕ)
    → IsPlain name
    → update_stats name n s
      ≡ after_entry (record { name = name; bytes_transferred = n; success = true }) s
update_stats-after_entry s name n plain =
    update_stats-after s name n
    ∙ ap
        (λ b.
          after b (not (mentions "read" name) && mentions "write" name)
            (not (mentions "read" name) && not (mentions "write" name) && mentions "erase" name)
            false n s)
        plain.read_plain
    ∙ ap
        (λ b.
          after (starts_with name "read") b
            (not (mentions "read" name) && not (mentions "write" name) && mentions "erase" name)
            false n s)
        plain.write_plain
    ∙ ap (λ b. after (starts_with name "read") (starts_with name "write") b false n s)
        plain.erase_plain

pub succeeded-Accounts :
    (s : SessionStatistics) (h : List SessionOperation) (name : String) (n : ℕ)
    → IsPlain name
    → Accounts s h
    → Accounts
        (update_stats name n s)
        (h ++ record { name = name; bytes_transferred = n; success = true } ∷ [])
succeeded-Accounts s h name n plain a =
    let o : SessionOperation = record { name = name; bytes_transferred = n; success = true } in
    subst (λ q. Accounts q (h ++ o ∷ [])) (sym (update_stats-after_entry s name n plain))
      (after_entry-Accounts s h o a)

pub failed-Accounts :
    (s : SessionStatistics) (h : List SessionOperation) (name : String) (n : ℕ)
    → Accounts s h
    → Accounts
        (record s { failures = count32 s.failures })
        (h ++ record { name = name; bytes_transferred = n; success = false } ∷ [])
failed-Accounts s h name n a =
    after_entry-Accounts s h (record { name = name; bytes_transferred = n; success = false }) a
