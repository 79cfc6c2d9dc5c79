-- ===== src/Jobs/Pipeline/Settles/Quiet.antt =====
-- A run that no other thread disturbs leaves no signals behind.
use mboot_core.Prelude.{
  ℕ, suc, ◌≡◌, refl, ap, ◌∙◌, inl, inr, Bool, true, false, Option, none, some, List, [], ◌∷◌,
  Bool-cases,
}
use mboot_core.Domain.{ok, err, stuck, ErrorCode, Result-cases}
use mboot_core.Jobs.Types.{Job, is_cancel}
use mboot_core.Jobs.Pipeline.{JobPipeline}
use mboot_core.Jobs.Pipeline.Run.{
  Outcome, execute_job, executed, wants_rollback, recover, fail_job, finish, record_job,
  mark_failed, mark_completed, run_job, next, proceed, await, run_loop, start, run,
}

module _ {W : Type 0} where
  -- A run takes no signals from a list that has none.
  abbrev pub IsQuiet : Outcome W → Type 0
  IsQuiet (p, r) = p.signals ≡ []

  recover-signals : (j : Job W) (p : JobPipeline W) → (recover j p).0.signals ≡ p.signals
  unfolding recover
  recover-signals j p = elim (Bool-cases (wants_rollback j p.world)) [
    | inl t ↦ rw (t, recover) refl
    | inr t ↦ rw (t, recover) refl
  ]

  fail_job-signals :
      (j : Job W) (e : ErrorCode) (p : JobPipeline W) → (fail_job j e p).0.signals ≡ p.signals
  unfolding fail_job finish record_job mark_failed
  fail_job-signals j e p = elim (Bool-cases (is_cancel e)) [
    | inl c ↦ rw (c, fail_job) refl
    | inr c ↦ elim (Result-cases (recover j p).1) [
      | inl (_, r) ↦ rw (c, fail_job, r) (recover-signals j p)
      | inr (inl (x, r)) ↦ rw (c, fail_job, r) (recover-signals j p)
      | inr (inr (x, r)) ↦ rw (c, fail_job, r) (recover-signals j p)
    ]
  ]

  run_job-signals : (i : ℕ) (j : Job W) (p : JobPipeline W) → (run_job i j p).0.signals ≡ p.signals
  unfolding run_job mark_completed record_job
  run_job-signals i j p = elim (Result-cases (execute_job j p.world).1) [
    | inl (_, r) ↦ rw (r, run_job) refl
    | inr (inl (e, r)) ↦ rw (r, run_job) (fail_job-signals j e (executed i j p))
    | inr (inr (x, r)) ↦ rw (r, run_job) refl
  ]

  next-IsQuiet :
      (f : JobPipeline W → Outcome W) (o : Outcome W)
      → o.0.signals ≡ []
      → ((q : JobPipeline W) → q.signals ≡ [] → IsQuiet (f q))
      → IsQuiet (next f o)
  next-IsQuiet f (p, ok _) h go = go p h
  next-IsQuiet f (p, err e) h go = h
  next-IsQuiet f (p, stuck x) h go = h

  proceed-IsQuiet :
      (f : JobPipeline W → Outcome W) (a : JobPipeline W × Option Bool)
      → a.0.signals ≡ []
      → ((q : JobPipeline W) → q.signals ≡ [] → IsQuiet (f q))
      → IsQuiet (proceed f a)
  unfolding finish
  proceed-IsQuiet f (q, none) h go = h
  proceed-IsQuiet f (q, some true) h go = go q h
  proceed-IsQuiet f (q, some false) h go = h

  await_quiet : (p : JobPipeline W) → p.signals ≡ [] → (await [] p).0.signals ≡ []
  unfolding await
  await_quiet p h = elim (Bool-cases p.cancelled) [
    | inl c ↦ rw (c, await) h
    | inr c ↦ elim (Bool-cases p.paused) [ inl s ↦ rw (c, await, s) h | inr s ↦ rw (c, await, s) h ]
  ]

  run_loop-IsQuiet :
      (i : ℕ) (js : List (Job W)) (p : JobPipeline W) → p.signals ≡ [] → IsQuiet (run_loop i js p)
  unfolding run_loop finish
  run_loop-IsQuiet i [] p h = h
  run_loop-IsQuiet i (j ∷ js) p h =
      proceed-IsQuiet (λ q. next (run_loop (suc i) js) (run_job i j q)) (await p.signals p)
        (ap (λ ss. (await ss p).0.signals) h ∙ await_quiet p h)
        (λ q c.
          next-IsQuiet (run_loop (suc i) js) (run_job i j q) (run_job-signals i j q ∙ c)
            (run_loop-IsQuiet (suc i) js))

  pub run-IsQuiet : (p : JobPipeline W) → p.running ≡ false → p.signals ≡ [] → IsQuiet (run p)
  unfolding run start
  run-IsQuiet p free h = rw (free, run) (run_loop-IsQuiet 0 p.jobs (start p) h)
