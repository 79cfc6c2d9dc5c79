-- ===== src/Jobs/Pipeline/Saga/Refines.antt =====
-- A run of the pipeline implements the saga of its jobs.
use mboot_core.Prelude.{
  ℕ, suc, ◌≡◌, ◌≢◌, refl, sym, ap, ◌∙◌, inl, inr, true, false, some, List, [], ◌∷◌, length,
  Bool-cases,
}
use mboot_core.Domain.{Result, ok, err, stuck, ErrorCode, Result-cases}
use mboot_core.Jobs.Types.{Job, is_cancel}
use mboot_core.Jobs.Pipeline.{JobPipeline}
use mboot_core.Jobs.Pipeline.Run.{
  Outcome, execute_job, wants_rollback, fail_job, mark_completed, run_job, executed, next, proceed,
  await, run_loop, start, run,
}
use mboot_core.Jobs.Pipeline.Saga.{compensate, failing, undo, saga, onto, view, view-fail_job}

module _ {W : Type 0} where
  -- A pipeline that nobody disturbs, some of whose jobs are done.
  record Proceeds (done js : List (Job W)) (p : JobPipeline W) : Type 0 where
    pub jobs_known : p.jobs ≡ onto done js
    pub calm : p.signals ≡ []
    pub awake : p.paused ≡ false
    pub wanted : p.cancelled ≡ false

  await_calm :
      {done js : List (Job W)} (p : JobPipeline W)
      → Proceeds done js p
      → await p.signals p ≡ (p, some true)
  unfolding await
  await_calm p c = simp (c.calm, await, c.wanted, c.awake)

  run_loop_calm :
      (done js : List (Job W)) (i : ℕ) (j : Job W) (p : JobPipeline W)
      → Proceeds done (j ∷ js) p
      → run_loop i (j ∷ js) p ≡ next (run_loop (suc i) js) (run_job i j p)
  unfolding run_loop
  run_loop_calm done js i j p c =
      ap (proceed (λ q. next (run_loop (suc i) js) (run_job i j q))) (await_calm p c)

  next_failed : (f : JobPipeline W → Outcome W) (o : Outcome W) → o.1 ≢ ok tt → next f o ≡ o
  next_failed f (p, ok _) n = absurd (n refl)
  next_failed f (p, err e) n = refl
  next_failed f (p, stuck x) n = refl

  failing_is_not-ok : (e : ErrorCode) (o : W × Result (Unit {0})) → (failing e o).1 ≢ ok tt
  failing_is_not-ok e (w, ok _) h = absurd (cc)
  failing_is_not-ok e (w, err _) h = absurd (cc)
  failing_is_not-ok e (w, stuck x) h = absurd (cc)

  undo_is_not-ok :
      (done : List (Job W)) (j : Job W) (e : ErrorCode) (w : W) → (undo done j e w).1 ≢ ok tt
  undo_is_not-ok done j e w h = elim (Bool-cases (is_cancel e)) [
    | inl c ↦ absurd (cc (rw (c, undo) at h))
    | inr c ↦ elim (Bool-cases (wants_rollback j w)) [
      | inr t ↦ absurd (cc (rw (c, undo, t) at h))
      | inl t ↦ failing_is_not-ok e (compensate done w) (rw (c, undo, t) at h)
    ]
  ]

  view-run_job :
      (done js : List (Job W)) (j : Job W) (p : JobPipeline W)
      → Proceeds done (j ∷ js) p
      → ((q : JobPipeline W)
          → Proceeds (j ∷ done) js q
          → view (run_loop (length (j ∷ done)) js q) ≡ saga (j ∷ done) js q.world)
      → view (next (run_loop (length (j ∷ done)) js) (run_job (length done) j p))
        ≡ saga done (j ∷ js) p.world
  unfolding run_job mark_completed
  view-run_job done js j p c again = elim (Result-cases (execute_job j p.world).1) [
    | inl (_, r) ↦
        rw (r, run_job, saga)
          (again (mark_completed j (executed (length done) j p)) (record {
            jobs_known = c.jobs_known;
            calm = c.calm;
            awake = c.awake;
            wanted = c.wanted;
          }))
    | inr (inl (e, r)) ↦
        rw (r, run_job, saga)
          (let failed =
              view-fail_job done (j ∷ js) j e (executed (length done) j p) c.jobs_known refl in
            let undone = undo_is_not-ok done j e (execute_job j p.world).0 in
            ap view (
              next_failed (run_loop (length (j ∷ done)) js)
                (fail_job j e (executed (length done) j p))
                (λ h. undone (sym (ap (λ o. o.1) failed) ∙ h)))
            ∙ failed)
    | inr (inr (x, r)) ↦ rw (r, run_job, saga) refl
  ]

  run_loop-saga :
      (done js : List (Job W)) (p : JobPipeline W)
      → Proceeds done js p
      → view (run_loop (length done) js p) ≡ saga done js p.world
  unfolding run_loop
  run_loop-saga done [] p c = refl
  run_loop-saga done (j ∷ js) p c =
      ap view (run_loop_calm done js (length done) j p c)
      ∙ view-run_job done js j p c (run_loop-saga (j ∷ done) js)

  -- A run that no other thread disturbs does to the world what the saga of its jobs does, with the
  -- same result: the rollback of the source, which counts indices down, undoes the jobs that are done.
  pub run-saga :
      (p : JobPipeline W)
      → p.running ≡ false
      → p.signals ≡ []
      → ((run p).0.world, (run p).1) ≡ saga [] p.jobs p.world
  unfolding run start
  run-saga p free calm =
      rw (free, run)
        (run_loop-saga [] p.jobs (start p)
          (record { jobs_known = refl; calm = calm; awake = refl; wanted = refl }))
