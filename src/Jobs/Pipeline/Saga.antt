-- ===== src/Jobs/Pipeline/Saga.antt =====
-- What a run of the pipeline does to the world of the jobs: a saga, in which the jobs are executed in
-- order, and a failure undoes those before it, the latest first.
pub mod Refines
pub mod Atomic
use mboot_core.Prelude.{
  ℕ, zero, suc, ◌+◌, ◌≡◌, ◌≢◌, refl, sym, ap, ◌∙◌, inl, inr, arith, Bool, true, false, Option, none,
  some, List, [], ◌∷◌, length, Bool-cases, Option-cases,
}
use mboot_core.Domain.{Result, ok, err, stuck, ErrorCode, Result-cases}
use mboot_core.Jobs.Types.{Job, is_cancel, is_success}
use mboot_core.Jobs.Pipeline.{JobPipeline}
use mboot_core.Jobs.Pipeline.Run.{
  Outcome, execute_job, nth, rollback_loop, rollback_all, wants_rollback, recover, fail_job, finish,
  record_job, mark_failed, mark_completed, run_job, executed, next, proceed, await, run_loop, start,
  run,
}

-- An error of a step that nobody looks at.
abbrev pub ignored : Result (Unit {0}) → Result (Unit {0})
ignored (ok _) = ok tt
ignored (err e) = ok tt
ignored (stuck x) = stuck x

module _ {W : Type 0} where
  -- What undoes the jobs of a list, one after another: each that can be rolled back then.
  abbrev pub compensate : List (Job W) → W → W × Result (Unit {0})
  compensate [] w = (w, ok tt)
  compensate (j ∷ js) w = elim (j.can_rollback w) [
    | false ↦ compensate js w
    | true ↦ elim (j.rollback w).1 [
      | ok _ ↦ compensate js (j.rollback w).0
      | err e ↦ compensate js (j.rollback w).0
      | stuck x ↦ ((j.rollback w).0, stuck x)
    ]
  ]

  abbrev pub failing : ErrorCode → W × Result (Unit {0}) → W × Result (Unit {0})
  failing e (w, ok _) = (w, err e)
  failing e (w, err _) = (w, err e)
  failing e (w, stuck x) = (w, stuck x)

  -- After a failure: `done` holds the jobs that succeeded, the latest first.
  abbrev pub undo : List (Job W) → Job W → ErrorCode → W → W × Result (Unit {0})
  undo done j e w = elim (is_cancel e) [
    | true ↦ (w, err e)
    | false ↦ elim (wants_rollback j w) [
      | false ↦ (w, err e)
      | true ↦ failing e (compensate done w)
    ]
  ]

  abbrev pub saga : List (Job W) → List (Job W) → W → W × Result (Unit {0})
  saga done [] w = (w, ok tt)
  saga done (j ∷ js) w = elim (execute_job j w).1 [
    | ok _ ↦ saga (j ∷ done) js (execute_job j w).0
    | err e ↦ undo done j e (execute_job j w).0
    | stuck x ↦ ((execute_job j w).0, stuck x)
  ]

  -- The jobs of a pipeline, of which the first ones, in the other order, are done.
  abbrev pub onto : List (Job W) → List (Job W) → List (Job W)
  onto [] js = js
  onto (j ∷ done) js = onto done (j ∷ js)

  nth-onto : (done js : List (Job W)) (k : ℕ) → nth (onto done js) (length done + k) ≡ nth js k
  unfolding nth
  nth-onto [] js k = ap (nth js) (omega arith)
  nth-onto (j ∷ done) js k =
      ap (nth (onto done (j ∷ js))) (omega arith) ∙ nth-onto done (j ∷ js) (suc k)

  nth_done : (done js : List (Job W)) (j : Job W) → nth (onto done (j ∷ js)) (length done) ≡ some j
  unfolding nth
  nth_done done js j = ap (nth (onto done (j ∷ js))) (omega arith) ∙ nth-onto done (j ∷ js) 0

  abbrev forget : W × Result (Unit {0}) → W × Result (Unit {0})
  forget (w, r) = (w, ignored r)

  forget_end :
      (e : ErrorCode) (w : W) (jobs : List (Job W)) → forget (rollback_loop jobs 0 e w) ≡ (w, ok tt)
  unfolding rollback_loop
  forget_end e w jobs = elim (Bool-cases (is_success e)) [ inl t ↦ rw t refl | inr t ↦ rw t refl ]

  -- The loop over the indices undoes the jobs that are done.
  rollback_loop-compensate :
      (done js : List (Job W)) (last : ErrorCode) (w : W)
      → forget (rollback_loop (onto done js) (length done) last w) ≡ compensate done w
  unfolding rollback_loop
  rollback_loop-compensate [] js last w = forget_end last w js
  rollback_loop-compensate (j ∷ done) js last w = elim (Bool-cases (j.can_rollback w)) [
    | inr keep ↦
        rw (nth_done done js j, rollback_loop, keep) (rollback_loop-compensate done (j ∷ js) last w)
    | inl back ↦ elim (Result-cases (j.rollback w).1) [
      | inl (_, r) ↦
          rw (nth_done done js j, rollback_loop, back, r)
            (rollback_loop-compensate done (j ∷ js) last (j.rollback w).0)
      | inr (inl (e, r)) ↦
          rw (nth_done done js j, rollback_loop, back, r)
            (rollback_loop-compensate done (j ∷ js) e (j.rollback w).0)
      | inr (inr (x, r)) ↦ rw (nth_done done js j, rollback_loop, back, r) refl
    ]
  ]

  abbrev pub view : Outcome W → W × Result (Unit {0})
  view (p, r) = (p.world, r)

  rollback_all-compensate :
      (done js : List (Job W)) (p : JobPipeline W)
      → p.jobs ≡ onto done js
      → p.current_index ≡ length done
      → forget (rollback_all p) ≡ compensate done p.world
  unfolding rollback_all
  rollback_all-compensate done js p known here =
      rw (known, here) (rollback_loop-compensate done js ErrorCode.success p.world)

  pub view-fail_job :
      (done js : List (Job W)) (j : Job W) (e : ErrorCode) (p : JobPipeline W)
      → p.jobs ≡ onto done js
      → p.current_index ≡ length done
      → view (fail_job j e p) ≡ undo done j e p.world
  unfolding fail_job finish record_job mark_failed
  view-fail_job done js j e p known here = elim (Bool-cases (is_cancel e)) [
    | inl c ↦ rw (c, fail_job, undo) refl
    | inr c ↦ elim (Bool-cases (wants_rollback j p.world)) [
      | inr t ↦ rw (c, fail_job, undo, t, recover) (rw (t, recover) refl)
      | inl t ↦
          let undone = rollback_all-compensate done js p known here in
          elim (Result-cases (rollback_all p).1) [
            | inl (_, r) ↦ rw (c, fail_job, undo, t, recover, ← undone, r) (rw (t, recover) refl)
            | inr (inl (x, r)) ↦
                rw (c, fail_job, undo, t, recover, ← undone, r) (rw (t, recover) refl)
            | inr (inr (x, r)) ↦
                rw (c, fail_job, undo, t, recover, ← undone, r) (rw (t, recover) refl)
          ]
    ]
  ]
