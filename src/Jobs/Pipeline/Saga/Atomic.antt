-- ===== src/Jobs/Pipeline/Saga/Atomic.antt =====
-- A pipeline of jobs that undo themselves is atomic.
use mathlib.Core.Path.{subst}
use mboot_core.Prelude.{
  ◌≡◌, ◌≢◌, refl, sym, ap, ◌∙◌, ◌⊎◌, inl, inr, true, false, List, [], ◌∷◌, All, Bool-cases,
}
use mboot_core.Domain.{Result, ok, err, stuck, Fault, ErrorCode, Result-cases}
use mboot_core.Jobs.Types.{Job, is_cancel}
use mboot_core.Jobs.Pipeline.{JobPipeline}
use mboot_core.Jobs.Pipeline.Run.{execute_job, wants_rollback, run}
use mboot_core.Jobs.Pipeline.Saga.{compensate, undo, saga}
use mboot_core.Jobs.Pipeline.Saga.Refines.{run-saga}

-- A job that answers; that leaves the world as it was and asks for a rollback if it fails; and that
-- its rollback undoes if it succeeds.
pub record IsAtomic {W : Type 0} (j : Job W) : Type 0 where
  pub answers : (w : W) (x : Fault) → (execute_job j w).1 ≢ stuck x
  pub keeps : (w : W) (e : ErrorCode) → (execute_job j w).1 ≡ err e → (execute_job j w).0 ≡ w
  pub asks : (w : W) → wants_rollback j w ≡ true
  pub undone :
      (w : W)
      → (execute_job j w).1 ≡ ok tt
      → (j.can_rollback (execute_job j w).0 ≡ true) × (j.rollback (execute_job j w).0 ≡ (w, ok tt))

-- The end of a run that began in a world: done, or failed with the world restored.
abbrev pub AllOrNothing : {W : Type 0} → W → W × Result (Unit {0}) → Type 0
AllOrNothing start (w, r) =
    (r ≡ ok tt) ⊎ ((e : ErrorCode) × (r ≡ err e) × (is_cancel e ≡ false → w ≡ start))

module _ {W : Type 0} where
  undo-AllOrNothing :
      (start : W) (done : List (Job W)) (j : Job W) (e : ErrorCode) (w : W)
      → IsAtomic j
      → compensate done w ≡ (start, ok tt)
      → AllOrNothing start (undo done j e w)
  undo-AllOrNothing start done j e w atomic back = elim (Bool-cases (is_cancel e)) [
    | inl c ↦ rw (c, undo) (inr (e, refl, λ h. cc))
    | inr c ↦ rw (c, undo, atomic.asks w, back) (inr (e, refl, λ h. refl))
  ]

  compensate_done :
      (start : W) (done : List (Job W)) (j : Job W) (w : W)
      → IsAtomic j
      → (execute_job j w).1 ≡ ok tt
      → compensate done w ≡ (start, ok tt)
      → compensate (j ∷ done) (execute_job j w).0 ≡ (start, ok tt)
  compensate_done start done j w atomic r back =
      let (can, undone) = atomic.undone w r in
      rw (can, compensate, ap (λ o. o.1) undone) (ap (λ o. compensate done o.0) undone ∙ back)

  saga-AllOrNothing :
      (start : W) (done js : List (Job W)) (w : W)
      → All IsAtomic js
      → compensate done w ≡ (start, ok tt)
      → AllOrNothing start (saga done js w)
  saga-AllOrNothing start done [] w atomic back = inl refl
  saga-AllOrNothing start done (j ∷ js) w atomic back = elim (Result-cases (execute_job j w).1) [
    | inl (_, r) ↦
        rw (r, saga)
          (saga-AllOrNothing start (j ∷ done) js (execute_job j w).0 atomic.1
            (compensate_done start done j w atomic.0 r back))
    | inr (inl (e, r)) ↦
        rw (r, saga)
          (undo-AllOrNothing start done j e (execute_job j w).0 atomic.0
            (ap (compensate done) (atomic.0.keeps w e r) ∙ back))
    | inr (inr (x, r)) ↦ absurd (atomic.0.answers w x r)
  ]

  -- A run of atomic jobs that no other thread disturbs is atomic: it succeeds, or it fails with the
  -- world as it was at the start, unless the failure is a cancellation.
  pub run-AllOrNothing :
      (p : JobPipeline W)
      → p.running ≡ false
      → p.signals ≡ []
      → All IsAtomic p.jobs
      → AllOrNothing p.world ((run p).0.world, (run p).1)
  run-AllOrNothing p free calm atomic =
      subst (AllOrNothing p.world) (sym (run-saga p free calm))
        (saga-AllOrNothing p.world [] p.jobs p.world atomic refl)
