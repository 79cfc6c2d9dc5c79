-- ===== src/Workflow/Engine/Script/Exhausts.antt =====
-- A step that keeps failing, under the recovery that a new engine has.
use Prim.Native.String.{String}
use mboot_core.Prelude.{
  ℕ, zero, suc, ◌≡◌, refl, ap, ◌∙◌, Bool, true, false, Option, some, List, [], ◌∷◌,
}
use mboot_core.Domain.{err, ErrorCode, workflow_step_failed}
use mboot_core.Jobs.Types.{is_cancel}
use mboot_core.Workflow.Types.{
  WorkflowState, WorkflowStepType, connect, detect, negotiate, upload_loader, flash, verify, gpt,
  backup, restore, reboot, disconnect, custom, WorkflowContext, WorkflowStep, is_cancelled,
}
use mboot_core.Workflow.Recovery.{retry, decide, new_recovery, default_strategy, find_custom}
use mboot_core.Workflow.Engine.{WorkflowEngine}
use mboot_core.Workflow.Engine.Run.{steps_from, run}
use mboot_core.Workflow.Engine.Attempt.{max_tries}
use mboot_core.Workflow.Engine.Script.{Run, tried, tries, after, script}
use mboot_core.Workflow.Engine.Script.Refines.{run-script}

-- The steps that the default strategy has tried again.
abbrev pub is_retried : WorkflowStepType → Bool
is_retried verify = false
is_retried reboot = false
is_retried disconnect = false
is_retried connect = true
is_retried detect = true
is_retried negotiate = true
is_retried upload_loader = true
is_retried flash = true
is_retried gpt = true
is_retried backup = true
is_retried restore = true
is_retried custom = true

decide-retry :
    (t : WorkflowStepType) (name : String) (x : ErrorCode)
    → is_retried t ≡ true
    → is_cancel x ≡ false
    → (decide new_recovery t name x).action ≡ retry
unfolding decide new_recovery default_strategy find_custom
decide-retry verify name x h c = absurd (cc)
decide-retry reboot name x h c = absurd (cc)
decide-retry disconnect name x h c = absurd (cc)
decide-retry connect name x h c = rw c refl
decide-retry detect name x h c = rw c refl
decide-retry negotiate name x h c = rw c refl
decide-retry upload_loader name x h c = rw c refl
decide-retry flash name x h c = rw c refl
decide-retry gpt name x h c = rw c refl
decide-retry backup name x h c = rw c refl
decide-retry restore name x h c = rw c refl
decide-retry custom name x h c = rw c refl

abbrev pub repeat {ℓ} : {A : Type ℓ} → ℕ → (A → A) → A → A
repeat zero f a = a
repeat (suc n) f a = repeat n f (f a)

module _ {W : Type 0} where
  -- A step whose every execution fails, and is no cancellation.
  pub record Fails (s : WorkflowStep W) (error : WorkflowContext W → ErrorCode) : Type 0 where
    pub is_tried_again : is_retried s.type ≡ true
    pub always : (c : WorkflowContext W) → (s.execute c).1 ≡ err (error c)
    pub ordinary : (c : WorkflowContext W) → is_cancel (error c) ≡ false
    pub goes_on : (c : WorkflowContext W) → is_cancelled (s.execute c).0 ≡ false

  tries-repeat :
      (n : ℕ) (s : WorkflowStep W) (error : WorkflowContext W → ErrorCode) (c : WorkflowContext W)
      → Fails s error
      → is_cancelled c ≡ false
      → tries new_recovery n s c ≡ (repeat n (λ d. (s.execute d).0) c, err workflow_step_failed)
  tries-repeat zero s error c f h = refl
  tries-repeat (suc n) s error c f h =
      rw
        (
          h,
          tries,
          f.always c,
          tried,
          f.ordinary c,
          decide-retry s.type s.name (error c) f.is_tried_again (f.ordinary c),
        )
        (tries-repeat n s error (s.execute c).0 f (f.goes_on c))

  -- On a Ready engine with the recovery of a new engine, that stops at the first failure and that nobody
  -- disturbs, let the next step be one other than Verify, Reboot and Disconnect that keeps failing, never
  -- with the error Cancelled. It is executed as often as the options say; then the run ends with the
  -- error for a failed step.
  pub run-repeat :
      (e : WorkflowEngine W) (s : WorkflowStep W) (error : WorkflowContext W → ErrorCode)
      (ss : List (Option (WorkflowStep W)))
      → e.state ≡ WorkflowState.ready
      → e.signals ≡ []
      → e.options.continue_on_warning ≡ false
      → e.recovery ≡ new_recovery
      → steps_from e.current_step_index e.steps ≡ some s ∷ ss
      → is_cancelled e.context ≡ false
      → Fails s error
      → ◌≡◌ {A = Run W}
          ((run e).0.context, (run e).1)
          (
            repeat (max_tries e.options.retry_count) (λ c. (s.execute c).0) e.context,
            err workflow_step_failed,
          )
  run-repeat e s error ss ready calm strict new first free f =
      run-script e ready calm strict
      ∙ (λ i. script (new i) (max_tries e.options.retry_count) (first i) e.context)
      ∙ rw (free, script)
          (ap (after (script new_recovery (max_tries e.options.retry_count) ss))
            (tries-repeat (max_tries e.options.retry_count) s error e.context f free))
