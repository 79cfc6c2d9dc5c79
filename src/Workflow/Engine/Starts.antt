-- ===== src/Workflow/Engine/Starts.antt =====
-- How a run starts.
use mboot_core.Prelude.{
  ◌≡◌, ◌⊎◌, refl, ap, ◌∙◌, inl, inr, true, false, List, [], ◌∷◌, if◌then◌else◌,
}
use mboot_core.Domain.{ok, err, ErrorCode, invalid_state}
use mboot_core.Workflow.Types.{WorkflowState}
use mboot_core.Workflow.Engine.{StepEntry, WorkflowEngine, Outcome, in_state, set_state}
use mboot_core.Workflow.Engine.Run.{
  steps_from, run_loop, begin, is_ready, run_ready, prepare, then_run, run,
}

module _ {W : Type 0} where
  -- The states from which an engine runs.
  abbrev pub CanRun : WorkflowEngine W → Type 0
  CanRun e = (e.state ≡ WorkflowState.ready) ⊎ (e.state ≡ WorkflowState.paused)

  is_ready_lem : (e : WorkflowEngine W) → CanRun e → is_ready e ≡ true
  is_ready_lem e (inl h) = rw h refl
  is_ready_lem e (inr h) = rw h refl

  is_not_created : (e : WorkflowEngine W) → CanRun e → in_state WorkflowState.created e ≡ false
  is_not_created e (inl h) = rw h refl
  is_not_created e (inr h) = rw h refl

  -- What such an engine does, by its steps.
  abbrev pub on_steps : WorkflowEngine W → List (StepEntry W) → Outcome W
  on_steps e ns = elim ns [
    | [] ↦
        let q = set_state WorkflowState.completed e in
        (record q { result = record { success = true; error = ErrorCode.success } }, ok tt)
    | n ∷ ns ↦ run_loop e.current_step_index (steps_from e.current_step_index e.steps) (begin e)
  ]

  pub run-on_steps : (e : WorkflowEngine W) → CanRun e → run e ≡ on_steps e e.steps
  unfolding run run_ready
  run-on_steps e can =
      ap (λ b. elim b [ true ↦ then_run (prepare e) | false ↦ run_ready e ]) (is_not_created e can)
      ∙ ap (λ b. if b then on_steps e e.steps else (e, err invalid_state)) (is_ready_lem e can)
