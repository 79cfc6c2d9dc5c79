-- ===== src/Workflow/Engine/Script.antt =====
-- What a run of the engine does to the context: a script, in which each step is tried a number of
-- times, and whose first failure ends it. Nothing is undone.
pub mod Steps
pub mod Refines
pub mod Exhausts
use mboot_core.Prelude.{ℕ, zero, suc, ◌+◌, Bool, true, false, Option, none, some, List, [], ◌∷◌}
use mboot_core.Domain.{Result, ok, err, stuck, ErrorCode, invalid_argument, workflow_step_failed}
use mboot_core.Jobs.Types.{is_cancel}
use mboot_core.Workflow.Types.{WorkflowContext, WorkflowStep, is_cancelled}
use mboot_core.Workflow.Recovery.{
  RecoveryAction, retry, rollback, skip, abort, resume, continue, WorkflowRecovery, decide,
}

abbrev pub Run : Type 0 → Type 0
Run W = WorkflowContext W × Result (Unit {0})

module _ {W : Type 0} where
  -- A failed step is tried again, passed over, or ends the script.
  abbrev pub recovered :
      (WorkflowContext W → Run W) → ErrorCode → RecoveryAction → WorkflowContext W → Run W
  recovered again x retry c = again c
  recovered again x skip c = (c, ok tt)
  recovered again x rollback c = (c, err x)
  recovered again x abort c = (c, err x)
  recovered again x resume c = (c, err x)
  recovered again x continue c = (c, err x)

  abbrev pub tried : WorkflowRecovery → (WorkflowContext W → Run W) → WorkflowStep W → Run W → Run W
  tried r again s (c, ok _) = (c, ok tt)
  tried r again s (c, err x) = elim (is_cancel x) [
    | true ↦ (c, err x)
    | false ↦ recovered again x (decide r s.type s.name x).action c
  ]
  tried r again s (c, stuck f) = (c, stuck f)

  abbrev pub tries : WorkflowRecovery → ℕ → WorkflowStep W → WorkflowContext W → Run W
  tries r zero s c = (c, err workflow_step_failed)
  tries r (suc n) s c = elim (is_cancelled c) [
    | true ↦ (c, err ErrorCode.cancelled)
    | false ↦ tried r (tries r n s) s (s.execute c)
  ]

  abbrev pub tries_of : WorkflowRecovery → ℕ → Option (WorkflowStep W) → WorkflowContext W → Run W
  tries_of r n none c = (c, err invalid_argument)
  tries_of r n (some s) c = tries r n s c

  abbrev pub after : (WorkflowContext W → Run W) → Run W → Run W
  after go (c, ok _) = go c
  after go (c, err x) = (c, err x)
  after go (c, stuck f) = (c, stuck f)

  -- Each step of a list with `n` tries.
  abbrev pub script :
      WorkflowRecovery → ℕ → List (Option (WorkflowStep W)) → WorkflowContext W → Run W
  script r n [] c = (c, ok tt)
  script r n (s ∷ ss) c = elim (is_cancelled c) [
    | true ↦ (c, err ErrorCode.cancelled)
    | false ↦ after (script r n ss) (tries_of r n s c)
  ]
