-- ===== src/Workflow/Engine/Attempt.antt =====
-- lib/src/workflow/WorkflowEngine.cpp: `executeStep`.
use mboot_core.Prelude.{
  ℕ, zero, suc, ℤ, pos, negsuc, true, false, Option, none, some, List, [], ◌∷◌,
}
use mboot_core.Domain.{Result, ok, err, stuck, ErrorCode, invalid_argument, workflow_step_failed}
use mboot_core.Jobs.Types.{is_cancel}
use mboot_core.Workflow.Types.{
  WorkflowState, WorkflowStep, add_entry, set_current_step, mark_step_completed, mark_step_failed,
}
use mboot_core.Workflow.Recovery.{
  RecoveryAction, retry, rollback as roll_back, skip, abort, resume, continue, decide,
}
use mboot_core.Workflow.Engine.{
  StepEntry, WorkflowEngine, Outcome, check_cancelled, tick, count_error, count_rollback, rollback,
}

-- `maxRetries` of `executeStep`.
abbrev pub max_tries : ℤ → ℕ
max_tries (pos zero) = 1
max_tries (pos (suc n)) = suc n
max_tries (negsuc n) = 1

module _ {W : Type 0} where
  -- `entry.completed = true` and `entry.failed = true`.
  abbrev pub complete_at : ℕ → List (StepEntry W) → List (StepEntry W)
  complete_at i [] = []
  complete_at zero (n ∷ ns) = record n { completed = true } ∷ ns
  complete_at (suc i) (n ∷ ns) = n ∷ complete_at i ns

  abbrev pub fail_at : ℕ → List (StepEntry W) → List (StepEntry W)
  fail_at i [] = []
  fail_at zero (n ∷ ns) = record n { failed = true } ∷ ns
  fail_at (suc i) (n ∷ ns) = n ∷ fail_at i ns

  abbrev pub fail_entry : ℕ → WorkflowEngine W → WorkflowEngine W
  fail_entry i e = record e { steps = fail_at i e.steps }

  abbrev pub mark_failed : ℕ → WorkflowEngine W → WorkflowEngine W
  mark_failed i e = record e { steps = fail_at i e.steps; progress = mark_step_failed e.progress }

  abbrev pub count_retry : WorkflowEngine W → WorkflowEngine W
  count_retry e = record e { stats = record e.stats { retries = suc e.stats.retries } }

  unfoldable pub succeeded : ℕ → WorkflowStep W → WorkflowEngine W → WorkflowEngine W
  succeeded i s e = record e {
    steps = complete_at i e.steps;
    progress = mark_step_completed e.progress;
    history =
        add_entry
          (record {
            workflow_id = s.name;
            success = true;
            error_code = ErrorCode.success;
            final_state = WorkflowState.completed;
          })
          e.history;
  }

  unfoldable pub skipped : ℕ → WorkflowEngine W → WorkflowEngine W
  skipped i e = record e {
    steps = complete_at i e.steps;
    progress = mark_step_completed e.progress;
    stats = record e.stats { warnings = suc e.stats.warnings };
  }

  unfoldable pub aborted : ℕ → WorkflowStep W → ErrorCode → WorkflowEngine W → WorkflowEngine W
  aborted i s x e = count_error (record e {
    steps = fail_at i e.steps;
    progress = mark_step_failed e.progress;
    history =
        add_entry
          (record {
            workflow_id = s.name;
            success = false;
            error_code = x;
            final_state = WorkflowState.failed;
          })
          e.history;
  })

  -- A step that failed, after the rollback that its recovery asked for.
  abbrev pub rolled_back : ℕ → ErrorCode → Outcome W → Outcome W
  rolled_back i x (e, ok _) = (fail_entry i e, err x)
  rolled_back i x (e, err _) = (mark_failed i (count_rollback e), err x)
  rolled_back i x (e, stuck f) = (e, stuck f)

  -- The `switch` over the action; `again` is the next turn of the loop.
  abbrev pub act :
      (WorkflowEngine W → Outcome W)
      → ℕ
      → WorkflowStep W
      → ErrorCode
      → RecoveryAction
      → WorkflowEngine W
      → Outcome W
  act again i s x retry e = again e
  act again i s x roll_back e = rolled_back i x (rollback e)
  act again i s x skip e = (skipped i e, ok tt)
  act again i s x abort e = (aborted i s x e, err x)
  act again i s x resume e = (aborted i s x e, err x)
  act again i s x continue e = (aborted i s x e, err x)

  -- What follows the execution of a step.
  abbrev pub answer :
      (WorkflowEngine W → Outcome W)
      → ℕ
      → WorkflowStep W
      → WorkflowEngine W
      → Result (Unit {0})
      → Outcome W
  answer again i s e (ok _) = (succeeded i s e, ok tt)
  answer again i s e (err x) = elim (is_cancel x) [
    | true ↦ (mark_failed i e, err x)
    | false ↦ act again i s x (decide e.recovery s.type s.name x).action (count_retry e)
  ]
  answer again i s e (stuck f) = (e, stuck f)

  abbrev pub executed : WorkflowStep W → WorkflowEngine W → WorkflowEngine W
  executed s e = record e { context = (s.execute e.context).0 }

  -- The loop of `executeStep`, with the turns that are left.
  unfoldable pub try_step : ℕ → ℕ → WorkflowStep W → WorkflowEngine W → Outcome W
  unfolding tick check_cancelled succeeded skipped aborted
  try_step zero i s e = (count_error (fail_entry i e), err workflow_step_failed)
  try_step (suc n) i s e =
      let q = tick e in
      elim (check_cancelled q) [
        | true ↦ (q, err ErrorCode.cancelled)
        | false ↦ answer (try_step n i s) i s (executed s q) (s.execute q.context).1
      ]

  unfoldable pub execute_step : ℕ → Option (WorkflowStep W) → WorkflowEngine W → Outcome W
  unfolding try_step
  execute_step i none e = (e, err invalid_argument)
  execute_step i (some s) e =
      try_step (max_tries e.options.retry_count) i s
        (record e { progress = set_current_step s.name s.type e.progress })
