-- ===== src/Examples/Workflow.antt =====
-- Workflows over a list of numbers: runs, and instances of the theorems on the engine.
use Prim.Native.String.{String}
use mboot_core.Prelude.{ℕ, ◌≡◌, refl, inl, arith, Bool, true, false, none, some, List, [], ◌∷◌, pos}
use mboot_core.Domain.{ok, err, ErrorCode, transport_timeout, workflow_step_failed}
use mboot_core.Workflow.Types.{
  WorkflowState, ready, flash, custom, WorkflowContext, WorkflowStep, is_cancelled,
}
use mboot_core.Workflow.Recovery.{new_recovery}
use mboot_core.Workflow.Engine.{
  WorkflowEngine, StepEntry, no_statistics, no_result, pause_request, resume_request, rollback,
  rollback_loop, set_state,
}
use mboot_core.Workflow.Engine.Run.{run}
use mboot_core.Workflow.Engine.Ends.{Ended, run-Ended}
use mboot_core.Workflow.Engine.Script.{Run, script}
use mboot_core.Workflow.Engine.Script.Refines.{run-script}
use mboot_core.Workflow.Engine.Script.Exhausts.{Fails, repeat, run-repeat}
use mboot_core.Workflow.Engine.Undone.{undo, before, rollback-undo, run-rollback}

abbrev Context : Type 0
Context = WorkflowContext (List ℕ)

abbrev tail : List ℕ → List ℕ
tail [] = []
tail (x ∷ xs) = xs

abbrev writing : String → ℕ → WorkflowStep (List ℕ)
writing name n = record {
  name = name;
  type = custom;
  prepare = λ c. (c, ok tt);
  execute = λ c. (record c { world = n ∷ c.world }, ok tt);
  rollback = λ c. (record c { world = tail c.world }, ok tt);
}

-- A step that writes and then fails.
abbrev failing : WorkflowStep (List ℕ)
failing = record {
  name = "flash";
  type = flash;
  prepare = λ c. (c, ok tt);
  execute = λ c. (record { properties = []; world = 9 ∷ c.world }, err transport_timeout);
  rollback = λ c. (c, ok tt);
}

abbrev entry : WorkflowStep (List ℕ) → Bool → StepEntry (List ℕ)
entry s b = record { step = some s; completed = b; failed = false }

abbrev engine : List (StepEntry (List ℕ)) → WorkflowEngine (List ℕ)
engine steps = record {
  steps = steps;
  context = record { properties = []; world = [] };
  options = record { retry_count = pos 3; continue_on_warning = false };
  recovery = new_recovery;
  progress = record {
    total_steps = 2;
    completed_steps = 0;
    failed_steps = 0;
    current_step_name = "";
    current_step_type = custom;
  };
  history = [];
  state = ready;
  cancelled = false;
  paused = false;
  current_step_index = 0;
  result = no_result;
  stats = no_statistics;
  state_calls = none;
  signals = [];
}

abbrev two_steps : WorkflowEngine (List ℕ)
two_steps = engine (entry (writing "a" 1) false ∷ entry (writing "b" 2) false ∷ [])

abbrev one_failing : WorkflowEngine (List ℕ)
one_failing = engine (entry failing false ∷ [])

-- A workflow whose second step has failed.
abbrev half_done : WorkflowEngine (List ℕ)
half_done = record (engine (entry (writing "a" 1) true ∷ entry failing false ∷ [])) {
  state = WorkflowState.failed;
  current_step_index = 1;
  context = record { properties = []; world = 1 ∷ [] };
}

abbrev interrupted : WorkflowEngine (List ℕ)
interrupted = record two_steps { signals = pause_request ∷ resume_request ∷ [] }

two_steps-run : (run two_steps).1 ≡ ok tt
unfolding run is_cancelled
two_steps-run = refl

run-script_example :
    ((run two_steps).0.context, (run two_steps).1)
    ≡ script new_recovery 3 (some (writing "a" 1) ∷ some (writing "b" 2) ∷ []) two_steps.context
run-script_example = run-script two_steps refl refl refl

fails : Fails failing (λ c. transport_timeout)
unfolding is_cancelled
fails = record {
  is_tried_again = refl;
  always = λ c. refl;
  ordinary = λ c. refl;
  goes_on = λ c. refl;
}

run-repeat_example :
    ◌≡◌ {A = Run (List ℕ)}
      ((run one_failing).0.context, (run one_failing).1)
      (repeat 3 (λ c. (failing.execute c).0) one_failing.context, err workflow_step_failed)
unfolding is_cancelled
run-repeat_example =
    run-repeat one_failing failing (λ c. transport_timeout) [] refl refl refl refl refl refl fails

run-Ended_example : Ended 0 (run interrupted)
run-Ended_example = run-Ended interrupted (inl refl) refl

rollback-undo_example :
    ((rollback half_done).0.context, (rollback half_done).1)
    ≡ undo (before 1 half_done.steps) ErrorCode.success half_done.context
rollback-undo_example = rollback-undo half_done (inl refl) (omega arith)

run-rollback_example :
    ((run (rollback half_done).0).0.context, (run (rollback half_done).0).1)
    ≡ script new_recovery 3 (some failing ∷ []) (rollback half_done).0.context
unfolding rollback rollback_loop set_state
run-rollback_example = run-rollback half_done (inl refl) (omega arith) refl refl refl
