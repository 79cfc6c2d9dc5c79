-- ===== src/Workflow/Engine.antt =====
-- lib/include/mbootcore/workflow/WorkflowEngine.hpp and lib/src/workflow/WorkflowEngine.cpp: the state
-- and the operations but `run`. Other threads call `pause`, `resume` and `cancel` while `run` goes on:
-- what they do before each reading of the flags is given by a list of signals. The callbacks for
-- errors and progress are left out; the calls of the one for the state are recorded.
pub mod Attempt
pub mod Run
pub mod Starts
pub mod Script
pub mod Undone
pub mod Marks
pub mod Grows
pub mod Ends
use Prim.Native.String.{String}
use text.Mathlib.Text.{◌==◌ as same_text}
use mboot_core.Prelude.{
  ℕ, zero, suc, ◌+◌, ◌==◌, ℤ, pos, negsuc, Bool, true, false, ◌||◌, Option, none, some, List, [],
  ◌∷◌, ◌++◌, length, take, drop, if◌then◌else◌,
}
use mboot_core.Domain.{Result, ok, err, stuck, ErrorCode, invalid_state, undefined_behaviour}
use mboot_core.Jobs.Types.{is_success}
use mboot_core.Workflow.Types.{
  WorkflowState, WorkflowStatistics, WorkflowResult, WorkflowOptions, WorkflowContext, WorkflowStep,
  WorkflowHistoryEntry, WorkflowProgressEngine, is_cancelled, set_total_steps, mark_cancelled,
  reset,
}
use mboot_core.Workflow.Recovery.{WorkflowRecovery, clear_custom_recoveries}

pub data Signal : Type 0 where
  quiet cancel_request pause_request resume_request : Signal

pub record StepEntry (W : Type 0) : Type 0 where
  pub step : Option (WorkflowStep W)
  pub completed : Bool
  pub failed : Bool

-- `state_calls` is `none` until a callback is set; then it holds the calls, the latest first.
pub record WorkflowEngine (W : Type 0) : Type 0 where
  pub steps : List (StepEntry W)
  pub context : WorkflowContext W
  pub options : WorkflowOptions
  pub recovery : WorkflowRecovery
  pub progress : WorkflowProgressEngine
  pub history : List WorkflowHistoryEntry
  pub state : WorkflowState
  pub cancelled : Bool
  pub paused : Bool
  pub current_step_index : ℕ
  pub result : WorkflowResult
  pub stats : WorkflowStatistics
  pub state_calls : Option (List (WorkflowState × WorkflowState))
  pub signals : List Signal

abbrev pub Outcome : Type 0 → Type 0
Outcome W = WorkflowEngine W × Result (Unit {0})

-- The numbers of the enum.
abbrev pub state_id : WorkflowState → ℕ
state_id WorkflowState.created = 0
state_id WorkflowState.ready = 1
state_id WorkflowState.running = 2
state_id WorkflowState.paused = 3
state_id WorkflowState.cancelled = 4
state_id WorkflowState.completed = 5
state_id WorkflowState.failed = 6
state_id WorkflowState.rolling_back = 7

abbrev pub in_state : {W : Type 0} → WorkflowState → WorkflowEngine W → Bool
in_state s e = state_id e.state == state_id s

abbrev pub no_statistics : WorkflowStatistics
no_statistics = record { retries = 0; rollbacks = 0; warnings = 0; errors = 0 }

abbrev pub no_result : WorkflowResult
no_result = record { success = false; error = ErrorCode.success }

module _ {W : Type 0} where
  unfoldable pub set_state : WorkflowState → WorkflowEngine W → WorkflowEngine W
  set_state s e = record e {
    state = s;
    state_calls =
        if in_state s e
        then e.state_calls
        else (elim e.state_calls [ none ↦ none | some l ↦ some ((e.state, s) ∷ l) ]);
  }

  abbrev pub entry_of : Option (WorkflowStep W) → StepEntry W
  entry_of s = record { step = s; completed = false; failed = false }

  unfoldable pub add_step : Option (WorkflowStep W) → WorkflowEngine W → WorkflowEngine W
  add_step s e = record e { steps = e.steps ++ entry_of s ∷ [] }

  -- An index past the end is the end.
  unfoldable pub insert_step : ℕ → Option (WorkflowStep W) → WorkflowEngine W → WorkflowEngine W
  insert_step i s e = record e { steps = take i e.steps ++ entry_of s ∷ drop i e.steps }

  abbrev is_called : String → StepEntry W → Bool
  is_called name n = elim n.step [ none ↦ false | some s ↦ same_text s.name name ]

  unfoldable pub without : String → List (StepEntry W) → List (StepEntry W)
  without name [] = []
  without name (n ∷ ns) = if is_called name n then ns else n ∷ without name ns

  unfoldable pub remove_step : String → WorkflowEngine W → WorkflowEngine W
  unfolding without
  remove_step name e = record e { steps = without name e.steps }

  unfoldable pub clear_steps : WorkflowEngine W → WorkflowEngine W
  clear_steps e = record e { steps = []; current_step_index = 0; progress = reset e.progress }

  unfoldable pub find_in : String → List (StepEntry W) → Option (WorkflowStep W)
  find_in name [] = none
  find_in name (n ∷ ns) = if is_called name n then n.step else find_in name ns

  unfoldable pub find_step : String → WorkflowEngine W → Option (WorkflowStep W)
  unfolding find_in
  find_step name e = find_in name e.steps

  unfoldable pub pause : WorkflowEngine W → Outcome W
  unfolding set_state
  pause e =
      if in_state WorkflowState.running e
      then (set_state WorkflowState.paused (record e { paused = true }), ok tt)
      else (e, err invalid_state)

  unfoldable pub resume : WorkflowEngine W → Outcome W
  unfolding set_state
  resume e =
      if in_state WorkflowState.paused e
      then (set_state WorkflowState.running (record e { paused = false }), ok tt)
      else (e, err invalid_state)

  unfoldable pub cancel : WorkflowEngine W → WorkflowEngine W
  unfolding set_state
  cancel e =
      let q = set_state WorkflowState.cancelled (record e { cancelled = true }) in
      record q { progress = mark_cancelled q.progress }

  unfoldable pub reset_engine : WorkflowEngine W → WorkflowEngine W
  unfolding cancel set_state
  reset_engine e =
      let q = cancel e in
      set_state WorkflowState.created (record q {
        steps = [];
        current_step_index = 0;
        cancelled = false;
        paused = false;
        stats = no_statistics;
        result = no_result;
        progress = reset q.progress;
        history = [];
        recovery = clear_custom_recoveries q.recovery;
      })

  -- `checkCancelled`.
  unfoldable pub check_cancelled : WorkflowEngine W → Bool
  check_cancelled e = e.cancelled || is_cancelled e.context

  unfoldable pub receive : Signal → WorkflowEngine W → WorkflowEngine W
  unfolding cancel pause resume
  receive quiet e = e
  receive cancel_request e = cancel e
  receive pause_request e = (pause e).0
  receive resume_request e = (resume e).0

  unfoldable pub tick : WorkflowEngine W → WorkflowEngine W
  unfolding receive
  tick e = elim e.signals [ [] ↦ e | s ∷ ss ↦ receive s (record e { signals = ss }) ]

  abbrev pub nth : List (StepEntry W) → ℕ → Option (StepEntry W)
  nth [] i = none
  nth (n ∷ ns) zero = some n
  nth (n ∷ ns) (suc i) = nth ns i

  abbrev pub count_error : WorkflowEngine W → WorkflowEngine W
  count_error e = record e { stats = record e.stats { errors = suc e.stats.errors } }

  abbrev pub count_rollback : WorkflowEngine W → WorkflowEngine W
  count_rollback e = record e { stats = record e.stats { rollbacks = suc e.stats.rollbacks } }

  -- The loop of `rollback`, down from the index `i`; `last` is the error seen last.
  unfoldable pub rollback_loop : ℕ → ErrorCode → WorkflowEngine W → Outcome W
  rollback_loop zero last e =
      if is_success last
      then (set_state WorkflowState.ready e, ok tt)
      else (record e { result = record { success = false; error = last } }, err last)
  rollback_loop (suc i) last e = elim (nth e.steps i) [
    | none ↦ (e, stuck undefined_behaviour)
    | some n ↦ elim n.completed [
      | false ↦ rollback_loop i last e
      | true ↦ elim n.step [
        | none ↦ rollback_loop i last e
        | some s ↦
            let (c, r) = s.rollback e.context in
            let q = record e { context = c } in
            elim r [
              | ok _ ↦ rollback_loop i last (count_rollback q)
              | err x ↦ rollback_loop i x (count_error q)
              | stuck x ↦ (q, stuck x)
            ]
      ]
    ]
  ]

  unfoldable pub rollback : WorkflowEngine W → Outcome W
  unfolding rollback_loop set_state
  rollback e =
      if in_state WorkflowState.failed e || in_state WorkflowState.cancelled e
      then rollback_loop e.current_step_index ErrorCode.success
          (set_state WorkflowState.rolling_back e)
      else (e, err invalid_state)
