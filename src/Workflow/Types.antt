-- ===== src/Workflow/Types.antt =====
-- lib/include/mbootcore/workflow/WorkflowTypes.hpp and IWorkflowStep.hpp, WorkflowHistory.cpp and
-- WorkflowProgressEngine.cpp. A step is an interface, given by what its methods do to the context. Of
-- the context, the properties are kept apart from the objects that it points to, which are a type `W`
-- of their own. Times, percentages, messages and the copy of the statistics in a result are left out.
use Prim.Native.String.{String}
use text.Mathlib.Text.{◌==◌ as same_text}
use mboot_core.Prelude.{
  ℕ, suc, ◌-◌, ℤ, Bool, false, ltb, List, [], ◌∷◌, ◌++◌, length, drop, if◌then◌else◌,
}
use mboot_core.Domain.{Result, ErrorCode}

pub data WorkflowState : Type 0 where
  created ready running paused cancelled completed failed rolling_back : WorkflowState

pub data WorkflowStepType : Type 0 where
  connect detect negotiate upload_loader flash verify gpt backup restore reboot : WorkflowStepType
  disconnect custom : WorkflowStepType

-- The numbers of the enum, by which two types are compared.
abbrev pub step_type_id : WorkflowStepType → ℕ
step_type_id connect = 0
step_type_id detect = 1
step_type_id negotiate = 2
step_type_id upload_loader = 3
step_type_id flash = 4
step_type_id verify = 5
step_type_id gpt = 6
step_type_id backup = 7
step_type_id restore = 8
step_type_id reboot = 9
step_type_id disconnect = 10
step_type_id custom = 99

pub record WorkflowStatistics : Type 0 where
  pub retries : ℕ
  pub rollbacks : ℕ
  pub warnings : ℕ
  pub errors : ℕ

pub record WorkflowResult : Type 0 where
  pub success : Bool
  pub error : ErrorCode

pub record WorkflowOptions : Type 0 where
  pub retry_count : ℤ
  pub continue_on_warning : Bool

pub record WorkflowContext (W : Type 0) : Type 0 where
  pub properties : List (String × String)
  pub world : W

abbrev pub has_property : String → String → List (String × String) → Bool
has_property k v [] = false
has_property k v ((j, w) ∷ m) = if same_text j k then same_text w v else has_property k v m

-- `WorkflowContext::isCancelled`.
unfoldable pub is_cancelled : {W : Type 0} → WorkflowContext W → Bool
is_cancelled c = has_property "cancelled" "true" c.properties

pub record WorkflowStep (W : Type 0) : Type 0 where
  pub name : String
  pub type : WorkflowStepType
  pub prepare : WorkflowContext W → WorkflowContext W × Result (Unit {0})
  pub execute : WorkflowContext W → WorkflowContext W × Result (Unit {0})
  pub rollback : WorkflowContext W → WorkflowContext W × Result (Unit {0})

-- An entry of the history has what the engine sets.
pub record WorkflowHistoryEntry : Type 0 where
  pub workflow_id : String
  pub success : Bool
  pub error_code : ErrorCode
  pub final_state : WorkflowState

unfoldable pub add_entry :
    WorkflowHistoryEntry → List WorkflowHistoryEntry → List WorkflowHistoryEntry
add_entry e h =
    let entries = h ++ e ∷ [] in
    if ltb 1000 (length entries) then drop (length entries - 1000) entries else entries

pub record WorkflowProgressEngine : Type 0 where
  pub total_steps : ℕ
  pub completed_steps : ℕ
  pub failed_steps : ℕ
  pub current_step_name : String
  pub current_step_type : WorkflowStepType

unfoldable pub reset : WorkflowProgressEngine → WorkflowProgressEngine
reset p = record {
  total_steps = 0;
  completed_steps = 0;
  failed_steps = 0;
  current_step_name = "";
  current_step_type = custom;
}

unfoldable pub set_total_steps : ℕ → WorkflowProgressEngine → WorkflowProgressEngine
set_total_steps n p = record p { total_steps = n }

unfoldable pub set_current_step :
    String → WorkflowStepType → WorkflowProgressEngine → WorkflowProgressEngine
set_current_step name type p = record p { current_step_name = name; current_step_type = type }

unfoldable pub mark_step_completed : WorkflowProgressEngine → WorkflowProgressEngine
mark_step_completed p = record p { completed_steps = suc p.completed_steps }

unfoldable pub mark_step_failed : WorkflowProgressEngine → WorkflowProgressEngine
mark_step_failed p = record p { failed_steps = suc p.failed_steps }

unfoldable pub mark_cancelled : WorkflowProgressEngine → WorkflowProgressEngine
mark_cancelled p = record p { current_step_name = "Cancelled" }
