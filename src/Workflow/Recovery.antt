-- ===== src/Workflow/Recovery.antt =====
-- lib/src/workflow/WorkflowRecovery.cpp. A strategy is an interface, given by the decision that it
-- makes; the texts of its reasons are left out.
use Prim.Native.String.{String}
use mboot_core.Prelude.{ℕ, ◌+◌, ◌*◌, ◌==◌, ltb, Option, none, some, List, [], ◌∷◌, if◌then◌else◌}
use mboot_core.Domain.{ErrorCode}
use mboot_core.Jobs.Types.{is_cancel}
use mboot_core.Workflow.Types.{
  WorkflowStepType, connect, detect, negotiate, upload_loader, flash, verify, gpt, backup, restore,
  reboot, disconnect, custom, step_type_id,
}

pub data RecoveryAction : Type 0 where
  retry rollback skip abort resume continue : RecoveryAction

pub record RecoveryDecision : Type 0 where
  pub action : RecoveryAction
  pub retry_delay_ms : ℕ
  pub max_retries : ℕ

-- The last argument counts the retries so far.
abbrev pub RecoveryStrategy : Type 0
RecoveryStrategy = WorkflowStepType → String → ErrorCode → ℕ → RecoveryDecision

abbrev decision : RecoveryAction → ℕ → RecoveryDecision
decision a ms = record { action = a; retry_delay_ms = ms; max_retries = 3 }

-- The second `switch` of the default strategy.
abbrev when_exhausted : WorkflowStepType → ℕ → RecoveryDecision
when_exhausted connect n = decision retry 500
when_exhausted detect n = decision retry 500
when_exhausted negotiate n = decision retry 500
when_exhausted upload_loader n = decision retry 0
when_exhausted flash n = if ltb n 5 then decision rollback 0 else decision abort 0
when_exhausted gpt n = if ltb n 5 then decision rollback 0 else decision abort 0
when_exhausted backup n = if ltb n 5 then decision rollback 0 else decision abort 0
when_exhausted restore n = if ltb n 5 then decision rollback 0 else decision abort 0
when_exhausted verify n = decision abort 0
when_exhausted reboot n = decision abort 0
when_exhausted disconnect n = decision abort 0
when_exhausted custom n = decision abort 0

abbrev retry_or_exhausted : WorkflowStepType → ℕ → RecoveryDecision
retry_or_exhausted t n = if ltb n 3 then decision retry (100 * (n + 1)) else when_exhausted t n

abbrev when_failed : WorkflowStepType → ℕ → RecoveryDecision
when_failed verify n = decision abort 0
when_failed reboot n = decision skip 0
when_failed disconnect n = decision skip 0
when_failed connect n = retry_or_exhausted connect n
when_failed detect n = retry_or_exhausted detect n
when_failed negotiate n = retry_or_exhausted negotiate n
when_failed upload_loader n = retry_or_exhausted upload_loader n
when_failed flash n = retry_or_exhausted flash n
when_failed gpt n = retry_or_exhausted gpt n
when_failed backup n = retry_or_exhausted backup n
when_failed restore n = retry_or_exhausted restore n
when_failed custom n = retry_or_exhausted custom n

-- `DefaultRecoveryStrategy::decide`.
unfoldable pub default_strategy : RecoveryStrategy
default_strategy t name e n = if is_cancel e then decision abort 0 else when_failed t n

pub record WorkflowRecovery : Type 0 where
  pub strategy : Option RecoveryStrategy
  pub custom_strategies : List (WorkflowStepType × RecoveryStrategy)

unfoldable pub new_recovery : WorkflowRecovery
new_recovery = record { strategy = some default_strategy; custom_strategies = [] }

unfoldable pub find_custom :
    WorkflowStepType → List (WorkflowStepType × RecoveryStrategy) → Option RecoveryStrategy
find_custom t [] = none
find_custom t ((u, s) ∷ m) = if step_type_id u == step_type_id t then some s else find_custom t m

-- The engine does not say how often it has retried: the strategies are always given 0.
unfoldable pub decide : WorkflowRecovery → WorkflowStepType → String → ErrorCode → RecoveryDecision
unfolding find_custom
decide r t name e = elim (find_custom t r.custom_strategies) [
  | some s ↦ s t name e 0
  | none ↦ elim r.strategy [ some s ↦ s t name e 0 | none ↦ default_strategy t name e 0 ]
]

unfoldable pub set_strategy : Option RecoveryStrategy → WorkflowRecovery → WorkflowRecovery
set_strategy s r = record r { strategy = s }

-- A strategy that stands first hides an older one for its type.
unfoldable pub set_custom_recovery :
    WorkflowStepType → Option RecoveryStrategy → WorkflowRecovery → WorkflowRecovery
set_custom_recovery t none r = r
set_custom_recovery t (some s) r = record r { custom_strategies = (t, s) ∷ r.custom_strategies }

unfoldable pub clear_custom_recoveries : WorkflowRecovery → WorkflowRecovery
clear_custom_recoveries r = record r { custom_strategies = [] }
