-- ===== src/Jobs/Recovery.antt =====
-- lib/include/mbootcore/job/RecoveryPolicies.hpp and lib/src/job/RecoveryPolicies.cpp: what a policy
-- advises after a failure. An `int` is an integer, which a cast to `uint32_t` takes modulo 2^32.
pub mod Patience
use mboot_core.Prelude.{
  ℕ, suc, ℤ, pos, ltz, as_unsigned, Bool, true, false, ◌&&◌, ltb, leb, if◌then◌else◌,
}
use mboot_core.Domain.{ErrorCode}
use mboot_core.Jobs.Types.{is_cancel}

pub data RecoveryAction : Type 0 where
  retry rollback skip abort : RecoveryAction

pub record DefaultRecoveryPolicy : Type 0 where
  pub max_retries : ℤ
  pub max_rollbacks : ℤ
  pub can_rollback : Bool
  pub rollback_count : ℕ

unfoldable pub default_policy : DefaultRecoveryPolicy
default_policy = record {
  max_retries = pos 3;
  max_rollbacks = pos 1;
  can_rollback = true;
  rollback_count = 0;
}

unfoldable pub evaluate :
    DefaultRecoveryPolicy → ErrorCode → ℕ → DefaultRecoveryPolicy × RecoveryAction
evaluate p error attempts =
    if is_cancel error
    then (p, abort)
    else if ltb attempts (as_unsigned 32 p.max_retries)
    then (p, retry)
    else if p.can_rollback && leb (as_unsigned 32 p.max_retries) attempts
    then (if ltz (pos p.rollback_count) p.max_rollbacks
        then (record p { rollback_count = suc p.rollback_count }, rollback)
        else (p, abort))
    else (p, abort)

pub record RollbackOnFailurePolicy : Type 0 where
  pub max_rollbacks : ℤ
  pub rollback_count : ℕ

unfoldable pub evaluate_rollback :
    RollbackOnFailurePolicy → ErrorCode → RollbackOnFailurePolicy × RecoveryAction
evaluate_rollback p error =
    if is_cancel error
    then (p, abort)
    else if ltz (pos p.rollback_count) p.max_rollbacks
    then (record p { rollback_count = suc p.rollback_count }, rollback)
    else (p, abort)

-- `RetryForeverPolicy` and `AbortOnFailurePolicy`, which have no state that they read.
unfoldable pub evaluate_forever : ErrorCode → ℕ → RecoveryAction
evaluate_forever error attempts = retry

unfoldable pub evaluate_abort : ErrorCode → ℕ → RecoveryAction
evaluate_abort error attempts = abort
