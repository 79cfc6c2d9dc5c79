-- ===== src/Jobs/Types.antt =====
-- lib/include/mbootcore/job/JobTypes.hpp and IJob.hpp. A job is an interface: what its methods do to
-- the world of the jobs (the device, and the fields of the jobs themselves) is given by functions.
-- Its configuration, which the pipeline hands back to it unchanged, its statistics and its progress
-- are left out.
use Prim.Native.String.{String}
use mboot_core.Prelude.{ℕ, Option, Bool, true, false}
use mboot_core.Domain.{Result, ok, err, stuck, ErrorCode}

pub data JobType : Type 0 where
  flash backup restore read erase verify programmer_upload gpt_update custom : JobType

pub data JobState : Type 0 where
  pending preparing running paused completed failed cancelled rolling_back rolled_back : JobState

-- `recovery_policy` is what `canRollback` of the job's policy says, `none` if it has no policy.
pub record Job (W : Type 0) : Type 0 where
  pub id : String
  pub type : JobType
  pub prepare : W → W × Result (Unit {0})
  pub execute : W → W × Result (Unit {0})
  pub rollback : W → W × Result (Unit {0})
  pub cancel : W → W
  pub recovery_policy : W → Option Bool
  pub can_rollback : W → Bool

-- `error == ErrorCode::Cancelled` and `error == ErrorCode::Success`.
abbrev pub is_cancel : ErrorCode → Bool
is_cancel ErrorCode.cancelled = true
is_cancel _ = false

abbrev pub is_success : ErrorCode → Bool
is_success ErrorCode.success = true
is_success _ = false

-- One call after another, which is skipped if the first one fails.
abbrev pub and_then :
    {W : Type 0} → W × Result (Unit {0}) → (W → W × Result (Unit {0})) → W × Result (Unit {0})
and_then (w, ok _) f = f w
and_then (w, err e) f = (w, err e)
and_then (w, stuck x) f = (w, stuck x)

-- The numbers of the enum.
abbrev pub type_id : JobType → ℕ
type_id flash = 0
type_id backup = 1
type_id restore = 2
type_id read = 3
type_id erase = 4
type_id verify = 5
type_id programmer_upload = 6
type_id gpt_update = 7
type_id custom = 8
