-- ===== src/Jobs/Pipeline.antt =====
-- lib/include/mbootcore/job/JobPipeline.hpp and lib/src/job/JobPipeline.cpp. The jobs act on a world
-- of their own, `W`. Other threads call `cancel`, `pause` and `resume` while `run` goes on: what they
-- do before each reading of the flags is given by a list of signals. The flags of a `JobEntry`, which
-- nothing reads, and the reports of progress that a job makes while it runs are left out.
pub mod Run
pub mod Saga
pub mod Awaits
pub mod Settles
use Prim.Native.String.{String}
use text.Mathlib.Text.{◌==◌ as same_text}
use mboot_core.Prelude.{
  ℕ, zero, suc, ◌+◌, Bool, true, false, Option, none, some, List, [], ◌∷◌, ◌++◌, length, take, drop,
  if◌then◌else◌,
}
use mboot_core.Domain.{
  Result, ok, err, stuck, ErrorCode, job_already_running, no_answer, undefined_behaviour,
}
use mboot_core.Jobs.Types.{Job, JobState, and_then, is_cancel, is_success}
use mboot_core.Jobs.History.{JobHistory, JobHistoryEntry, empty_history, add_entry}
use mboot_core.Jobs.Progress.{
  ProgressAggregator, new_aggregator, register_job, mark_job_completed, mark_job_failed,
  set_total_jobs,
}

pub data Signal : Type 0 where
  quiet cancel_request pause_request resume_request : Signal

-- `job_calls` is `none` until a job callback is set; then it holds the calls made so far.
pub record JobPipeline (W : Type 0) : Type 0 where
  pub jobs : List (Job W)
  pub world : W
  pub signals : List Signal
  pub running : Bool
  pub paused : Bool
  pub cancelled : Bool
  pub current_index : ℕ
  pub completed_count : ℕ
  pub failed_count : ℕ
  pub job_calls : Option (List (String × JobState × Bool))
  pub aggregator : ProgressAggregator
  pub history : JobHistory

module _ {W : Type 0} where
  unfoldable pub new_pipeline : W → List Signal → JobPipeline W
  unfolding new_aggregator empty_history
  new_pipeline w signals = record {
    jobs = [];
    world = w;
    signals = signals;
    running = false;
    paused = false;
    cancelled = false;
    current_index = 0;
    completed_count = 0;
    failed_count = 0;
    job_calls = none;
    aggregator = new_aggregator;
    history = empty_history;
  }

  unfoldable pub add_job : Job W → JobPipeline W → JobPipeline W
  add_job j p = record p { jobs = p.jobs ++ j ∷ [] }

  -- An index past the end is the end.
  unfoldable pub insert_job : ℕ → Job W → JobPipeline W → JobPipeline W
  insert_job i j p = record p { jobs = take i p.jobs ++ j ∷ drop i p.jobs }

  unfoldable pub without : String → List (Job W) → List (Job W)
  without id [] = []
  without id (j ∷ js) = if same_text j.id id then without id js else j ∷ without id js

  unfoldable pub remove_job : String → JobPipeline W → JobPipeline W
  unfolding without
  remove_job id p = record p { jobs = without id p.jobs }

  unfoldable pub clear_jobs : JobPipeline W → JobPipeline W
  clear_jobs p = record p { jobs = []; completed_count = 0; failed_count = 0; current_index = 0 }

  unfoldable pub find_in : String → List (Job W) → Option (Job W)
  find_in id [] = none
  find_in id (j ∷ js) = if same_text j.id id then some j else find_in id js

  unfoldable pub find_job : String → JobPipeline W → Option (Job W)
  unfolding find_in
  find_job id p = find_in id p.jobs

  -- `cancel` of every job.
  unfoldable pub cancel_all : List (Job W) → W → W
  cancel_all [] w = w
  cancel_all (j ∷ js) w = cancel_all js (j.cancel w)

  unfoldable pub cancel : JobPipeline W → JobPipeline W
  unfolding cancel_all
  cancel p = record p { cancelled = true; world = cancel_all p.jobs p.world }

  unfoldable pub pause : JobPipeline W → JobPipeline W
  pause p = record p { paused = true }

  unfoldable pub resume : JobPipeline W → JobPipeline W
  resume p = record p { paused = false }

  unfoldable pub receive : Signal → JobPipeline W → JobPipeline W
  unfolding cancel pause resume
  receive quiet p = p
  receive cancel_request p = cancel p
  receive pause_request p = pause p
  receive resume_request p = resume p
