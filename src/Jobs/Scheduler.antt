-- ===== src/Jobs/Scheduler.antt =====
-- lib/include/mbootcore/job/JobScheduler.hpp and lib/src/job/JobScheduler.cpp: the queue of jobs and
-- the loop of the worker thread. The loop is given as many rounds as its first argument says. Times,
-- and the dependencies of a job, which nothing reads, are left out.
pub mod Order
use Prim.Native.String.{String}
use mboot_core.Prelude.{
  ℕ, zero, suc, Bool, true, false, Option, none, some, List, [], ◌∷◌, ◌++◌, length, if◌then◌else◌,
}
use mboot_core.Domain.{Result, ok, err, stuck, ErrorCode, no_answer, out_of_fuel}
use mboot_core.Jobs.Types.{Job, is_cancel}
use mboot_core.Jobs.Pipeline.{JobPipeline, add_job, clear_jobs, cancel, pause, resume, new_pipeline}
use mboot_core.Jobs.Pipeline.Run.{run}

pub data SchedulerState : Type 0 where
  idle running paused shutdown : SchedulerState

-- A null pointer in the queue is `none`.
pub record JobScheduler (W : Type 0) : Type 0 where
  pub pipeline : JobPipeline W
  pub queue : List (Option (Job W))
  pub state : SchedulerState
  pub total_scheduled : ℕ
  pub total_completed : ℕ
  pub total_failed : ℕ
  pub total_cancelled : ℕ

pub record SchedulerStats : Type 0 where
  pub total_scheduled : ℕ
  pub total_completed : ℕ
  pub total_failed : ℕ
  pub total_cancelled : ℕ
  pub queue_size : ℕ
  pub active_count : ℕ
  pub is_running : Bool

abbrev pub is_running_state : SchedulerState → Bool
is_running_state running = true
is_running_state _ = false

module _ {W : Type 0} where
  unfoldable pub new_scheduler : W → JobScheduler W
  new_scheduler w = record {
    pipeline = new_pipeline w [];
    queue = [];
    state = idle;
    total_scheduled = 0;
    total_completed = 0;
    total_failed = 0;
    total_cancelled = 0;
  }

  unfoldable pub enqueue : Option (Job W) → JobScheduler W → JobScheduler W
  enqueue j s = record s { queue = s.queue ++ j ∷ []; total_scheduled = suc s.total_scheduled }

  -- `start` sets the state; the thread that it makes runs `process_queue`.
  unfoldable pub start : JobScheduler W → JobScheduler W
  start s = elim s.state [ idle ↦ record s { state = running } | _ ↦ s ]

  unfoldable pub stop : JobScheduler W → JobScheduler W
  stop s = record s { state = shutdown; pipeline = cancel s.pipeline; queue = [] }

  unfoldable pub pause_queue : JobScheduler W → JobScheduler W
  pause_queue s = record s { state = paused; pipeline = pause s.pipeline }

  unfoldable pub resume_queue : JobScheduler W → JobScheduler W
  resume_queue s = elim s.state [
    | paused ↦ record s { state = running; pipeline = resume s.pipeline }
    | _ ↦ s
  ]

  unfoldable pub cancel_job : String → JobScheduler W → JobScheduler W
  cancel_job id s = record s { pipeline = cancel s.pipeline }

  unfoldable pub stats : JobScheduler W → SchedulerStats
  stats s = record {
    total_scheduled = s.total_scheduled;
    total_completed = s.total_completed;
    total_failed = s.total_failed;
    total_cancelled = s.total_cancelled;
    queue_size = length s.queue;
    active_count = if s.pipeline.running then 1 else 0;
    is_running = is_running_state s.state;
  }

  -- The counters after a run of the pipeline.
  unfoldable pub count_result : Result (Unit {0}) → JobScheduler W → JobScheduler W
  count_result (ok _) s = record s { total_completed = suc s.total_completed }
  count_result (err e) s =
      if is_cancel e
      then record s { total_cancelled = suc s.total_cancelled }
      else record s { total_failed = suc s.total_failed }
  count_result (stuck x) s = s

  unfoldable pub update_counters : JobScheduler W → JobScheduler W
  update_counters s = record s {
    total_completed = s.pipeline.completed_count;
    total_failed = s.pipeline.failed_count;
  }

  -- A job of the queue, by the pipeline. A run that does not return keeps the thread.
  unfoldable pub process_job : Job W → JobScheduler W → JobScheduler W × Result (Unit {0})
  unfolding count_result update_counters
  process_job j s =
      let (p, r) = run (add_job j (clear_jobs s.pipeline)) in
      elim r [
        | stuck x ↦ (record s { pipeline = p }, stuck x)
        | ok _ ↦ (update_counters (count_result (ok tt) (record s { pipeline = p })), ok tt)
        | err e ↦ (update_counters (count_result (err e) (record s { pipeline = p })), ok tt)
      ]

  abbrev pub and_go_on :
      (JobScheduler W → JobScheduler W × Result (Unit {0}))
      → JobScheduler W × Result (Unit {0})
      → JobScheduler W × Result (Unit {0})
  and_go_on f (s, ok _) = f s
  and_go_on f (s, err e) = (s, err e)
  and_go_on f (s, stuck x) = (s, stuck x)

  -- `processQueue`, with no other thread: an empty queue is asked for again in the next round.
  unfoldable pub process_rounds : ℕ → JobScheduler W → JobScheduler W × Result (Unit {0})
  unfolding process_job
  process_rounds zero s = (s, stuck out_of_fuel)
  process_rounds (suc n) s = elim (is_running_state s.state) [
    | false ↦ (record s { state = idle }, ok tt)
    | true ↦ elim s.queue [
      | [] ↦ process_rounds n s
      | q ∷ qs ↦ elim q [
        | none ↦ process_rounds n (record s { queue = qs })
        | some j ↦ and_go_on (process_rounds n) (process_job j (record s { queue = qs }))
      ]
    ]
  ]
