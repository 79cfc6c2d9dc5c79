-- ===== src/Jobs/Pipeline/Run.antt =====
-- lib/src/job/JobPipeline.cpp: `run`, `executeJob` and `rollbackAll`.
use mboot_core.Prelude.{
  ℕ, zero, suc, Bool, true, false, Option, none, some, List, [], ◌∷◌, length, if◌then◌else◌,
}
use Prim.Native.String.{String}
use mboot_core.Domain.{
  Result, ok, err, stuck, ErrorCode, job_already_running, no_answer, undefined_behaviour,
}
use mboot_core.Jobs.Types.{Job, JobState, and_then, is_cancel, is_success}
use mboot_core.Jobs.History.{add_entry}
use mboot_core.Jobs.Progress.{register_job, mark_job_completed, mark_job_failed, set_total_jobs}
use mboot_core.Jobs.Pipeline.{Signal, JobPipeline, receive}

abbrev pub Outcome : Type 0 → Type 0
Outcome W = JobPipeline W × Result (Unit {0})

abbrev pub last_error : ErrorCode → Result (Unit {0})
last_error e = if is_success e then ok tt else err e

module _ {W : Type 0} where
  -- The readings of the flags at the head of a round, with the sleep while the pipeline is paused:
  -- whether the round goes on. A pipeline that nobody resumes sleeps for ever.
  unfoldable pub await : List Signal → JobPipeline W → JobPipeline W × Option Bool
  unfolding receive
  await [] p = elim p.cancelled [
    | true ↦ (p, some false)
    | false ↦ elim p.paused [ true ↦ (p, none) | false ↦ (p, some true) ]
  ]
  await (s ∷ ss) p =
      let q = receive s (record p { signals = ss }) in
      elim q.cancelled [
        | true ↦ (q, some false)
        | false ↦ elim q.paused [ true ↦ await ss q | false ↦ (q, some true) ]
      ]

  -- `executeJob`, on the world.
  unfoldable pub execute_job : Job W → W → W × Result (Unit {0})
  execute_job j w = and_then (j.prepare w) j.execute

  unfoldable pub nth : List (Job W) → ℕ → Option (Job W)
  nth [] i = none
  nth (j ∷ js) zero = some j
  nth (j ∷ js) (suc i) = nth js i

  -- The loop of `rollbackAll`, down from the index `i`; `last` is the error seen last.
  unfoldable pub rollback_loop : List (Job W) → ℕ → ErrorCode → W → W × Result (Unit {0})
  unfolding nth
  rollback_loop jobs zero last w = (w, last_error last)
  rollback_loop jobs (suc i) last w = elim (nth jobs i) [
    | none ↦ (w, stuck undefined_behaviour)
    | some j ↦ elim (j.can_rollback w) [
      | false ↦ rollback_loop jobs i last w
      | true ↦
          let (w', r) = j.rollback w in
          elim r [
            | ok _ ↦ rollback_loop jobs i last w'
            | err e ↦ rollback_loop jobs i e w'
            | stuck x ↦ (w', stuck x)
          ]
    ]
  ]

  unfoldable pub rollback_all : JobPipeline W → W × Result (Unit {0})
  rollback_all p = rollback_loop p.jobs p.current_index ErrorCode.success p.world

  unfoldable pub finish : JobPipeline W → JobPipeline W
  finish p = record p { running = false }

  -- The calls of `m_jobCb` and of the history.
  abbrev pub call : String → JobState → Bool → JobPipeline W → JobPipeline W
  call id s b p = record p {
    job_calls = elim p.job_calls [ none ↦ none | some l ↦ some ((id, s, b) ∷ l) ];
  }

  unfoldable pub record_job : Job W → Bool → ErrorCode → JobPipeline W → JobPipeline W
  record_job j b e p = record p {
    history =
        add_entry (record { job_id = j.id; type = j.type; start_time = 0; success = b; error = e })
          p.history;
  }

  unfoldable pub mark_completed : Job W → JobPipeline W → JobPipeline W
  unfolding record_job
  mark_completed j p = record_job j true ErrorCode.success (
      call j.id JobState.completed true (record p {
        completed_count = suc p.completed_count;
        aggregator = mark_job_completed j.id p.aggregator;
      }))

  unfoldable pub mark_failed : Job W → JobPipeline W → JobPipeline W
  mark_failed j p = record p {
    failed_count = suc p.failed_count;
    aggregator = mark_job_failed j.id p.aggregator;
  }

  -- `recovery && recovery->canRollback() && job->canRollback()`.
  unfoldable pub wants_rollback : Job W → W → Bool
  wants_rollback j w = elim (j.recovery_policy w) [
    | none ↦ false
    | some can ↦ elim can [ true ↦ j.can_rollback w | false ↦ false ]
  ]

  unfoldable pub recover : Job W → JobPipeline W → Outcome W
  unfolding wants_rollback rollback_all
  recover j p = elim (wants_rollback j p.world) [
    | false ↦ (p, ok tt)
    | true ↦ let (w, r) = rollback_all p in (record p { world = w }, r)
  ]

  -- What follows a job that failed. The result of the rollback is not looked at.
  unfoldable pub fail_job : Job W → ErrorCode → JobPipeline W → Outcome W
  unfolding recover mark_failed record_job finish
  fail_job j e p = elim (is_cancel e) [
    | true ↦ (finish (mark_failed j p), err e)
    | false ↦
        let (q, r) = recover j p in
        let end =
          finish (record_job j false e (call j.id JobState.failed false (mark_failed j q))) in
        elim r [ ok _ ↦ (end, err e) | err _ ↦ (end, err e) | stuck x ↦ (q, stuck x) ]
  ]

  -- The pipeline when the job at the index `i` has been executed.
  abbrev pub executed : ℕ → Job W → JobPipeline W → JobPipeline W
  executed i j p = record p {
    world = (execute_job j p.world).0;
    current_index = i;
    aggregator = register_job j.id j.type 0 p.aggregator;
  }

  -- A round of the loop from the registration of the job on: `ok` goes on to the next one.
  unfoldable pub run_job : ℕ → Job W → JobPipeline W → Outcome W
  unfolding execute_job fail_job mark_completed
  run_job i j p = elim (execute_job j p.world).1 [
    | ok _ ↦ (mark_completed j (executed i j p), ok tt)
    | err e ↦ fail_job j e (executed i j p)
    | stuck x ↦ (executed i j p, stuck x)
  ]

  abbrev pub next : (JobPipeline W → Outcome W) → Outcome W → Outcome W
  next f (p, ok _) = f p
  next f (p, err e) = (p, err e)
  next f (p, stuck x) = (p, stuck x)

  -- What the readings of the flags lead to.
  abbrev pub proceed : (JobPipeline W → Outcome W) → JobPipeline W × Option Bool → Outcome W
  proceed f (p, none) = (p, stuck no_answer)
  proceed f (p, some false) = (finish p, ok tt)
  proceed f (p, some true) = f p

  -- The loop, from the index `i` on.
  unfoldable pub run_loop : ℕ → List (Job W) → JobPipeline W → Outcome W
  unfolding await run_job finish
  run_loop i [] p = (finish p, ok tt)
  run_loop i (j ∷ js) p =
      proceed (λ q. next (run_loop (suc i) js) (run_job i j q)) (await p.signals p)

  unfoldable pub start : JobPipeline W → JobPipeline W
  start p = record p {
    running = true;
    paused = false;
    cancelled = false;
    completed_count = 0;
    failed_count = 0;
    aggregator = set_total_jobs (length p.jobs) p.aggregator;
  }

  unfoldable pub run : JobPipeline W → Outcome W
  unfolding run_loop start
  run p = elim p.running [
    | true ↦ (p, err job_already_running)
    | false ↦ run_loop 0 p.jobs (start p)
  ]
