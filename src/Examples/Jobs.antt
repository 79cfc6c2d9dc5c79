-- ===== src/Examples/Jobs.antt =====
-- A device that keeps what is written to it, and jobs that write: instances of the theorems on jobs.
use Prim.Native.String.{String}
use mboot_core.Prelude.{ℕ, ◌≡◌, ◌≢◌, refl, arith, true, some, List, [], ◌∷◌, pos}
use mboot_core.Domain.{ok, err, stuck, Fault, ErrorCode, job_failed}
use mboot_core.Jobs.Types.{Job, flash}
use mboot_core.Jobs.History.{JobHistory, JobHistoryEntry, HistoryFilter, empty_history}
use mboot_core.Jobs.History.Window.{
  Change, adds, clears, bounds, changes, log_changes, shown, empty_log, changes-shown,
}
use mboot_core.Jobs.Progress.{new_aggregator}
use mboot_core.Jobs.Progress.Counted.{IsCounted}
use mboot_core.Jobs.Pipeline.{
  JobPipeline, new_pipeline, quiet, pause_request, resume_request, cancel_request,
}
use mboot_core.Jobs.Pipeline.Run.{execute_job, wants_rollback, run}
use mboot_core.Jobs.Pipeline.Saga.{saga}
use mboot_core.Jobs.Pipeline.Saga.Refines.{run-saga}
use mboot_core.Jobs.Pipeline.Saga.Atomic.{IsAtomic, AllOrNothing, run-AllOrNothing}
use mboot_core.Jobs.Pipeline.Settles.{Settled, run-Settled}
use mboot_core.Jobs.Scheduler.{JobScheduler, running}
use mboot_core.Jobs.Scheduler.Order.{IsFree, Serves, process_rounds-Serves}

abbrev forget_last : List ℕ → List ℕ
forget_last [] = []
forget_last (x ∷ xs) = xs

abbrev writing : String → ℕ → Job (List ℕ)
writing name n = record {
  id = name;
  type = flash;
  prepare = λ w. (w, ok tt);
  execute = λ w. (n ∷ w, ok tt);
  rollback = λ w. (forget_last w, ok tt);
  cancel = λ w. w;
  recovery_policy = λ _. some true;
  can_rollback = λ _. true;
}

abbrev refusing : String → Job (List ℕ)
refusing name = record (writing name 0) { prepare = λ w. (w, err job_failed) }

abbrev small_pipeline : JobPipeline (List ℕ)
unfolding new_pipeline
small_pipeline = record (new_pipeline [] []) {
  jobs = writing "a" 1 ∷ writing "b" 2 ∷ refusing "c" ∷ writing "d" 4 ∷ [];
}

-- Paused and resumed before the second job, and cancelled before the third.
abbrev disturbed_pipeline : JobPipeline (List ℕ)
disturbed_pipeline = record small_pipeline {
  signals = quiet ∷ pause_request ∷ resume_request ∷ cancel_request ∷ [];
}

writing-IsAtomic : (name : String) (n : ℕ) → IsAtomic (writing name n)
unfolding execute_job wants_rollback
writing-IsAtomic name n = record {
  answers = λ w x h. cc;
  keeps = λ w e h. absurd (cc);
  asks = λ w. refl;
  undone = λ w h. (refl, refl);
}

refusing-IsAtomic : (name : String) → IsAtomic (refusing name)
unfolding execute_job wants_rollback
refusing-IsAtomic name = record {
  answers = λ w x h. cc;
  keeps = λ w e h. refl;
  asks = λ w. refl;
  undone = λ w h. absurd (cc);
}

run-saga_example :
    ((run small_pipeline).0.world, (run small_pipeline).1) ≡ saga [] small_pipeline.jobs []
unfolding small_pipeline
run-saga_example = run-saga small_pipeline refl refl

run-AllOrNothing_example : AllOrNothing [] ((run small_pipeline).0.world, (run small_pipeline).1)
unfolding small_pipeline
run-AllOrNothing_example = run-AllOrNothing small_pipeline refl refl (
  writing-IsAtomic "a" 1,
  (writing-IsAtomic "b" 2, (refusing-IsAtomic "c", (writing-IsAtomic "d" 4, tt))),
)

run-Settled_example :
    Settled disturbed_pipeline.jobs disturbed_pipeline.world (run disturbed_pipeline)
unfolding small_pipeline
run-Settled_example = run-Settled disturbed_pipeline refl

abbrev small_scheduler : JobScheduler (List ℕ)
unfolding new_pipeline
small_scheduler = record {
  pipeline = new_pipeline [] [];
  queue = some (writing "a" 1) ∷ some (refusing "b") ∷ some (writing "c" 3) ∷ [];
  state = running;
  total_scheduled = 3;
  total_completed = 0;
  total_failed = 0;
  total_cancelled = 0;
}

small_scheduler-IsFree : IsFree small_scheduler.pipeline
unfolding small_scheduler
small_scheduler-IsFree = record { free = refl; calm = refl }

writing_answers :
    (name : String) (n : ℕ) (w : List ℕ) (x : Fault) → (execute_job (writing name n) w).1 ≢ stuck x
writing_answers name n = (writing-IsAtomic name n).answers

process_rounds-Serves_example :
    Serves 5 (writing "a" 1 ∷ refusing "b" ∷ writing "c" 3 ∷ []) small_scheduler
unfolding small_scheduler
process_rounds-Serves_example =
    process_rounds-Serves 5 (writing "a" 1 ∷ refusing "b" ∷ writing "c" 3 ∷ []) small_scheduler refl
      refl small_scheduler-IsFree
      (writing_answers "a" 1, ((refusing-IsAtomic "b").answers, (writing_answers "c" 3, tt)))

abbrev entry : String → JobHistoryEntry
entry name = record {
  job_id = name;
  type = flash;
  start_time = 0;
  success = true;
  error = ErrorCode.success;
}

-- A history that may hold two entries, of the three that were added.
abbrev short_history : JobHistory
short_history = record { entries = entry "b" ∷ entry "c" ∷ []; max_entries = 2 }

abbrev long_log : List JobHistoryEntry
long_log = entry "a" ∷ entry "b" ∷ entry "c" ∷ []

abbrev only_b : HistoryFilter
only_b = record {
  types = flash ∷ [];
  success_filter = [];
  from_time = 0;
  to_time = 0;
  job_id_filter = "b";
  max_results = pos 1;
}

-- "a" is cut off when "c" comes, and stays lost under a wider bound.
abbrev some_changes : List Change
some_changes =
    adds (entry "z")
    ∷ clears
    ∷ adds (entry "a")
    ∷ bounds 2
    ∷ adds (entry "b")
    ∷ adds (entry "c")
    ∷ bounds 5
    ∷ adds (entry "d")
    ∷ []

window_left : shown (log_changes some_changes empty_log) ≡ entry "b" ∷ entry "c" ∷ entry "d" ∷ []
window_left = refl

changes-shown_example :
    ((changes some_changes empty_history).entries ≡ shown (log_changes some_changes empty_log))
    × ((changes some_changes empty_history).max_entries ≡ 5)
changes-shown_example = changes-shown some_changes

new_aggregator-IsCounted : IsCounted new_aggregator
unfolding new_aggregator
new_aggregator-IsCounted = record { completed_counted = omega arith; failed_counted = omega arith }
