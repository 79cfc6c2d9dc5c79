-- ===== src/Jobs/Progress.antt =====
-- lib/src/job/ProgressAggregator.cpp: the jobs' progress put together. Percentages, texts and the
-- job that is named as the current one, which nothing but a display reads, are left out.
pub mod Counted
use Prim.Native.String.{String}
use text.Mathlib.Text.{◌==◌ as same_text}
use mboot_core.Prelude.{
  ℕ, suc, ◌+◌, ◌%◌, ◌^◌, Bool, true, false, ◌&&◌, ◌||◌, not, ltb, Option, none, some, List, [], ◌∷◌,
  if◌then◌else◌,
}
use mboot_core.Jobs.Types.{JobType}

pub record JobProgress : Type 0 where
  pub type : JobType
  pub total_bytes : ℕ
  pub transferred_bytes : ℕ
  pub completed : Bool
  pub failed : Bool
  pub is_indeterminate : Bool

pub record AggregatedProgress : Type 0 where
  pub total_jobs : ℕ
  pub completed_jobs : ℕ
  pub failed_jobs : ℕ
  pub active_jobs : ℕ
  pub total_bytes : ℕ
  pub transferred_bytes : ℕ

-- `jobs` is the map. `callback` is `none` until one is set; then it holds the calls made so far.
pub record ProgressAggregator : Type 0 where
  pub callback : Option (List AggregatedProgress)
  pub jobs : List (String × JobProgress)
  pub total_jobs : ℕ
  pub total_completed : ℕ
  pub total_failed : ℕ

unfoldable pub new_aggregator : ProgressAggregator
new_aggregator = record {
  callback = none;
  jobs = [];
  total_jobs = 0;
  total_completed = 0;
  total_failed = 0;
}

-- The map's operations.
unfoldable pub lookup : String → List (String × JobProgress) → Option JobProgress
lookup id [] = none
lookup id ((k, v) ∷ rest) = if same_text k id then some v else lookup id rest

unfoldable pub store :
    String → JobProgress → List (String × JobProgress) → List (String × JobProgress)
store id p [] = (id, p) ∷ []
store id p ((k, v) ∷ rest) = if same_text k id then (k, p) ∷ rest else (k, v) ∷ store id p rest

unfoldable pub erase : String → List (String × JobProgress) → List (String × JobProgress)
erase id [] = []
erase id ((k, v) ∷ rest) = if same_text k id then rest else (k, v) ∷ erase id rest

unfoldable pub is_active : JobProgress → Bool
is_active p = not p.completed && not p.failed

unfoldable pub has_size : JobProgress → Bool
has_size p = ltb 0 p.total_bytes && not p.is_indeterminate

-- The loop of `current` over the map.
unfoldable pub sum_up : List (String × JobProgress) → AggregatedProgress → AggregatedProgress
unfolding is_active has_size
sum_up [] ap = ap
sum_up ((k, p) ∷ rest) ap =
    let active = if is_active p then suc ap.active_jobs else ap.active_jobs in
    let total = if has_size p then (ap.total_bytes + p.total_bytes) % 2 ^ 64 else ap.total_bytes in
    let done =
      if has_size p
      then (ap.transferred_bytes + p.transferred_bytes) % 2 ^ 64
      else ap.transferred_bytes in
    sum_up rest (record ap { active_jobs = active; total_bytes = total; transferred_bytes = done })

unfoldable pub current : ProgressAggregator → AggregatedProgress
unfolding sum_up
current a = sum_up a.jobs (record {
  total_jobs = a.total_jobs;
  completed_jobs = a.total_completed;
  failed_jobs = a.total_failed;
  active_jobs = 0;
  total_bytes = 0;
  transferred_bytes = 0;
})

unfoldable pub report_to :
    Option (List AggregatedProgress) → ProgressAggregator → ProgressAggregator
report_to none a = a
report_to (some calls) a = record a { callback = some (current a ∷ calls) }

unfoldable pub report : ProgressAggregator → ProgressAggregator
unfolding report_to
report a = report_to a.callback a

unfoldable pub set_callback : ProgressAggregator → ProgressAggregator
set_callback a = record a { callback = some [] }

unfoldable pub register_job : String → JobType → ℕ → ProgressAggregator → ProgressAggregator
register_job id type total a = record a {
  jobs =
      store id
        (record {
          type = type;
          total_bytes = total;
          transferred_bytes = 0;
          completed = false;
          failed = false;
          is_indeterminate = false;
        })
        a.jobs;
}

unfoldable pub unregister_job : String → ProgressAggregator → ProgressAggregator
unregister_job id a = record a { jobs = erase id a.jobs }

unfoldable pub update_job_progress :
    String → (total transferred : ℕ) → Bool → ProgressAggregator → ProgressAggregator
update_job_progress id total transferred indeterminate a = elim (lookup id a.jobs) [
  | none ↦ a
  | some p ↦ report (record a {
    jobs =
        store id
          (record p {
            total_bytes = total;
            transferred_bytes = transferred;
            is_indeterminate = indeterminate;
          })
          a.jobs;
  })
]

unfoldable pub mark_job_completed : String → ProgressAggregator → ProgressAggregator
mark_job_completed id a = elim (lookup id a.jobs) [
  | none ↦ a
  | some p ↦ report (record a {
    jobs = store id (record p { completed = true }) a.jobs;
    total_completed = suc a.total_completed;
  })
]

unfoldable pub mark_job_failed : String → ProgressAggregator → ProgressAggregator
mark_job_failed id a = elim (lookup id a.jobs) [
  | none ↦ a
  | some p ↦ report (record a {
    jobs = store id (record p { failed = true }) a.jobs;
    total_failed = suc a.total_failed;
  })
]

unfoldable pub set_total_jobs : ℕ → ProgressAggregator → ProgressAggregator
set_total_jobs n a = record a { total_jobs = n }

unfoldable pub reset : ProgressAggregator → ProgressAggregator
reset a = record new_aggregator { callback = a.callback }
