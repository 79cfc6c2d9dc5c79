-- ===== src/Jobs/Progress/Counted.antt =====
-- The counters of the aggregator against its map.
use Prim.Native.String.{String}
use text.Mathlib.Text.{◌==◌ as same_text}
use mboot_core.Prelude.{
  ℕ, ◌+◌, ◌≤◌, ◌≡◌, inl, inr, arith, Bool, true, false, List, [], ◌∷◌, Option, none, some,
  Option-cases, Bool-cases,
}
use mboot_core.Jobs.Types.{JobType}
use mboot_core.Jobs.Progress.{
  JobProgress, ProgressAggregator, AggregatedProgress, lookup, store, erase, report, report_to,
  register_job, unregister_job, update_job_progress, mark_job_completed, mark_job_failed,
  set_total_jobs, reset, new_aggregator,
}

abbrev one : Bool → ℕ
one true = 1
one false = 0

abbrev pub count : (JobProgress → Bool) → List (String × JobProgress) → ℕ
count f [] = 0
count f ((k, p) ∷ rest) = one (f p) + count f rest

count-store :
    (f : JobProgress → Bool) (id : String) (q : JobProgress) (jobs : List (String × JobProgress))
    → count f (store id q jobs) ≤ count f jobs + one (f q)
unfolding store
count-store f id q [] = omega arith
count-store f id q ((k, p) ∷ rest) = elim (Bool-cases (same_text k id)) [
  | inl same ↦ rw same (omega arith)
  | inr other ↦ rw other (omega (arith, count-store f id q rest))
]

-- What stands under a key is counted no longer when something else takes its place.
count-store_over :
    (f : JobProgress → Bool) (id : String) (p q : JobProgress) (jobs : List (String × JobProgress))
    → lookup id jobs ≡ some p
    → count f (store id q jobs) + one (f p) ≡ count f jobs + one (f q)
unfolding store lookup
count-store_over f id p q [] h = absurd (cc)
count-store_over f id p q ((k, v) ∷ rest) h = elim (Bool-cases (same_text k id)) [
  | inl same ↦
      let found : some v ≡ some p = rw same at h in
      let value : v ≡ p = cc in rw (same, value) (omega arith)
  | inr other ↦ rw other (omega (arith, count-store_over f id p q rest (rw other at h)))
]

count-erase :
    (f : JobProgress → Bool) (id : String) (jobs : List (String × JobProgress))
    → count f (erase id jobs) ≤ count f jobs
unfolding erase
count-erase f id [] = omega arith
count-erase f id ((k, p) ∷ rest) = elim (Bool-cases (same_text k id)) [
  | inl same ↦ rw same (omega arith)
  | inr other ↦ rw other (omega (arith, count-erase f id rest))
]

-- No job is marked that was not counted.
pub record IsCounted (a : ProgressAggregator) : Type 0 where
  pub completed_counted : count (λ p. p.completed) a.jobs ≤ a.total_completed
  pub failed_counted : count (λ p. p.failed) a.jobs ≤ a.total_failed

report-IsCounted : (a : ProgressAggregator) → IsCounted a → IsCounted (report a)
unfolding report report_to
report-IsCounted a c = report_to-IsCounted a.callback a c
  where
    report_to-IsCounted :
        (o : Option (List AggregatedProgress)) (b : ProgressAggregator)
        → IsCounted b
        → IsCounted (report_to o b)
    report_to-IsCounted none b c = c
    report_to-IsCounted (some calls) b c = record {
      completed_counted = c.completed_counted;
      failed_counted = c.failed_counted;
    }

-- The calls that look a job up.
module _ (id : String) (a : ProgressAggregator) (c : IsCounted a) where
  update-IsCounted :
      (total transferred : ℕ) (b : Bool) → IsCounted (update_job_progress id total transferred b a)
  unfolding update_job_progress
  update-IsCounted total transferred b = elim (Option-cases (lookup id a.jobs)) [
    | inl missing ↦ rw (missing, update_job_progress) c
    | inr (p, found) ↦
        rw (found, update_job_progress)
          (report-IsCounted _ (record {
            completed_counted = omega (
              arith,
              count-store_over (λ v. v.completed) id p _ a.jobs found,
              c.completed_counted,
            );
            failed_counted =
                omega
                  (arith, count-store_over (λ v. v.failed) id p _ a.jobs found, c.failed_counted);
          }))
  ]

  complete-IsCounted : IsCounted (mark_job_completed id a)
  unfolding mark_job_completed
  complete-IsCounted = elim (Option-cases (lookup id a.jobs)) [
    | inl missing ↦ rw (missing, mark_job_completed) c
    | inr (p, found) ↦
        rw (found, mark_job_completed)
          (report-IsCounted _ (record {
            completed_counted = omega (
              arith,
              count-store (λ v. v.completed) id (record p { completed = true }) a.jobs,
              c.completed_counted,
            );
            failed_counted =
                omega
                  (arith, count-store_over (λ v. v.failed) id p _ a.jobs found, c.failed_counted);
          }))
  ]

  fail-IsCounted : IsCounted (mark_job_failed id a)
  unfolding mark_job_failed
  fail-IsCounted = elim (Option-cases (lookup id a.jobs)) [
    | inl missing ↦ rw (missing, mark_job_failed) c
    | inr (p, found) ↦
        rw (found, mark_job_failed)
          (report-IsCounted _ (record {
            completed_counted = omega (
              arith,
              count-store_over (λ v. v.completed) id p _ a.jobs found,
              c.completed_counted,
            );
            failed_counted = omega (
              arith,
              count-store (λ v. v.failed) id (record p { failed = true }) a.jobs,
              c.failed_counted,
            );
          }))
  ]

-- The calls that change an aggregator.
pub data Step : ProgressAggregator → ProgressAggregator → Type 0 where
  registers :
      (id : String) (type : JobType) (total : ℕ) {a : ProgressAggregator}
      → Step a (register_job id type total a)
  unregisters : (id : String) {a : ProgressAggregator} → Step a (unregister_job id a)
  updates :
      (id : String) (total transferred : ℕ) (indeterminate : Bool) {a : ProgressAggregator}
      → Step a (update_job_progress id total transferred indeterminate a)
  completes : (id : String) {a : ProgressAggregator} → Step a (mark_job_completed id a)
  fails : (id : String) {a : ProgressAggregator} → Step a (mark_job_failed id a)
  sets_total : (n : ℕ) {a : ProgressAggregator} → Step a (set_total_jobs n a)
  resets : {a : ProgressAggregator} → Step a (reset a)

-- No call that changes an aggregator leaves more jobs marked than it has counted: of the jobs in the
-- map no more are completed, and no more are failed, than the counters say.
pub Step-IsCounted : {a b : ProgressAggregator} → Step a b → IsCounted a → IsCounted b
unfolding register_job unregister_job set_total_jobs reset new_aggregator
Step-IsCounted (registers id type total {a}) c = record {
  completed_counted =
      omega (arith, count-store (λ v. v.completed) id _ a.jobs, c.completed_counted);
  failed_counted = omega (arith, count-store (λ v. v.failed) id _ a.jobs, c.failed_counted);
}
Step-IsCounted (unregisters id {a}) c = record {
  completed_counted = omega (arith, count-erase (λ v. v.completed) id a.jobs, c.completed_counted);
  failed_counted = omega (arith, count-erase (λ v. v.failed) id a.jobs, c.failed_counted);
}
Step-IsCounted (updates id total transferred b {a}) c = update-IsCounted id a c total transferred b
Step-IsCounted (completes id {a}) c = complete-IsCounted id a c
Step-IsCounted (fails id {a}) c = fail-IsCounted id a c
Step-IsCounted (sets_total n) c = record {
  completed_counted = c.completed_counted;
  failed_counted = c.failed_counted;
}
Step-IsCounted resets c = record { completed_counted = omega arith; failed_counted = omega arith }
