-- ===== src/Jobs/Scheduler/Order.antt =====
-- The order in which the worker serves the queue, and what its counters then say.
use mathlib.Core.Path.{subst}
use mboot_core.Prelude.{
  ℕ, suc, ◌+◌, ◌≤◌, ◌≡◌, ◌≢◌, refl, sym, ap, ◌∙◌, inl, inr, arith, false, Option, some, List, [],
  ◌∷◌, length, map, All, Bool-cases,
}
use mboot_core.Domain.{Result, ok, err, stuck, Fault, ErrorCode, Result-cases}
use mboot_core.Jobs.Types.{Job, is_cancel}
use mboot_core.Jobs.Pipeline.{JobPipeline, add_job, clear_jobs}
use mboot_core.Jobs.Pipeline.Run.{Outcome, execute_job, wants_rollback, run}
use mboot_core.Jobs.Pipeline.Saga.{undo, saga}
use mboot_core.Jobs.Pipeline.Saga.Refines.{run-saga}
use mboot_core.Jobs.Pipeline.Settles.{Settled, successes_le, run-Settled}
use mboot_core.Jobs.Pipeline.Settles.Quiet.{run-IsQuiet}
use mboot_core.Jobs.Scheduler.{
  JobScheduler, running, count_result, update_counters, process_job, and_go_on, process_rounds,
}

module _ {W : Type 0} where
  -- The pipeline of a scheduler between two jobs.
  pub record IsFree (p : JobPipeline W) : Type 0 where
    pub free : p.running ≡ false
    pub calm : p.signals ≡ []

  alone : Job W → JobPipeline W → JobPipeline W
  unfolding add_job clear_jobs
  alone j p = add_job j (clear_jobs p)

  -- A run of one job: it is executed, and there is nothing to undo.
  abbrev Executes : Job W → W → W × Result (Unit {0}) → Type 0
  Executes j w (v, r) = (v ≡ (execute_job j w).0) × ((x : Fault) → r ≢ stuck x)

  undo-Executes :
      (j : Job W) (e : ErrorCode) (w : W)
      → (undo [] j e w).0 ≡ w × ((x : Fault) → (undo [] j e w).1 ≢ stuck x)
  undo-Executes j e w = elim (Bool-cases (is_cancel e)) [
    | inl c ↦ rw (c, undo) (refl, λ x h. cc)
    | inr c ↦ elim (Bool-cases (wants_rollback j w)) [
      | inl t ↦ rw (c, undo, t) (refl, λ x h. cc)
      | inr t ↦ rw (c, undo, t) (refl, λ x h. cc)
    ]
  ]

  saga-Executes :
      (j : Job W) (w : W)
      → ((x : Fault) → (execute_job j w).1 ≢ stuck x)
      → Executes j w (saga [] (j ∷ []) w)
  saga-Executes j w answers = elim (Result-cases (execute_job j w).1) [
    | inl (_, r) ↦ rw (r, saga) (refl, λ x h. cc)
    | inr (inl (e, r)) ↦ rw (r, saga) (undo-Executes j e (execute_job j w).0)
    | inr (inr (x, r)) ↦ absurd (answers x r)
  ]

  run-alone-saga :
      (j : Job W) (p : JobPipeline W)
      → IsFree p
      → ((run (alone j p)).0.world, (run (alone j p)).1) ≡ saga [] (j ∷ []) p.world
  unfolding alone add_job clear_jobs
  run-alone-saga j p c = run-saga (alone j p) c.free c.calm

  -- What the pipeline leaves to the scheduler.
  abbrev Leaves : W → JobPipeline W → Type 0
  Leaves w p = IsFree p × (p.world ≡ w) × (p.completed_count + p.failed_count ≤ 1)

  Settled-counts :
      (j : Job W) (w : W) (o : Outcome W)
      → Settled (j ∷ []) w o
      → ((x : Fault) → o.1 ≢ stuck x)
      → (o.0.running ≡ false) × (o.0.completed_count + o.0.failed_count ≤ 1)
  Settled-counts j w (p, ok _) s n =
      let most = successes_le (j ∷ []) w in (s.0, omega (arith, s.1, s.2, most))
  Settled-counts j w (p, err e) s n = (s.0, omega (arith, s.1, s.2))
  Settled-counts j w (p, stuck x) s n = absurd (n x refl)

  run-alone-Leaves :
      (j : Job W) (p : JobPipeline W)
      → ((x : Fault) → (execute_job j p.world).1 ≢ stuck x)
      → IsFree p
      → ((x : Fault) → (run (alone j p)).1 ≢ stuck x)
        × Leaves (execute_job j p.world).0 (run (alone j p)).0
  unfolding alone add_job clear_jobs
  run-alone-Leaves j p answers c =
      let done = saga-Executes j p.world answers in
      let same = run-alone-saga j p c in
      let returns : (x : Fault) → (run (alone j p)).1 ≢ stuck x =
        λ x h. done.1 x (sym (ap (λ o. o.1) same) ∙ h) in
      let counts =
        Settled-counts j p.world (run (alone j p)) (run-Settled (alone j p) c.free) returns in
      (
        returns,
        (
          record { free = counts.0; calm = run-IsQuiet (alone j p) c.free c.calm },
          ap (λ o. o.0) same ∙ done.0,
          counts.1,
        ),
      )

  -- The scheduler after a job.
  record After (w : W) (s t : JobScheduler W) : Type 0 where
    pub ready : IsFree t.pipeline
    pub world : t.pipeline.world ≡ w
    pub queue : t.queue ≡ s.queue
    pub state : t.state ≡ s.state
    pub totals : t.total_completed + t.total_failed ≤ 1

  update_counters-After :
      (w : W) (s t : JobScheduler W)
      → Leaves w t.pipeline
      → t.queue ≡ s.queue
      → t.state ≡ s.state
      → After w s (update_counters t)
  unfolding update_counters
  update_counters-After w s t l q e = record {
    ready = l.0;
    world = l.1;
    queue = q;
    state = e;
    totals = l.2;
  }

  count_result-After :
      (w : W) (r : Result (Unit {0})) (s : JobScheduler W) (p : JobPipeline W)
      → Leaves w p
      → After w s (update_counters (count_result r (record s { pipeline = p })))
  unfolding count_result
  count_result-After w (ok _) s p l =
      update_counters-After w s (count_result (ok tt) (record s { pipeline = p })) l refl refl
  count_result-After w (stuck x) s p l =
      update_counters-After w s (record s { pipeline = p }) l refl refl
  count_result-After w (err e) s p l = elim (Bool-cases (is_cancel e)) [
    | inl c ↦ rw c (
        update_counters-After w s
          (record s { pipeline = p; total_cancelled = suc s.total_cancelled }) l refl refl)
    | inr c ↦ rw c (
        update_counters-After w s (record s { pipeline = p; total_failed = suc s.total_failed }) l
          refl refl)
  ]

  process_job-After :
      (j : Job W) (s : JobScheduler W)
      → ((x : Fault) → (execute_job j s.pipeline.world).1 ≢ stuck x)
      → IsFree s.pipeline
      → (t : JobScheduler W) × (process_job j s ≡ (t, ok tt))
        × After (execute_job j s.pipeline.world).0 s t
  unfolding process_job alone
  process_job-After j s answers c =
      let one = run-alone-Leaves j s.pipeline answers c in
      let p = (run (alone j s.pipeline)).0 in
      elim (Result-cases (run (alone j s.pipeline)).1) [
        | inl (_, r) ↦ (_, rw (r, process_job) refl, count_result-After _ (ok tt) s p one.1)
        | inr (inl (e, r)) ↦ (_, rw (r, process_job) refl, count_result-After _ (err e) s p one.1)
        | inr (inr (x, r)) ↦ absurd (one.0 x r)
      ]

  -- The jobs one after another, whatever becomes of each.
  abbrev pub execute_all : List (Job W) → W → W
  execute_all [] w = w
  execute_all (j ∷ js) w = execute_all js (execute_job j w).0

  -- The worker has served a queue: it is empty, and the pipeline is free.
  pub record Served (w : W) (t : JobScheduler W) : Type 0 where
    pub empty : t.queue ≡ []
    pub ready : IsFree t.pipeline
    pub state : t.state ≡ running
    pub world : t.pipeline.world ≡ w

  process_rounds_job :
      (n : ℕ) (j : Job W) (qs : List (Option (Job W))) (s : JobScheduler W)
      → s.state ≡ running
      → s.queue ≡ some j ∷ qs
      → process_rounds (suc n) s
        ≡ and_go_on (process_rounds n) (process_job j (record s { queue = qs }))
  unfolding process_rounds
  process_rounds_job n j qs s e q = simp (e, process_rounds, q)

  -- As many rounds as there are jobs lead to a scheduler that has served them all.
  abbrev pub Serves : ℕ → List (Job W) → JobScheduler W → Type 0
  Serves n js s =
      (t : JobScheduler W) × (process_rounds (length js + n) s ≡ process_rounds n t)
      × Served (execute_all js s.pipeline.world) t

  -- The worker serves the queue in its order, one job a round, though some of the jobs fail: if every
  -- call of a job returns and no other thread disturbs it, then after as many rounds as there are
  -- jobs the queue is empty, the pipeline is free, and the world is what the jobs, one after another,
  -- made of it.
  pub process_rounds-Serves :
      (n : ℕ) (js : List (Job W)) (s : JobScheduler W)
      → s.state ≡ running
      → s.queue ≡ map some js
      → IsFree s.pipeline
      → All (λ j. (w : W) (x : Fault) → (execute_job j w).1 ≢ stuck x) js
      → Serves n js s
  process_rounds-Serves n [] s e q c answers = (
    s,
    ap (λ k. process_rounds k s) (omega arith),
    record { empty = q; ready = c; state = e; world = refl },
  )
  process_rounds-Serves n (j ∷ js) s e q c answers =
      let s' = record s { queue = map some js } in
      let (t, step, after) = process_job-After j s' (answers.0 s.pipeline.world) c in
      let rest = process_rounds-Serves n js t (after.state ∙ e) after.queue after.ready answers.1 in
      (
        rest.0,
        ap (λ k. process_rounds k s) (omega arith)
            ∙ process_rounds_job (length js + n) j (map some js) s e q
            ∙ ap (and_go_on (process_rounds (length js + n))) step
            ∙ rest.1,
        rw (← after.world) rest.2,
      )

  -- The counters of the scheduler are those of the last run only: after a job whose calls return,
  -- however many it has served before, they add up to one at most.
  pub process_job-totals :
      (j : Job W) (s : JobScheduler W)
      → ((x : Fault) → (execute_job j s.pipeline.world).1 ≢ stuck x)
      → IsFree s.pipeline
      → (process_job j s).0.total_completed + (process_job j s).0.total_failed ≤ 1
  process_job-totals j s answers c =
      let (u, step, after) = process_job-After j s answers c in
      subst (λ v. v.total_completed + v.total_failed ≤ 1) (ap (λ o. o.0) (sym step)) after.totals
