-- ===== src/Jobs/Pipeline/Settles.antt =====
-- The pipeline's counters and flags after a run, whatever other threads do meanwhile.
pub mod Quiet
use mathlib.Core.Path.{subst}
use mboot_core.Prelude.{
  ℕ, suc, ◌+◌, ◌≤◌, ◌≡◌, refl, sym, ap, ◌∙◌, ◌⊎◌, inl, inr, arith, Bool, true, false, Option, none,
  some, List, [], ◌∷◌, length, take, Bool-cases,
}
use mboot_core.Domain.{Result, ok, err, stuck, ErrorCode, Result-cases}
use mboot_core.Jobs.Types.{Job, is_cancel}
use mboot_core.Jobs.Pipeline.{
  JobPipeline, Signal, cancel_all, quiet, cancel_request, pause_request, resume_request, receive,
  cancel, pause, resume,
}
use mboot_core.Jobs.Pipeline.Run.{
  Outcome, execute_job, executed, rollback_all, wants_rollback, recover, fail_job, finish,
  record_job, mark_failed, mark_completed, run_job, next, proceed, await, run_loop, start, run,
}
use mboot_core.Jobs.Pipeline.Awaits.{LeftBy, SameCounts, Kept, Awaits, await-Awaits}

module _ {W : Type 0} where
  -- The number of jobs that succeed in turn, up to the first that does not, and the world that they leave.
  abbrev pub successes : List (Job W) → W → ℕ
  successes [] w = 0
  successes (j ∷ js) w =
      let rest = successes js (execute_job j w).0 in
      elim (execute_job j w).1 [ ok _ ↦ suc rest | err e ↦ 0 | stuck x ↦ 0 ]

  pub successes_le : (js : List (Job W)) (w : W) → successes js w ≤ length js
  successes_le [] w = omega arith
  successes_le (j ∷ js) w =
      let most = successes_le js (execute_job j w).0 in
      elim (Result-cases (execute_job j w).1) [
        | inl (u, r) ↦ rw (r, successes) (omega (arith, most))
        | inr (inl (e, r)) ↦ rw (r, successes) (omega arith)
        | inr (inr (x, r)) ↦ rw (r, successes) (omega arith)
      ]

  abbrev pub world_after : List (Job W) → W → W
  world_after [] w = w
  world_after (j ∷ js) w = world_after js (execute_job j w).0

  -- What a run of jobs from a world leaves: it is over. On success no job has failed, the counted jobs
  -- succeeded and the world is what they left, or what `cancel` of the jobs then made of it, and unless
  -- the run was cancelled they are all the jobs.
  -- On an error one job has failed, and the jobs before it are counted.
  abbrev pub Settled : List (Job W) → W → Outcome W → Type 0
  Settled js w (p, ok _) =
      (p.running ≡ false)
      × (p.failed_count ≡ 0)
      × (p.completed_count ≤ successes js w)
      × LeftBy js p.world (world_after (take p.completed_count js) w)
      × (p.cancelled ≡ false → p.completed_count ≡ length js)
  Settled js w (p, err _) =
      (p.running ≡ false)
      × (p.failed_count ≡ 1)
      × (p.completed_count ≡ successes js w)
      × (suc p.completed_count ≤ length js)
  Settled js w (p, stuck _) = Unit

  -- The same for a run of the last jobs `js` of `all`, which has counted `c` jobs already.
  abbrev Ending : List (Job W) → ℕ → List (Job W) → W → Outcome W → Type 0
  Ending all c js w (p, ok _) =
      (p.running ≡ false)
      × (p.failed_count ≡ 0)
      × ((k : ℕ) × (p.completed_count ≡ c + k)
          × (k ≤ successes js w)
          × LeftBy all p.world (world_after (take k js) w)
          × (p.cancelled ≡ false → k ≡ length js))
  Ending all c js w (p, err _) =
      (p.running ≡ false)
      × (p.failed_count ≡ 1)
      × (p.completed_count ≡ c + successes js w)
      × (suc (successes js w) ≤ length js)
  Ending all c js w (p, stuck _) = Unit

  recover-SameCounts : (j : Job W) (p : JobPipeline W) → SameCounts p (recover j p).0
  unfolding recover
  recover-SameCounts j p = elim (Bool-cases (wants_rollback j p.world)) [
    | inl t ↦ rw (t, recover) (refl, refl)
    | inr t ↦ rw (t, recover) (refl, refl)
  ]

  -- A job that failed ends the run, and leaves the count of the completed ones.
  abbrev Ends : ℕ → Outcome W → Type 0
  Ends c (p, ok _) = ⊥
  Ends c (p, err e) = (p.running ≡ false) × (p.failed_count ≡ 1) × (p.completed_count ≡ c)
  Ends c (p, stuck x) = Unit

  fail_job-Ends :
      (j : Job W) (e : ErrorCode) (p : JobPipeline W)
      → p.failed_count ≡ 0
      → Ends p.completed_count (fail_job j e p)
  unfolding fail_job finish record_job mark_failed
  fail_job-Ends j e p z = elim (Bool-cases (is_cancel e)) [
    | inl c ↦ rw (c, fail_job) (refl, ap suc z, refl)
    | inr c ↦
        let same = recover-SameCounts j p in
        elim (Result-cases (recover j p).1) [
          | inl (_, r) ↦ rw (c, fail_job, r) (refl, ap suc (same.1 ∙ z), same.0)
          | inr (inl (x, r)) ↦ rw (c, fail_job, r) (refl, ap suc (same.1 ∙ z), same.0)
          | inr (inr (x, r)) ↦ rw (c, fail_job, r) tt
        ]
  ]

  next_ended :
      (all : List (Job W)) (c : ℕ) (js : List (Job W)) (w : W) (f : JobPipeline W → Outcome W)
      (o : Outcome W)
      → successes js w ≡ 0
      → 1 ≤ length js
      → Ends c o
      → Ending all c js w (next f o)
  next_ended all c js w f (p, ok _) none_ok some_job h = absurd h
  next_ended all c js w f (p, err e) none_ok some_job h =
      (h.0, h.1, omega (arith, h.2, none_ok), omega (arith, none_ok, some_job))
  next_ended all c js w f (p, stuck x) none_ok some_job h = tt

  -- A job that succeeds, in front of others.
  Ending-cons :
      (all : List (Job W)) (c : ℕ) (j : Job W) (js : List (Job W)) (w : W) (u : Unit {0})
      (o : Outcome W)
      → (execute_job j w).1 ≡ ok u
      → Ending all (suc c) js (execute_job j w).0 o
      → Ending all c (j ∷ js) w o
  Ending-cons all c j js w u (p, ok _) r (a, b, (k, n, most, left, whole)) =
      let more : successes (j ∷ js) w ≡ suc (successes js (execute_job j w).0) =
        rw (r, successes) refl in
      (
        a,
        b,
        (suc k, omega (arith, n), omega (arith, more, most), left, λ e. omega (arith, whole e)),
      )
  Ending-cons all c j js w u (p, err x) r (a, b, n, less) =
      let more : successes (j ∷ js) w ≡ suc (successes js (execute_job j w).0) =
        rw (r, successes) refl in
      (a, b, omega (arith, more, n), omega (arith, more, less))
  Ending-cons all c j js w u (p, stuck x) r h = tt

  run_job-Ending :
      (i : ℕ) (j : Job W) (js : List (Job W)) (p : JobPipeline W)
      → p.failed_count ≡ 0
      → ((q : JobPipeline W)
          → q.failed_count ≡ 0
          → q.jobs ≡ p.jobs
          → Ending p.jobs q.completed_count js q.world (run_loop (suc i) js q))
      → Ending p.jobs p.completed_count
          (j ∷ js)
          p.world
          (next (run_loop (suc i) js) (run_job i j p))
  unfolding run_job mark_completed record_job
  run_job-Ending i j js p z again = elim (Result-cases (execute_job j p.world).1) [
    | inl (u, r) ↦
        Ending-cons p.jobs p.completed_count j js p.world u
          (next (run_loop (suc i) js) (run_job i j p)) r
          (rw (r, run_job) (again (mark_completed j (executed i j p)) z refl))
    | inr (inl (e, r)) ↦
        next_ended p.jobs p.completed_count (j ∷ js) p.world (run_loop (suc i) js) (run_job i j p)
          (rw (r, successes) refl) (omega arith)
          (rw (r, run_job) (fail_job-Ends j e (executed i j p) z))
    | inr (inr (x, r)) ↦ rw (r, run_job) tt
  ]

  proceed-Ending :
      (js : List (Job W)) (f : JobPipeline W → Outcome W) (p q : JobPipeline W) (o : Option Bool)
      → Awaits p q o
      → p.failed_count ≡ 0
      → (Kept p q → Ending p.jobs p.completed_count js p.world (f q))
      → Ending p.jobs p.completed_count js p.world (proceed f (q, o))
  unfolding finish
  proceed-Ending js f p q none a z go = tt
  proceed-Ending js f p q (some true) a z go = go (a.counts, a.jobs_kept, a.world_kept refl)
  proceed-Ending js f p q (some false) a z go = (
    refl,
    a.counts.1 ∙ z,
    (0, omega (arith, a.counts.0), omega arith, a.world_left, λ e. absurd (cc (a.flag_set refl))),
  )

  -- From the counters, the jobs and the world before the flags were read.
  Ending-Kept :
      (js : List (Job W)) (p q : JobPipeline W) (o : Outcome W)
      → Kept p q
      → Ending q.jobs q.completed_count js q.world o
      → Ending p.jobs p.completed_count js p.world o
  Ending-Kept js p q o (counts, jobs, world) h =
      subst (λ c. Ending p.jobs c js p.world o) counts.0
        (subst (λ w. Ending p.jobs q.completed_count js w o) world
          (subst (λ all. Ending all q.completed_count js q.world o) jobs h))

  run_loop-Ending :
      (i : ℕ) (js : List (Job W)) (p : JobPipeline W)
      → p.failed_count ≡ 0
      → Ending p.jobs p.completed_count js p.world (run_loop i js p)
  unfolding run_loop finish
  run_loop-Ending i [] p z = (refl, z, (0, omega arith, omega arith, inl refl, λ _. refl))
  run_loop-Ending i (j ∷ js) p z =
      let f = λ (q : JobPipeline W). next (run_loop (suc i) js) (run_job i j q) in
      let q = (await p.signals p).0 in
      proceed-Ending (j ∷ js) f p q (await p.signals p).1 (await-Awaits p.signals p) z (λ same.
        Ending-Kept (j ∷ js) p q (f q) same (
          run_job-Ending i j js q (same.0.1 ∙ z) (λ r none_failed jobs.
            subst (λ all. Ending all r.completed_count js r.world (run_loop (suc i) js r)) jobs
              (run_loop-Ending (suc i) js r none_failed))))

  Settled-of_Ending :
      (js : List (Job W)) (w : W) (o : Outcome W) → Ending js 0 js w o → Settled js w o
  Settled-of_Ending js w (p, ok _) (a, b, (k, n, most, left, whole)) = (
    a,
    b,
    omega (arith, n, most),
    subst (λ m. LeftBy js p.world (world_after (take m js) w)) (omega (arith, n)) left,
    λ e. omega (arith, n, whole e),
  )
  Settled-of_Ending js w (p, err x) (a, b, n, less) =
      (a, b, omega (arith, n), omega (arith, n, less))
  Settled-of_Ending js w (p, stuck x) h = tt

  -- However a run of a pipeline that is free is paused, resumed and cancelled, it leaves the pipeline
  -- free for the next one, unless it never returns. On success no job has failed, the jobs that are
  -- counted as completed are the first ones, they succeeded, and the world is what they left, or what
  -- `cancel` of the jobs made of that; they are all the jobs unless the run was cancelled. On an error
  -- exactly one job has failed, and the count of the completed ones is the number of jobs before it,
  -- which all succeeded.
  pub run-Settled : (p : JobPipeline W) → p.running ≡ false → Settled p.jobs p.world (run p)
  unfolding run start
  run-Settled p free =
      rw (free, run)
        (Settled-of_Ending p.jobs p.world (run_loop 0 p.jobs (start p))
          (run_loop-Ending 0 p.jobs (start p) refl))
