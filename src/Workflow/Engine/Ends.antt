-- ===== src/Workflow/Engine/Ends.antt =====
-- What a run leaves, whatever other threads do meanwhile.
use mathlib.Core.Path.{subst}
use mboot_core.Prelude.{
  ℕ, zero, suc, ◌+◌, ◌≤◌, ◌<◌, ◌≡◌, ◌⊎◌, refl, sym, ap, ◌∙◌, inl, inr, arith, Bool, true, false,
  Option, none, some, List, [], ◌∷◌, length, drop, All, ltb, ltb→lt, Bool-cases,
}
use mboot_core.Domain.{ok, err, stuck}
use mboot_core.Jobs.Types.{is_cancel}
use mboot_core.Workflow.Types.{WorkflowState, WorkflowOptions, WorkflowStep}
use mboot_core.Workflow.Engine.{StepEntry, WorkflowEngine, Outcome, set_state}
use mboot_core.Workflow.Engine.Run.{
  steps_from, await, proceed, settle, complete, run_loop, begin, run,
}
use mboot_core.Workflow.Engine.Attempt.{execute_step}
use mboot_core.Workflow.Engine.Starts.{CanRun, on_steps, run-on_steps}
use mboot_core.Workflow.Engine.Grows.{Grows, Tried, Grows-trans, execute_step-Tried, await-Grows}
use mboot_core.Workflow.Engine.Marks.{completed_at}

module _ {W : Type 0} where
  -- The end of a run that started at an index: on success the engine is completed, and so is every
  -- step from there on; on an error it is cancelled or failed.
  abbrev pub Ended : ℕ → Outcome W → Type 0
  Ended start (e, ok _) =
      (e.state ≡ WorkflowState.completed) × All (λ n. n.completed ≡ true) (drop start e.steps)
  Ended start (e, err x) = (e.state ≡ WorkflowState.cancelled) ⊎ (e.state ≡ WorkflowState.failed)
  Ended start (e, stuck f) = Unit

  -- The steps between two indices are completed.
  abbrev Between : ℕ → ℕ → WorkflowEngine W → Type 0
  Between start i e = (k : ℕ) → start ≤ k → k < i → completed_at k e.steps ≡ true

  All-completed_at :
      (start : ℕ) (ns : List (StepEntry W))
      → ((k : ℕ) → start ≤ k → k < length ns → completed_at k ns ≡ true)
      → All (λ n. n.completed ≡ true) (drop start ns)
  All-completed_at zero [] h = tt
  All-completed_at (suc start) [] h = tt
  All-completed_at zero (n ∷ ns) h = (
    h 0 (omega arith) (omega arith),
    All-completed_at 0 ns (λ k a b. h (suc k) (omega arith) (omega (arith, b))),
  )
  All-completed_at (suc start) (n ∷ ns) h =
      All-completed_at start ns (λ k a b. h (suc k) (omega (arith, a)) (omega (arith, b)))

  complete-Ended :
      (start i : ℕ) (e : WorkflowEngine W)
      → e.options.continue_on_warning ≡ false
      → length e.steps ≤ i
      → Between start i e
      → Ended start (complete e)
  unfolding complete set_state
  complete-Ended start i e strict b h =
      let all = All-completed_at start e.steps (λ k s l. h k s (omega (arith, l, b))) in
      elim (Bool-cases (ltb 0 e.stats.warnings)) [
        | inl w ↦ rw (w, complete, strict) (refl, all)
        | inr w ↦ rw (w, complete) (refl, all)
      ]

  Between-suc :
      (start i : ℕ) (e q : WorkflowEngine W)
      → Grows e q
      → completed_at i q.steps ≡ true
      → Between start i e
      → Between start (suc i) q
  Between-suc start i e q g here h k a b = elim (Bool-cases (ltb k i)) [
    | inl l ↦ g.completed_kept k (h k a (ltb→lt k i l))
    | inr l ↦ let last : k ≡ i = ground arith in ap (λ j. completed_at j q.steps) last ∙ here
  ]

  settle-Ended :
      (start i : ℕ) (go : WorkflowEngine W → Outcome W) (e : WorkflowEngine W) (a : Outcome W)
      → e.options.continue_on_warning ≡ false
      → Tried i e a
      → Between start i e
      → ((q : WorkflowEngine W) → Grows e q → Between start (suc i) q → Ended start (go q))
      → Ended start (settle go a)
  unfolding set_state
  settle-Ended start i go e (q, ok _) strict t h next =
      next q t.0 (Between-suc start i e q t.0 (t.1 refl) h)
  settle-Ended start i go e (q, stuck f) strict t h next = tt
  settle-Ended start i go e (q, err x) strict t h next =
      let stops : q.options.continue_on_warning ≡ false =
        ap (λ (z : WorkflowOptions). z.continue_on_warning) t.0.options_kept ∙ strict in
      elim (Bool-cases (is_cancel x)) [
        | inl c ↦ rw (c, settle) (inl refl)
        | inr c ↦ rw (c, settle, stops) (inr refl)
      ]

  proceed-Ended :
      (start : ℕ) (go : WorkflowEngine W → Outcome W) (e : WorkflowEngine W)
      (a : WorkflowEngine W × Option Bool)
      → Grows e a.0
      → ((q : WorkflowEngine W) → Grows e q → Ended start (go q))
      → Ended start (proceed go a)
  unfolding set_state
  proceed-Ended start go e (q, none) g next = tt
  proceed-Ended start go e (q, some false) g next = inl refl
  proceed-Ended start go e (q, some true) g next = next q g

  still_strict :
      (e q : WorkflowEngine W)
      → Grows e q
      → e.options.continue_on_warning ≡ false
      → q.options.continue_on_warning ≡ false
  still_strict e q g strict =
      ap (λ (z : WorkflowOptions). z.continue_on_warning) g.options_kept ∙ strict

  run_loop-Ended :
      (start i : ℕ) (ss : List (Option (WorkflowStep W))) (e : WorkflowEngine W)
      → e.options.continue_on_warning ≡ false
      → length e.steps ≤ i + length ss
      → Between start i e
      → Ended start (run_loop i ss e)
  unfolding run_loop
  run_loop-Ended start i [] e strict b h = complete-Ended start i e strict (omega (arith, b)) h
  run_loop-Ended start i (s ∷ ss) e strict b h =
      let round = λ (q : WorkflowEngine W).
        settle (run_loop (suc i) ss) (execute_step i s (record q { current_step_index = i })) in
      proceed-Ended start round e (await e) (await-Grows e) (λ q g.
        settle-Ended start i (run_loop (suc i) ss) q
          (execute_step i s (record q { current_step_index = i })) (still_strict e q g strict)
          (execute_step-Tried i s (record q { current_step_index = i }))
          (λ k a l. g.completed_kept k (h k a l))
          (λ p f c.
            run_loop-Ended start (suc i) ss p (still_strict e p (Grows-trans e q p g f) strict)
              (omega (arith, b, g.length_kept, f.length_kept)) c))

  length-steps_from : (i : ℕ) (ns : List (StepEntry W)) → length ns ≤ i + length (steps_from i ns)
  length-steps_from zero [] = omega arith
  length-steps_from (suc i) [] = omega arith
  length-steps_from zero (n ∷ ns) = omega (arith, length-steps_from zero ns)
  length-steps_from (suc i) (n ∷ ns) = omega (arith, length-steps_from i ns)

  on_steps-Ended :
      (e : WorkflowEngine W) (ns : List (StepEntry W))
      → e.steps ≡ ns
      → e.options.continue_on_warning ≡ false
      → Ended e.current_step_index (on_steps e ns)
  unfolding set_state
  on_steps-Ended e [] known strict = (
    refl,
    All-completed_at e.current_step_index e.steps
        (λ k a b. absurd (omega (arith, b, ap length known))),
  )
  on_steps-Ended e (n ∷ ns) known strict =
      run_loop-Ended e.current_step_index e.current_step_index
        (steps_from e.current_step_index e.steps) (begin e) strict
        (length-steps_from e.current_step_index e.steps) (λ k a b. absurd (omega (arith, a, b)))

  -- A run of an engine that is Ready or Paused, and that stops at the first failure (continueOnWarning
  -- is off), however other threads pause, resume and cancel it: if it succeeds, the engine is completed, and so is every step from the current one on; if it returns an
  -- error, the engine is cancelled or failed.
  pub run-Ended :
      (e : WorkflowEngine W)
      → CanRun e
      → e.options.continue_on_warning ≡ false
      → Ended e.current_step_index (run e)
  run-Ended e can strict =
      subst (Ended e.current_step_index) (sym (run-on_steps e can))
        (on_steps-Ended e e.steps refl strict)
