-- ===== src/Workflow/Engine/Script/Refines.antt =====
-- A run of the engine implements the script of its steps.
use mboot_core.Prelude.{
  ℕ, zero, suc, ◌≡◌, refl, sym, ap, ◌∙◌, inl, inr, Bool, true, false, Option, some, List, [], ◌∷◌,
  ltb, not, Bool-cases,
}
use mboot_core.Domain.{ok, err, stuck}
use mboot_core.Jobs.Types.{is_cancel}
use mboot_core.Workflow.Types.{
  WorkflowState, WorkflowOptions, WorkflowContext, WorkflowStep, is_cancelled,
}
use mboot_core.Workflow.Recovery.{WorkflowRecovery}
use mboot_core.Workflow.Engine.{StepEntry, WorkflowEngine, Outcome, set_state, check_cancelled}
use mboot_core.Workflow.Engine.Run.{
  steps_from, sleep, await, proceed, settle, complete, run_loop, begin, run,
}
use mboot_core.Workflow.Engine.Attempt.{max_tries, execute_step}
use mboot_core.Workflow.Engine.Starts.{on_steps, run-on_steps}
use mboot_core.Workflow.Engine.Script.{Run, after, script}
use mboot_core.Workflow.Engine.Script.Steps.{
  view, Proceeds, Matches, tick_calm, check_calm, execute_step-Matches,
}

module _ {W : Type 0} where
  module _ (r : WorkflowRecovery) (o : WorkflowOptions) where
    abbrev head : WorkflowEngine W → WorkflowEngine W × Option Bool
    head q = elim (check_cancelled q) [
      | true ↦ (q, some false)
      | false ↦ elim q.paused [
        | false ↦ (q, some true)
        | true ↦ let p = set_state WorkflowState.paused q in sleep p.signals p
      ]
    ]

    -- Nothing but the context holds such an engine up.
    await_calm :
        (e : WorkflowEngine W) → Proceeds r o e → await e ≡ (e, some (not (is_cancelled e.context)))
    unfolding await
    await_calm e p = ap head (tick_calm r o e p) ∙ elim (Bool-cases (is_cancelled e.context)) [
      | inl c ↦ rw (check_calm r o e p, head, c) refl
      | inr c ↦ simp (p.wanted, head, c, p.awake)
    ]

    settle-after :
        (go : WorkflowEngine W → Outcome W) (go' : WorkflowContext W → Run W) (s : Run W)
        (a : Outcome W)
        → o.continue_on_warning ≡ false
        → Matches r o s a
        → ((q : WorkflowEngine W) → Proceeds r o q → view (go q) ≡ go' q.context)
        → view (settle go a) ≡ after go' s
    unfolding set_state
    settle-after go go' s (q, ok _) strict m next = next q m.goes ∙ ap (after go') m.same
    settle-after go go' s (q, stuck f) strict m next = ap (after go') m.same
    settle-after go go' s (q, err x) strict m next =
        let stops : q.options.continue_on_warning ≡ false =
          ap (λ (z : WorkflowOptions). z.continue_on_warning) m.goes.opts ∙ strict in
        elim (Bool-cases (is_cancel x)) [
          | inl c ↦ rw (c, settle) (ap (after go') m.same)
          | inr c ↦ rw (c, settle, stops) (ap (after go') m.same)
        ]

    complete_calm :
        (e : WorkflowEngine W)
        → o.continue_on_warning ≡ false
        → Proceeds r o e
        → view (complete e) ≡ (e.context, ok tt)
    unfolding complete set_state
    complete_calm e strict p =
        let stops : e.options.continue_on_warning ≡ false =
          ap (λ (z : WorkflowOptions). z.continue_on_warning) p.opts ∙ strict in
        elim (Bool-cases (ltb 0 e.stats.warnings)) [
          | inl w ↦ rw (w, complete, stops) refl
          | inr w ↦ rw (w, complete) refl
        ]

    run_loop-script :
        (i : ℕ) (ss : List (Option (WorkflowStep W))) (e : WorkflowEngine W)
        → o.continue_on_warning ≡ false
        → Proceeds r o e
        → view (run_loop i ss e) ≡ script r (max_tries o.retry_count) ss e.context
    unfolding run_loop set_state
    run_loop-script i [] e strict p = complete_calm e strict p
    run_loop-script i (s ∷ ss) e strict p =
        let round = λ (q : WorkflowEngine W).
          settle (run_loop (suc i) ss) (execute_step i s (record q { current_step_index = i })) in
        ap (λ a. view (proceed round a)) (await_calm e p)
        ∙ elim (Bool-cases (is_cancelled e.context)) [
          | inl c ↦ rw (c, proceed, script) refl
          | inr c ↦
              rw (c, proceed, script)
                (settle-after (run_loop (suc i) ss) (script r (max_tries o.retry_count) ss) _ _
                  strict (execute_step-Matches r o i s (record e { current_step_index = i }) p)
                  (λ q g. run_loop-script (suc i) ss q strict g))
        ]

  steps_from_end : (i : ℕ) → ◌≡◌ {A = List (Option (WorkflowStep W))} (steps_from i []) []
  steps_from_end zero = refl
  steps_from_end (suc i) = refl

  on_steps-script :
      (e : WorkflowEngine W) (ns : List (StepEntry W))
      → e.steps ≡ ns
      → e.signals ≡ []
      → e.options.continue_on_warning ≡ false
      → view (on_steps e ns)
        ≡ script e.recovery
            (max_tries e.options.retry_count)
            (steps_from e.current_step_index e.steps)
            e.context
  unfolding set_state
  on_steps-script e [] known calm strict =
      ap (λ ss. script e.recovery (max_tries e.options.retry_count) ss e.context)
        (sym (ap (steps_from e.current_step_index) known ∙ steps_from_end e.current_step_index))
  on_steps-script e (n ∷ ns) known calm strict =
      run_loop-script e.recovery e.options e.current_step_index
        (steps_from e.current_step_index e.steps) (begin e) strict
        (record {
          calm = calm;
          awake = refl;
          wanted = refl;
          runs = refl;
          recovers = refl;
          opts = refl;
        })

  -- A run of an engine that is ready, that stops at the first failure and that no other thread
  -- disturbs, does to the context what the script of its steps does, with the same result: from the
  -- current step on, each step has as many tries as the options say, and nothing is rolled back.
  pub run-script :
      (e : WorkflowEngine W)
      → e.state ≡ WorkflowState.ready
      → e.signals ≡ []
      → e.options.continue_on_warning ≡ false
      → ((run e).0.context, (run e).1)
        ≡ script e.recovery
            (max_tries e.options.retry_count)
            (steps_from e.current_step_index e.steps)
            e.context
  run-script e ready calm strict =
      ap view (run-on_steps e (inl ready)) ∙ on_steps-script e e.steps refl calm strict
