-- ===== src/Workflow/Engine/Run.antt =====
-- lib/src/workflow/WorkflowEngine.cpp: `prepare` and `run`.
use mboot_core.Prelude.{
  ℕ, suc, Bool, true, false, ◌&&◌, ◌||◌, ltb, Option, none, some, List, [], ◌∷◌, length, map, drop,
  if◌then◌else◌,
}
use mboot_core.Domain.{ok, err, stuck, ErrorCode, invalid_state, workflow_step_failed, no_answer}
use mboot_core.Jobs.Types.{is_cancel, is_success}
use mboot_core.Workflow.Types.{WorkflowState, WorkflowStep, set_total_steps}
use mboot_core.Workflow.Engine.{
  Signal, StepEntry, WorkflowEngine, Outcome, in_state, set_state, check_cancelled, receive, tick,
  count_error,
}
use mboot_core.Workflow.Engine.Attempt.{execute_step}

module _ {W : Type 0} where
  -- The steps, from an index on.
  abbrev pub steps_from : ℕ → List (StepEntry W) → List (Option (WorkflowStep W))
  steps_from i ns = map (λ n. n.step) (drop i ns)

  -- The loop of `prepare`.
  unfoldable pub prepare_steps : List (Option (WorkflowStep W)) → WorkflowEngine W → Outcome W
  prepare_steps [] e = (e, ok tt)
  prepare_steps (none ∷ ss) e = prepare_steps ss e
  prepare_steps (some s ∷ ss) e =
      let (c, r) = s.prepare e.context in
      let q = record e { context = c } in
      elim r [
        | ok _ ↦ prepare_steps ss q
        | err x ↦
            let failed = set_state WorkflowState.failed (count_error q) in
            (record failed { result = record { success = false; error = x } }, err x)
        | stuck x ↦ (q, stuck x)
      ]

  unfoldable pub prepare : WorkflowEngine W → Outcome W
  unfolding prepare_steps set_state
  prepare e =
      if in_state WorkflowState.created e
      then (let q = set_state WorkflowState.ready e in
          prepare_steps (steps_from 0 q.steps)
            (record q { progress = set_total_steps (length q.steps) q.progress }))
      else (e, err invalid_state)

  -- The wait of a paused engine: whether it goes on then. One that nobody resumes waits for ever.
  unfoldable pub sleep : List Signal → WorkflowEngine W → WorkflowEngine W × Option Bool
  unfolding receive check_cancelled set_state
  sleep [] e = elim (check_cancelled e) [
    | true ↦ (e, some false)
    | false ↦ elim e.paused [
      | true ↦ (e, none)
      | false ↦ (set_state WorkflowState.running e, some true)
    ]
  ]
  sleep (s ∷ ss) e = elim (check_cancelled e) [
    | true ↦ (e, some false)
    | false ↦ elim e.paused [
      | true ↦ sleep ss (receive s (record e { signals = ss }))
      | false ↦ (set_state WorkflowState.running e, some true)
    ]
  ]

  -- The readings of the flags at the head of a round: whether it goes on.
  unfoldable pub await : WorkflowEngine W → WorkflowEngine W × Option Bool
  unfolding tick check_cancelled sleep set_state
  await e =
      let q = tick e in
      elim (check_cancelled q) [
        | true ↦ (q, some false)
        | false ↦ elim q.paused [
          | false ↦ (q, some true)
          | true ↦ let p = set_state WorkflowState.paused q in sleep p.signals p
        ]
      ]

  abbrev pub cancelled_run : WorkflowEngine W → Outcome W
  cancelled_run e =
      let q = set_state WorkflowState.cancelled e in
      (
        record q { result = record { success = false; error = ErrorCode.cancelled } },
        err ErrorCode.cancelled,
      )

  abbrev pub proceed : (WorkflowEngine W → Outcome W) → WorkflowEngine W × Option Bool → Outcome W
  proceed go (e, none) = (e, stuck no_answer)
  proceed go (e, some false) = cancelled_run e
  proceed go (e, some true) = go e

  abbrev pub warn : ErrorCode → WorkflowEngine W → WorkflowEngine W
  warn x e = record e {
    stats = record e.stats { warnings = suc e.stats.warnings };
    result = record e.result { error = x };
  }

  -- What follows a step; `go` is the next round.
  abbrev pub settle : (WorkflowEngine W → Outcome W) → Outcome W → Outcome W
  settle go (e, ok _) = go e
  settle go (e, err x) = elim (is_cancel x) [
    | true ↦ (set_state WorkflowState.cancelled e, err x)
    | false ↦ elim e.options.continue_on_warning [
      | true ↦ go (warn x e)
      | false ↦ (set_state WorkflowState.failed e, err x)
    ]
  ]
  settle go (e, stuck f) = (e, stuck f)

  unfoldable pub complete : WorkflowEngine W → Outcome W
  unfolding set_state
  complete e = elim (ltb 0 e.stats.warnings && e.options.continue_on_warning) [
    | true ↦ (
      set_state WorkflowState.failed (record e { result = record e.result { success = false } }),
      err (if is_success e.result.error then workflow_step_failed else e.result.error),
    )
    | false ↦
        let q = set_state WorkflowState.completed e in
        (record q { result = record q.result { success = true } }, ok tt)
  ]

  -- The loop of `run`, from the index `i` on.
  unfoldable pub run_loop : ℕ → List (Option (WorkflowStep W)) → WorkflowEngine W → Outcome W
  unfolding await execute_step complete set_state
  run_loop i [] e = complete e
  run_loop i (s ∷ ss) e =
      proceed
        (λ q. settle (run_loop (suc i) ss) (execute_step i s (record q { current_step_index = i })))
        (await e)

  abbrev pub begin : WorkflowEngine W → WorkflowEngine W
  begin e = set_state WorkflowState.running (record e { cancelled = false; paused = false })

  abbrev pub is_ready : WorkflowEngine W → Bool
  is_ready e = in_state WorkflowState.ready e || in_state WorkflowState.paused e

  unfoldable pub run_ready : WorkflowEngine W → Outcome W
  unfolding run_loop set_state
  run_ready e =
      if is_ready e
      then elim e.steps [
        | [] ↦
            let q = set_state WorkflowState.completed e in
            (record q { result = record { success = true; error = ErrorCode.success } }, ok tt)
        | n ∷ ns ↦ run_loop e.current_step_index (steps_from e.current_step_index e.steps) (begin e)
      ]
      else (e, err invalid_state)

  abbrev pub then_run : Outcome W → Outcome W
  then_run (e, ok _) = run_ready e
  then_run (e, err x) = (e, err x)
  then_run (e, stuck f) = (e, stuck f)

  unfoldable pub run : WorkflowEngine W → Outcome W
  unfolding prepare run_ready
  run e = elim (in_state WorkflowState.created e) [
    | true ↦ then_run (prepare e)
    | false ↦ run_ready e
  ]
