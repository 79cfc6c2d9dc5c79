-- ===== src/Workflow/Engine/Grows.antt =====
-- No operation of a run takes back what is completed, and a step that succeeds is completed.
use mboot_core.Prelude.{
  ℕ, zero, suc, ◌≡◌, refl, ◌∙◌, inl, inr, true, ◌||◌, Option, none, some, List, [], ◌∷◌, length,
  Bool-cases, Option-cases,
}
use mboot_core.Domain.{Result, ok, err, stuck, ErrorCode, workflow_step_failed, Result-cases}
use mboot_core.Jobs.Types.{is_cancel, is_success}
use mboot_core.Workflow.Types.{WorkflowState, WorkflowOptions, WorkflowStep, set_current_step}
use mboot_core.Workflow.Recovery.{
  RecoveryAction, retry, rollback as roll_back, skip, abort, resume, continue, decide,
}
use mboot_core.Workflow.Engine.{
  Signal, quiet, cancel_request, pause_request, resume_request, StepEntry, WorkflowEngine, Outcome,
  in_state, set_state, nth, check_cancelled, cancel, pause, resume as resume_engine, receive, tick,
  count_error, count_rollback, rollback_loop, rollback,
}
use mboot_core.Workflow.Engine.Run.{sleep, await}
use mboot_core.Workflow.Engine.Attempt.{
  complete_at, fail_at, succeeded, skipped, aborted, rolled_back, act, answer, count_retry,
  executed, try_step, max_tries, execute_step,
}
use mboot_core.Workflow.Engine.Marks.{
  completed_at, length-complete_at, length-fail_at, completed_at-complete_at, complete_at_self,
  completed_at-fail_at,
}

module _ {W : Type 0} where
  -- A step that does not change the options or the number of steps, and keeps what is completed.
  pub record Grown (options options' : WorkflowOptions) (ns ns' : List (StepEntry W)) : Type 0 where
    pub options_kept : options' ≡ options
    pub length_kept : length ns' ≡ length ns
    pub completed_kept : (k : ℕ) → completed_at k ns ≡ true → completed_at k ns' ≡ true

  abbrev pub Grows : WorkflowEngine W → WorkflowEngine W → Type 0
  Grows e q = Grown e.options q.options e.steps q.steps

  same : (e : WorkflowEngine W) → Grows e e
  same e = record { options_kept = refl; length_kept = refl; completed_kept = λ k h. h }

  pub Grows-trans : (e q r : WorkflowEngine W) → Grows e q → Grows q r → Grows e r
  Grows-trans e q r g h = record {
    options_kept = h.options_kept ∙ g.options_kept;
    length_kept = h.length_kept ∙ g.length_kept;
    completed_kept = λ k t. h.completed_kept k (g.completed_kept k t);
  }

  complete_at-Grown :
      (o : WorkflowOptions) (i : ℕ) (ns : List (StepEntry W)) → Grown o o ns (complete_at i ns)
  complete_at-Grown o i ns = record {
    options_kept = refl;
    length_kept = length-complete_at i ns;
    completed_kept = λ k h. completed_at-complete_at i k ns h;
  }

  fail_at-Grown :
      (o : WorkflowOptions) (i : ℕ) (ns : List (StepEntry W)) → Grown o o ns (fail_at i ns)
  fail_at-Grown o i ns = record {
    options_kept = refl;
    length_kept = length-fail_at i ns;
    completed_kept = λ k h. completed_at-fail_at i k ns ∙ h;
  }

  receive-Grows : (s : Signal) (e : WorkflowEngine W) → Grows e (receive s e)
  unfolding receive cancel pause resume_engine set_state
  receive-Grows quiet e = same e
  receive-Grows cancel_request e = same e
  receive-Grows pause_request e = elim (Bool-cases (in_state WorkflowState.running e)) [
    | inl h ↦ rw (h, receive, pause) (same e)
    | inr h ↦ rw (h, receive, pause) (same e)
  ]
  receive-Grows resume_request e = elim (Bool-cases (in_state WorkflowState.paused e)) [
    | inl h ↦ rw (h, receive, resume_engine) (same e)
    | inr h ↦ rw (h, receive, resume_engine) (same e)
  ]

  tick_on :
      (ss : List Signal) (e : WorkflowEngine W)
      → Grows e (elim ss [ [] ↦ e | s ∷ rest ↦ receive s (record e { signals = rest }) ])
  tick_on [] e = same e
  tick_on (s ∷ rest) e = receive-Grows s (record e { signals = rest })

  tick-Grows : (e : WorkflowEngine W) → Grows e (tick e)
  unfolding tick
  tick-Grows e = tick_on e.signals e

  rollback_loop-Grows :
      (k : ℕ) (last : ErrorCode) (e : WorkflowEngine W) → Grows e (rollback_loop k last e).0
  unfolding rollback_loop set_state
  rollback_loop-Grows zero last e = elim (Bool-cases (is_success last)) [
    | inl t ↦ rw (t, rollback_loop) (same e)
    | inr t ↦ rw (t, rollback_loop) (same e)
  ]
  rollback_loop-Grows (suc k) last e = elim (Option-cases (nth e.steps k)) [
    | inl here ↦ rw (here, rollback_loop) (same e)
    | inr (n, here) ↦ elim (Bool-cases n.completed) [
      | inr c ↦ rw (here, rollback_loop, c) (rollback_loop-Grows k last e)
      | inl c ↦ elim (Option-cases n.step) [
        | inl s ↦ rw (here, rollback_loop, c, s) (rollback_loop-Grows k last e)
        | inr (s, known) ↦
            let q = record e { context = (s.rollback e.context).0 } in
            elim (Result-cases (s.rollback e.context).1) [
              | inl (_, r) ↦
                  rw (here, rollback_loop, c, known, r)
                    (rollback_loop-Grows k last (count_rollback q))
              | inr (inl (x, r)) ↦
                  rw (here, rollback_loop, c, known, r) (rollback_loop-Grows k x (count_error q))
              | inr (inr (x, r)) ↦ rw (here, rollback_loop, c, known, r) (same e)
            ]
      ]
    ]
  ]

  rollback-Grows : (e : WorkflowEngine W) → Grows e (rollback e).0
  unfolding rollback set_state
  rollback-Grows e =
      elim (Bool-cases (in_state WorkflowState.failed e || in_state WorkflowState.cancelled e)) [
        | inl h ↦
            rw (h, rollback)
              (rollback_loop-Grows e.current_step_index ErrorCode.success
                (set_state WorkflowState.rolling_back e))
        | inr h ↦ rw (h, rollback) (same e)
      ]

  -- What the execution of a step leaves: if it succeeds, the step is completed.
  abbrev pub Tried : ℕ → WorkflowEngine W → Outcome W → Type 0
  Tried i e (q, r) = Grows e q × (r ≡ ok tt → completed_at i q.steps ≡ true)

  failed_entry :
      (i : ℕ) (x : ErrorCode) (e q : WorkflowEngine W)
      → Grows e q
      → Tried i e (record q { steps = fail_at i q.steps }, err x)
  failed_entry i x e q g = (
    Grows-trans e q (record q { steps = fail_at i q.steps }) g (fail_at-Grown q.options i q.steps),
    λ a. absurd (cc),
  )

  rolled_back-Tried :
      (i : ℕ) (x : ErrorCode) (e : WorkflowEngine W) (a : Outcome W)
      → Grows e a.0
      → Tried i e (rolled_back i x a)
  rolled_back-Tried i x e (q, ok _) g = failed_entry i x e q g
  rolled_back-Tried i x e (q, err y) g = failed_entry i x e q g
  rolled_back-Tried i x e (q, stuck f) g = (g, λ a. absurd (cc))

  done_entry :
      (i : ℕ) (e : WorkflowEngine W) → Tried i e (record e { steps = complete_at i e.steps }, ok tt)
  done_entry i e = (complete_at-Grown e.options i e.steps, λ _. complete_at_self i e.steps)

  act-Tried :
      (again : WorkflowEngine W → Outcome W) (i : ℕ) (s : WorkflowStep W) (x : ErrorCode)
      (a : RecoveryAction) (e : WorkflowEngine W)
      → ((q : WorkflowEngine W) → Tried i q (again q))
      → Tried i e (act again i s x a e)
  unfolding skipped aborted
  act-Tried again i s x retry e go = go e
  act-Tried again i s x roll_back e go = rolled_back-Tried i x e (rollback e) (rollback-Grows e)
  act-Tried again i s x skip e go = done_entry i e
  act-Tried again i s x abort e go = failed_entry i x e e (same e)
  act-Tried again i s x resume e go = failed_entry i x e e (same e)
  act-Tried again i s x continue e go = failed_entry i x e e (same e)

  answer-Tried :
      (again : WorkflowEngine W → Outcome W) (i : ℕ) (s : WorkflowStep W) (e : WorkflowEngine W)
      (r : Result (Unit {0}))
      → ((q : WorkflowEngine W) → Tried i q (again q))
      → Tried i e (answer again i s e r)
  unfolding succeeded
  answer-Tried again i s e (ok _) go = done_entry i e
  answer-Tried again i s e (stuck f) go = (same e, λ a. absurd (cc))
  answer-Tried again i s e (err x) go = elim (Bool-cases (is_cancel x)) [
    | inl c ↦ rw (c, answer) (failed_entry i x e e (same e))
    | inr c ↦
        rw (c, answer)
          (act-Tried again i s x (decide e.recovery s.type s.name x).action (count_retry e) go)
  ]

  after_tick :
      (i : ℕ) (e q : WorkflowEngine W) (a : Outcome W) → Grows e q → Tried i q a → Tried i e a
  after_tick i e q (p, r) g (h, c) = (Grows-trans e q p g h, c)

  try_step-Tried :
      (n i : ℕ) (s : WorkflowStep W) (e : WorkflowEngine W) → Tried i e (try_step n i s e)
  unfolding try_step
  try_step-Tried zero i s e = failed_entry i workflow_step_failed e e (same e)
  try_step-Tried (suc n) i s e = elim (Bool-cases (check_cancelled (tick e))) [
    | inl c ↦ rw (c, try_step) (tick-Grows e, λ a. absurd (cc))
    | inr c ↦
        let q = tick e in
        rw (c, try_step)
          (after_tick i e q (answer (try_step n i s) i s (executed s q) (s.execute q.context).1)
            (tick-Grows e)
            (answer-Tried (try_step n i s) i s (executed s q) (s.execute q.context).1
              (try_step-Tried n i s)))
  ]

  pub execute_step-Tried :
      (i : ℕ) (s : Option (WorkflowStep W)) (e : WorkflowEngine W) → Tried i e (execute_step i s e)
  unfolding execute_step
  execute_step-Tried i none e = (same e, λ a. absurd (cc))
  execute_step-Tried i (some s) e =
      try_step-Tried (max_tries e.options.retry_count) i s
        (record e { progress = set_current_step s.name s.type e.progress })

  sleep-Grows : (ss : List Signal) (e : WorkflowEngine W) → Grows e (sleep ss e).0
  unfolding sleep set_state
  sleep-Grows [] e = elim (Bool-cases (check_cancelled e)) [
    | inl c ↦ rw (c, sleep) (same e)
    | inr c ↦ elim (Bool-cases e.paused) [
      | inl p ↦ rw (c, sleep, p) (same e)
      | inr p ↦ rw (c, sleep, p) (same e)
    ]
  ]
  sleep-Grows (s ∷ ss) e = elim (Bool-cases (check_cancelled e)) [
    | inl c ↦ rw (c, sleep) (same e)
    | inr c ↦ elim (Bool-cases e.paused) [
      | inl p ↦
          let q = receive s (record e { signals = ss }) in
          rw (c, sleep, p)
            (Grows-trans e q (sleep ss q).0 (receive-Grows s (record e { signals = ss }))
              (sleep-Grows ss q))
      | inr p ↦ rw (c, sleep, p) (same e)
    ]
  ]

  pub await-Grows : (e : WorkflowEngine W) → Grows e (await e).0
  unfolding await set_state
  await-Grows e = elim (Bool-cases (check_cancelled (tick e))) [
    | inl c ↦ rw (c, await) (tick-Grows e)
    | inr c ↦ elim (Bool-cases (tick e).paused) [
      | inr p ↦ rw (c, await, p) (tick-Grows e)
      | inl p ↦
          let q = set_state WorkflowState.paused (tick e) in
          rw (c, await, p)
            (Grows-trans e q (sleep q.signals q).0 (tick-Grows e) (sleep-Grows q.signals q))
    ]
  ]
