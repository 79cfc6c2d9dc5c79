-- ===== src/Workflow/Engine/Undone.antt =====
-- What `rollback` does to the context, and what a run after it does.
use mathlib.Core.Path.{subst}
use mathlib.Core.List.{reverse, reverse-append}
use mboot_core.Prelude.{
  ℕ, zero, suc, ◌≤◌, ◌≡◌, refl, sym, ap, ◌∙◌, ◌⊎◌, inl, inr, arith, true, false, ◌||◌, none, some,
  List, [], ◌∷◌, ◌++◌, length, take, if◌then◌else◌, Bool-cases, Option-cases,
}
use mboot_core.Domain.{Result, ok, err, stuck, ErrorCode, invalid_state, Result-cases}
use mboot_core.Jobs.Types.{is_success}
use mboot_core.Workflow.Types.{WorkflowState, WorkflowOptions, WorkflowContext}
use mboot_core.Workflow.Recovery.{WorkflowRecovery}
use mboot_core.Workflow.Engine.{
  Signal, StepEntry, WorkflowEngine, Outcome, in_state, set_state, nth, count_error, count_rollback,
  rollback_loop, rollback,
}
use mboot_core.Workflow.Engine.Run.{steps_from, run}
use mboot_core.Workflow.Engine.Attempt.{max_tries}
use mboot_core.Workflow.Engine.Script.{Run, script}
use mboot_core.Workflow.Engine.Script.Refines.{run-script}

module _ {W : Type 0} where
  -- The rollbacks of the completed steps among some entries, one after another; the result is the
  -- last error.
  abbrev pub undo : List (StepEntry W) → ErrorCode → WorkflowContext W → Run W
  undo [] last c = (c, if is_success last then ok tt else err last)
  undo (n ∷ ns) last c = elim n.completed [
    | false ↦ undo ns last c
    | true ↦ elim n.step [
      | none ↦ undo ns last c
      | some s ↦ elim (s.rollback c).1 [
        | ok _ ↦ undo ns last (s.rollback c).0
        | err x ↦ undo ns x (s.rollback c).0
        | stuck x ↦ ((s.rollback c).0, stuck x)
      ]
    ]
  ]

  nth_within :
      (ns : List (StepEntry W)) (k : ℕ)
      → suc k ≤ length ns
      → (n : StepEntry W) × (nth ns k ≡ some n)
  nth_within [] k h = absurd (omega (arith, h))
  nth_within (n ∷ ns) zero h = (n, refl)
  nth_within (n ∷ ns) (suc k) h = nth_within ns k (omega (arith, h))

  take-suc :
      (ns : List (StepEntry W)) (k : ℕ) (n : StepEntry W)
      → nth ns k ≡ some n
      → take (suc k) ns ≡ take k ns ++ n ∷ []
  take-suc [] k n h = absurd (cc)
  take-suc (m ∷ ns) zero n h = cc
  take-suc (m ∷ ns) (suc k) n h = ap (◌∷◌ m) (take-suc ns k n h)

  -- The entries before an index, the latest first.
  abbrev pub before : ℕ → List (StepEntry W) → List (StepEntry W)
  before k ns = reverse (take k ns)

  before-suc :
      (ns : List (StepEntry W)) (k : ℕ) (n : StepEntry W)
      → nth ns k ≡ some n
      → before (suc k) ns ≡ n ∷ before k ns
  before-suc ns k n h = ap reverse (take-suc ns k n h) ∙ reverse-append (take k ns) (n ∷ [])

  -- What a rollback leaves: the context and the result of the undoing, all else that a run looks at
  -- as it was, and an engine that is ready if it succeeds.
  record Kept (steps : List (StepEntry W)) (index : ℕ) (signals : List Signal)
      (options : WorkflowOptions) (recovery : WorkflowRecovery) (s : Run W) (a : Outcome W)
      : Type 0 where
    pub same : ◌≡◌ {A = Run W} (a.0.context, a.1) s
    pub steps_kept : a.0.steps ≡ steps
    pub index_kept : a.0.current_step_index ≡ index
    pub signals_kept : a.0.signals ≡ signals
    pub options_kept : a.0.options ≡ options
    pub recovery_kept : a.0.recovery ≡ recovery
    pub readied : a.1 ≡ ok tt → a.0.state ≡ WorkflowState.ready

  abbrev Undoes : WorkflowEngine W → Run W → Outcome W → Type 0
  Undoes e = Kept e.steps e.current_step_index e.signals e.options e.recovery

  stays :
      (e : WorkflowEngine W) (r : Result (Unit {0}))
      → (r ≡ ok tt → e.state ≡ WorkflowState.ready)
      → Undoes e (e.context, r) (e, r)
  stays e r h = record {
    same = refl;
    steps_kept = refl;
    index_kept = refl;
    signals_kept = refl;
    options_kept = refl;
    recovery_kept = refl;
    readied = h;
  }

  rollback_loop-Undoes :
      (k : ℕ) (last : ErrorCode) (e : WorkflowEngine W)
      → k ≤ length e.steps
      → Undoes e (undo (before k e.steps) last e.context) (rollback_loop k last e)
  unfolding rollback_loop set_state
  rollback_loop-Undoes zero last e h = elim (Bool-cases (is_success last)) [
    | inl t ↦ rw (t, rollback_loop) (stays (set_state WorkflowState.ready e) (ok tt) (λ _. refl))
    | inr t ↦
        let q = record e { result = record { success = false; error = last } } in
        rw (t, rollback_loop) (stays q (err last) (λ a. absurd (cc)))
  ]
  rollback_loop-Undoes (suc k) last e h =
      let (n, here) = nth_within e.steps k h in
      subst (λ ns. Undoes e (undo ns last e.context) (rollback_loop (suc k) last e))
        (sym (before-suc e.steps k n here))
        (elim (Bool-cases n.completed) [
          | inr c ↦
              rw (here, rollback_loop, c, undo) (rollback_loop-Undoes k last e (omega (arith, h)))
          | inl c ↦ elim (Option-cases n.step) [
            | inl s ↦
                rw (here, rollback_loop, c, undo, s)
                  (rollback_loop-Undoes k last e (omega (arith, h)))
            | inr (s, known) ↦
                let q = record e { context = (s.rollback e.context).0 } in
                elim (Result-cases (s.rollback e.context).1) [
                  | inl (_, r) ↦
                      rw (here, rollback_loop, c, undo, known, r)
                        (rollback_loop-Undoes k last (count_rollback q) (omega (arith, h)))
                  | inr (inl (x, r)) ↦
                      rw (here, rollback_loop, c, undo, known, r)
                        (rollback_loop-Undoes k x (count_error q) (omega (arith, h)))
                  | inr (inr (x, r)) ↦
                      rw (here, rollback_loop, c, undo, known, r)
                        (stays q (stuck x) (λ a. absurd (cc)))
                ]
          ]
        ])

  -- The states from which an engine is rolled back.
  abbrev pub IsOver : WorkflowEngine W → Type 0
  IsOver e = (e.state ≡ WorkflowState.failed) ⊎ (e.state ≡ WorkflowState.cancelled)

  over :
      (e : WorkflowEngine W)
      → IsOver e
      → (in_state WorkflowState.failed e || in_state WorkflowState.cancelled e) ≡ true
  over e (inl h) = rw h refl
  over e (inr h) = rw h refl

  rollback-Undoes :
      (e : WorkflowEngine W)
      → IsOver e
      → e.current_step_index ≤ length e.steps
      → Undoes e
          (undo (before e.current_step_index e.steps) ErrorCode.success e.context)
          (rollback e)
  unfolding rollback set_state
  rollback-Undoes e h b =
      subst
        (λ t. Undoes e (undo (before e.current_step_index e.steps) ErrorCode.success e.context) (
          if t
          then rollback_loop e.current_step_index ErrorCode.success
              (set_state WorkflowState.rolling_back e)
          else (e, err invalid_state)))
        (sym (over e h))
        (rollback_loop-Undoes e.current_step_index ErrorCode.success
          (set_state WorkflowState.rolling_back e) b)

  -- The rollback of a failed or cancelled engine rolls back the completed steps before the current
  -- one, the latest first, on whatever error goes on to the next, and returns the last error.
  pub rollback-undo :
      (e : WorkflowEngine W)
      → IsOver e
      → e.current_step_index ≤ length e.steps
      → ((rollback e).0.context, (rollback e).1)
        ≡ undo (before e.current_step_index e.steps) ErrorCode.success e.context
  rollback-undo e h b = (rollback-Undoes e h b).same

  -- After a rollback that succeeds, a run that nobody disturbs and that stops at the first failure
  -- starts at the step that failed: the steps that were rolled back are not executed again.
  pub run-rollback :
      (e : WorkflowEngine W)
      → IsOver e
      → e.current_step_index ≤ length e.steps
      → e.signals ≡ []
      → e.options.continue_on_warning ≡ false
      → (rollback e).1 ≡ ok tt
      → ((run (rollback e).0).0.context, (run (rollback e).0).1)
        ≡ script e.recovery
            (max_tries e.options.retry_count)
            (steps_from e.current_step_index e.steps)
            (rollback e).0.context
  run-rollback e h b calm strict done =
      let u = rollback-Undoes e h b in
      run-script (rollback e).0 (u.readied done) (u.signals_kept ∙ calm)
        (ap (λ (o : WorkflowOptions). o.continue_on_warning) u.options_kept ∙ strict)
      ∙ (λ i.
          script (u.recovery_kept i) (max_tries (u.options_kept i).retry_count)
            (steps_from (u.index_kept i) (u.steps_kept i)) (rollback e).0.context)
