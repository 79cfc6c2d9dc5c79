-- ===== src/Workflow/Engine/Script/Steps.antt =====
-- The execution of a step does what the script of the step says.
use mathlib.Core.Path.{subst}
use mboot_core.Prelude.{
  ℕ, zero, suc, ◌≡◌, refl, sym, ap, inl, inr, Bool, true, false, Option, none, some, List, [],
  Bool-cases,
}
use mboot_core.Domain.{Result, ok, err, stuck, ErrorCode, invalid_state}
use mboot_core.Jobs.Types.{is_cancel}
use mboot_core.Workflow.Types.{
  WorkflowState, WorkflowOptions, WorkflowContext, WorkflowStep, is_cancelled, set_current_step,
}
use mboot_core.Workflow.Recovery.{
  RecoveryAction, retry, rollback as roll_back, skip, abort, resume, continue, WorkflowRecovery,
  decide,
}
use mboot_core.Workflow.Engine.{Signal, WorkflowEngine, Outcome, check_cancelled, tick, rollback}
use mboot_core.Workflow.Engine.Attempt.{
  succeeded, skipped, aborted, rolled_back, act, answer, count_retry, executed, try_step, max_tries,
  execute_step,
}
use mboot_core.Workflow.Engine.Script.{Run, recovered, tried, tries, tries_of}

-- An engine that runs and that nobody disturbs, by its fields.
pub record Calm (r : WorkflowRecovery) (o : WorkflowOptions) (signals : List Signal)
    (paused cancelled : Bool) (state : WorkflowState) (recovery : WorkflowRecovery)
    (options : WorkflowOptions) : Type 0 where
  pub calm : signals ≡ []
  pub awake : paused ≡ false
  pub wanted : cancelled ≡ false
  pub runs : state ≡ WorkflowState.running
  pub recovers : recovery ≡ r
  pub opts : options ≡ o

module _ {W : Type 0} where
  abbrev pub Proceeds : WorkflowRecovery → WorkflowOptions → WorkflowEngine W → Type 0
  Proceeds r o e = Calm r o e.signals e.paused e.cancelled e.state e.recovery e.options

  abbrev pub view : Outcome W → Run W
  view (e, r) = (e.context, r)

  module _ (r : WorkflowRecovery) (o : WorkflowOptions) where
    -- The outcome of a step: what the script has, and an engine that goes on if it succeeds.
    pub record Matches (s : Run W) (a : Outcome W) : Type 0 where
      pub same : view a ≡ s
      pub goes : Proceeds r o a.0

    pub tick_calm : (e : WorkflowEngine W) → Proceeds r o e → tick e ≡ e
    unfolding tick
    tick_calm e p = simp (p.calm, tick)

    pub check_calm :
        (e : WorkflowEngine W) → Proceeds r o e → check_cancelled e ≡ is_cancelled e.context
    unfolding check_cancelled
    check_calm e p = rw p.wanted refl

    rollback_refused : (e : WorkflowEngine W) → Proceeds r o e → rollback e ≡ (e, err invalid_state)
    unfolding rollback
    rollback_refused e p = rw p.runs refl

    act-Matches :
        (again : WorkflowEngine W → Outcome W) (again' : WorkflowContext W → Run W) (i : ℕ)
        (s : WorkflowStep W) (x : ErrorCode) (a : RecoveryAction) (e : WorkflowEngine W)
        → ((q : WorkflowEngine W) → Proceeds r o q → Matches (again' q.context) (again q))
        → Proceeds r o e
        → Matches (recovered again' x a e.context) (act again i s x a e)
    unfolding skipped aborted
    act-Matches again again' i s x retry e go p = go e p
    act-Matches again again' i s x roll_back e go p =
        subst (λ a. Matches (e.context, err x) (rolled_back i x a)) (sym (rollback_refused e p))
          (record { same = refl; goes = p })
    act-Matches again again' i s x skip e go p = record { same = refl; goes = p }
    act-Matches again again' i s x abort e go p = record { same = refl; goes = p }
    act-Matches again again' i s x resume e go p = record { same = refl; goes = p }
    act-Matches again again' i s x continue e go p = record { same = refl; goes = p }

    answer-Matches :
        (again : WorkflowEngine W → Outcome W) (again' : WorkflowContext W → Run W) (i : ℕ)
        (s : WorkflowStep W) (e : WorkflowEngine W) (a : Result (Unit {0}))
        → ((q : WorkflowEngine W) → Proceeds r o q → Matches (again' q.context) (again q))
        → Proceeds r o e
        → Matches (tried r again' s (e.context, a)) (answer again i s e a)
    unfolding succeeded
    answer-Matches again again' i s e (ok _) go p = record { same = refl; goes = p }
    answer-Matches again again' i s e (stuck f) go p = record { same = refl; goes = p }
    answer-Matches again again' i s e (err x) go p = elim (Bool-cases (is_cancel x)) [
      | inl c ↦ rw (c, tried, answer) (record { same = refl; goes = p })
      | inr c ↦
          let action = (decide r s.type s.name x).action in
          let known : (decide e.recovery s.type s.name x).action ≡ action =
            ap (λ z. (decide z s.type s.name x).action) p.recovers in
          rw (c, tried, answer, known) (act-Matches again again' i s x action (count_retry e) go p)
    ]

    -- A turn of the loop, from an engine with which nothing has happened.
    abbrev turn : ℕ → ℕ → WorkflowStep W → WorkflowEngine W → Outcome W
    turn n i s q = elim (check_cancelled q) [
      | true ↦ (q, err ErrorCode.cancelled)
      | false ↦ answer (try_step n i s) i s (executed s q) (s.execute q.context).1
    ]

    turn-Matches :
        (n i : ℕ) (s : WorkflowStep W) (e : WorkflowEngine W)
        → ((q : WorkflowEngine W)
            → Proceeds r o q
            → Matches (tries r n s q.context) (try_step n i s q))
        → Proceeds r o e
        → Matches (tries r (suc n) s e.context) (turn n i s e)
    turn-Matches n i s e go p = elim (Bool-cases (is_cancelled e.context)) [
      | inl c ↦ rw (check_calm e p, turn, tries, c) (record { same = refl; goes = p })
      | inr c ↦
          rw (check_calm e p, turn, tries, c)
            (answer-Matches (try_step n i s) (tries r n s) i s (executed s e)
              (s.execute e.context).1 go p)
    ]

    try_step-Matches :
        (n i : ℕ) (s : WorkflowStep W) (e : WorkflowEngine W)
        → Proceeds r o e
        → Matches (tries r n s e.context) (try_step n i s e)
    unfolding try_step
    try_step-Matches zero i s e p = record { same = refl; goes = p }
    try_step-Matches (suc n) i s e p =
        subst (λ q. Matches (tries r (suc n) s e.context) (turn n i s q)) (sym (tick_calm e p))
          (turn-Matches n i s e (try_step-Matches n i s) p)

    pub execute_step-Matches :
        (i : ℕ) (s : Option (WorkflowStep W)) (e : WorkflowEngine W)
        → Proceeds r o e
        → Matches (tries_of r (max_tries o.retry_count) s e.context) (execute_step i s e)
    unfolding execute_step
    execute_step-Matches i none e p = record { same = refl; goes = p }
    execute_step-Matches i (some s) e p =
        let q = record e { progress = set_current_step s.name s.type e.progress } in
        subst
          (λ (z : WorkflowOptions).
            Matches (tries r (max_tries o.retry_count) s e.context)
              (try_step (max_tries z.retry_count) i s q))
          (sym p.opts) (try_step-Matches (max_tries o.retry_count) i s q p)
