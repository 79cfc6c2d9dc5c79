-- ===== src/State/Laws.antt =====
-- What the table decides: the search for a row, and the machine's steps.
use mboot_core.Prelude.{
  ℕ, ◌≡◌, ◌≢◌, refl, inl, inr, arith, Bool, true, false, Option, none, some, List, [], ◌∷◌, ◌++◌,
  All, Option-cases, Bool-cases, ◌==◌, ◌&&◌, ap, sym, ◌∙◌,
}
use mboot_core.Domain.{ok, err, invalid_state}
use mboot_core.State.{
  Transition, Notice, GenericStateMachine, find_transition, has_transition, find_state,
  add_transition, transition, can_transition, notify,
}

-- What holds of every row holds of the row that is found, which is for the state and the event.
pub find_transition-All {κ} :
    (P : Transition → Type κ) (ts : List Transition) (s e : ℕ) {t : Transition}
    → All P ts
    → find_transition ts s e ≡ some t
    → P t × (t.from_state ≡ s) × (t.event ≡ e)
unfolding find_transition
find_transition-All P [] s e p h = absurd (ground arith)
find_transition-All P (x ∷ ts) s e {t} p h = elim (Bool-cases (x.from_state == s && x.event == e)) [
  | inl hit ↦
      let h' : some x ≡ some t = rw hit at h in
      let same : x ≡ t = cc in rw (← same) (p.0, ground arith, ground arith)
  | inr miss ↦ find_transition-All P ts s e p.1 (rw miss at h)
]

abbrev is_found : Option Transition → Bool
is_found none = false
is_found (some _) = true

has_transition-find :
    (ts : List Transition) (s e : ℕ) → has_transition ts s e ≡ is_found (find_transition ts s e)
unfolding has_transition find_transition
has_transition-find [] s e = refl
has_transition-find (x ∷ ts) s e = ground (arith, has_transition-find ts s e)

find_transition-append :
    (ts us : List Transition) (s e : ℕ) {t : Transition}
    → find_transition ts s e ≡ some t
    → find_transition (ts ++ us) s e ≡ some t
unfolding find_transition
find_transition-append [] us s e h = absurd (cc)
find_transition-append (x ∷ ts) us s e {t} h =
    ground (arith, find_transition-append ts us s e {t = t})

-- A machine whose current state and rows name registered states only.
abbrev pub IsRegistered : GenericStateMachine → ℕ → Type 0
IsRegistered m k = find_state m.states k ≢ none

pub record IsClosed (m : GenericStateMachine) : Type 0 where
  pub current_known : IsRegistered m m.current_state
  pub initial_known : IsRegistered m m.initial_state
  pub rows_known : All (λ t. IsRegistered m t.from_state × IsRegistered m t.to_state) m.transitions

notify-IsClosed :
    (m : GenericStateMachine) (n : Notice) (calls : Option (List Notice))
    → IsClosed m
    → IsRegistered m n.old_state
    → IsRegistered m n.new_state
    → IsClosed (notify m n calls).0 × ((notify m n calls).1 ≡ ok tt)
unfolding notify
notify-IsClosed m n none c old new = (c, refl)
notify-IsClosed m n (some calls) c old new = elim (Option-cases (find_state m.states n.old_state)) [
  | inl e ↦ absurd (old e)
  | inr (s, e) ↦ elim (Option-cases (find_state m.states n.new_state)) [
    | inl f ↦ absurd (new f)
    | inr (t, f) ↦
        rw (e, f, notify)
          (
            record {
              current_known = c.current_known;
              initial_known = c.initial_known;
              rows_known = c.rows_known;
            },
            refl,
          )
  ]
]

-- What a machine does with an event that no row fits, and with one that a row fits.
transition_missing :
    (m : GenericStateMachine) (e : ℕ)
    → find_transition m.transitions m.current_state e ≡ none
    → transition m e ≡ (m, err invalid_state)
unfolding transition
transition_missing m e h = rw (h, transition)

transition_found :
    (m : GenericStateMachine) (e : ℕ) {t : Transition}
    → find_transition m.transitions m.current_state e ≡ some t
    → transition m e
      ≡ notify
          (record m { current_state = t.to_state })
          (record { old_state = m.current_state; new_state = t.to_state; event = e })
          m.callback
unfolding transition
transition_found m e h = rw (h, transition)

transition_found-IsClosed :
    (m : GenericStateMachine) (e : ℕ) {t : Transition}
    → IsClosed m
    → find_transition m.transitions m.current_state e ≡ some t
    → IsClosed (transition m e).0 × ((transition m e).1 ≡ ok tt)
transition_found-IsClosed m e {t} c found =
    let row = find_transition-All _ m.transitions m.current_state e c.rows_known found in
    rw (transition_found m e found) (
      notify-IsClosed (record m { current_state = t.to_state }) _ m.callback
        (record {
          current_known = row.0.1;
          initial_known = c.initial_known;
          rows_known = c.rows_known;
        })
        c.current_known row.0.1)

can_transition_lem :
    (m : GenericStateMachine) (e : ℕ)
    → can_transition m e ≡ is_found (find_transition m.transitions m.current_state e)
unfolding can_transition
can_transition_lem m e = has_transition-find m.transitions m.current_state e

-- A closed machine throws nothing: it takes an event exactly when `canTransition` says so, refuses
-- every other with `InvalidState` and no change, and stays closed.
pub transition-IsClosed :
    (m : GenericStateMachine) (e : ℕ)
    → IsClosed m
    → IsClosed (transition m e).0
      × (can_transition m e ≡ true → (transition m e).1 ≡ ok tt)
      × (can_transition m e ≡ false → transition m e ≡ (m, err invalid_state))
transition-IsClosed m e c = elim (Option-cases (find_transition m.transitions m.current_state e)) [
  | inl missing ↦
      let step = transition_missing m e missing in
      let test : can_transition m e ≡ false = rw (can_transition_lem m e, missing) in
      (rw step c, λ h. cc, λ _. step)
  | inr (t, found) ↦
      let step = transition_found-IsClosed m e c found in
      let test : can_transition m e ≡ true = rw (can_transition_lem m e, found) in
      (step.0, λ _. step.1, λ h. cc)
]

notify-add_transition :
    (m : GenericStateMachine) (from to event : ℕ) (n : Notice) (calls : Option (List Notice))
    → notify (add_transition m from to event) n calls
      ≡ (add_transition (notify m n calls).0 from to event, (notify m n calls).1)
unfolding notify add_transition
notify-add_transition m from to event n none = refl
notify-add_transition m from to event n (some calls) = ground arith

-- Adding a row never changes what the machine does with an event that it already takes: the state
-- and the outcome are the same, and the new row stays at the end of the table.
pub transition-add_transition :
    (m : GenericStateMachine) (from to event e : ℕ)
    → can_transition m e ≡ true
    → let step = transition m e in
      transition (add_transition m from to event) e ≡ (add_transition step.0 from to event, step.1)
unfolding add_transition
transition-add_transition m from to event e h =
    elim (Option-cases (find_transition m.transitions m.current_state e)) [
      | inl missing ↦ absurd (cc (can_transition_lem m e, missing))
      | inr (t, found) ↦
          let kept = find_transition-append m.transitions (row ∷ []) m.current_state e found in
          transition_found (add_transition m from to event) e kept
          ∙ notify-add_transition (record m { current_state = t.to_state }) from to event _
              m.callback
          ∙ ap (λ r. (add_transition r.0 from to event, r.1)) (sym (transition_found m e found))
    ]
  where
    row : Transition
    row = record { from_state = from; to_state = to; event = event }
