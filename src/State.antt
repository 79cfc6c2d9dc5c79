-- ===== src/State.antt =====
-- lib/include/mbootcore/domain/IStateMachine.hpp and lib/src/core/state/StateMachine.cpp: the
-- table-driven state machine. A transition's description and a state's name are texts that nothing
-- but a display reads; the name is kept where a lookup returns it.
pub mod Laws
use Prim.Native.String.{String}
use mboot_core.Prelude.{
  ℕ, Bool, true, false, ◌&&◌, ◌==◌, if◌then◌else◌, Option, none, some, List, [], ◌∷◌, ◌++◌,
}
use mboot_core.Domain.{Result, ok, err, stuck, invalid_state, Fault, uncaught_exception}

pub record Transition : Type 0 where
  pub from_state : ℕ
  pub to_state : ℕ
  pub event : ℕ

-- The arguments of one call of the state callback.
pub record Notice : Type 0 where
  pub old_state : ℕ
  pub new_state : ℕ
  pub event : ℕ

-- The loop that looks for the first row with the current state and the event.
unfoldable pub find_transition : List Transition → ℕ → ℕ → Option Transition
find_transition [] s e = none
find_transition (t ∷ ts) s e =
    if t.from_state == s && t.event == e then some t else find_transition ts s e

-- Whether such a row exists, by a loop of its own.
unfoldable pub has_transition : List Transition → ℕ → ℕ → Bool
has_transition [] s e = false
has_transition (t ∷ ts) s e =
    if t.from_state == s && t.event == e then true else has_transition ts s e

pub record StateValue : Type 0 where
  pub id : ℕ
  pub name : String

-- `m_callback` is `none` until one is set; then it holds the calls made so far.
pub record GenericStateMachine : Type 0 where
  pub states : List StateValue
  pub transitions : List Transition
  pub current_state : ℕ
  pub initial_state : ℕ
  pub callback : Option (List Notice)

unfoldable pub find_state : List StateValue → ℕ → Option StateValue
find_state [] k = none
find_state (s ∷ ss) k = if s.id == k then some s else find_state ss k

unfoldable pub new_machine : GenericStateMachine
new_machine = record {
  states = [];
  transitions = [];
  current_state = 0;
  initial_state = 0;
  callback = none;
}

-- `try_emplace` keeps the state that is there.
unfoldable pub add_state : GenericStateMachine → ℕ → String → GenericStateMachine
add_state m k name = elim (find_state m.states k) [
  | none ↦ record m { states = record { id = k; name = name } ∷ m.states }
  | some s ↦ m
]

unfoldable pub add_transition : GenericStateMachine → ℕ → ℕ → ℕ → GenericStateMachine
add_transition m from to event = record m {
  transitions = m.transitions ++ record { from_state = from; to_state = to; event = event } ∷ [];
}

unfoldable pub set_initial_state : GenericStateMachine → ℕ → GenericStateMachine
set_initial_state m k = record m { initial_state = k; current_state = k }

unfoldable pub current_state : GenericStateMachine → StateValue
current_state m = elim (find_state m.states m.current_state) [
  | none ↦ record { id = 0; name = "Unknown" }
  | some s ↦ s
]

-- `m_states.at` of both ends throws if one is missing; the state has changed by then.
unfoldable pub notify :
    GenericStateMachine → Notice → Option (List Notice) → GenericStateMachine × Result (Unit {0})
notify m n none = (m, ok tt)
notify m n (some calls) = elim (find_state m.states n.old_state) [
  | none ↦ (m, stuck uncaught_exception)
  | some old ↦ elim (find_state m.states n.new_state) [
    | none ↦ (m, stuck uncaught_exception)
    | some next ↦ (record m { callback = some (n ∷ calls) }, ok tt)
  ]
]

unfoldable pub transition : GenericStateMachine → ℕ → GenericStateMachine × Result (Unit {0})
unfolding notify
transition m e = elim (find_transition m.transitions m.current_state e) [
  | none ↦ (m, err invalid_state)
  | some t ↦
      notify (record m { current_state = t.to_state })
        (record { old_state = m.current_state; new_state = t.to_state; event = e }) m.callback
]

unfoldable pub can_transition : GenericStateMachine → ℕ → Bool
can_transition m e = has_transition m.transitions m.current_state e

unfoldable pub reset : GenericStateMachine → GenericStateMachine
reset m = record m { current_state = m.initial_state }

unfoldable pub on_state_changed : GenericStateMachine → GenericStateMachine
on_state_changed m = record m { callback = some [] }
