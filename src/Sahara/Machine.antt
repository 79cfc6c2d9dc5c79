-- ===== src/Sahara/Machine.antt =====
-- lib/include/mbootcore/core/protocols/sahara/SaharaStateMachine.hpp and
-- lib/src/core/protocols/sahara/SaharaStateMachine.cpp.
pub mod Reach
use mboot_core.Prelude.{ℕ, ◌&&◌, ltb, if◌then◌else◌, Bool, Option, none, some, List, [], ◌∷◌}
use mboot_core.Domain.{Result, ok, err, stuck, invalid_state, undefined_behaviour}
use mboot_core.State.{Transition, Notice, find_transition, has_transition}

pub data SaharaStateId : Type 0 where
  disconnected waiting_for_hello handshake ready reading_image sending_data : SaharaStateId
  waiting_end_image sending_done waiting_done_resp sending_reset : SaharaStateId
  waiting_reset_resp error finished : SaharaStateId

unfoldable pub state_id : SaharaStateId → ℕ
state_id disconnected = 0
state_id waiting_for_hello = 1
state_id handshake = 2
state_id ready = 3
state_id reading_image = 4
state_id sending_data = 5
state_id waiting_end_image = 6
state_id sending_done = 7
state_id waiting_done_resp = 8
state_id sending_reset = 9
state_id waiting_reset_resp = 10
state_id error = 11
state_id finished = 12

pub data SaharaEvent : Type 0 where
  hello_received hello_response_sent read_data_received data_sent : SaharaEvent
  end_image_received done_received done_response_sent reset_requested : SaharaEvent
  reset_response_recv error_occurred timeout cancel : SaharaEvent

unfoldable pub event_id : SaharaEvent → ℕ
event_id hello_received = 1
event_id hello_response_sent = 2
event_id read_data_received = 3
event_id data_sent = 4
event_id end_image_received = 5
event_id done_received = 6
event_id done_response_sent = 7
event_id reset_requested = 8
event_id reset_response_recv = 9
event_id error_occurred = 10
event_id timeout = 11
event_id cancel = 12

abbrev row : ℕ → ℕ → ℕ → Transition
row from to event = record { from_state = from; to_state = to; event = event }

-- `s_transitions`, which the constructor copies into `m_transitions`.
unfoldable pub table : List Transition
table =
    row 0 1 0
    ∷ row 1 2 1
    ∷ row 1 11 11
    ∷ row 2 3 2
    ∷ row 3 4 3
    ∷ row 4 5 4
    ∷ row 5 3 0
    ∷ row 3 6 5
    ∷ row 6 7 6
    ∷ row 7 8 7
    ∷ row 8 1 0
    ∷ row 8 12 0
    ∷ row 3 9 8
    ∷ row 9 10 9
    ∷ row 10 12 0
    ∷ row 1 11 10
    ∷ row 2 11 10
    ∷ row 3 11 10
    ∷ row 4 11 10
    ∷ row 5 11 10
    ∷ row 6 11 10
    ∷ row 7 11 10
    ∷ row 0 11 12
    ∷ row 1 11 12
    ∷ row 2 11 12
    ∷ row 3 11 12
    ∷ row 4 11 12
    ∷ row 5 11 12
    ∷ row 6 11 12
    ∷ row 7 11 12
    ∷ row 8 11 12
    ∷ row 9 11 12
    ∷ row 10 11 12
    ∷ []

-- The number of entries of `s_states`.
abbrev pub state_count : ℕ
state_count = 13

-- `m_callback` is `none` until one is set; then it holds the calls made so far.
pub record SaharaStateMachine : Type 0 where
  pub current_state : ℕ
  pub callback : Option (List Notice)

unfoldable pub new_machine : SaharaStateMachine
unfolding state_id
new_machine = record { current_state = state_id waiting_for_hello; callback = none }

-- The index into `s_states` that `currentState` answers with.
unfoldable pub current_state : SaharaStateMachine → ℕ
current_state m = if ltb m.current_state state_count then m.current_state else 0

-- The callback is given two entries of `s_states`, read without a check of the index.
unfoldable pub notify :
    SaharaStateMachine → Notice → Option (List Notice) → SaharaStateMachine × Result (Unit {0})
notify m n none = (m, ok tt)
notify m n (some calls) =
    if ltb n.old_state state_count && ltb n.new_state state_count
    then (record m { callback = some (n ∷ calls) }, ok tt)
    else (m, stuck undefined_behaviour)

unfoldable pub transition : SaharaStateMachine → ℕ → SaharaStateMachine × Result (Unit {0})
unfolding notify
transition m e = elim (find_transition table m.current_state e) [
  | none ↦ (m, err invalid_state)
  | some t ↦
      notify (record m { current_state = t.to_state })
        (record { old_state = m.current_state; new_state = t.to_state; event = e }) m.callback
]

unfoldable pub can_transition : SaharaStateMachine → ℕ → Bool
can_transition m e = has_transition table m.current_state e

unfoldable pub reset : SaharaStateMachine → SaharaStateMachine
unfolding state_id
reset m = record m { current_state = state_id waiting_for_hello }

unfoldable pub on_state_changed : SaharaStateMachine → SaharaStateMachine
on_state_changed m = record m { callback = some [] }

-- `(void)m_stateMachine.transition(...)`: the outcome is dropped.
unfoldable pub fire : SaharaStateMachine → SaharaEvent → SaharaStateMachine
fire m e = (transition m (event_id e)).0

unfoldable pub fire_all : SaharaStateMachine → List SaharaEvent → SaharaStateMachine
fire_all m [] = m
fire_all m (e ∷ es) = fire_all (fire m e) es
