-- ===== src/Examples/State.antt =====
-- A door as a table-driven machine: instances of the theorems on GenericStateMachine.
use mboot_core.Prelude.{◌≡◌, refl}
use mboot_core.Domain.{err, invalid_state}
use mboot_core.State.{
  GenericStateMachine, find_state, find_transition, new_machine, add_state, add_transition,
  set_initial_state, transition, on_state_changed, notify,
}
use mboot_core.State.Laws.{IsClosed}

door : GenericStateMachine
unfolding new_machine add_state add_transition set_initial_state on_state_changed find_state
door = on_state_changed (
    set_initial_state
      (add_transition (add_transition (add_state (add_state new_machine 1 "Shut") 2 "Open") 1 2 7) 2
        1 8)
      1)

door_opens : (transition door 7).0.current_state ≡ 2
unfolding door transition find_transition notify find_state
door_opens = refl

door_refuses : transition door 8 ≡ (door, err invalid_state)
unfolding door transition find_transition
door_refuses = refl

door-IsClosed : IsClosed door
unfolding door find_state
door-IsClosed = record {
  current_known = λ e. cc;
  initial_known = λ e. cc;
  rows_known = ((λ e. cc, λ e. cc), ((λ e. cc, λ e. cc), tt));
}
