-- ===== src/Sahara/Machine/Reach.antt =====
-- What the transition table allows and what it never does.
use mboot_core.Prelude.{
  ℕ, ◌≤◌, ◌<◌, ◌≡◌, ◌≢◌, refl, ◌⊎◌, inl, inr, arith, Option, none, some, List, [], ◌∷◌, All,
  Option-cases, ap,
}
use mboot_core.Domain.{ok, err, invalid_state}
use mboot_core.State.{Transition, Notice, find_transition}
use mboot_core.State.Laws.{find_transition-All}
use mboot_core.Sahara.Machine.{
  SaharaStateMachine, SaharaEvent, ready, read_data_received, data_sent, sending_data, finished,
  error, error_occurred, cancel, state_id, event_id, table, state_count, notify, transition, fire,
  fire_all, new_machine,
}

-- The row that a machine follows.
abbrev next : SaharaStateMachine → ℕ → Option Transition
next m e = find_transition table m.current_state e

-- The state after an event, which a callback does not change.
state_after : ℕ → Option Transition → ℕ
state_after s none = s
state_after s (some t) = t.to_state

notify-state :
    (m : SaharaStateMachine) (n : Notice) (calls : Option (List Notice))
    → (notify m n calls).0.current_state ≡ m.current_state
unfolding notify
notify-state m n none = refl
notify-state m n (some calls) = ground arith

transition-state :
    (m : SaharaStateMachine) (e : ℕ)
    → (transition m e).0.current_state ≡ state_after m.current_state (next m e)
unfolding transition state_after
transition-state m e = elim (Option-cases (next m e)) [
  | inl h ↦ rw (h, transition, state_after)
  | inr (t, h) ↦
      rw (h, transition, state_after)
        (notify-state (record m { current_state = t.to_state })
          (record { old_state = m.current_state; new_state = t.to_state; event = e }) m.callback)
]

-- The rows for the events of the enum: none leads to `Finished`, and each stays in `s_states`.
abbrev RowIsSafe : Transition → Type 0
RowIsSafe t = (t.to_state < state_count) × (t.event ≢ 0 → t.to_state ≢ 12)

table_IsSafe : All RowIsSafe table
unfolding table
table_IsSafe = omega arith

event_id_pos : (e : SaharaEvent) → event_id e ≢ 0
unfolding event_id
event_id_pos e = ground arith

-- The machine is in a state of the enum that is not `Finished`.
abbrev pub IsOpen : SaharaStateMachine → Type 0
IsOpen m = (m.current_state < state_count) × (m.current_state ≢ state_id finished)

fire-state :
    (m : SaharaStateMachine) (e : SaharaEvent)
    → (fire m e).current_state ≡ state_after m.current_state (next m (event_id e))
unfolding fire
fire-state m e = transition-state m (event_id e)

state_after-IsOpen :
    (m : SaharaStateMachine) (e : SaharaEvent) (o : Option Transition)
    → next m (event_id e) ≡ o
    → IsOpen m
    → (state_after m.current_state o < state_count) × (state_after m.current_state o ≢ 12)
unfolding state_after state_id
state_after-IsOpen m e none found h = h
state_after-IsOpen m e (some t) found h =
    let row = find_transition-All RowIsSafe table m.current_state (event_id e) table_IsSafe found in
    (row.0.0, row.0.1 (rw row.2 (event_id_pos e)))

fire-IsOpen : (m : SaharaStateMachine) (e : SaharaEvent) → IsOpen m → IsOpen (fire m e)
unfolding state_id
fire-IsOpen m e h = rw (fire-state m e) (state_after-IsOpen m e (next m (event_id e)) refl h)

fire_all-IsOpen :
    (m : SaharaStateMachine) (es : List SaharaEvent) → IsOpen m → IsOpen (fire_all m es)
unfolding fire_all
fire_all-IsOpen m [] h = h
fire_all-IsOpen m (e ∷ es) h = fire_all-IsOpen (fire m e) es (fire-IsOpen m e h)

-- Whatever events of `SaharaEvent` a new machine is given, in whatever order, it stays in a state of
-- the enum and never reaches `Finished`.
pub finished_unreachable :
    (es : List SaharaEvent)
    → ((fire_all new_machine es).current_state < state_count)
      × ((fire_all new_machine es).current_state ≢ state_id finished)
finished_unreachable es =
    fire_all-IsOpen new_machine es (unfold new_machine state_id in omega arith)

notify-ne-stuck :
    (m : SaharaStateMachine) (n : Notice) (calls : Option (List Notice))
    → n.old_state < state_count
    → n.new_state < state_count
    → (notify m n calls).1 ≡ ok tt
unfolding notify
notify-ne-stuck m n none h k = refl
notify-ne-stuck m n (some calls) h k = ground arith

-- From a state of the enum no event, of the enum or not, makes the callback read past `s_states`:
-- a transition succeeds, or it is refused with `InvalidState` and leaves the machine as it was.
pub transition-in_bounds :
    (m : SaharaStateMachine) (e : ℕ)
    → m.current_state < state_count
    → ((transition m e).1 ≡ ok tt) ⊎ (transition m e ≡ (m, err invalid_state))
unfolding transition
transition-in_bounds m e h = elim (Option-cases (next m e)) [
  | inl missing ↦ inr (rw (missing, transition))
  | inr (t, found) ↦
      let row = find_transition-All RowIsSafe table m.current_state e table_IsSafe found in
      inl (
        rw (found, transition)
          (notify-ne-stuck (record m { current_state = t.to_state })
            (record { old_state = m.current_state; new_state = t.to_state; event = e }) m.callback h
            row.0.0))
]

error_row : (e : ℕ) → find_transition table 11 e ≡ none
unfolding find_transition table
error_row e = ground arith

-- `Error` is left by no event: only `reset` leaves it.
pub error_absorbs :
    (m : SaharaStateMachine) (e : ℕ)
    → m.current_state ≡ state_id error
    → transition m e ≡ (m, err invalid_state)
unfolding state_id transition
error_absorbs m e h = let missing : next m e ≡ none = rw h (error_row e) in rw (missing, transition)

cancel_row :
    (s : ℕ)
    → s ≤ 10
    → find_transition table s 12 ≡ some (record { from_state = s; to_state = 11; event = 12 })
unfolding find_transition table
cancel_row s h = ground arith

-- `Cancel` leads to `Error` from every state of the enum but `Error` and `Finished`.
pub cancel-error :
    (m : SaharaStateMachine)
    → m.current_state < state_id error
    → (fire m cancel).current_state ≡ state_id error
unfolding state_id event_id state_after
cancel-error m h = rw (fire-state m cancel, cancel_row m.current_state (omega arith))

sending_data_row :
    (e : SaharaEvent)
    → e ≢ error_occurred
    → e ≢ cancel
    → find_transition table 5 (event_id e) ≡ none
unfolding find_transition table event_id
sending_data_row e h k = ground arith

fire_missing :
    (m : SaharaStateMachine) (e : SaharaEvent) → next m (event_id e) ≡ none → fire m e ≡ m
unfolding fire transition
fire_missing m e h =
    let step : transition m (event_id e) ≡ (m, err invalid_state) = rw (h, transition) in
    ap (λ r. r.0) step

-- The first block of an upload takes a machine from `Ready` to `SendingData`.
pub first_block-SendingData :
    (m : SaharaStateMachine)
    → m.current_state ≡ state_id ready
    → (fire (fire m read_data_received) data_sent).current_state ≡ state_id sending_data
unfolding state_id event_id state_after table find_transition
first_block-SendingData m h =
    let asked : (fire m read_data_received).current_state ≡ 4 =
      rw (fire-state m read_data_received, h) in
    rw (fire-state (fire m read_data_received) data_sent, asked)

-- The events that `uploadProgrammer` and `reset` fire after the first block was sent.
abbrev pub IsQuiet : SaharaEvent → Type 0
IsQuiet e = (e ≢ error_occurred) × (e ≢ cancel)

-- After `DataSent` the machine is in `SendingData`, and no event but `ErrorOccurred` and `Cancel`
-- moves it from there, neither the next read request nor the end of the image.
pub sending_data_stays :
    (m : SaharaStateMachine) (es : List SaharaEvent)
    → m.current_state ≡ state_id sending_data
    → All IsQuiet es
    → fire_all m es ≡ m
unfolding state_id fire_all
sending_data_stays m [] h q = refl
sending_data_stays m (e ∷ es) h q =
    let missing : next m (event_id e) ≡ none = rw h (sending_data_row e q.0.0 q.0.1) in
    rw (fire_missing m e missing) (sending_data_stays m es h q.1)
