-- ===== src/Session/Cancels.antt =====
-- What a cancelled session answers.
use Prim.Native.String.{String}
use mboot_core.Prelude.{
  ℕ, ◌≡◌, refl, sym, ap, ◌∙◌, inl, inr, true, List, [], ◌∷◌, Option, none, some, Option-cases,
  if◌then◌else◌, ◌==◌, ◌||◌, first_branch, second_branch,
}
use mboot_core.Domain.{Result, err, not_supported}
use mboot_core.Session.Device.{
  SessionState, cancelled, state_id, is_terminal, Event, FlashDevice, DeviceSession, set_state,
  on_device, cancel, execute, device_call, connect, retry,
}
use mboot_core.Session.Commands.{
  IsRequest, step-request, Command, connect_it, retry_it, step, steps,
}

-- The calls that do not go through `disconnect`, nor cancel once more.
pub data IsHeld : Command → Type 0 where
  held_connect : IsHeld connect_it
  held_retry : IsHeld retry_it
  held_request : {c : Command} → IsRequest c → IsHeld c

pub data AllHeld : List Command → Type 0 where
  nothing : AllHeld []
  more : {c : Command} {cs : List Command} → IsHeld c → AllHeld cs → AllHeld (c ∷ cs)

module _ {W : Type 0} where
  set_state-same : (s : DeviceSession W) → s.state ≡ cancelled → set_state cancelled s ≡ s
  unfolding set_state
  set_state-same s eq =
      let told = λ (x : SessionState).
        if state_id x == 13 then s.events else Event.state_changed x cancelled ∷ s.events in
      ap (λ x. record s { state = cancelled; events = told x }) eq
      ∙ ap (λ x. record s { state = x }) (sym eq)

  module _ {A : Type 0} (name : String) (state : SessionState) (bytes : ℕ) (size : A → ℕ) where
    execute-held :
        (call : W → W × Result A) (s : DeviceSession W)
        → s.state ≡ cancelled
        → s.is_cancelled ≡ true
        → (execute name state bytes size call s).0 ≡ s
    unfolding execute
    execute-held call s eq c =
        first_branch (λ (o : DeviceSession W × Result A). o.0 ≡ s) s.is_cancelled _ _ c
          (set_state-same s eq)

    module _ (call : FlashDevice W → W → W × Result A) (s : DeviceSession W) where
      called-held :
          (d : Option (FlashDevice W))
          → s.state ≡ cancelled
          → s.is_cancelled ≡ true
          → (elim d as (λ _. DeviceSession W × Result A) [
            | none ↦ (s, err not_supported)
            | some e ↦ execute name state bytes size (call e) s
          ]).0
            ≡ s
      called-held none eq c = refl
      called-held (some d) eq c = execute-held (call d) s eq c

      device_call-held :
          s.state ≡ cancelled
          → s.is_cancelled ≡ true
          → (device_call name state bytes size call s).0 ≡ s
      unfolding device_call
      device_call-held eq c = called-held s.device eq c

  connect-held : (s : DeviceSession W) → s.state ≡ cancelled → (connect s).0 ≡ s
  unfolding connect
  connect-held s eq =
      let P = λ (o : DeviceSession W × Result (Unit {0})). o.0 ≡ s in
      second_branch P (state_id s.state == 5 || state_id s.state == 3) _ _
        (ap (λ x. state_id x == 5 || state_id x == 3) eq)
        (first_branch P (is_terminal s.state) _ _ (ap is_terminal eq) refl)

  retry-held : (s : DeviceSession W) → s.state ≡ cancelled → (retry s).0 ≡ s
  unfolding retry
  retry-held s eq =
      second_branch (λ (o : DeviceSession W × Result (Unit {0})). o.0 ≡ s) (state_id s.state == 12)
        _ _ (ap (λ x. state_id x == 12) eq) refl

  step-held :
      {c : Command}
      → IsHeld c
      → (s : DeviceSession W) → s.state ≡ cancelled
      → s.is_cancelled ≡ true
      → step c s ≡ s
  step-held held_connect s eq h = connect-held s eq
  step-held held_retry s eq h = retry-held s eq
  step-held (held_request r) s eq h =
      step-request (λ s q. s.state ≡ cancelled → s.is_cancelled ≡ true → q ≡ s) (λ name. Unit {0})
        (λ A name state bytes size call s u eq h.
          device_call-held name state bytes size call s eq h)
        r tt s eq h

  on_device-fields :
      (f : FlashDevice W → W → W) (s : DeviceSession W)
      → ((on_device f s).state ≡ s.state) × ((on_device f s).is_cancelled ≡ s.is_cancelled)
  on_device-fields f s = elim (Option-cases s.device) [
    | inl d ↦ rw d (refl, refl)
    | inr (d, k) ↦ rw k (refl, refl)
  ]

  steps-held :
      {cs : List Command}
      → AllHeld cs
      → (s : DeviceSession W) → s.state ≡ cancelled
      → s.is_cancelled ≡ true
      → steps cs s ≡ s
  steps-held nothing s eq h = refl
  steps-held (more {cs = cs} h hs) s eq c =
      ap (steps cs) (step-held h s eq c) ∙ steps-held hs s eq c

  -- After a cancel, any sequence of calls other than `cancel`, `disconnect`, `reconnect` and `reset`
  -- leaves the whole session as the cancel left it: no call reaches the device, nothing is counted or
  -- entered in the history, no observer is told of anything, and `connect` does not revive the session.
  pub steps-cancel :
      {cs : List Command} → AllHeld cs → (s : DeviceSession W) → steps cs (cancel s) ≡ cancel s
  unfolding cancel set_state
  steps-cancel hs s =
      let q = set_state cancelled (record s { is_cancelled = true }) in
      let (a, b) = on_device-fields (λ d. d.cancel_device) q in
      steps-held hs (on_device (λ d. d.cancel_device) q) a b
