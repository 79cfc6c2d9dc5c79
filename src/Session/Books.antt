-- ===== src/Session/Books.antt =====
-- Every operation of a session keeps its counters and its history in agreement.
use Prim.Native.String.{String}
use mboot_core.Prelude.{
  All, ℕ, ◌==◌, ◌≡◌, refl, inl, inr, Bool, true, false, ◌||◌, Option, none, some, List, [], ◌∷◌,
  Option-cases, both_branches,
}
use mboot_core.Domain.{Result, ok, err, stuck}
use mboot_core.Session.Device.{
  SessionState, state_id, FlashDevice, Event, DeviceSession, is_connected, is_busy, is_terminal,
  count32, tell, set_state, add_history_entry, on_device, cancel, interrupt, concluded, execute,
  device_call, disconnect, connected_with, open_with, connect, reconnect, retry, reset,
}
use mboot_core.Session.Commands.{
  IsRequest, asks_reset, asks_read, asks_write, asks_erase, asks_read_from, asks_write_to,
  asks_erase_from, step-request, Command, connect_it, disconnect_it, reconnect_it, retry_it,
  cancel_it, reset_it, reset_device_it, read_at, write_at, erase_at, read_from, write_to,
  erase_from, step, steps,
}
use mboot_core.Session.Kinds.{IsPlain, IsClear, request-IsPlain}
use mboot_core.Session.Accounts.{Accounts, succeeded-Accounts, failed-Accounts}

module _ {W : Type 0} where
  -- A session whose history is kept, and whose counters agree with it.
  abbrev pub IsBooked : DeviceSession W → Type 0
  IsBooked s = (s.enable_history ≡ true) × Accounts s.stats s.history

  on_device-IsBooked :
      (f : FlashDevice W → W → W) (s : DeviceSession W) → IsBooked s → IsBooked (on_device f s)
  on_device-IsBooked f s b = elim (Option-cases s.device) [
    | inl d ↦ rw d b
    | inr (d, known) ↦ rw known b
  ]

  cancel-IsBooked : (s : DeviceSession W) → IsBooked s → IsBooked (cancel s)
  unfolding cancel set_state
  cancel-IsBooked s b =
      on_device-IsBooked (λ d. d.cancel_device)
        (set_state SessionState.cancelled (record s { is_cancelled = true })) b

  interrupt_on :
      (bs : List Bool) (s : DeviceSession W)
      → IsBooked s
      → IsBooked (elim bs [
        | [] ↦ s
        | c ∷ cs ↦ elim c [
          | true ↦ cancel (record s { interrupts = cs })
          | false ↦ record s { interrupts = cs }
        ]
      ])
  interrupt_on [] s b = b
  interrupt_on (true ∷ cs) s b = cancel-IsBooked (record s { interrupts = cs }) b
  interrupt_on (false ∷ cs) s b = b

  interrupt-IsBooked : (s : DeviceSession W) → IsBooked s → IsBooked (interrupt s)
  unfolding interrupt
  interrupt-IsBooked s b = interrupt_on s.interrupts s b

  concluded-IsBooked :
      {A : Type 0} (name : String) (bytes : ℕ) (size : A → ℕ) (r : Result A) (s : DeviceSession W)
      → IsPlain name
      → IsBooked s
      → IsBooked (concluded name bytes size r s).0
  unfolding concluded set_state add_history_entry
  concluded-IsBooked name bytes size (ok a) s plain b =
      rw b.0 (refl, succeeded-Accounts s.stats s.history name (size a) plain b.1)
  concluded-IsBooked name bytes size (err e) s plain b =
      rw b.0 (refl, failed-Accounts s.stats s.history name bytes b.1)
  concluded-IsBooked name bytes size (stuck f) s plain b = b

  execute-IsBooked :
      {A : Type 0} (name : String) (state : SessionState) (bytes : ℕ) (size : A → ℕ)
      (call : W → W × Result A) (s : DeviceSession W)
      → IsPlain name
      → IsBooked s
      → IsBooked (execute name state bytes size call s).0
  unfolding execute set_state
  execute-IsBooked {A} name state bytes size call s plain b =
      let q = tell (Event.started name) (set_state state s) in
      let p = record q { world = (call q.world).0 } in
      let P = λ (o : DeviceSession W × Result A). IsBooked o.0 in
      both_branches P s.is_cancelled _ _ b (
        both_branches P (is_connected s.state) _ _
          (both_branches P (is_busy s.state) _ _ b (
            concluded-IsBooked name bytes size (call q.world).1 (interrupt p) plain
              (interrupt-IsBooked p b)))
          b)

  device_call-IsBooked :
      {A : Type 0} (name : String) (state : SessionState) (bytes : ℕ) (size : A → ℕ)
      (call : FlashDevice W → W → W × Result A) (s : DeviceSession W)
      → IsPlain name
      → IsBooked s
      → IsBooked (device_call name state bytes size call s).0
  unfolding device_call
  device_call-IsBooked name state bytes size call s plain b = elim (Option-cases s.device) [
    | inl d ↦ rw (d, device_call) b
    | inr (d, known) ↦
        rw (known, device_call) (execute-IsBooked name state bytes size (call d) s plain b)
  ]

  disconnect-IsBooked : (s : DeviceSession W) → IsBooked s → IsBooked (disconnect s)
  unfolding disconnect set_state
  disconnect-IsBooked s b =
      both_branches IsBooked (state_id s.state == 0 || state_id s.state == 11) _ _ b
        (on_device-IsBooked (λ d. d.close_device) (record s { is_cancelled = true }) b)

  connected_with-IsBooked :
      (r : Result (Unit {0})) (s : DeviceSession W) → IsBooked s → IsBooked (connected_with r s).0
  unfolding set_state
  connected_with-IsBooked (ok _) s b = b
  connected_with-IsBooked (err e) s b = b
  connected_with-IsBooked (stuck f) s b = b

  open_with-IsBooked :
      (d : Option (FlashDevice W)) (q : DeviceSession W) → IsBooked q → IsBooked (open_with d q).0
  unfolding open_with
  open_with-IsBooked none q b = connected_with-IsBooked (ok tt) q b
  open_with-IsBooked (some d) q b =
      let p = record q { world = (d.open_device q.world).0 } in
      connected_with-IsBooked (d.open_device q.world).1 (interrupt p) (interrupt-IsBooked p b)

  connect-IsBooked : (s : DeviceSession W) → IsBooked s → IsBooked (connect s).0
  unfolding connect set_state
  connect-IsBooked s b =
      let P = λ (o : DeviceSession W × Result (Unit {0})). IsBooked o.0 in
      let q =
        tell (Event.started "connect")
          (set_state SessionState.connecting (record s { is_cancelled = false })) in
      both_branches P (state_id s.state == 5 || state_id s.state == 3) _ _ b
        (both_branches P (is_terminal s.state) _ _ b (open_with-IsBooked s.device q b))

  reconnect-IsBooked : (s : DeviceSession W) → IsBooked s → IsBooked (reconnect s).0
  unfolding reconnect
  reconnect-IsBooked s b =
      connect-IsBooked (tell (Event.started "reconnect") (disconnect s)) (disconnect-IsBooked s b)

  retry-IsBooked : (s : DeviceSession W) → IsBooked s → IsBooked (retry s).0
  unfolding retry
  retry-IsBooked s b =
      let q = record s { stats = record s.stats { retries = count32 s.stats.retries } } in
      both_branches (λ (o : DeviceSession W × Result (Unit {0})). IsBooked o.0)
        (state_id s.state == 12) _ _
        (reconnect-IsBooked q (
          b.0,
          record {
            bytes_read_known = b.1.bytes_read_known;
            read_ops_known = b.1.read_ops_known;
            bytes_written_known = b.1.bytes_written_known;
            write_ops_known = b.1.write_ops_known;
            bytes_erased_known = b.1.bytes_erased_known;
            erase_ops_known = b.1.erase_ops_known;
            failures_known = b.1.failures_known;
          },
        ))
        b

  request-IsBooked :
      {c : Command}
      → IsRequest c
      → IsClear c
      → (s : DeviceSession W) → IsBooked s
      → IsBooked (step c s)
  request-IsBooked r clear s b =
      step-request (λ s q. IsBooked s → IsBooked q) IsPlain
        (λ A name state bytes size call s plain b.
          device_call-IsBooked name state bytes size call s plain b)
        r (request-IsPlain r clear) s b

  step-IsBooked : (c : Command) (s : DeviceSession W) → IsClear c → IsBooked s → IsBooked (step c s)
  unfolding reset
  step-IsBooked connect_it s clear b = connect-IsBooked s b
  step-IsBooked disconnect_it s clear b = disconnect-IsBooked s b
  step-IsBooked reconnect_it s clear b = reconnect-IsBooked s b
  step-IsBooked retry_it s clear b = retry-IsBooked s b
  step-IsBooked cancel_it s clear b = cancel-IsBooked s b
  step-IsBooked reset_it s clear b = disconnect-IsBooked s b
  step-IsBooked (read_at a n) s clear b = request-IsBooked asks_read clear s b
  step-IsBooked (write_at a bytes) s clear b = request-IsBooked asks_write clear s b
  step-IsBooked (erase_at a n) s clear b = request-IsBooked asks_erase clear s b
  step-IsBooked reset_device_it s clear b = request-IsBooked asks_reset clear s b
  step-IsBooked (read_from name) s clear b = request-IsBooked asks_read_from clear s b
  step-IsBooked (write_to name bytes) s clear b = request-IsBooked asks_write_to clear s b
  step-IsBooked (erase_from name) s clear b = request-IsBooked asks_erase_from clear s b

  -- Whatever a client calls, and whenever other threads cancel, a session that keeps its history
  -- (enableHistory) and whose counters agree with it, as those of a new one do, has counters that agree
  -- with it afterwards, if the partitions changed have clear names: in the name of a write "read" does
  -- not occur, and in that of an erasure neither "read" nor "write". The counters are the bytes and the
  -- number of the successful operations whose names begin with "read", "write" and "erase", and the
  -- number of failures, up to the width of their types.
  pub steps-IsBooked :
      (cs : List Command) (s : DeviceSession W)
      → All IsClear cs
      → IsBooked s
      → IsBooked (steps cs s)
  steps-IsBooked [] s clear b = b
  steps-IsBooked (c ∷ cs) s clear b =
      steps-IsBooked cs (step c s) clear.1 (step-IsBooked c s clear.0 b)
