-- ===== src/Session/Serves.antt =====
-- A connected session passes its calls on to the device, up to the first that fails.
use mathlib.Core.Path.{subst}
use Prim.Native.String.{String, ◌++◌ as ◌<>◌}
use mboot_core.Prelude.{
  ℕ, ◌≡◌, refl, sym, ap, ◌∙◌, Bool, true, false, ◌&&◌, not, List, [], ◌∷◌, length, Option, none,
  some, if◌then◌else◌, first_branch, both_branches, second_branch,
}
use mboot_core.Domain.{Result, ok, err, not_supported, stuck}
use mboot_core.Session.Device.{
  SessionState, ready, reading, writing, erasing, resetting, FlashDevice, DeviceSession,
  is_connected, is_busy, set_state, tell, Event, interrupt, concluded, execute, device_call,
  read_memory_of, write_memory_of, erase_memory_of, reset_device_of, read_partition_of,
  write_partition_of, erase_partition_of, update_stats, add_history_entry, ended, completed,
}
use mboot_core.Session.Commands.{
  IsRequest, asks_reset, asks_read, asks_write, asks_erase, asks_read_from, asks_write_to,
  asks_erase_from, step-request, Command, reset_device_it, read_at, write_at, erase_at, read_from,
  write_to, erase_from, step, steps,
}

pub data AllRequests : List Command → Type 0 where
  nothing : AllRequests []
  more : {c : Command} {cs : List Command} → IsRequest c → AllRequests cs → AllRequests (c ∷ cs)

abbrev succeeded : {A : Type 0} → Result A → Bool
succeeded (ok a) = true
succeeded (err e) = false
succeeded (stuck f) = false

abbrev told : {W A : Type 0} → W × Result A → W × Bool
told p = (p.0, succeeded p.1)

closed_branch :
    {A : Type 0} (P : A → Type 0) (a b : Bool) (x y z : A)
    → (a && not b) ≡ false
    → P x
    → P z
    → P (if a then if b then x else y else z)
closed_branch P true true x y z eq p q = p
closed_branch P true false x y z eq p q = absurd (cc)
closed_branch P false b x y z eq p q = q

module _ {W : Type 0} (d : FlashDevice W) where
  -- What the device does on a call, and whether it succeeds.
  abbrev pub ask : Command → W → W × Bool
  ask reset_device_it w = told (d.reset_device w)
  ask (read_at a n) w = told (d.read_memory a n w)
  ask (write_at a bytes) w = told (d.write_memory a bytes w)
  ask (erase_at a n) w = told (d.erase_memory a n w)
  ask (read_from name) w = told (d.read_partition name w)
  ask (write_to name bytes) w = told (d.write_partition name bytes w)
  ask (erase_from name) w = told (d.erase_partition name w)
  ask _ w = (w, true)

  -- The device, called in turn up to the first failure.
  abbrev pub serve : List Command → W → W × Bool
  serve [] w = (w, true)
  serve (c ∷ cs) w = let (v, b) = ask c w in let rest = serve cs v in if b then rest else (v, false)

  -- A session that is ready, and that no other thread cancels.
  pub record IsServing (s : DeviceSession W) : Type 0 where
    pub device_there : s.device ≡ some d
    pub state_ready : s.state ≡ ready
    pub not_cancelled : s.is_cancelled ≡ false
    pub undisturbed : s.interrupts ≡ []

  -- A session that takes no calls of the device.
  pub record IsDown (s : DeviceSession W) : Type 0 where
    pub not_cancelled : s.is_cancelled ≡ false
    pub closed : (is_connected s.state && not (is_busy s.state)) ≡ false

  -- What a call leaves, by whether it succeeded.
  abbrev pub Left : W × Bool → DeviceSession W → Type 0
  Left (v, true) s = (s.world ≡ v) × IsServing s
  Left (v, false) s = (s.world ≡ v) × IsDown s

  interrupt-undisturbed : (s : DeviceSession W) → s.interrupts ≡ [] → interrupt s ≡ s
  unfolding interrupt
  interrupt-undisturbed s eq =
      let quiet = record s { interrupts = [] } in
      ap (λ bs. interrupt (record s { interrupts = bs })) eq
      ∙ ap (λ bs. record s { interrupts = bs }) (sym eq)

  module _ {A : Type 0} (name : String) (state : SessionState) (bytes : ℕ) (size : A → ℕ) where
    concluded-Left :
        (r : Result A) (s : DeviceSession W)
        → s.device ≡ some d
        → s.is_cancelled ≡ false
        → s.interrupts ≡ []
        → (is_connected s.state && not (is_busy s.state)) ≡ false
        → Left (s.world, succeeded r) (concluded name bytes size r s).0
    unfolding concluded set_state add_history_entry
    concluded-Left (ok a) s dv nc un cl =
        let p = set_state ready s in
        let q = record p { stats = update_stats name (size a) p.stats } in
        both_branches
          (λ (x : DeviceSession W).
            (x.world ≡ s.world) × IsServing (tell (ended name true) (tell (completed name) x)))
          s.enable_history _ _
          (
            refl,
            record { device_there = dv; state_ready = refl; not_cancelled = nc; undisturbed = un },
          )
          (
            refl,
            record { device_there = dv; state_ready = refl; not_cancelled = nc; undisturbed = un },
          )
    concluded-Left (err e) s dv nc un cl =
        both_branches
          (λ (x : DeviceSession W). (x.world ≡ s.world) × IsDown (tell (ended name false) x))
          s.enable_history _ _ (refl, record { not_cancelled = nc; closed = refl })
          (refl, record { not_cancelled = nc; closed = refl })
    concluded-Left (stuck f) s dv nc un cl = (refl, record { not_cancelled = nc; closed = cl })

    execute-Left :
        (call : W → W × Result A) (s : DeviceSession W)
        → (is_connected state && not (is_busy state)) ≡ false
        → IsServing s
        → Left (told (call s.world)) (execute name state bytes size call s).0
    unfolding execute set_state
    execute-Left call s cl sv =
        let P = λ (o : DeviceSession W × Result A). Left (told (call s.world)) o.0 in
        let q = tell (Event.started name) (set_state state s) in
        let p = record q { world = (call s.world).0 } in
        second_branch P s.is_cancelled _ _ sv.not_cancelled (
          first_branch P (is_connected s.state) _ _ (ap is_connected sv.state_ready) (
            second_branch P (is_busy s.state) _ _ (ap is_busy sv.state_ready) (
              subst (λ x. P (concluded name bytes size (call s.world).1 x))
                (sym (interrupt-undisturbed p sv.undisturbed))
                (concluded-Left (call s.world).1 p sv.device_there sv.not_cancelled sv.undisturbed
                  cl))))

    execute-IsDown :
        (call : W → W × Result A) (s : DeviceSession W)
        → IsDown s
        → ((execute name state bytes size call s).0 ≡ s)
    unfolding execute
    execute-IsDown call s dn =
        second_branch (λ (o : DeviceSession W × Result A). o.0 ≡ s) s.is_cancelled _ _
          dn.not_cancelled
          (closed_branch (λ (o : DeviceSession W × Result A). o.0 ≡ s) (is_connected s.state)
            (is_busy s.state) _ _ _ dn.closed refl refl)

    module _ (call : FlashDevice W → W → W × Result A) (s : DeviceSession W) where
      device_call-Left :
          (is_connected state && not (is_busy state)) ≡ false
          → IsServing s
          → Left (told (call d s.world)) (device_call name state bytes size call s).0
      unfolding device_call
      device_call-Left cl sv =
          subst
            (λ o.
              Left (told (call d s.world))
                (elim o as (λ _. DeviceSession W × Result A) [
                  | none ↦ (s, err not_supported)
                  | some e ↦ execute name state bytes size (call e) s
                ]).0)
            (sym sv.device_there) (execute-Left (call d) s cl sv)

      called-IsDown :
          (o : Option (FlashDevice W))
          → IsDown s
          → (elim o as (λ _. DeviceSession W × Result A) [
            | none ↦ (s, err not_supported)
            | some e ↦ execute name state bytes size (call e) s
          ]).0
            ≡ s
      called-IsDown none dn = refl
      called-IsDown (some e) dn = execute-IsDown (call e) s dn

      device_call-IsDown : IsDown s → (device_call name state bytes size call s).0 ≡ s
      unfolding device_call
      device_call-IsDown dn = called-IsDown s.device dn

  step-Left :
      {c : Command}
      → IsRequest c
      → (s : DeviceSession W) → IsServing s
      → Left (ask c s.world) (step c s)
  unfolding read_memory_of write_memory_of erase_memory_of reset_device_of read_partition_of
      write_partition_of erase_partition_of
  step-Left asks_reset s sv =
      device_call-Left "resetDevice" resetting 0 (λ _. 0) (λ e w. e.reset_device w) s refl sv
  step-Left (asks_read {a = a} {n = n}) s sv =
      device_call-Left "readMemory" reading 0 length (λ e w. e.read_memory a n w) s refl sv
  step-Left (asks_write {a = a} {bytes = bytes}) s sv =
      device_call-Left "writeMemory" writing (length bytes) (λ _. length bytes)
        (λ e w. e.write_memory a bytes w) s refl sv
  step-Left (asks_erase {a = a} {n = n}) s sv =
      device_call-Left "eraseMemory" erasing n (λ _. n) (λ e w. e.erase_memory a n w) s refl sv
  step-Left (asks_read_from {name = name}) s sv =
      device_call-Left ("readPartition:" <> name) reading 0 length (λ e w. e.read_partition name w)
        s refl sv
  step-Left (asks_write_to {name = name} {bytes = bytes}) s sv =
      device_call-Left ("writePartition:" <> name) writing 0 (λ _. 0)
        (λ e w. e.write_partition name bytes w) s refl sv
  step-Left (asks_erase_from {name = name}) s sv =
      device_call-Left ("erasePartition:" <> name) erasing 0 (λ _. 0)
        (λ e w. e.erase_partition name w) s refl sv

  step-IsDown : {c : Command} → IsRequest c → (s : DeviceSession W) → IsDown s → step c s ≡ s
  step-IsDown r s dn =
      step-request (λ s q. IsDown s → q ≡ s) (λ name. Unit {0})
        (λ A name state bytes size call s u dn. device_call-IsDown name state bytes size call s dn)
        r tt s dn

  steps-IsDown :
      {cs : List Command} → AllRequests cs → (s : DeviceSession W) → IsDown s → steps cs s ≡ s
  steps-IsDown nothing s dn = refl
  steps-IsDown (more {cs = cs} r rs) s dn =
      ap (steps cs) (step-IsDown r s dn) ∙ steps-IsDown rs s dn

  -- The rest of the calls, after a first that left `s`.
  rest-Left :
      {cs : List Command} (p : W × Bool) (s : DeviceSession W)
      → AllRequests cs
      → ((q : DeviceSession W) → IsServing q → Left (serve cs q.world) (steps cs q))
      → Left p s
      → Left (if p.1 then serve cs p.0 else (p.0, false)) (steps cs s)
  rest-Left {cs = cs} (v, true) s rs ih l =
      subst (λ w. Left (serve cs w) (steps cs s)) l.0 (ih s l.1)
  rest-Left {cs = cs} (v, false) s rs ih l =
      subst (λ q. Left (v, false) q) (sym (steps-IsDown rs s l.1)) l

  -- A session that is ready, not cancelled, and that no other thread cancels does with its device `d`
  -- what a client does that calls `d` itself and stops at the first failure: any list of calls of the
  -- device leaves the world as the calls up to the first that fails, that one included, leave it. If all
  -- succeed the session is ready again; otherwise it is left unable to call the device.
  pub steps-serve :
      {cs : List Command}
      → AllRequests cs
      → (s : DeviceSession W) → IsServing s
      → Left (serve cs s.world) (steps cs s)
  steps-serve nothing s sv = (refl, sv)
  steps-serve (more {c = c} {cs = cs} r rs) s sv =
      rest-Left (ask c s.world) (step c s) rs (λ q. steps-serve rs q) (step-Left r s sv)
