-- ===== src/Session/Device.antt =====
-- lib/include/mbootcore/session/DeviceSession.hpp and lib/src/session/DeviceSession.cpp. The device is
-- an interface, given by what its methods do to a world `W`. What another thread does while a call of
-- the device goes on is a list: for each such call, whether it calls `cancel`. What observers are told
-- is recorded, the latest first. The descriptor, the boot pipeline, times and speeds are left out.
use Prim.Native.String.{String, ◌++◌ as ◌<>◌}
use text.Mathlib.Text.{find?}
use mboot_core.Prelude.{
  ℕ, ◌+◌, ◌%◌, ◌^◌, ◌==◌, Bool, true, false, ◌||◌, Option, none, some, List, [], ◌∷◌, ◌++◌, length,
  if◌then◌else◌,
}
use mboot_core.Domain.{
  Result, ok, err, stuck, ErrorCode, ByteBuffer, not_supported, invalid_state, device_disconnected,
}

pub data SessionState : Type 0 where
  disconnected discovered negotiated connected initializing ready busy reading writing :
      SessionState
  erasing resetting finished error cancelled connecting : SessionState

-- The numbers of the enum.
abbrev pub state_id : SessionState → ℕ
state_id disconnected = 0
state_id discovered = 1
state_id negotiated = 2
state_id connected = 3
state_id initializing = 4
state_id ready = 5
state_id busy = 6
state_id reading = 7
state_id writing = 8
state_id erasing = 9
state_id resetting = 10
state_id finished = 11
state_id error = 12
state_id cancelled = 13
state_id connecting = 14

pub record FlashDevice (W : Type 0) : Type 0 where
  pub open_device : W → W × Result (Unit {0})
  pub close_device : W → W
  pub read_memory : ℕ → ℕ → W → W × Result ByteBuffer
  pub write_memory : ℕ → ByteBuffer → W → W × Result (Unit {0})
  pub erase_memory : ℕ → ℕ → W → W × Result (Unit {0})
  pub read_partition : String → W → W × Result ByteBuffer
  pub write_partition : String → ByteBuffer → W → W × Result (Unit {0})
  pub erase_partition : String → W → W × Result (Unit {0})
  pub reset_device : W → W × Result (Unit {0})
  pub cancel_device : W → W

pub record SessionStatistics : Type 0 where
  pub bytes_read : ℕ
  pub bytes_written : ℕ
  pub bytes_erased : ℕ
  pub read_ops : ℕ
  pub write_ops : ℕ
  pub erase_ops : ℕ
  pub retries : ℕ
  pub failures : ℕ

pub record SessionOperation : Type 0 where
  pub name : String
  pub bytes_transferred : ℕ
  pub success : Bool

pub data Event : Type 0 where
  state_changed : SessionState → SessionState → Event
  failed : ErrorCode → Event
  completed : String → Event
  disconnected_event : Event
  started : String → Event
  ended : String → Bool → Event

pub record DeviceSession (W : Type 0) : Type 0 where
  pub device : Option (FlashDevice W)
  pub world : W
  pub state : SessionState
  pub is_cancelled : Bool
  pub stats : SessionStatistics
  pub enable_history : Bool
  pub history : List SessionOperation
  pub interrupts : List Bool
  pub events : List Event

abbrev pub no_statistics : SessionStatistics
no_statistics = record {
  bytes_read = 0;
  bytes_written = 0;
  bytes_erased = 0;
  read_ops = 0;
  write_ops = 0;
  erase_ops = 0;
  retries = 0;
  failures = 0;
}

abbrev pub is_connected : SessionState → Bool
is_connected s =
    state_id s == 3
    || state_id s == 5
    || state_id s == 6
    || state_id s == 7
    || state_id s == 8
    || state_id s == 9

abbrev pub is_busy : SessionState → Bool
is_busy s =
    state_id s == 6
    || state_id s == 7
    || state_id s == 8
    || state_id s == 9
    || state_id s == 10
    || state_id s == 4

abbrev pub is_terminal : SessionState → Bool
is_terminal s = state_id s == 11 || state_id s == 12 || state_id s == 13

-- `name.find(word) != npos`.
unfoldable pub mentions : String → String → Bool
mentions word name = elim (find? name word) [ none ↦ false | some i ↦ true ]

-- `updateStats`: the kind of an operation is looked for in its name.
abbrev pub add64 : ℕ → ℕ → ℕ
add64 a b = (a + b) % 2 ^ 64

abbrev pub count32 : ℕ → ℕ
count32 a = (a + 1) % 2 ^ 32

unfoldable pub update_stats : String → ℕ → SessionStatistics → SessionStatistics
update_stats name bytes s =
    if mentions "read" name
    then record s { bytes_read = add64 s.bytes_read bytes; read_ops = count32 s.read_ops }
    else if mentions "write" name
    then record s { bytes_written = add64 s.bytes_written bytes; write_ops = count32 s.write_ops }
    else if mentions "erase" name
    then record s { bytes_erased = add64 s.bytes_erased bytes; erase_ops = count32 s.erase_ops }
    else s

module _ {W : Type 0} where
  abbrev pub tell : Event → DeviceSession W → DeviceSession W
  tell e s = record s { events = e ∷ s.events }

  unfoldable pub set_state : SessionState → DeviceSession W → DeviceSession W
  set_state new s = record s {
    state = new;
    events =
        if state_id s.state == state_id new then s.events else state_changed s.state new ∷ s.events;
  }

  unfoldable pub add_history_entry : String → Bool → ℕ → DeviceSession W → DeviceSession W
  add_history_entry name success bytes s =
      if s.enable_history
      then record s {
        history =
            s.history ++ record { name = name; bytes_transferred = bytes; success = success } ∷ [];
      }
      else s

  abbrev pub on_device : (FlashDevice W → W → W) → DeviceSession W → DeviceSession W
  on_device f s = elim s.device [ none ↦ s | some d ↦ record s { world = f d s.world } ]

  unfoldable pub cancel : DeviceSession W → DeviceSession W
  unfolding set_state
  cancel s =
      on_device (λ d. d.cancel_device) (set_state cancelled (record s { is_cancelled = true }))

  -- What another thread does while the device is called.
  unfoldable pub interrupt : DeviceSession W → DeviceSession W
  unfolding cancel
  interrupt s = elim s.interrupts [
    | [] ↦ s
    | b ∷ bs ↦ elim b [
      | true ↦ cancel (record s { interrupts = bs })
      | false ↦ record s { interrupts = bs }
    ]
  ]

  -- What follows a call of the device; the last argument counts the bytes of its result.
  unfoldable pub concluded :
      {A : Type 0} → String → ℕ → (A → ℕ) → Result A → DeviceSession W → DeviceSession W × Result A
  unfolding set_state update_stats add_history_entry
  concluded name bytes size (ok a) s =
      let q = set_state ready s in
      let p =
        add_history_entry name true (size a)
          (record q { stats = update_stats name (size a) q.stats }) in
      (tell (ended name true) (tell (completed name) p), ok a)
  concluded name bytes size (err e) s =
      let q =
        set_state error
          (record s { stats = record s.stats { failures = count32 s.stats.failures } }) in
      (tell (ended name false) (add_history_entry name false bytes (tell (failed e) q)), err e)
  concluded name bytes size (stuck f) s = (s, stuck f)

  -- `executeWithStateCheck` and `executeReadWithStateCheck`: `bytes` is what a failure is entered with.
  unfoldable pub execute :
      {A : Type 0}
      → String
      → SessionState
      → ℕ
      → (A → ℕ)
      → (W → W × Result A)
      → DeviceSession W
      → DeviceSession W × Result A
  unfolding set_state interrupt concluded
  execute name state bytes size call s =
      if s.is_cancelled
      then (set_state cancelled s, err ErrorCode.cancelled)
      else if is_connected s.state
      then if is_busy s.state
        then (s, err invalid_state)
        else (let q = tell (started name) (set_state state s) in
            let (w, r) = call q.world in
            concluded name bytes size r (interrupt (record q { world = w })))
      else (s, err device_disconnected)

  -- `m_flashDevice` is tested first.
  unfoldable pub device_call :
      {A : Type 0}
      → String
      → SessionState
      → ℕ
      → (A → ℕ)
      → (FlashDevice W → W → W × Result A)
      → DeviceSession W
      → DeviceSession W × Result A
  unfolding execute
  device_call name state bytes size call s = elim s.device [
    | none ↦ (s, err not_supported)
    | some d ↦ execute name state bytes size (call d) s
  ]

  unfoldable pub read_memory_of : ℕ → ℕ → DeviceSession W → DeviceSession W × Result ByteBuffer
  unfolding device_call
  read_memory_of a n = device_call "readMemory" reading 0 length (λ d w. d.read_memory a n w)

  unfoldable pub write_memory_of :
      ℕ → ByteBuffer → DeviceSession W → DeviceSession W × Result (Unit {0})
  unfolding device_call
  write_memory_of a bytes =
      device_call "writeMemory" writing (length bytes) (λ _. length bytes)
        (λ d w. d.write_memory a bytes w)

  unfoldable pub erase_memory_of : ℕ → ℕ → DeviceSession W → DeviceSession W × Result (Unit {0})
  unfolding device_call
  erase_memory_of a n = device_call "eraseMemory" erasing n (λ _. n) (λ d w. d.erase_memory a n w)

  unfoldable pub reset_device_of : DeviceSession W → DeviceSession W × Result (Unit {0})
  unfolding device_call
  reset_device_of = device_call "resetDevice" resetting 0 (λ _. 0) (λ d w. d.reset_device w)

  unfoldable pub read_partition_of : String → DeviceSession W → DeviceSession W × Result ByteBuffer
  unfolding device_call
  read_partition_of name =
      device_call ("readPartition:" <> name) reading 0 length (λ d w. d.read_partition name w)

  unfoldable pub write_partition_of :
      String → ByteBuffer → DeviceSession W → DeviceSession W × Result (Unit {0})
  unfolding device_call
  write_partition_of name bytes =
      device_call ("writePartition:" <> name) writing 0 (λ _. 0)
        (λ d w. d.write_partition name bytes w)

  unfoldable pub erase_partition_of : String → DeviceSession W → DeviceSession W × Result (Unit {0})
  unfolding device_call
  erase_partition_of name =
      device_call ("erasePartition:" <> name) erasing 0 (λ _. 0) (λ d w. d.erase_partition name w)

  -- The life of the session.
  unfoldable pub disconnect : DeviceSession W → DeviceSession W
  unfolding set_state
  disconnect s =
      if state_id s.state == 0 || state_id s.state == 11
      then s
      else (let q = on_device (λ d. d.close_device) (record s { is_cancelled = true }) in
          tell disconnected_event (set_state disconnected q))

  -- The end of `connect`, once the device is open or there is none.
  abbrev pub connected_with :
      Result (Unit {0}) → DeviceSession W → DeviceSession W × Result (Unit {0})
  connected_with (ok _) s =
      (tell (ended "connect" true) (tell (completed "connect") (set_state ready s)), ok tt)
  connected_with (err e) s =
      (tell (ended "connect" false) (tell (failed e) (set_state error s)), err e)
  connected_with (stuck f) s = (s, stuck f)

  -- `open` of the device, if there is one.
  unfoldable pub open_with :
      Option (FlashDevice W) → DeviceSession W → DeviceSession W × Result (Unit {0})
  unfolding set_state interrupt
  open_with none s = connected_with (ok tt) s
  open_with (some d) s =
      let (w, r) = d.open_device s.world in connected_with r (interrupt (record s { world = w }))

  unfoldable pub connect : DeviceSession W → DeviceSession W × Result (Unit {0})
  unfolding set_state open_with
  connect s =
      if state_id s.state == 5 || state_id s.state == 3
      then (s, ok tt)
      else if is_terminal s.state
      then (s, err invalid_state)
      else (let q =
            tell (started "connect") (set_state connecting (record s { is_cancelled = false })) in
          open_with s.device q)

  unfoldable pub reconnect : DeviceSession W → DeviceSession W × Result (Unit {0})
  unfolding disconnect connect
  reconnect s =
      let (q, r) = connect (tell (started "reconnect") (disconnect s)) in
      (tell (ended "reconnect" (elim r [ ok _ ↦ true | err e ↦ false | stuck f ↦ false ])) q, r)

  unfoldable pub retry : DeviceSession W → DeviceSession W × Result (Unit {0})
  unfolding reconnect
  retry s =
      if state_id s.state == 12
      then reconnect (record s { stats = record s.stats { retries = count32 s.stats.retries } })
      else (s, err invalid_state)

  unfoldable pub reset : DeviceSession W → DeviceSession W
  unfolding disconnect
  reset s = disconnect s
