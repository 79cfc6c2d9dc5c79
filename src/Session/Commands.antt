-- ===== src/Session/Commands.antt =====
-- The calls that a client makes of a session.
use Prim.Native.String.{String, ◌++◌ as ◌<>◌}
use mboot_core.Prelude.{ℕ, List, [], ◌∷◌, length}
use mboot_core.Domain.{Result, ByteBuffer}
use mboot_core.Session.Device.{
  SessionState, reading, writing, erasing, resetting, FlashDevice, DeviceSession, cancel,
  device_call, read_memory_of, write_memory_of, erase_memory_of, reset_device_of, read_partition_of,
  write_partition_of, erase_partition_of, disconnect, connect, reconnect, retry, reset,
}

-- The calls that a client makes.
pub data Command : Type 0 where
  connect_it disconnect_it reconnect_it retry_it cancel_it reset_it reset_device_it : Command
  read_at : ℕ → ℕ → Command
  write_at : ℕ → ByteBuffer → Command
  erase_at : ℕ → ℕ → Command
  read_from erase_from : String → Command
  write_to : String → ByteBuffer → Command

abbrev pub step : {W : Type 0} → Command → DeviceSession W → DeviceSession W
step connect_it s = (connect s).0
step disconnect_it s = disconnect s
step reconnect_it s = (reconnect s).0
step retry_it s = (retry s).0
step cancel_it s = cancel s
step reset_it s = reset s
step reset_device_it s = (reset_device_of s).0
step (read_at a n) s = (read_memory_of a n s).0
step (write_at a bytes) s = (write_memory_of a bytes s).0
step (erase_at a n) s = (erase_memory_of a n s).0
step (read_from name) s = (read_partition_of name s).0
step (write_to name bytes) s = (write_partition_of name bytes s).0
step (erase_from name) s = (erase_partition_of name s).0

abbrev pub steps : {W : Type 0} → List Command → DeviceSession W → DeviceSession W
steps [] s = s
steps (c ∷ cs) s = steps cs (step c s)

-- The calls of a session that are calls of its device.
pub data IsRequest : Command → Type 0 where
  asks_reset : IsRequest reset_device_it
  asks_read : {a n : ℕ} → IsRequest (read_at a n)
  asks_write : {a : ℕ} {bytes : ByteBuffer} → IsRequest (write_at a bytes)
  asks_erase : {a n : ℕ} → IsRequest (erase_at a n)
  asks_read_from : {name : String} → IsRequest (read_from name)
  asks_write_to : {name : String} {bytes : ByteBuffer} → IsRequest (write_to name bytes)
  asks_erase_from : {name : String} → IsRequest (erase_from name)

-- What a request is called in the history.
abbrev pub name_of : Command → String
name_of reset_device_it = "resetDevice"
name_of (read_at a n) = "readMemory"
name_of (write_at a bytes) = "writeMemory"
name_of (erase_at a n) = "eraseMemory"
name_of (read_from name) = "readPartition:" <> name
name_of (write_to name bytes) = "writePartition:" <> name
name_of (erase_from name) = "erasePartition:" <> name
name_of _ = ""

-- What holds of every call of the device holds of every request.
pub step-request :
    {W : Type 0} (P : DeviceSession W → DeviceSession W → Type 0) (Q : String → Type 0)
    → ((A : Type 0) (name : String) (state : SessionState) (bytes : ℕ) (size : A → ℕ)
          (call : FlashDevice W → W → W × Result A) (s : DeviceSession W)
        → Q name
        → P s (device_call name state bytes size call s).0)
    → {c : Command} → IsRequest c
    → Q (name_of c)
    → (s : DeviceSession W) → P s (step c s)
unfolding read_memory_of write_memory_of erase_memory_of reset_device_of read_partition_of
    write_partition_of erase_partition_of
step-request P Q p asks_reset q s =
    p (Unit {0}) "resetDevice" resetting 0 (λ _. 0) (λ d w. d.reset_device w) s q
step-request P Q p (asks_read {a = a} {n = n}) q s =
    p ByteBuffer "readMemory" reading 0 length (λ d w. d.read_memory a n w) s q
step-request P Q p (asks_write {a = a} {bytes = bytes}) q s =
    p (Unit {0}) "writeMemory" writing (length bytes) (λ _. length bytes)
      (λ d w. d.write_memory a bytes w) s q
step-request P Q p (asks_erase {a = a} {n = n}) q s =
    p (Unit {0}) "eraseMemory" erasing n (λ _. n) (λ d w. d.erase_memory a n w) s q
step-request P Q p (asks_read_from {name = name}) q s =
    p ByteBuffer ("readPartition:" <> name) reading 0 length (λ d w. d.read_partition name w) s q
step-request P Q p (asks_write_to {name = name} {bytes = bytes}) q s =
    p (Unit {0}) ("writePartition:" <> name) writing 0 (λ _. 0)
      (λ d w. d.write_partition name bytes w) s q
step-request P Q p (asks_erase_from {name = name}) q s =
    p (Unit {0}) ("erasePartition:" <> name) erasing 0 (λ _. 0) (λ d w. d.erase_partition name w) s
      q
