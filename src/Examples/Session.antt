-- ===== src/Examples/Session.antt =====
-- Sessions with a device that keeps a list of numbers: instances of the theorems on sessions.
use mboot_core.Prelude.{
  ℕ, ◌≡◌, refl, Bool, true, false, ◌==◌, if◌then◌else◌, some, List, [], ◌∷◌, All,
}
use mboot_core.Domain.{ok, err, transport_timeout}
use mboot_core.Session.Device.{
  SessionState, ready, FlashDevice, DeviceSession, no_statistics, cancel, mentions, update_stats,
}
use mboot_core.Session.Commands.{
  asks_read, asks_write, Command, connect_it, retry_it, read_at, write_at, erase_at, erase_from,
  write_to, steps,
}
use mboot_core.Session.Kinds.{IsClear}
use mboot_core.Session.Books.{IsBooked, steps-IsBooked}
use mboot_core.Session.Cancels.{nothing, more, held_connect, held_retry, held_request, steps-cancel}
use mboot_core.Session.Serves.{AllRequests, Left, serve, steps-serve}

-- It writes the addresses down, and refuses to write at address 7.
abbrev device : FlashDevice (List ℕ)
device = record {
  open_device = λ w. (w, ok tt);
  close_device = λ w. w;
  read_memory = λ a n w. (a ∷ w, ok (1 ∷ 2 ∷ []));
  write_memory = λ a bytes w. (a ∷ w, if a == 7 then err transport_timeout else ok tt);
  erase_memory = λ a n w. (a ∷ w, ok tt);
  read_partition = λ name w. (w, ok []);
  write_partition = λ name bytes w. (w, ok tt);
  erase_partition = λ name w. (99 ∷ w, ok tt);
  reset_device = λ w. (w, ok tt);
  cancel_device = λ w. 0 ∷ w;
}

abbrev session : SessionState → List Bool → DeviceSession (List ℕ)
session state interrupts = record {
  device = some device;
  world = [];
  state = state;
  is_cancelled = false;
  stats = no_statistics;
  enable_history = true;
  history = [];
  interrupts = interrupts;
  events = [];
}

abbrev client : List Command
client =
    connect_it
    ∷ write_at 4 (5 ∷ 6 ∷ [])
    ∷ read_at 1 2
    ∷ write_to "boot" (8 ∷ [])
    ∷ erase_from "cache"
    ∷ write_at 7 (1 ∷ [])
    ∷ retry_it
    ∷ erase_at 3 16
    ∷ []

no_entries : IsBooked (session SessionState.disconnected (false ∷ false ∷ true ∷ []))
no_entries = (
  refl,
  record {
    bytes_read_known = refl;
    read_ops_known = refl;
    bytes_written_known = refl;
    write_ops_known = refl;
    bytes_erased_known = refl;
    erase_ops_known = refl;
    failures_known = refl;
  },
)

-- The names "boot" and "cache" make no call look like another kind.
client-IsClear : All IsClear client
unfolding mentions
client-IsClear = (tt, (tt, (tt, (refl, ((refl, refl), (tt, (tt, (tt, tt))))))))

steps-IsBooked_example :
    IsBooked (steps client (session SessionState.disconnected (false ∷ false ∷ true ∷ [])))
steps-IsBooked_example =
    steps-IsBooked client (session SessionState.disconnected (false ∷ false ∷ true ∷ []))
      client-IsClear no_entries

steps-cancel_example :
    steps (connect_it ∷ write_at 4 (5 ∷ []) ∷ retry_it ∷ []) (cancel (session ready []))
    ≡ cancel (session ready [])
steps-cancel_example =
    steps-cancel (more held_connect (more (held_request asks_write) (more held_retry nothing)))
      (session ready [])

all_requests : AllRequests (write_at 4 (5 ∷ []) ∷ write_at 7 (1 ∷ []) ∷ read_at 1 2 ∷ [])
all_requests =
    AllRequests.more asks_write
      (AllRequests.more asks_write (AllRequests.more asks_read AllRequests.nothing))

steps-serve_example :
    Left device
      (serve device (write_at 4 (5 ∷ []) ∷ write_at 7 (1 ∷ []) ∷ read_at 1 2 ∷ []) [])
      (steps (write_at 4 (5 ∷ []) ∷ write_at 7 (1 ∷ []) ∷ read_at 1 2 ∷ []) (session ready []))
steps-serve_example =
    steps-serve device all_requests (session ready [])
      (record { device_there = refl; state_ready = refl; not_cancelled = refl; undisturbed = refl })

-- The device is not called after the write that fails.
stopped :
    (serve device (write_at 4 (5 ∷ []) ∷ write_at 7 (1 ∷ []) ∷ read_at 1 2 ∷ []) [])
    ≡ (7 ∷ 4 ∷ [], false)
stopped = refl

-- Erasing the partition "thread" counts as a read.
misread : (update_stats "erasePartition:thread" 0 no_statistics).read_ops ≡ 1
unfolding update_stats mentions
misread = refl
