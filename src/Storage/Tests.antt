-- ===== src/Storage/Tests.antt =====
-- Runs of the device storage, and instances of its theorems. A file is a number, which lists itself
-- as the only device unless it is 0, which cannot be parsed.
use simple_network_dashboard.Prelude.{
  ℕ, zero, suc, ◌≡◌, refl, true, false, Option, none, some, List, [], ◌∷◌, is_none,
}
use simple_network_dashboard.Storage.{
  holds, Disk, durable, not_written, not_synced, Storage, after_write, load, repair, from_backup,
  load_startup_devices, write_primary, write_backup, is_durable, save,
}
use simple_network_dashboard.Storage.Safety.{Request, save_all, save_all-starts}
use simple_network_dashboard.Storage.Recovery.{IsStarted, load_startup_devices-IsStarted}

abbrev parse : ℕ → Option (List ℕ)
parse zero = none
parse (suc n) = some (suc n ∷ [])

abbrev dump : List ℕ → ℕ
dump [] = 0
dump (n ∷ ns) = n

abbrev storage : Storage ℕ ℕ
storage = record {
  disk = record { primary = holds 1; backup = holds 1 };
  cache = 1 ∷ [];
  recovery_mode = false;
}

-- the first write succeeds and the second does not
half_saved_test :
    (save parse dump storage (2 ∷ []) durable not_written).0.disk
    ≡ record { primary = holds 2; backup = holds 1 }
unfolding save write_primary write_backup is_durable after_write
half_saved_test = refl

abbrev requests : List (Request parse dump)
requests = (2 ∷ [], not_synced, durable) ∷ (3 ∷ [], not_written, durable) ∷ []

loads : is_none (load parse storage.disk.primary) ≡ false
unfolding load
loads = refl

save_all-starts_example :
    let started =
      (load_startup_devices parse (save_all parse dump storage requests).disk durable true).1 in
    (some started.devices ≡ load parse (save_all parse dump storage requests).disk.primary)
    × (started.read_only ≡ false)
    × (started.repaired ≡ false)
save_all-starts_example = save_all-starts parse dump storage requests durable true loads

-- the primary copy cannot be parsed
abbrev damaged : Disk ℕ
damaged = record { primary = holds 0; backup = holds 4 }

repairs_test : (load_startup_devices parse damaged durable true).0.primary ≡ holds 4
unfolding load_startup_devices from_backup repair load after_write
repairs_test = refl

load_startup_devices-IsStarted_example :
    IsStarted parse damaged
      (load_startup_devices parse damaged durable true).0
      (load_startup_devices parse damaged durable true).1
load_startup_devices-IsStarted_example = load_startup_devices-IsStarted parse damaged durable true
