-- ===== src/Storage.antt =====
-- `_load_startup_devices` and `_save` of simple_network_dashboard/persistence.py: the two copies of the
-- device list on disk. JSON and the normalisation of devices are parameters, as is the text of a file.
pub mod Safety
mod Recovery
mod Tests
use simple_network_dashboard.Prelude.{
  Bool, true, false, not, ◌&&◌, ◌||◌, Option, none, some, List, [], if◌then◌else◌, is_none,
}

-- a file, as an attempt to read it finds it
pub data File (C : Type 0) : Type 0 where
  missing unreadable : File C
  holds : C → File C

pub record Disk (C : Type 0) : Type 0 where
  pub primary : File C
  pub backup : File C

-- How `_write_private_payload` ends. Without a crash before `os.replace` the file is as it was; an
-- exception after it leaves the new contents in place.
pub data Written : Type 0 where
  durable not_written not_synced : Written

-- what `_load_startup_devices` returns, and `_recovery_backup_contents`
pub record Startup (C D : Type 0) : Type 0 where
  pub devices : List D
  pub repaired : Bool
  pub read_only : Bool
  pub kept : Option C

-- the running program: the disk, `_devices_cache` and `_recovery_mode`
pub record Storage (C D : Type 0) : Type 0 where
  pub disk : Disk C
  pub cache : List D
  pub recovery_mode : Bool

is_missing : {C : Type 0} → File C → Bool
is_missing missing = true
is_missing _ = false

-- the file after a write
pub after_write : {C : Type 0} → Written → C → File C → File C
after_write not_written c f = f
after_write _ c f = holds c

module _ {C D : Type 0} (parse : C → Option (List D)) where
  -- open, read and `_parse_devices`
  pub load : File C → Option (List D)
  load missing = none
  load unreadable = none
  load (holds c) = parse c

  -- what is returned if neither copy can be loaded
  nothing_loaded : Disk C → Disk C × Startup C D
  unfolding is_missing
  nothing_loaded disk = (
    disk,
    record {
      devices = [];
      repaired = false;
      read_only = not (is_missing disk.primary && is_missing disk.backup);
      kept = none;
    },
  )

  -- `_replace_primary_from_backup` and the read that verifies it; `reread` is whether that read works
  repair : Disk C → C → List D → Written → Bool → Disk C × Startup C D
  unfolding after_write
  repair disk c devices w reread =
      let disk' = record disk { primary = after_write w c disk.primary } in
      let failed : Startup C D = record {
        devices = devices;
        repaired = false;
        read_only = true;
        kept = some c;
      } in
      elim w [
        | durable ↦
            if reread
            then (
              disk',
              record { devices = devices; repaired = true; read_only = false; kept = none },
            )
            else (disk', failed)
        | _ ↦ (disk', failed)
      ]

  from_backup : Disk C → File C → Written → Bool → Disk C × Startup C D
  unfolding nothing_loaded repair
  from_backup disk missing w reread = nothing_loaded disk
  from_backup disk unreadable w reread = nothing_loaded disk
  from_backup disk (holds c) w reread = elim (parse c) [
    | none ↦ nothing_loaded disk
    | some devices ↦ repair disk c devices w reread
  ]

  -- `_load_startup_devices`
  pub load_startup_devices : Disk C → Written → Bool → Disk C × Startup C D
  unfolding load from_backup
  load_startup_devices disk w reread = elim (load disk.primary) [
    | none ↦ from_backup disk disk.backup w reread
    | some devices ↦
        (disk, record { devices = devices; repaired = false; read_only = false; kept = none })
  ]

  -- the first write, with `primary_replaced` once the file is replaced
  write_primary : Storage C D → C → List D → Written → Storage C D
  unfolding after_write
  write_primary s c devices not_written = s
  write_primary s c devices _ = record s {
    disk = record s.disk { primary = holds c };
    cache = devices;
  }

  write_backup : Storage C D → C → Written → Storage C D
  unfolding after_write
  write_backup s c w = record s { disk = record s.disk { backup = after_write w c s.disk.backup } }

  is_durable : Written → Bool
  is_durable durable = true
  is_durable _ = false

  -- `_save`; `first` and `second` are how the two writes end
  pub save : (List D → C) → Storage C D → List D → Written → Written → Storage C D × Bool
  unfolding write_primary write_backup is_durable
  save dump s devices first second =
      let c = dump devices in
      let s1 = write_primary s c devices first in
      let s2 = write_backup s1 c second in
      if s.recovery_mode || is_none (parse c)
      then (s, false)
      else if is_durable first
      then (s2, is_durable second)
      else (s1, false)
