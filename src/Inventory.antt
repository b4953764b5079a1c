-- ===== src/Inventory.antt =====
-- The routes `retry_recovery` and `delete_device` of simple_network_dashboard/main.py, on the state
-- of storage, sockets and SSH sessions together. The text of the device list comes from outside.
mod Norm
mod Changes
mod Listing
mod Ids
mod Deletion
mod Tests
use simple_network_dashboard.Prelude.{
  String, Bool, false, not, ◌&&◌, Option, none, some, List, if◌then◌else◌, length, is_none, keep_if,
  string_eq, nat_eq, ◌==◌,
}
use simple_network_dashboard.Device.{Device}
use simple_network_dashboard.Storage.{Written, durable, Storage, after_write, save}
use simple_network_dashboard.Sockets.{Frame, Sockets, broadcast, unselect_device_everywhere}
use simple_network_dashboard.Ssh.Manager.{Manager}
use simple_network_dashboard.Ssh.Close.{disconnect}

-- the global objects that the routes use; `kept` is `_recovery_backup_contents`
pub record App (C : Type 0) : Type 0 where
  pub storage : Storage C Device
  pub kept : Option C
  pub storage_warning : Bool
  pub sockets : Sockets
  pub ssh : Manager

pub data RetryResult : Type 0 where
  nothing_to_recover unavailable unfinished recovered : RetryResult

pub data DeleteResult : Type 0 where
  read_only unknown_device not_saved : DeleteResult
  deleted : List Device → DeleteResult

module _ {C : Type 0} (parse : C → Option (List Device)) where
  restores : Written → Bool → C → Bool
  restores durable reread c = reread && not (is_none (parse c))
  restores _ reread c = false

  -- `retry_recovery`; `w` is how the write ends and `reread` whether the read after it works. The
  -- frame is the one that tells the browsers.
  pub retry_recovery : App C → Written → Bool → Frame → App C × RetryResult
  unfolding restores
  retry_recovery app w reread frame = elim app.kept [
    | none ↦ (app, if app.storage.recovery_mode then unavailable else nothing_to_recover)
    | some c ↦
        let disk = app.storage.disk in
        let disk' = record disk { primary = after_write w c disk.primary } in
        let tried = record app.storage { disk = disk' } in
        let restored = record tried { recovery_mode = false } in
        if not app.storage.recovery_mode
        then (app, nothing_to_recover)
        else if restores w reread c
        then (
          record app {
            storage = restored;
            storage_warning = false;
            kept = none;
            sockets = broadcast app.sockets frame;
          },
          recovered,
        )
        else (record app { storage = tried }, unfinished)
  ]

  -- `[d for d in runtime_state._devices_cache if d["id"] != device_id]`
  pub without : List Device → String → List Device
  without devices device_id = keep_if (λ (d : Device). not (d.id == device_id)) devices

  -- `delete_device`; `first` and `second` are how the two writes of the save end
  pub delete_device :
      (List Device → C)
      → App C
      → String
      → Written
      → Written
      → (List Device → Frame)
      → App C × DeleteResult
  unfolding without
  delete_device dump app device_id first second frame =
      let devices = without app.storage.cache device_id in
      let (storage, saved) = save parse dump app.storage devices first second in
      let app' = record app { storage = storage } in
      if app.storage.recovery_mode
      then (app, read_only)
      else if length devices == length app.storage.cache
      then (app, unknown_device)
      else if not saved
      then (app', not_saved)
      else (
        record app' {
          sockets = broadcast (unselect_device_everywhere app.sockets device_id) (frame devices);
          ssh = (disconnect app.ssh device_id none).0;
        },
        deleted devices,
      )
