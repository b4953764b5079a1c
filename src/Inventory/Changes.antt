-- ===== src/Inventory/Changes.antt =====
-- The routes `upsert_device` and `update_commands` of simple_network_dashboard/main.py.
-- the model `DeviceIn`, with its defaults
use simple_network_dashboard.Prelude.{
  ℕ, String, Option, none, some, List, [], ◌∷◌, ◌++◌, leb, if◌then◌else◌, length, string_eq, nat_eq,
  ◌==◌,
}
use simple_network_dashboard.Config.{max_devices}
use simple_network_dashboard.Device.{Command, Device}
use simple_network_dashboard.Storage.{Written, save}
use simple_network_dashboard.Sockets.{Frame, broadcast}
use simple_network_dashboard.Inventory.{App}
use simple_network_dashboard.Inventory.Norm.{norm}

pub record DeviceIn : Type 0 where
  pub id : Option String
  pub name : String
  pub host : String
  pub username : String
  pub metrics_port : ℕ
  pub commands : Option (List Command)

pub data ChangeResult : Type 0 where
  read_only unknown_device device_limit not_saved : ChangeResult
  saved : List Device → ChangeResult

-- `_resolve_saved_commands`
unfoldable pub resolve_saved_commands : Option (List Command) → Option Device → List Command
resolve_saved_commands (some incoming) existing = incoming
resolve_saved_commands none none = []
resolve_saved_commands none (some d) = d.commands

-- the device that is stored
unfoldable pub stored : DeviceIn → String → Option Device → Device
stored body id existing = norm (record {
  id = id;
  name = body.name;
  host = body.host;
  username = body.username;
  metrics_port = body.metrics_port;
  commands = resolve_saved_commands body.commands existing;
})

-- the loop over the devices: the first one with the id is changed, if there is one
unfoldable pub change_first : String → (Device → Device) → List Device → Option (List Device)
change_first id f [] = none
change_first id f (d ∷ ds) =
    let rest = change_first id f ds in
    if d.id == id then some (f d ∷ ds) else elim rest [ none ↦ none | some ds' ↦ some (d ∷ ds') ]

-- the new list of `upsert_device`, or its error
unfoldable pub upserted : List Device → DeviceIn → String → ChangeResult
upserted devices body new_id =
    let created =
      if leb max_devices (length devices)
      then device_limit
      else saved (devices ++ stored body new_id none ∷ []) in
    elim body.id [
      | none ↦ created
      | some id ↦
          if id == ""
          then created
          else elim (change_first id (λ d. stored body id (some d)) devices) [
            | none ↦ unknown_device
            | some devices' ↦ saved devices'
          ]
    ]

-- the new list of `update_commands`, or its error
unfoldable pub recommanded : List Device → String → List Command → ChangeResult
recommanded devices device_id commands =
    elim (change_first device_id (λ d. norm (record d { commands = commands })) devices) [
      | none ↦ unknown_device
      | some devices' ↦ saved devices'
    ]

module _ {C : Type 0} (parse : C → Option (List Device)) (dump : List Device → C) where
  -- the end of both routes; `first` and `second` are how the two writes of the save end
  unfoldable pub save_change :
      App C → ChangeResult → Written → Written → (List Device → Frame) → App C × ChangeResult
  save_change app (saved devices) first second frame =
      let (storage, done) = save parse dump app.storage devices first second in
      let app' = record app { storage = storage } in
      if done
      then (record app' { sockets = broadcast app.sockets (frame devices) }, saved devices)
      else (app', not_saved)
  save_change app other first second frame = (app, other)

  -- `upsert_device`, with the random id of a new device
  unfoldable pub upsert_device :
      App C → DeviceIn → String → Written → Written → (List Device → Frame) → App C × ChangeResult
  upsert_device app body new_id first second frame =
      if app.storage.recovery_mode
      then (app, read_only)
      else save_change app (upserted app.storage.cache body new_id) first second frame

  -- `update_commands`
  unfoldable pub update_commands :
      App C
      → String
      → List Command
      → Written
      → Written
      → (List Device → Frame)
      → App C × ChangeResult
  update_commands app device_id commands first second frame =
      if app.storage.recovery_mode
      then (app, read_only)
      else save_change app (recommanded app.storage.cache device_id commands) first second frame
