-- ===== src/Inventory/Ids.antt =====
-- The device list of simple_network_dashboard/main.py stays within its limit, with every id once.
use simple_network_dashboard.Inventory.Listing.{
  ids, IsInventory, AllDiffer-append, keep_if-IsInventory, length-ids, ids-append, ids-change_first,
}
use simple_network_dashboard.Prelude.{
  ℕ, ◌<◌, String, ◌≡◌, refl, inl, inr, false, not, Option, none, some, List, [], ◌∷◌, ◌++◌, arith,
  leb, if◌then◌else◌, if_elim, option_elim, length, any, length-append, string_eq, nat_eq, ◌==◌,
}
use simple_network_dashboard.Config.{max_devices}
use simple_network_dashboard.Device.{Command, Device}
use simple_network_dashboard.Storage.{Written, Storage, save}
use simple_network_dashboard.Storage.Safety.{save-IsSaved}
use simple_network_dashboard.Sockets.{Frame}
use simple_network_dashboard.Inventory.{App, DeleteResult, without, delete_device}
use simple_network_dashboard.Inventory.Norm.{norm}
use simple_network_dashboard.Inventory.Changes.{
  DeviceIn, ChangeResult, read_only, unknown_device, device_limit, not_saved, saved, stored,
  change_first, upserted, recommanded, save_change, upsert_device, update_commands,
}

abbrev Fresh : String → List Device → Type 0
Fresh id devices = any (λ x. x == id) (ids devices) ≡ false

-- the new list, if there is one
KeepsInventory : ChangeResult → Type 0
KeepsInventory (saved devices) = IsInventory devices
KeepsInventory _ = Unit

created-KeepsInventory :
    (devices : List Device) (body : DeviceIn) (new_id : String)
    → IsInventory devices
    → Fresh new_id devices
    → KeepsInventory (
        if leb max_devices (length devices)
        then device_limit
        else saved (devices ++ stored body new_id none ∷ []))
unfolding KeepsInventory stored norm
created-KeepsInventory devices body new_id h fresh =
    let d = stored body new_id none in
    let same : ids (devices ++ d ∷ []) ≡ ids devices ++ new_id ∷ [] = ids-append devices d in
    if_elim KeepsInventory (leb max_devices (length devices)) _ _ (λ _. tt)
      (λ t. record {
        few = rw same (
            omega (
              arith,
              length-append (ids devices) (new_id ∷ []),
              length-ids devices,
              leb-false _ _ t,
            ));
        differ = rw same (AllDiffer-append (ids devices) new_id h.differ fresh);
      })
  where
    leb-false : (a b : ℕ) → leb a b ≡ false → b < a
    leb-false a b h = ground arith

changed-KeepsInventory :
    (devices : List Device) (id : String) (f : Device → Device)
    → IsInventory devices
    → ((d : Device) → d.id ≡ id → (f d).id ≡ id)
    → KeepsInventory (elim (change_first id f devices) as (λ x. ChangeResult) [
      | none ↦ unknown_device
      | some devices' ↦ saved devices'
    ])
unfolding KeepsInventory
changed-KeepsInventory devices id f h k =
    option_elim KeepsInventory (change_first id f devices) _ _ (λ _. tt)
      (λ devices' e.
        let same = ids-change_first id f devices k e in
        record { few = rw same h.few; differ = rw same h.differ })

upserted-KeepsInventory :
    (devices : List Device) (body : DeviceIn) (new_id : String)
    → IsInventory devices
    → Fresh new_id devices
    → KeepsInventory (upserted devices body new_id)
unfolding upserted
upserted-KeepsInventory devices body new_id h fresh =
    let created = created-KeepsInventory devices body new_id h fresh in
    option_elim KeepsInventory body.id _ _ (λ _. created)
      (λ id _.
        if_elim KeepsInventory (id == "") _ _ (λ _. created)
          (λ _.
            changed-KeepsInventory devices id (λ d. stored body id (some d)) h
              (λ d e. unfold stored norm in refl)))

recommanded-KeepsInventory :
    (devices : List Device) (id : String) (commands : List Command)
    → IsInventory devices
    → KeepsInventory (recommanded devices id commands)
unfolding recommanded
recommanded-KeepsInventory devices id commands h =
    changed-KeepsInventory devices id (λ d. norm (record d { commands = commands })) h
      (λ d e. unfold norm in e)

module _ {C : Type 0} (parse : C → Option (List Device)) (dump : List Device → C)
    (frame : List Device → Frame) where
  -- the list after a save, whether it works or not
  saved-IsInventory :
      (s : Storage C Device) (devices : List Device) (first second : Written)
      → IsInventory s.cache
      → IsInventory devices
      → IsInventory (save parse dump s devices first second).0.cache
  saved-IsInventory s devices first second h k =
      elim (save-IsSaved parse dump s devices first second).primary [
        | inl same ↦ rw same h
        | inr new ↦ rw new.1 k
      ]

  save_change-IsInventory :
      (app : App C) (r : ChangeResult) (first second : Written)
      → IsInventory app.storage.cache
      → KeepsInventory r
      → IsInventory (save_change parse dump app r first second frame).0.storage.cache
  unfolding save_change KeepsInventory
  save_change-IsInventory app (saved devices) first second h k =
      let r = save parse dump app.storage devices first second in
      let kept = saved-IsInventory app.storage devices first second h k in
      if_elim (λ (x : App C × ChangeResult). IsInventory x.0.storage.cache) r.1 _ _ (λ _. kept)
        (λ _. kept)
  save_change-IsInventory app read_only first second h k = h
  save_change-IsInventory app unknown_device first second h k = h
  save_change-IsInventory app device_limit first second h k = h
  save_change-IsInventory app not_saved first second h k = h

  -- the requests that change the device list, with how the writes of the save end
  pub data ChangeRequest : Type 0 where
    upsert : DeviceIn → String → Written → Written → ChangeRequest
    recommand : String → List Command → Written → Written → ChangeRequest
    delete : String → Written → Written → ChangeRequest

  unfoldable pub serve : App C → ChangeRequest → App C
  serve app (upsert body new_id first second) =
      (upsert_device parse dump app body new_id first second frame).0
  serve app (recommand id commands first second) =
      (update_commands parse dump app id commands first second frame).0
  serve app (delete id first second) = (delete_device parse dump app id first second frame).0

  unfoldable pub serve_all : App C → List ChangeRequest → App C
  serve_all app [] = app
  serve_all app (r ∷ rs) = serve_all (serve app r) rs

  -- the random id of a new device is not taken
  unfoldable pub IsFresh : App C → ChangeRequest → Type 0
  IsFresh app (upsert body new_id first second) = Fresh new_id app.storage.cache
  IsFresh app _ = Unit

  unfoldable pub AllFresh : App C → List ChangeRequest → Type 0
  AllFresh app [] = Unit
  AllFresh app (r ∷ rs) = IsFresh app r × AllFresh (serve app r) rs

  serve-IsInventory :
      (app : App C) (r : ChangeRequest)
      → IsInventory app.storage.cache
      → IsFresh app r
      → IsInventory (serve app r).storage.cache
  unfolding serve IsFresh upsert_device update_commands delete_device without
  serve-IsInventory app (upsert body new_id first second) h f =
      if_elim (λ (x : App C × ChangeResult). IsInventory x.0.storage.cache)
        app.storage.recovery_mode _ _ (λ _. h)
        (λ _.
          save_change-IsInventory app _ first second h
            (upserted-KeepsInventory app.storage.cache body new_id h f))
  serve-IsInventory app (recommand id commands first second) h f =
      if_elim (λ (x : App C × ChangeResult). IsInventory x.0.storage.cache)
        app.storage.recovery_mode _ _ (λ _. h)
        (λ _.
          save_change-IsInventory app _ first second h
            (recommanded-KeepsInventory app.storage.cache id commands h))
  serve-IsInventory app (delete id first second) h f =
      let devices = without parse app.storage.cache id in
      let fewer = keep_if-IsInventory (λ (d : Device). not (d.id == id)) app.storage.cache in
      let left : IsInventory devices = record {
        few = omega (arith, fewer.0, h.few);
        differ = fewer.1 h.differ;
      } in
      let r = save parse dump app.storage devices first second in
      let kept = saved-IsInventory app.storage devices first second h left in
      let P = λ (x : App C × DeleteResult). IsInventory x.0.storage.cache in
      if_elim P app.storage.recovery_mode _ _ (λ _. h)
        (λ _.
          if_elim P (length devices == length app.storage.cache) _ _ (λ _. h)
            (λ _. if_elim P (not r.1) _ _ (λ _. kept) (λ _. kept)))

  -- From a list of at most 250 devices with every id once, whatever requests create, change and
  -- delete devices, however the writes of their saves end, the list in use still has at most 250
  -- devices and every id once, if no random id of a new device is taken at the time.
  pub serve_all-IsInventory :
      (app : App C) (rs : List ChangeRequest)
      → IsInventory app.storage.cache
      → AllFresh app rs
      → IsInventory (serve_all app rs).storage.cache
  unfolding serve_all AllFresh
  serve_all-IsInventory app [] h f = h
  serve_all-IsInventory app (r ∷ rs) h f =
      serve_all-IsInventory (serve app r) rs (serve-IsInventory app r h f.0) f.1
