-- ===== src/Inventory/Deletion.antt =====
-- A deleted device is gone from the list and from both copies, and its session is closed.
use simple_network_dashboard.Prelude.{
  ℕ, String, ◌≡◌, refl, ◌≢◌, inl, inr, false, not, Option, none, some, List, [], ◌∷◌, arith,
  Option-cases, if_elim, option_elim, length, any, string_eq, nat_eq, ◌==◌,
}
use simple_network_dashboard.Device.{Device}
use simple_network_dashboard.Storage.{holds, Written, save}
use simple_network_dashboard.Storage.Safety.{save-IsSaved}
use simple_network_dashboard.Sockets.{Frame}
use simple_network_dashboard.Ssh.Manager.{Manager, do_effect, slot, status, lock}
use simple_network_dashboard.Ssh.Close.{
  pop_slot, announce_closed, Disconnected, not_owned, broadcast_to, disconnect,
}
use simple_network_dashboard.Ssh.Close.Shrinks.{announce_closed-IsLess, popped_free}
use simple_network_dashboard.Inventory.{
  App, DeleteResult, not_saved, deleted, without, delete_device,
}

no_slot : (m : Manager) (did : String) → ((g : ℕ) → slot m did ≢ some g) → slot m did ≡ none
no_slot m did n = elim (Option-cases (slot m did)) [ inl e ↦ e | inr (g, e) ↦ absurd (n g e) ]

-- without a word on the owner, `disconnect` empties the slot
disconnect-none : (m : Manager) (did : String) → slot (disconnect m did none).0 did ≡ none
unfolding disconnect not_owned lock status do_effect
disconnect-none m did =
    option_elim (λ (r : Manager × Disconnected). slot r.0 did ≡ none) (slot m did) _ _ (λ e. e)
      λ g q.
        let to : Option String = some (broadcast_to none (m.heap g).owner) in
        let m1 = pop_slot m did g in
        no_slot (announce_closed m1 did g to) did
          λ k e. popped_free m did g k ((announce_closed-IsLess m1 did g to).slots did k e)

without_lem :
    {C : Type 0} (parse : C → Option (List Device)) (devices : List Device) (did : String)
    → any (λ (d : Device). d.id == did) (without parse devices did) ≡ false
unfolding without
without_lem parse [] did = refl
without_lem parse (d ∷ devices) did = ground (arith, without_lem parse devices did)

module _ {C : Type 0} (parse : C → Option (List Device)) (dump : List Device → C)
    (did : String) where
  -- what the answer of a deletion says about the state after it
  pub IsDeleted : App C → App C → DeleteResult → Type 0
  IsDeleted app app' (deleted devices) =
      (any (λ (d : Device). d.id == did) devices ≡ false)
      × (app'.storage.cache ≡ devices)
      × (app'.storage.disk.primary ≡ holds (dump devices))
      × (app'.storage.disk.backup ≡ holds (dump devices))
      × (slot app'.ssh did ≡ none)
  IsDeleted app app' not_saved = (app'.ssh ≡ app.ssh) × (app'.sockets ≡ app.sockets)
  IsDeleted app app' _ = app' ≡ app

  -- If a device was deleted, the answer lists no device of that id, the cache and both copies hold that
  -- list, and no session is left in the device's slot. If it could not be saved, sessions and sockets
  -- are as they were. If the program is in recovery mode or knows no such device, nothing changes.
  pub delete_device-IsDeleted :
      (app : App C) (first second : Written) (frame : List Device → Frame)
      → IsDeleted app
          (delete_device parse dump app did first second frame).0
          (delete_device parse dump app did first second frame).1
  unfolding delete_device IsDeleted
  delete_device-IsDeleted app first second frame =
      let devices = without parse app.storage.cache did in
      let r = save parse dump app.storage devices first second in
      let ends = save-IsSaved parse dump app.storage devices first second in
      let P = λ (x : App C × DeleteResult). IsDeleted app x.0 x.1 in
      if_elim P app.storage.recovery_mode _ _ (λ _. refl)
        λ _.
          if_elim P (length devices == length app.storage.cache) _ _ (λ _. refl)
            λ _.
              if_elim P (not r.1) _ _ (λ _. (refl, refl))
                λ e.
                  let (a, b, c) = ends.success (ground (arith, e)) in
                  (without_lem parse app.storage.cache did, c, a, b, disconnect-none app.ssh did)
