-- ===== src/Storage/Recovery.antt =====
-- What a start makes of the two copies.
use simple_network_dashboard.Prelude.{
  ◌≡◌, refl, sym, ap, ◌∙◌, ◌⊎◌, inl, inr, Bool, true, false, not, ◌&&◌, Option, none, some, List,
  arith, option_elim, is_none,
}
use simple_network_dashboard.Storage.{
  File, missing, unreadable, holds, Disk, Written, durable, not_written, not_synced, Startup,
  is_missing, after_write, load, nothing_loaded, repair, from_backup, load_startup_devices,
}

module _ {C D : Type 0} (parse : C → Option (List D)) where
  -- A start leaves the backup alone, and the primary copy too unless it cannot be loaded and the
  -- backup can. It offers the devices of the first copy that can be loaded. Unless it is read-only,
  -- the primary copy can be loaded afterwards and holds these devices, or there is no copy at all.
  pub record IsStarted (disk disk' : Disk C) (r : Startup C D) : Type 0 where
    pub backup : disk'.backup ≡ disk.backup
    pub primary :
        (disk'.primary ≡ disk.primary)
        ⊎ (is_none (load parse disk.primary) ≡ true) × (disk'.primary ≡ disk.backup)
    pub offers_primary : (ds : List D) → load parse disk.primary ≡ some ds → r.devices ≡ ds
    pub offers_backup :
        (ds : List D)
        → load parse disk.primary ≡ none
        → load parse disk.backup ≡ some ds
        → r.devices ≡ ds
    pub honest :
        r.read_only ≡ false
        → (load parse disk'.primary ≡ some r.devices)
          ⊎ (disk'.primary ≡ missing) × (disk'.backup ≡ missing)

  both_missing :
      (f g : File C) → not (is_missing f && is_missing g) ≡ false → (f ≡ missing) × (g ≡ missing)
  unfolding is_missing
  both_missing missing missing e = (refl, refl)
  both_missing missing unreadable e = absurd (cc e)
  both_missing missing (holds c) e = absurd (cc e)
  both_missing unreadable g e = absurd (cc e)
  both_missing (holds c) g e = absurd (cc e)

  module _ (disk : Disk C) (lost : load parse disk.primary ≡ none) where
    nothing-IsStarted :
        load parse disk.backup ≡ none
        → IsStarted disk (nothing_loaded parse disk).0 (nothing_loaded parse disk).1
    unfolding nothing_loaded
    nothing-IsStarted none_there = record {
      backup = refl;
      primary = inl refl;
      offers_primary = λ ds e. absurd (cc (lost, e));
      offers_backup = λ ds _ e. absurd (cc (none_there, e));
      honest = λ e. inr (both_missing disk.primary disk.backup e);
    }

    module _ (c : C) (ds : List D) (copy : disk.backup ≡ holds c) (fine : parse c ≡ some ds) where
      offered : (ds' : List D) → load parse disk.backup ≡ some ds' → ds ≡ ds'
      unfolding load
      offered ds' e = ground (arith, fine, sym (ap (load parse) copy) ∙ e)

      repair-IsStarted :
          (w : Written) (reread : Bool)
          → IsStarted disk (repair parse disk c ds w reread).0 (repair parse disk c ds w reread).1
      unfolding repair after_write load
      repair-IsStarted durable true = record {
        backup = refl;
        primary = inr (ap is_none lost, sym copy);
        offers_primary = λ ds' e. absurd (cc (lost, e));
        offers_backup = λ ds' _ e. offered ds' e;
        honest = λ _. inl fine;
      }
      repair-IsStarted durable false = record {
        backup = refl;
        primary = inr (ap is_none lost, sym copy);
        offers_primary = λ ds' e. absurd (cc (lost, e));
        offers_backup = λ ds' _ e. offered ds' e;
        honest = λ e. absurd (cc e);
      }
      repair-IsStarted not_written reread = record {
        backup = refl;
        primary = inl refl;
        offers_primary = λ ds' e. absurd (cc (lost, e));
        offers_backup = λ ds' _ e. offered ds' e;
        honest = λ e. absurd (cc e);
      }
      repair-IsStarted not_synced reread = record {
        backup = refl;
        primary = inr (ap is_none lost, sym copy);
        offers_primary = λ ds' e. absurd (cc (lost, e));
        offers_backup = λ ds' _ e. offered ds' e;
        honest = λ e. absurd (cc e);
      }

    from_backup-IsStarted :
        (f : File C) (w : Written) (reread : Bool)
        → disk.backup ≡ f
        → IsStarted disk (from_backup parse disk f w reread).0 (from_backup parse disk f w reread).1
    unfolding from_backup load
    from_backup-IsStarted missing w reread e = nothing-IsStarted (ap (load parse) e)
    from_backup-IsStarted unreadable w reread e = nothing-IsStarted (ap (load parse) e)
    from_backup-IsStarted (holds c) w reread e =
        option_elim (λ (r : Disk C × Startup C D). IsStarted disk r.0 r.1) (parse c) _ _
          (λ bad. nothing-IsStarted (ap (load parse) e ∙ bad))
          λ ds fine. repair-IsStarted c ds e fine w reread

  -- Whatever the two copies are and however the repair ends: a start leaves the backup alone, and
  -- the primary copy too unless it cannot be loaded, in which case it may become the backup's text.
  -- It offers the devices of the primary copy if it can be loaded, and else those of the backup if
  -- that can. Unless it is read-only, the primary copy can be loaded afterwards and holds these
  -- devices, or both copies are missing.
  pub load_startup_devices-IsStarted :
      (disk : Disk C) (w : Written) (reread : Bool)
      → IsStarted disk
          (load_startup_devices parse disk w reread).0
          (load_startup_devices parse disk w reread).1
  unfolding load_startup_devices
  load_startup_devices-IsStarted disk w reread =
      option_elim (λ (r : Disk C × Startup C D). IsStarted disk r.0 r.1) (load parse disk.primary) _
        _ (λ lost. from_backup-IsStarted disk lost disk.backup w reread refl)
        λ ds e. record {
          backup = refl;
          primary = inl refl;
          offers_primary = λ ds' e'. cc (e, e');
          offers_backup = λ ds' lost _. absurd (cc (e, lost));
          honest = λ _. inl e;
        }
