-- ===== src/Storage/Safety.antt =====
-- No write can lose the device list, and a damaged copy is restored from the other.
use simple_network_dashboard.Prelude.{
  ◌≡◌, refl, ap, ◌∙◌, ◌⊎◌, inl, inr, Bool, true, false, ◌||◌, Option, some, List, [], ◌∷◌, arith,
  if◌then◌else◌, Option-cases, if_elim, is_none,
}
use simple_network_dashboard.Storage.{
  File, holds, Written, durable, not_written, not_synced, Storage, after_write, load,
  load_startup_devices, write_primary, write_backup, is_durable, save,
}

module _ {C D : Type 0} (parse : C → Option (List D)) (dump : List D → C) where
  -- What a save may come to. If it succeeds, both copies hold the new list and so does the cache. If
  -- not, the primary copy is as it was, and the cache and the backup with it, or it holds the new list.
  pub record IsSaved (s s' : Storage C D) (devices : List D) (done : Bool) : Type 0 where
    pub success :
        done ≡ true
        → (s'.disk.primary ≡ holds (dump devices))
          × (s'.disk.backup ≡ holds (dump devices))
          × (s'.cache ≡ devices)
    pub primary :
        (s' ≡ s)
        ⊎ ((s'.disk.primary ≡ holds (dump devices))
            × (s'.cache ≡ devices)
            × (is_none (parse (dump devices)) ≡ false))
    pub backup : (s'.disk.backup ≡ s.disk.backup) ⊎ (s'.disk.backup ≡ holds (dump devices))
    pub mode : s'.recovery_mode ≡ s.recovery_mode
    pub locked : s.recovery_mode ≡ true → (s' ≡ s) × (done ≡ false)

  rejected-IsSaved : (s : Storage C D) (devices : List D) → IsSaved s s devices false
  rejected-IsSaved s devices = record {
    success = λ e. absurd (cc e);
    primary = inl refl;
    backup = inl refl;
    mode = refl;
    locked = λ _. (refl, refl);
  }

  module _ (s : Storage C D) (devices : List D) where
    -- what is left once the primary copy was replaced, with any file as the backup
    abbrev replaced_with : File C → Storage C D
    replaced_with b = record s {
      disk = record { primary = holds (dump devices); backup = b };
      cache = devices;
    }

    -- one of the two ways in which a save ends
    choice-IsSaved :
        (b : File C) (done : Bool)
        → (done ≡ true → b ≡ holds (dump devices))
        → (b ≡ s.disk.backup) ⊎ (b ≡ holds (dump devices))
        → let r : Storage C D × Bool =
            if s.recovery_mode || is_none (parse (dump devices))
            then (s, false)
            else (replaced_with b, done) in
          IsSaved s r.0 devices r.1
    choice-IsSaved b done f o =
        if_elim (λ (r : Storage C D × Bool). IsSaved s r.0 devices r.1)
          (s.recovery_mode || is_none (parse (dump devices))) _ _ (λ _. rejected-IsSaved s devices)
          λ e. record {
            success = λ d. (refl, f d, refl);
            primary = inr (refl, refl, ground (arith, e));
            backup = o;
            mode = refl;
            locked = λ l. absurd (ground (arith, e, l));
          }

    none-IsSaved :
        let r : Storage C D × Bool =
          if s.recovery_mode || is_none (parse (dump devices)) then (s, false) else (s, false) in
        IsSaved s r.0 devices r.1
    none-IsSaved =
        if_elim (λ (r : Storage C D × Bool). IsSaved s r.0 devices r.1)
          (s.recovery_mode || is_none (parse (dump devices))) _ _ (λ _. rejected-IsSaved s devices)
          λ _. rejected-IsSaved s devices

  -- Whatever list is saved and however the two writes end: if the save succeeds, both copies and
  -- the cache hold the new list; if not, either nothing has changed, or the primary copy and the
  -- cache hold the new list, which can be parsed; the backup is as it was or holds the new list;
  -- and in recovery mode nothing changes and the save fails.
  pub save-IsSaved :
      (s : Storage C D) (devices : List D) (first second : Written)
      → IsSaved s
          (save parse dump s devices first second).0
          devices
          (save parse dump s devices first second).1
  unfolding save write_primary write_backup is_durable after_write
  save-IsSaved s devices durable durable =
      choice-IsSaved s devices (holds (dump devices)) true (λ _. refl) (inr refl)
  save-IsSaved s devices durable not_written =
      choice-IsSaved s devices s.disk.backup false (λ e. absurd (cc e)) (inl refl)
  save-IsSaved s devices durable not_synced =
      choice-IsSaved s devices (holds (dump devices)) false (λ e. absurd (cc e)) (inr refl)
  save-IsSaved s devices not_written second = none-IsSaved s devices
  save-IsSaved s devices not_synced second =
      choice-IsSaved s devices s.disk.backup false (λ e. absurd (cc e)) (inl refl)

  -- a save that is asked for, with the ends of its two writes
  abbrev pub Request : Type 0
  Request = List D × Written × Written

  pub save_all : Storage C D → List Request → Storage C D
  save_all s [] = s
  save_all s ((devices, first, second) ∷ rest) =
      save_all (save parse dump s devices first second).0 rest

  save-loads :
      (s : Storage C D) (devices : List D) (first second : Written)
      → is_none (load parse s.disk.primary) ≡ false
      → is_none (load parse (save parse dump s devices first second).0.disk.primary) ≡ false
  unfolding load
  save-loads s devices first second h = elim (save-IsSaved s devices first second).primary [
    | inl same ↦ ap (λ (r : Storage C D). is_none (load parse r.disk.primary)) same ∙ h
    | inr (there, _, fine) ↦ ap (λ (f : File C). is_none (load parse f)) there ∙ fine
  ]

  -- If the primary copy can be loaded, then after any saves, whichever of their writes fail and in
  -- whichever way, the next start loads the primary copy and is not read-only.
  pub save_all-starts :
      (s : Storage C D) (requests : List Request) (w : Written) (reread : Bool)
      → is_none (load parse s.disk.primary) ≡ false
      → let started = (load_startup_devices parse (save_all s requests).disk w reread).1 in
        (some started.devices ≡ load parse (save_all s requests).disk.primary)
        × (started.read_only ≡ false)
        × (started.repaired ≡ false)
  unfolding save_all load_startup_devices
  save_all-starts s [] w reread h = elim (Option-cases (load parse s.disk.primary)) [
    | inl e ↦ absurd (ground (arith, e, h))
    | inr (ds, e) ↦ rw (e, load_startup_devices) (refl, refl, refl)
  ]
  save_all-starts s ((devices, first, second) ∷ rest) w reread h =
      save_all-starts (save parse dump s devices first second).0 rest w reread
        (save-loads s devices first second h)
