-- ===== src/Metrics/Disks/Listing.antt =====
-- What the disk list of simple_network_dashboard/metrics_poller.py shows, and in which order.
use simple_network_dashboard.Prelude.{
  ℕ, ◌≡◌, refl, ap, ◌⊎◌, inl, inr, Bool, true, false, ◌||◌, List, [], ◌∷◌, arith, if◌then◌else◌,
  Bool-cases, if_elim, any, All, All-mono, nat_eq, ◌==◌, ==_refl,
}
use simple_network_dashboard.Text.{Text, codes, text_same_iff, text_eq}
use simple_network_dashboard.Metrics.Lines.{Entry, Metrics, entries}
use simple_network_dashboard.Metrics.Numbers.{Numbers}
use simple_network_dashboard.Metrics.Disks.{
  is_excluded_fs, is_loop_device, label, text_le, DiskUse, disk_of, disks_from, disk_le,
  insert_disk, sort_disks, disks,
}

text_le_total : (s t : Text) → text_le s t ≡ false → text_le t s ≡ true
unfolding text_le
text_le_total [] t h = cc
text_le_total (a ∷ s) [] h = refl
text_le_total (a ∷ s) (b ∷ t) h = ground (arith, text_le_total s t)

text_le_trans : (s t u : Text) → text_le s t ≡ true → text_le t u ≡ true → text_le s u ≡ true
unfolding text_le
text_le_trans [] t u h k = refl
text_le_trans (a ∷ s) [] u h k = cc
text_le_trans (a ∷ s) (b ∷ t) [] h k = cc
text_le_trans (a ∷ s) (b ∷ t) (c ∷ u) h k = ground (arith, text_le_trans s t u)

module _ (num : Numbers) (is_decimal : ℕ → Bool) where
  open num use {Number, of_nat, le}

  -- the disk is that of this entry, which is of a kind that is shown
  pub record IsUseOf (e : Entry Number) (d : DiskUse num is_decimal) : Type 0 where
    pub mount : label "mountpoint" e.labels ≡ d.mount
    pub device : label "device" e.labels ≡ d.device
    pub real_fs : is_excluded_fs (label "fstype" e.labels) ≡ false
    pub no_loop : is_loop_device is_decimal d.device ≡ false
    pub not_empty : le e.value (of_nat 0) ≡ false

  pub ListedIn : List (Entry Number) → DiskUse num is_decimal → Type 0
  ListedIn [] d = ⊥
  ListedIn (e ∷ es) d = IsUseOf e d ⊎ ListedIn es d

  abbrev pub Other : Text → DiskUse num is_decimal → Type 0
  Other m d = (d.mount == m) ≡ false

  -- no two disks have a mount point in common
  pub AllDifferent : List (DiskUse num is_decimal) → Type 0
  AllDifferent [] = Unit
  AllDifferent (d ∷ ds) = All (Other d.mount) ds × AllDifferent ds

  pub IsSorted : List (DiskUse num is_decimal) → Type 0
  IsSorted [] = Unit
  IsSorted (d ∷ ds) = All (λ x. disk_le num is_decimal d x ≡ true) ds × IsSorted ds

  disk_le_total :
      (a b : DiskUse num is_decimal)
      → disk_le num is_decimal a b ≡ false
      → disk_le num is_decimal b a ≡ true
  unfolding disk_le
  disk_le_total a b h = ground (arith, text_le_total a.mount b.mount)

  disk_le_trans :
      (a b c : DiskUse num is_decimal)
      → disk_le num is_decimal a b ≡ true
      → disk_le num is_decimal b c ≡ true
      → disk_le num is_decimal a c ≡ true
  unfolding disk_le
  disk_le_trans a b c h k = ground (arith, text_le_trans a.mount b.mount c.mount)

  insert_disk-All :
      (P : DiskUse num is_decimal → Type 0) (d : DiskUse num is_decimal)
      (xs : List (DiskUse num is_decimal))
      → P d
      → All P xs
      → All P (insert_disk num is_decimal d xs)
  unfolding insert_disk
  insert_disk-All P d [] h hs = (h, tt)
  insert_disk-All P d (x ∷ xs) h hs =
      if_elim (All P) (disk_le num is_decimal d x) _ _ (λ _. (h, (hs.0, hs.1)))
        (λ _. (hs.0, insert_disk-All P d xs h hs.1))

  insert_disk-IsSorted :
      (d : DiskUse num is_decimal) (xs : List (DiskUse num is_decimal))
      → IsSorted xs
      → IsSorted (insert_disk num is_decimal d xs)
  unfolding insert_disk IsSorted
  insert_disk-IsSorted d [] h = (tt, tt)
  insert_disk-IsSorted d (x ∷ xs) h =
      if_elim IsSorted (disk_le num is_decimal d x) _ _
        (λ t. ((t, All-mono _ _ xs (λ y k. disk_le_trans d x y t k) h.0), (h.0, h.1)))
        (λ t. (insert_disk-All _ d xs (disk_le_total d x t) h.0, insert_disk-IsSorted d xs h.1))

  insert_disk-AllDifferent :
      (d : DiskUse num is_decimal) (xs : List (DiskUse num is_decimal))
      → All (Other d.mount) xs
      → AllDifferent xs
      → AllDifferent (insert_disk num is_decimal d xs)
  unfolding insert_disk AllDifferent
  insert_disk-AllDifferent d [] o h = (tt, tt)
  insert_disk-AllDifferent d (x ∷ xs) o h =
      if_elim AllDifferent (disk_le num is_decimal d x) _ _ (λ _. (o, h))
        (λ _. (
          insert_disk-All (Other x.mount) d xs
              (ground (arith, text_same_iff d.mount x.mount, text_same_iff x.mount d.mount)) h.0,
          insert_disk-AllDifferent d xs o.1 h.1,
        ))

  sort_disks-All :
      (P : DiskUse num is_decimal → Type 0) (xs : List (DiskUse num is_decimal))
      → All P xs
      → All P (sort_disks num is_decimal xs)
  unfolding sort_disks
  sort_disks-All P [] h = tt
  sort_disks-All P (x ∷ xs) h = insert_disk-All P x _ h.0 (sort_disks-All P xs h.1)

  sort_disks-IsSorted :
      (xs : List (DiskUse num is_decimal)) → IsSorted (sort_disks num is_decimal xs)
  unfolding sort_disks IsSorted
  sort_disks-IsSorted [] = tt
  sort_disks-IsSorted (x ∷ xs) = insert_disk-IsSorted x _ (sort_disks-IsSorted xs)

  sort_disks-AllDifferent :
      (xs : List (DiskUse num is_decimal))
      → AllDifferent xs
      → AllDifferent (sort_disks num is_decimal xs)
  unfolding sort_disks AllDifferent
  sort_disks-AllDifferent [] h = tt
  sort_disks-AllDifferent (x ∷ xs) h =
      insert_disk-AllDifferent x _ (sort_disks-All _ xs h.0) (sort_disks-AllDifferent xs h.1)

  -- a mount point that was seen is not listed again
  disks_from-seen :
      (avail : List (Entry Number)) (m : Text) (seen : List Text) (es : List (Entry Number))
      → any (λ s. s == m) seen ≡ true
      → All (Other m) (disks_from num is_decimal avail seen es)
  unfolding disks_from disk_of
  disks_from-seen avail m seen [] h = tt
  disks_from-seen avail m seen (e ∷ es) h =
      let mount = label "mountpoint" e.labels in
      let device = label "device" e.labels in
      let skips =
        is_excluded_fs (label "fstype" e.labels)
        || any (λ s. s == mount) seen
        || is_loop_device is_decimal device in
      let still : any (λ s. s == m) (if skips then seen else mount ∷ seen) ≡ true = ground arith in
      let rest = disks_from-seen avail m (if skips then seen else mount ∷ seen) es still in
      if_elim (All (Other m)) (skips || le e.value (of_nat 0))
        (disks_from num is_decimal avail (if skips then seen else mount ∷ seen) es)
        (disk_of num is_decimal avail mount device e.value
          ∷ disks_from num is_decimal avail (if skips then seen else mount ∷ seen) es)
        (λ _. rest) (λ t. (differs mount m seen (ground arith) h, rest))
    where
      differs :
          (a b : Text) (seen : List Text)
          → any (λ s. s == a) seen ≡ false
          → any (λ s. s == b) seen ≡ true
          → (a == b) ≡ false
      differs a b seen h k = elim (Bool-cases (a == b)) [
        | inl t ↦
            absurd
              (ground (arith, h, k, ap (λ x. any (λ s. s == x) seen) ((text_same_iff a b).0 t)))
        | inr t ↦ t
      ]

  disks_from-AllDifferent :
      (avail : List (Entry Number)) (seen : List Text) (es : List (Entry Number))
      → AllDifferent (disks_from num is_decimal avail seen es)
  unfolding disks_from disk_of AllDifferent
  disks_from-AllDifferent avail seen [] = tt
  disks_from-AllDifferent avail seen (e ∷ es) =
      let mount = label "mountpoint" e.labels in
      let device = label "device" e.labels in
      let skips =
        is_excluded_fs (label "fstype" e.labels)
        || any (λ s. s == mount) seen
        || is_loop_device is_decimal device in
      let next = if skips then seen else mount ∷ seen in
      let rest = disks_from-AllDifferent avail next es in
      if_elim AllDifferent (skips || le e.value (of_nat 0))
        (disks_from num is_decimal avail next es)
        (disk_of num is_decimal avail mount device e.value
          ∷ disks_from num is_decimal avail next es)
        (λ _. rest)
        (λ t. (disks_from-seen avail mount next es (ground (arith, ==_refl mount)), rest))

  disks_from-ListedIn :
      (avail : List (Entry Number)) (seen : List Text) (es : List (Entry Number))
      → All (ListedIn es) (disks_from num is_decimal avail seen es)
  unfolding disks_from disk_of ListedIn
  disks_from-ListedIn avail seen [] = tt
  disks_from-ListedIn avail seen (e ∷ es) =
      let mount = label "mountpoint" e.labels in
      let device = label "device" e.labels in
      let skips =
        is_excluded_fs (label "fstype" e.labels)
        || any (λ s. s == mount) seen
        || is_loop_device is_decimal device in
      let next = if skips then seen else mount ∷ seen in
      let later : All (ListedIn (e ∷ es)) (disks_from num is_decimal avail next es) =
        All-mono (ListedIn es) (ListedIn (e ∷ es)) _ (λ d h. inr h)
          (disks_from-ListedIn avail next es) in
      if_elim (All (ListedIn (e ∷ es))) (skips || le e.value (of_nat 0))
        (disks_from num is_decimal avail next es)
        (disk_of num is_decimal avail mount device e.value
          ∷ disks_from num is_decimal avail next es)
        (λ _. later)
        (λ t. (
          inl (record {
            mount = refl;
            device = refl;
            real_fs = ground arith;
            no_loop = ground arith;
            not_empty = ground arith;
          }),
          later,
        ))

  -- Every disk that is listed stands for a size entry with its mount point and device, of a size
  -- that does not compare as at most 0, whose file system is not excluded and whose device is no
  -- loop device; no two have a mount point in common; and they are in order, the root first and the
  -- others by the code points of the mount point.
  pub disks-IsListed :
      (m : Metrics Number)
      → All (ListedIn (entries (codes "node_filesystem_size_bytes") m)) (disks num is_decimal m)
        × AllDifferent (disks num is_decimal m)
        × IsSorted (disks num is_decimal m)
  unfolding disks
  disks-IsListed m =
      let avail = entries (codes "node_filesystem_avail_bytes") m in
      let sizes = entries (codes "node_filesystem_size_bytes") m in
      let shown = disks_from num is_decimal avail [] sizes in
      (
        sort_disks-All _ shown (disks_from-ListedIn avail [] sizes),
        sort_disks-AllDifferent shown (disks_from-AllDifferent avail [] sizes),
        sort_disks-IsSorted shown,
      )
